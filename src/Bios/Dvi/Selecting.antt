-- ===== src/Bios/Dvi/Selecting.antt =====
-- The rows that the BIOS gives, as the choice of the PLL for a clock uses them.
use r200_p96_driver.Base.{
  ℕ, ◌/◌, ◌≤◌, ◌<◌, ◌≡◌, inl, inr, Bool, arith, Bool-cases, some, some-inj, List, [], ◌∷◌, All, Any,
  Any-map, ltb, add32,
}
use r200_p96_driver.Display.{TmdsPll, Clocks}
use r200_p96_driver.Display.Pll.{find_tmds_pll, select_tmds_pll}
use r200_p96_driver.Bios.{Bios}
use r200_p96_driver.Bios.Dvi.{DviInfo, load_dvi_info}
use r200_p96_driver.Bios.Dvi.Rows.{Rises, load_dvi_info-IsDvi}

-- Every limit above the clock is at least this one.
abbrev pub IsLeast : List TmdsPll → (clock_10khz limit : ℕ) → Type 0
IsLeast rows clock limit = All (λ q. clock < q.limit_10khz → limit ≤ q.limit_10khz) rows

-- A row has this value and the least limit above the clock.
abbrev pub Selects : List TmdsPll → (clock_10khz value : ℕ) → Type 0
Selects rows clock value =
    Any (λ p. (p.value ≡ value) × (clock < p.limit_10khz) × IsLeast rows clock p.limit_10khz) rows

above :
    (rows : List TmdsPll) (low clock limit : ℕ)
    → limit ≤ low
    → Rises low rows
    → IsLeast rows clock limit
above [] low clock limit h r = tt
above (p ∷ rest) low clock limit h r =
    (λ c. omega arith, above rest p.limit_10khz clock limit (omega arith) r.2)

find_tmds_pll-Selects :
    (rows : List TmdsPll) (low clock value : ℕ)
    → Rises low rows
    → find_tmds_pll rows clock ≡ some value
    → Selects rows clock value
unfolding find_tmds_pll
find_tmds_pll-Selects [] low clock value r e = absurd (cc)
find_tmds_pll-Selects (p ∷ rest) low clock value r e = elim (Bool-cases (ltb clock p.limit_10khz)) [
  | inl here ↦ inl (
    some-inj (rw here at e),
    ground arith,
    (λ c. omega arith, above rest p.limit_10khz clock p.limit_10khz (omega arith) r.2),
  )
  | inr later ↦ inr (
      Any-map rest (λ q h. (h.0, h.1, (λ c. absurd (ground (arith, later, c)), h.2)))
        (find_tmds_pll-Selects rest p.limit_10khz clock value r.2 (rw later at e)))
]

-- With the rows that `LoadDviInfo` stored, `SelectTmdsPll` gives a value only for a clock of at most
-- 165 MHz, and it is the value of the row with the least limit above the clock, rounded to 10 kHz.
pub select-loaded :
    (b : Bios) (requested allocated : Bool) (info : DviInfo) (c : Clocks) (clock value : ℕ)
    → load_dvi_info b requested allocated ≡ some info
    → c.dvi ≡ some info.pll
    → select_tmds_pll c clock ≡ some value
    → (clock ≤ 165000000) × Selects info.pll (add32 clock 5000 / 10000) value
unfolding select_tmds_pll
select-loaded b requested allocated info c clock value loaded used e =
    elim (Bool-cases (ltb 165000000 clock)) [
      | inl far ↦ absurd (cc (rw (used, far) at e))
      | inr near ↦ (
        ground arith,
        find_tmds_pll-Selects info.pll 0 (add32 clock 5000 / 10000) value
            (load_dvi_info-IsDvi b requested allocated info loaded).rises (rw (used, near) at e),
      )
    ]
