-- ===== src/Bios/Dvi/Rows.antt =====
-- The rows for the TMDS PLL, and what is selected from them.
use r200_p96_driver.Base.{
  ℕ, zero, suc, ◌+◌, ◌/◌, ◌^◌, ◌%◌, ◌≤◌, ◌<◌, ◌≡◌, ◌≢◌, inl, inr, refl, Bool, true, false, arith,
  Bool-cases, some-inj, if◌then◌else◌, ◌||◌, ◌⊎◌, Option, none, some, List, [], ◌∷◌, length,
  bit_and, ltb, ◌==◌,
}
use r200_p96_driver.Display.{TmdsPll}
use r200_p96_driver.Bios.{Bios, bios8, bios16}
use r200_p96_driver.Bios.Header.{table_offset, combios_connector_info, combios_dfp_info}
use r200_p96_driver.Bios.Dvi.{
  DviInfo, find_connector, pll_rows, dvi_info, load_rows, load_found, load_dvi_info,
}

-- Limits that rise from `previous` on, with values that are not zero.
abbrev pub Rises : ℕ → List TmdsPll → Type 0
Rises previous [] = Unit
Rises previous (p ∷ rest) = (previous < p.limit_10khz) × (1 ≤ p.value) × Rises p.limit_10khz rest

pll_rows-Rises :
    (b : Bios) (revision row previous : ℕ) (first : Bool) (rounds : ℕ)
    → Rises previous (pll_rows b revision row previous first rounds)
      × (length (pll_rows b revision row previous first rounds) ≤ rounds)
unfolding pll_rows
pll_rows-Rises b revision row previous first zero = omega arith
pll_rows-Rises b revision row previous first (suc rounds) = ground (
  arith,
  pll_rows-Rises b revision ((row + (if (revision == 3) || first then 10 else 6)) % 2 ^ 16)
      (bios16 b (row + 0x10)) false rounds,
)

-- What `LoadDviInfo` leaves: a connector for DVI, and one to four rows in the order of their limits.
pub record IsDvi (info : DviInfo) : Type 0 where
  pub connector : (info.connector_type ≡ 3) ⊎ (info.connector_type ≡ 4)
  pub rises : Rises 0 info.pll
  pub count : (1 ≤ length info.pll) × (length info.pll ≤ 4)

find_connector-type :
    (b : Bios) (entry rounds type ddc : ℕ)
    → find_connector b entry rounds ≡ some (type, ddc)
    → type ≢ 0
    → (type ≡ 3) ⊎ (type ≡ 4)
unfolding find_connector
find_connector-type b entry zero type ddc e n = absurd (ground arith)
find_connector-type b entry (suc rounds) type ddc e n =
    let type_here = bit_and (bios16 b entry / 2 ^ 12) 0x0f in
    elim (Bool-cases (type_here == 3)) [
      | inl three ↦ inl (ground arith)
      | inr not_three ↦ elim (Bool-cases (type_here == 4)) [
        | inl four ↦ inr (ground arith)
        | inr not_four ↦
            let rest : find_connector b (entry + 2) rounds ≡ some (type, ddc) = ground arith in
            find_connector-type b (entry + 2) rounds type ddc rest n
      ]
    ]

dvi_info-IsDvi :
    (rows : List TmdsPll) (type ddc : ℕ) (info : DviInfo)
    → (type ≡ 3) ⊎ (type ≡ 4)
    → Rises 0 rows
    → length rows ≤ 4
    → dvi_info rows (type, ddc) ≡ some info
    → IsDvi info
dvi_info-IsDvi [] type ddc info h r l e = absurd (cc)
dvi_info-IsDvi (p ∷ rest) type ddc info h r l e =
    rw (← some-inj e) record { connector = h; rises = r; count = omega arith }

load_rows-IsDvi :
    (b : Bios) (dfp : ℕ) (allocated : Bool) (type ddc : ℕ) (info : DviInfo)
    → (type ≢ 0 → (type ≡ 3) ⊎ (type ≡ 4))
    → load_rows b dfp allocated (type, ddc) ≡ some info
    → IsDvi info
unfolding load_rows
load_rows-IsDvi b dfp allocated type ddc info h e =
    let count = (bios8 b (dfp + 5) + 1) % 2 ^ 8 in
    let rounds = if ltb 4 count then 4 else count in
    let rows = pll_rows b (bios8 b dfp) dfp 0 true rounds in
    let made : dvi_info rows (type, ddc) ≡ some info = ground arith in
    let known : type ≢ 0 = ground arith in
    let rising = pll_rows-Rises b (bios8 b dfp) dfp 0 true rounds in
    dvi_info-IsDvi rows type ddc info (h known) rising.0 (ground (arith, rising.1)) made

load_found-IsDvi :
    (b : Bios) (dfp : ℕ) (allocated : Bool) (info : DviInfo) (entry rounds : ℕ)
    (found : Option (ℕ × ℕ))
    → find_connector b entry rounds ≡ found
    → load_found b dfp allocated found ≡ some info
    → IsDvi info
load_found-IsDvi b dfp allocated info entry rounds none f e = absurd (cc)
load_found-IsDvi b dfp allocated info entry rounds (some (type, ddc)) f e =
    load_rows-IsDvi b dfp allocated type ddc info (find_connector-type b entry rounds type ddc f) e

-- What `LoadDviInfo` stores is for a connector of type 3 or 4 and has one to four rows, with limits
-- that rise strictly from above zero and values that are not zero.
pub load_dvi_info-IsDvi :
    (b : Bios) (requested allocated : Bool) (info : DviInfo)
    → load_dvi_info b requested allocated ≡ some info
    → IsDvi info
unfolding load_dvi_info
load_dvi_info-IsDvi b requested allocated info e =
    let entry = table_offset b combios_connector_info + 2 in
    let dfp = table_offset b combios_dfp_info in
    let found : load_found b dfp allocated (find_connector b entry 4) ≡ some info = ground arith in
    load_found-IsDvi b dfp allocated info entry 4 (find_connector b entry 4) refl found
