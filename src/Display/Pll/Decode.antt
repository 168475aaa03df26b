-- ===== src/Display/Pll/Decode.antt =====
-- The dividers that `CalculatePll` stores in a mode, read back.
use r200_p96_driver.Base.{
  ℕ, ◌+◌, ◌*◌, ◌/◌, ◌^◌, ◌≤◌, ◌<◌, ◌≡◌, refl, inl, inr, Bool, true, false, not, ◌&&◌, ◌||◌, none,
  some, List, [], ◌∷◌, ltb, leb, ◌==◌, if◌then◌else◌, bit_and, bit_or, add32, arith, Any,
  Bool-cases, Option-cases, bit_and-ones, bit_or-low_first,
}
use r200_p96_driver.Display.{Clocks, ModeInfo}
use r200_p96_driver.Display.Pll.{
  fb3_div_mask, dvi_active, dvi_max_clock_hz, post_dividers, find_divider, feedback_for, actual_hz,
  distance, finish_pll, calculate_pll, decode_pll,
}

-- A pair of the list, with the VCO in its range.
abbrev IsChoice : Clocks → ℕ → ℕ → ℕ → List (ℕ × ℕ) → Type 0
IsChoice c target_khz divisor code dividers =
    Any (λ p. (p.0 ≡ divisor) × (p.1 ≡ code)) dividers
    × (c.min_pll_khz ≤ target_khz * divisor)
    × (target_khz * divisor ≤ c.max_pll_khz)

find_divider-IsChoice :
    (c : Clocks) (target_khz : ℕ) (dividers : List (ℕ × ℕ)) {divisor code : ℕ}
    → find_divider c target_khz dividers ≡ some (divisor, code)
    → IsChoice c target_khz divisor code dividers
unfolding find_divider
find_divider-IsChoice c t [] h = absurd (cc)
find_divider-IsChoice c t ((d, k) ∷ rest) {divisor} {code} h =
    elim (Bool-cases
      (not (ltb (0xffffffff / d) t) && leb c.min_pll_khz (t * d) && leb (t * d) c.max_pll_khz)) [
        | inl e ↦ let h' = (rw (e, find_divider) at h) in ground (arith, h', e)
        | inr e ↦
            let h' = (rw (e, find_divider) at h) in
            let ih = find_divider-IsChoice c t rest h' in (inr ih.0, ih.1, ih.2)
      ]

-- What `CalculatePll` promises of the mode it stores: the dividers read back, the VCO they stand for
-- is in the range of the PLL, and the stored clock is the one they give.
pub record IsClocked (c : Clocks) (requested : ℕ) (nearest : Bool) (mode : ModeInfo) : Type 0 where
  pub feedback : ℕ
  pub divisor : ℕ
  pub code : ℕ
  pub decoded : decode_pll mode ≡ some (feedback, code)
  pub listed : Any (λ p. (p.0 ≡ divisor) × (p.1 ≡ code)) post_dividers
  pub vco_low : c.min_pll_khz ≤ add32 requested 500 / 1000 * divisor
  pub vco_high : add32 requested 500 / 1000 * divisor ≤ c.max_pll_khz
  pub exact : mode.pixel_clock ≡ actual_hz c feedback divisor
  pub close : nearest ≡ false → distance mode.pixel_clock requested * 200 ≤ requested
  pub dvi_bound : dvi_active c ≡ true → mode.pixel_clock ≤ dvi_max_clock_hz

small_code :
    (code : ℕ) {divisor : ℕ} → Any (λ p. (p.0 ≡ divisor) × (p.1 ≡ code)) post_dividers → code < 8
small_code code h = ground arith

-- The dividers pass through the fields of `struct ModeInfo` unchanged.
decode_stored :
    (mode : ModeInfo) (feedback code clock : ℕ)
    → 1 ≤ feedback
    → feedback ≤ fb3_div_mask
    → code < 8
    → decode_pll (record mode {
      numerator = bit_and feedback 0xff;
      denominator = bit_or (bit_and (feedback / 2 ^ 8) 7) (bit_and code 7 * 2 ^ 3);
      pixel_clock = clock;
    })
      ≡ some (feedback, code)
unfolding decode_pll
decode_stored mode feedback code clock h g k = rw (packed_lem, unpacked, field) (ground arith)
  where
    packed : ℕ
    packed = bit_or (bit_and (feedback / 2 ^ 8) 7) (bit_and code 7 * 2 ^ 3)

    packed_lem : packed ≡ code * 8 + feedback / 256
    packed_lem = omega (
      arith,
      bit_and-ones 3 (feedback / 256),
      bit_and-ones 3 code,
      bit_or-low_first (bit_and code 7) 3 (bit_and (feedback / 256) 7),
    )

    unpacked :
        bit_or (bit_and feedback 0xff) (bit_and (code * 8 + feedback / 256) 7 * 2 ^ 8) ≡ feedback
    unpacked = omega (
      arith,
      bit_and-ones 3 (code * 8 + feedback / 256),
      bit_and-ones 8 feedback,
      bit_or-low_first (bit_and (code * 8 + feedback / 256) 7) 8 (bit_and feedback 0xff),
    )

    field : bit_and ((code * 8 + feedback / 256) / 2 ^ 3) 7 ≡ code
    field = omega (arith, bit_and-ones 3 ((code * 8 + feedback / 256) / 8))

-- What the guards of `CalculatePll` leave, on plain numbers.
guards :
    {A : Type 0} (feedback actual requested : ℕ) (nearest dvi : Bool) (x m : A)
    → (if (feedback == 0) || ltb fb3_div_mask feedback
        then none
        else if not nearest && ltb requested (distance actual requested * 200)
        then none
        else if dvi && ltb dvi_max_clock_hz actual
        then none
        else some x)
      ≡ some m
    → (1 ≤ feedback)
      × (feedback ≤ fb3_div_mask)
      × (nearest ≡ false → distance actual requested * 200 ≤ requested)
      × (dvi ≡ true → actual ≤ dvi_max_clock_hz)
      × (x ≡ m)
guards feedback actual requested nearest dvi x m h =
    (ground arith, ground arith, λ e. ground arith, λ e. ground arith, ground arith)

finish_pll-IsClocked :
    (c : Clocks) (mode m : ModeInfo) (requested : ℕ) (nearest : Bool) (divisor code : ℕ)
    → IsChoice c (add32 requested 500 / 1000) divisor code post_dividers
    → finish_pll c mode requested nearest (add32 requested 500 / 1000) divisor code ≡ some m
    → IsClocked c requested nearest m
unfolding finish_pll
finish_pll-IsClocked c mode m requested nearest divisor code choice h =
    let (positive, small, close, dvi, stored) =
      guards (feedback_for c (add32 requested 500 / 1000 * divisor))
        (actual_hz c (feedback_for c (add32 requested 500 / 1000 * divisor)) divisor) requested
        nearest (dvi_active c) _ m h in
    rw (← stored) record {
      feedback = feedback_for c (add32 requested 500 / 1000 * divisor);
      divisor = divisor;
      code = code;
      decoded = decode_stored mode _ code _ positive small (small_code code choice.0);
      listed = choice.0;
      vco_low = choice.1;
      vco_high = choice.2;
      exact = refl;
      close = close;
      dvi_bound = dvi;
    }

-- A mode that `CalculatePll` fills decodes with `DecodePll` to the feedback divider and to the
-- code of a listed post divider that brings the VCO into its range; the stored clock is the one
-- that the dividers give, within half a percent of the request unless the nearest was asked for,
-- and within the DVI limit where DVI is active.
pub calculate_pll-IsClocked :
    (c : Clocks) (mode m : ModeInfo) (requested : ℕ) (nearest : Bool)
    → calculate_pll c mode requested nearest ≡ some m
    → IsClocked c requested nearest m
unfolding calculate_pll
calculate_pll-IsClocked c mode m requested nearest h =
    elim (Bool-cases (
      (requested == 0)
      || (c.ref_clock_khz == 0)
      || ltb c.ref_divider 2
      || (dvi_active c && ltb dvi_max_clock_hz requested))) [
        | inl e ↦ absurd (cc (rw e at h))
        | inr e ↦ elim (Option-cases (find_divider c (add32 requested 500 / 1000) post_dividers)) [
          | inl f ↦ absurd (cc (rw (e, f) at h))
          | inr ((divisor, code), f) ↦
              finish_pll-IsClocked c mode m requested nearest divisor code
                (find_divider-IsChoice c _ post_dividers f) (rw (e, f) at h)
        ]
      ]
