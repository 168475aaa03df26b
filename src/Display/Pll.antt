-- ===== src/Display/Pll.antt =====
-- The pixel clock (src/radeon_mode.c: DviActive, SelectTmdsPll, RadeonClockMinimum, RadeonClockMaximum,
-- RadeonClockCount, CalculatePll, DecodePll, RadeonGetPixelClock). A clock in Hz is a `ULONG`; the
-- sums that the source makes in 64 bits stay below 2 ^ 64.
pub mod Decode
use r200_p96_driver.Base.{
  ℕ, ◌+◌, ◌-◌, ◌*◌, ◌/◌, ◌^◌, ◌%◌, Bool, true, false, not, ◌&&◌, ◌||◌, Option, none, some, List, [],
  ◌∷◌, ltb, leb, ◌==◌, if◌then◌else◌, bit_and, bit_or, add32, sub32, mul32,
}
use r200_p96_driver.Display.{Clocks, TmdsPll, ModeInfo}

abbrev pub dvi_max_clock_hz : ℕ
dvi_max_clock_hz = 165000000

abbrev pub vga_max_clock_hz : ℕ
vga_max_clock_hz = 230000000

abbrev pub clock_step_hz : ℕ
clock_step_hz = 250000

abbrev pub dvi_clock_ladder_max_hz : ℕ
dvi_clock_ladder_max_hz = 164750000

abbrev pub fb3_div_mask : ℕ
fb3_div_mask = 0x7ff

abbrev pub dvi_active : Clocks → Bool
dvi_active c = elim c.dvi [ none ↦ false | some plls ↦ true ]

-- The loop of `SelectTmdsPll`.
unfoldable pub find_tmds_pll : List TmdsPll → ℕ → Option ℕ
find_tmds_pll [] clock_10khz = none
find_tmds_pll (p ∷ rest) clock_10khz =
    if ltb clock_10khz p.limit_10khz then some p.value else find_tmds_pll rest clock_10khz

unfoldable pub select_tmds_pll : Clocks → ℕ → Option ℕ
unfolding find_tmds_pll
select_tmds_pll c clock = elim c.dvi [
  | none ↦ none
  | some plls ↦
      if ltb dvi_max_clock_hz clock then none else find_tmds_pll plls (add32 clock 5000 / 10000)
]

unfoldable pub clock_minimum : Clocks → ℕ
clock_minimum c =
    let minimum =
      if c.min_pll_khz == 0 then 12000000 else add32 (mul32 c.min_pll_khz 1000) 15 / 16 in
    mul32 (sub32 (add32 minimum clock_step_hz) 1 / clock_step_hz) clock_step_hz

unfoldable pub clock_maximum : Clocks → ℕ
clock_maximum c =
    let limit =
      if not (c.max_pll_khz == 0) && ltb (mul32 c.max_pll_khz 1000) vga_max_clock_hz
      then mul32 c.max_pll_khz 1000
      else vga_max_clock_hz in
    if dvi_active c && ltb dvi_clock_ladder_max_hz limit then dvi_clock_ladder_max_hz else limit

unfoldable pub clock_count : Clocks → ℕ
unfolding clock_minimum clock_maximum
clock_count c =
    if leb (clock_minimum c) (clock_maximum c)
    then (clock_maximum c - clock_minimum c) / clock_step_hz + 1
    else 0

-- `divisors` and `codes`, together.
abbrev pub post_dividers : List (ℕ × ℕ)
post_dividers = (16, 5) ∷ (12, 7) ∷ (8, 3) ∷ (6, 6) ∷ (4, 2) ∷ (3, 4) ∷ (2, 1) ∷ (1, 0) ∷ []

-- The loop of `CalculatePll`: the first divisor that brings the VCO into its range.
unfoldable pub find_divider : Clocks → ℕ → List (ℕ × ℕ) → Option (ℕ × ℕ)
find_divider c target_khz [] = none
find_divider c target_khz ((divisor, code) ∷ rest) =
    if not (ltb (0xffffffff / divisor) target_khz)
      && leb c.min_pll_khz (target_khz * divisor)
      && leb (target_khz * divisor) c.max_pll_khz
    then some (divisor, code)
    else find_divider c target_khz rest

-- The feedback divider for a VCO frequency.
abbrev pub feedback_for : Clocks → ℕ → ℕ
feedback_for c vco = (c.ref_divider * vco + c.ref_clock_khz / 2) / c.ref_clock_khz % 2 ^ 32

-- The clock in Hz that the dividers give, rounded.
abbrev pub actual_hz : Clocks → ℕ → ℕ → ℕ
actual_hz c feedback divisor =
    let denominator = c.ref_divider * divisor in
    (c.ref_clock_khz * 1000 * feedback + denominator / 2) / denominator % 2 ^ 32

-- `difference`
abbrev pub distance : ℕ → ℕ → ℕ
distance a b = if ltb b a then a - b else b - a

-- `CalculatePll` behind the choice of the divisor.
unfoldable pub finish_pll : Clocks → ModeInfo → ℕ → Bool → ℕ → ℕ → ℕ → Option ModeInfo
finish_pll c mode requested nearest target_khz divisor code =
    let feedback = feedback_for c (target_khz * divisor) in
    let actual = actual_hz c feedback divisor in
    if (feedback == 0) || ltb fb3_div_mask feedback
    then none
    else if not nearest && ltb requested (distance actual requested * 200)
    then none
    else if dvi_active c && ltb dvi_max_clock_hz actual
    then none
    else some (record mode {
      numerator = bit_and feedback 0xff;
      denominator = bit_or (bit_and (feedback / 2 ^ 8) 7) (bit_and code 7 * 2 ^ 3);
      pixel_clock = actual;
    })

-- `CalculatePll`: the mode with its dividers and the clock they give.
unfoldable pub calculate_pll : Clocks → ModeInfo → ℕ → Bool → Option ModeInfo
calculate_pll c mode requested nearest =
    if (requested == 0)
      || (c.ref_clock_khz == 0)
      || ltb c.ref_divider 2
      || (dvi_active c && ltb dvi_max_clock_hz requested)
    then none
    else let target_khz = add32 requested 500 / 1000 in
      elim (find_divider c target_khz post_dividers) [
        | none ↦ none
        | some (divisor, code) ↦ finish_pll c mode requested nearest target_khz divisor code
      ]

-- `DecodePll`: the feedback divider and the code of the post divider.
unfoldable pub decode_pll : ModeInfo → Option (ℕ × ℕ)
decode_pll mode =
    let feedback = bit_or mode.numerator (bit_and mode.denominator 7 * 2 ^ 8) in
    let code = bit_and (mode.denominator / 2 ^ 3) 7 in
    if (feedback == 0) || ltb fb3_div_mask feedback then none else some (feedback, code)
