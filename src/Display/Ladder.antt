-- ===== src/Display/Ladder.antt =====
-- The ladder of pixel clocks that Picasso96 is offered (src/radeon_mode.c: RadeonResolvePixelClock,
-- RadeonGetPixelClock).
use r200_p96_driver.Base.{
  ℕ, ◌+◌, ◌-◌, ◌*◌, ◌/◌, ◌^◌, ◌≤◌, ◌<◌, ◌≡◌, true, not, ◌||◌, Option, none, some, leb, ◌==◌,
  if◌then◌else◌, add32, mul32, arith, inl, inr, Bool-cases, Option-cases, sym, ◌∙◌, some-inj, ap,
}
use r200_p96_driver.Display.{Clocks, ModeInfo, PixelFormat, clut, r5g6b5pc, b8g8r8a8, unsupported}
use r200_p96_driver.Display.Format.{get_format_info, format_matches_depth}
use r200_p96_driver.Display.Pll.{
  clock_step_hz, clock_minimum, clock_maximum, clock_count, calculate_pll, distance,
}
use r200_p96_driver.Display.Timing.{validate_mode}

-- `minimum + index * RADEON_CLOCK_STEP_HZ`
abbrev pub ladder : Clocks → ℕ → ℕ
ladder c index = add32 (clock_minimum c) (mul32 index clock_step_hz)

-- The index that `RadeonResolvePixelClock` chooses.
unfoldable pub nearest_index : Clocks → ℕ → ℕ
nearest_index c clock =
    let wanted =
      if leb clock (clock_minimum c)
      then 0
      else add32 (clock - clock_minimum c) (clock_step_hz / 2) / clock_step_hz in
    if leb (clock_count c) wanted then clock_count c - 1 else wanted

-- `RadeonResolvePixelClock`: the index and the mode with its dividers, where the source returns the
-- index and stores the dividers; `none` is its -1.
unfoldable pub resolve_pixel_clock : Clocks → ModeInfo → ℕ → PixelFormat → Option (ℕ × ModeInfo)
resolve_pixel_clock c mode clock format =
    if not (format_matches_depth format mode.depth)
      || not (validate_mode mode)
      || (clock_count c == 0)
    then none
    else elim (calculate_pll c mode (ladder c (nearest_index c clock)) true) [
      | none ↦ none
      | some mode' ↦ some (nearest_index c clock, mode')
    ]

-- `RadeonGetPixelClock`
unfoldable pub get_pixel_clock : Clocks → ℕ → PixelFormat → ℕ
get_pixel_clock c index format = elim (get_format_info format) [
  | none ↦ 0
  | some info ↦ if leb (clock_count c) index then 0 else ladder c index
]

-- On plain numbers: rounding to the nearest step of a ladder, cut off at its last one, is nearest.
nearest_step :
    (minimum count clock j : ℕ)
    → 1 ≤ count
    → j < count
    → clock < 2 ^ 32
    → 250000 ≤ minimum
    → minimum + (count - 1) * 250000 < 2 ^ 31
    → let wanted = if leb clock minimum then 0 else add32 (clock - minimum) 125000 / 250000 in
      let index = if leb count wanted then count - 1 else wanted in
      (index < count)
      × (add32 minimum (mul32 index 250000) ≡ minimum + index * 250000)
      × (distance (add32 minimum (mul32 index 250000)) clock
          ≤ distance (add32 minimum (mul32 j 250000)) clock)
nearest_step minimum count clock j c h k m b = ground arith

-- The bounds of the ladder, where the synthesizer's lower limit is known and a plausible one.
minimum_bounds :
    (c : Clocks) → c.min_pll_khz ≤ 4000000 → (250000 ≤ clock_minimum c) × (clock_minimum c < 2 ^ 31)
unfolding clock_minimum
minimum_bounds c h = ground arith

maximum_bound : (c : Clocks) → clock_maximum c ≤ 230000000
unfolding clock_maximum
maximum_bound c = ground arith

ladder_top :
    (c : Clocks) → 1 ≤ clock_count c → clock_minimum c + (clock_count c - 1) * 250000 ≤ 230000000
unfolding clock_count
ladder_top c h = ground (arith, h, maximum_bound c)

get_pixel_clock-ladder :
    (c : Clocks) (index depth : ℕ) (format : PixelFormat)
    → format_matches_depth format depth ≡ true
    → index < clock_count c
    → get_pixel_clock c index format ≡ ladder c index
unfolding get_pixel_clock
get_pixel_clock-ladder c index depth clut h g = ground arith
get_pixel_clock-ladder c index depth r5g6b5pc h g = ground arith
get_pixel_clock-ladder c index depth b8g8r8a8 h g = ground arith
get_pixel_clock-ladder c index depth unsupported h g = ground arith

-- What a resolved clock is: an entry of the ladder, from which the mode's dividers were computed.
resolve_parts :
    (c : Clocks) (mode m : ModeInfo) (clock index : ℕ) (format : PixelFormat)
    → resolve_pixel_clock c mode clock format ≡ some (index, m)
    → (format_matches_depth format mode.depth ≡ true)
      × (1 ≤ clock_count c)
      × (index ≡ nearest_index c clock)
      × (calculate_pll c mode (ladder c (nearest_index c clock)) true ≡ some m)
unfolding resolve_pixel_clock
resolve_parts c mode m clock index format h =
    elim (Bool-cases (
      not (format_matches_depth format mode.depth)
      || not (validate_mode mode)
      || (clock_count c == 0))) [
        | inl e ↦ absurd (cc (rw e at h))
        | inr e ↦
            elim (Option-cases (calculate_pll c mode (ladder c (nearest_index c clock)) true)) [
              | inl f ↦ absurd (cc (rw (e, f) at h))
              | inr (m', f) ↦
                  let same = some-inj (rw (e, f) at h) in
                  (
                    ground (arith, e),
                    ground (arith, e),
                    sym (ap (λ p. p.0) same),
                    f ∙ ap (λ p. some p.1) same,
                  )
            ]
      ]

-- If `RadeonResolvePixelClock` returns an index, for a clock of 32 bits and a synthesizer whose lower
-- limit is at most 4 GHz, then the index is on the ladder, the stored dividers are those of the clock
-- that `RadeonGetPixelClock` returns for it, and no entry of the ladder is nearer to the clock.
pub resolve_pixel_clock_lem :
    (c : Clocks) (mode m : ModeInfo) (clock index j : ℕ) (format : PixelFormat)
    → c.min_pll_khz ≤ 4000000
    → clock < 2 ^ 32
    → j < clock_count c
    → resolve_pixel_clock c mode clock format ≡ some (index, m)
    → (index < clock_count c)
      × (calculate_pll c mode (get_pixel_clock c index format) true ≡ some m)
      × (distance (get_pixel_clock c index format) clock
          ≤ distance (get_pixel_clock c j format) clock)
unfolding nearest_index
resolve_pixel_clock_lem c mode m clock index j format low w k h =
    let (matches, some_clock, chosen, made) = resolve_parts c mode m clock index format h in
    let (least, small) = minimum_bounds c low in
    let (inside, exact, nearest) =
      nearest_step (clock_minimum c) (clock_count c) clock j some_clock k w least
        (omega (arith, ladder_top c some_clock)) in
    rw
      (
        chosen,
        get_pixel_clock-ladder c (nearest_index c clock) mode.depth format matches inside,
        get_pixel_clock-ladder c j mode.depth format matches k,
      )
      (inside, made, nearest)
