-- ===== src/Display/Panning/Scanning.antt =====
-- What the CRTC scans out after a panning request that is accepted.
use native.Mathlib.Nat.{mul-le-mul_right}
use mathlib.Core.Path.{subst}
use r200_p96_driver.Base.{
  ℕ, ◌+◌, ◌-◌, ◌*◌, ◌^◌, ◌%◌, ◌≤◌, ◌<◌, ◌≡◌, not, ◌||◌, some, ltb, leb, ◌==◌, bit_and, sub32, arith,
  inl, inr, Bool-cases, Option-cases, bit_and-ones, bit_and-field, some-inj, refl, sym, ap,
}
use r200_p96_driver.Display.{Board, ModeInfo, PixelFormat, clut, r5g6b5pc, b8g8r8a8, unsupported}
use r200_p96_driver.Display.Timing.{validate_mode}
use r200_p96_driver.Display.Callbacks.Invariant.{IsTimed}
use r200_p96_driver.Display.Format.{get_format_info, format_matches_depth, calculate_pitch}
use r200_p96_driver.Display.Panning.{
  Scanout, memory_limit, granular, scanout_of, place_scanout, find_scanout,
}

-- The checks on the memory, on plain numbers.
record IsPlaced (b : Board) (m : ModeInfo) (memory width x : ℕ) (s : Scanout) : Type 0 where
  based : b.memory.memory_base ≤ memory
  across : x + m.width ≤ width
  aligned : s.offset % 8 ≡ 0
  addressed : s.offset < 2 ^ 27
  visible : s.last ≤ b.memory.memory_size
  installed : s.last ≤ b.installed_vram

place_scanout-IsPlaced :
    (b : Board) (m : ModeInfo) (memory width x y bytes pitch crtc : ℕ) (s : Scanout)
    → place_scanout b m memory width x y bytes pitch crtc ≡ some s
    → (s ≡ scanout_of b m memory x y bytes pitch crtc) × IsPlaced b m memory width x s
unfolding place_scanout
place_scanout-IsPlaced b m memory width x y bytes pitch crtc s h =
    let t = scanout_of b m memory x y bytes pitch crtc in
    let outside =
      (memory == 0)
      || ltb memory b.memory.memory_base
      || leb (memory_limit b) (memory - b.memory.memory_base)
      || ltb width (x + m.width) in
    let misplaced =
      not (bit_and t.offset 7 == 0) || ltb 0x07fffff8 t.offset || ltb (memory_limit b) t.last in
    elim (Bool-cases outside) [
      | inl e ↦ absurd (cc (rw e at h))
      | inr e ↦ elim (Bool-cases misplaced) [
        | inl f ↦ absurd (cc (rw (e, f) at h))
        | inr f ↦
            let same : s ≡ t = sym (some-inj (rw (e, f) at h)) in
            (
              same,
              subst (IsPlaced b m memory width x) (sym same) record {
                based = ground (arith, e);
                across = ground (arith, e);
                aligned = ground (arith, f, bit_and-ones 3 t.offset);
                addressed = ground (arith, f);
                visible = ground (arith, f);
                installed = ground (arith, f);
              },
            )
      ]
    ]

-- The parts of a request that is accepted, on a board that holds a mode.
find_scanout-parts :
    (b : Board) (m : ModeInfo) (memory width x y : ℕ) (format : PixelFormat) (s : Scanout)
    → b.mode_info ≡ some m
    → find_scanout b memory width x y format ≡ some s
    → (info : ℕ × ℕ) × (get_format_info format ≡ some info)
      × (pitches : ℕ × ℕ) × (calculate_pitch width format ≡ some pitches)
      × (place_scanout b m memory width x y info.0 pitches.0 pitches.1 ≡ some s)
unfolding find_scanout
find_scanout-parts b m memory width x y format s timed h = elim (Bool-cases (not b.mode_valid)) [
  | inl e ↦ absurd (cc (rw (e, find_scanout) at h))
  | inr e ↦ elim (Bool-cases (not (format_matches_depth format m.depth))) [
    | inl f ↦ absurd (cc (rw (e, timed, f, find_scanout) at h))
    | inr f ↦ elim (Option-cases (get_format_info format)) [
      | inl g ↦ absurd (cc (rw (e, timed, f, g, find_scanout) at h))
      | inr (info, g) ↦ elim (Option-cases (calculate_pitch width format)) [
        | inl k ↦ absurd (cc (rw (e, timed, f, g, k, find_scanout) at h))
        | inr (pitches, k) ↦ (info, g, pitches, k, rw (e, timed, f, g, k, find_scanout) at h)
      ]
    ]
  ]
]

granular_bounds :
    (format : PixelFormat) (x bytes pixel_width : ℕ)
    → x < 2 ^ 15
    → get_format_info format ≡ some (bytes, pixel_width)
    → (granular x bytes ≤ x) × (x < granular x bytes + 8)
granular_bounds clut x bytes pixel_width k h =
    let same : 1 ≡ bytes = ap (λ p. p.0) (some-inj h) in
    rw (sym same) (omega (arith, bit_and-field 13 3 x))
granular_bounds r5g6b5pc x bytes pixel_width k h =
    let same : 2 ≡ bytes = ap (λ p. p.0) (some-inj h) in
    rw (sym same) (omega (arith, bit_and-field 14 2 x))
granular_bounds b8g8r8a8 x bytes pixel_width k h =
    let same : 4 ≡ bytes = ap (λ p. p.0) (some-inj h) in
    rw (sym same) (omega (arith, bit_and-field 15 1 x))
granular_bounds unsupported x bytes pixel_width k h = absurd (cc)

-- The scanout of an accepted request: its start, in units of eight bytes that the card can address,
-- at most seven pixels left of the one asked for, and the row `i` of the display in the visible
-- memory and in the installed one.
pub record IsScanned (b : Board) (m : ModeInfo) (memory x y bytes pitch i : ℕ) (s : Scanout)
    : Type 0 where
  pub start : s.offset ≡ memory - b.memory.memory_base + y * pitch + s.actual_x * bytes
  pub left : (s.actual_x ≤ x) × (x < s.actual_x + 8)
  pub aligned : s.offset % 8 ≡ 0
  pub addressed : s.offset < 2 ^ 27
  pub visible : s.offset + i * pitch + m.width * bytes ≤ b.memory.memory_size
  pub installed : s.offset + i * pitch + m.width * bytes ≤ b.installed_vram

-- If `RadeonSetPanning` accepts a request, on a board that holds a validated mode and for a `WORD` as
-- the horizontal offset, then the CRTC's start lies where the request asks for, up to the units of
-- eight bytes, and no row of the display reaches out of the visible or the installed memory.
pub find_scanout-IsScanned :
    (b : Board) (m : ModeInfo) (memory width x y i : ℕ) (format : PixelFormat) (s : Scanout)
    → IsTimed b m
    → x < 2 ^ 15
    → i < m.height
    → find_scanout b memory width x y format ≡ some s
    → (bytes : ℕ) × (pixel_width : ℕ) × (get_format_info format ≡ some (bytes, pixel_width))
      × (pitch : ℕ) × (crtc : ℕ) × (calculate_pitch width format ≡ some (pitch, crtc))
      × IsScanned b m memory x y bytes pitch i s
unfolding validate_mode
find_scanout-IsScanned b m memory width x y i format s t k r h =
    let ((bytes, pixel_width), g, (pitch, crtc), c, placed) =
      find_scanout-parts b m memory width x y format s t.current h in
    let (same, p) = place_scanout-IsPlaced b m memory width x y bytes pitch crtc s placed in
    let tall : (1 ≤ m.height) × (m.height ≤ 2048) = ground (arith, t.valid) in
    let less : sub32 m.height 1 ≡ m.height - 1 = omega (arith, tall) in
    let rows : i * pitch ≤ (m.height - 1) * pitch = mul-le-mul_right pitch (omega (arith, r)) in
    let last : s.last ≡ s.offset + (m.height - 1) * pitch + m.width * bytes =
      rw (same, less) refl in
    (
      bytes,
      pixel_width,
      g,
      pitch,
      crtc,
      c,
      record {
        start = rw same refl;
        left = rw same (granular_bounds format x bytes pixel_width k g);
        aligned = p.aligned;
        addressed = p.addressed;
        visible = omega (arith, p.visible, rows, last);
        installed = omega (arith, p.installed, rows, last);
      },
    )
