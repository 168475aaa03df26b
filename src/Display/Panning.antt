-- ===== src/Display/Panning.antt =====
-- Panning (src/radeon_mode.c: RadeonSetPanning).
pub mod Scanning
use r200_p96_driver.Base.{
  ℕ, zero, suc, ◌+◌, ◌-◌, ◌*◌, ◌/◌, ◌^◌, ◌%◌, ◌≤◌, ◌<◌, ◌≡◌, ℤ, pos, negsuc, Bool, true, false, not,
  ◌&&◌, ◌||◌, List, [], ◌∷◌, Option, none, some, ltb, leb, ◌==◌, if◌then◌else◌, bit_and, bit_or,
  sub32, arith, inl, inr, Bool-cases, Option-cases, bit_and-ones, bit_and-field,
}
use r200_p96_driver.Regs.Display.{crtc_pitch, crtc_offset}
use r200_p96_driver.Mmio.Chain.{Access, put, perform_all}
use r200_p96_driver.Display.{Board, ModeInfo, PixelFormat, clut, r5g6b5pc, b8g8r8a8, unsupported}
use r200_p96_driver.Display.Format.{get_format_info, format_matches_depth, calculate_pitch}
use r200_p96_driver.Display.Output.{apply_display_state}

-- What a panning request comes to: the start of the display in the card's memory, the row behind its
-- last one, and the CRTC's pitch.
pub record Scanout : Type 0 where
  pub actual_x : ℕ
  pub offset : ℕ
  pub last : ℕ
  pub crtc : ℕ

abbrev pub memory_limit : Board → ℕ
memory_limit b =
    if ltb b.memory.memory_size b.installed_vram then b.memory.memory_size else b.installed_vram

-- `actualX`: down to whole units of eight bytes, in 16 bits.
abbrev pub granular : ℕ → ℕ → ℕ
granular x bytes = bit_and x (2 ^ 16 - 8 / bytes)

-- The offsets that are computed, for a format of `bytes` bytes to a pixel.
abbrev pub scanout_of : Board → ModeInfo → (memory x y bytes pitch crtc : ℕ) → Scanout
scanout_of b m memory x y bytes pitch crtc =
    let start = memory - b.memory.memory_base + y * pitch + granular x bytes * bytes in
    record {
      actual_x = granular x bytes;
      offset = start;
      last = start + sub32 m.height 1 * pitch + m.width * bytes;
      crtc = crtc;
    }

-- The checks of `RadeonSetPanning`, from those on the memory on.
unfoldable pub place_scanout :
    Board → ModeInfo → (memory width x y bytes pitch crtc : ℕ) → Option Scanout
place_scanout b m memory width x y bytes pitch crtc =
    let s = scanout_of b m memory x y bytes pitch crtc in
    if (memory == 0)
      || ltb memory b.memory.memory_base
      || leb (memory_limit b) (memory - b.memory.memory_base)
      || ltb width (x + m.width)
    then none
    else if not (bit_and s.offset 7 == 0) || ltb 0x07fffff8 s.offset || ltb (memory_limit b) s.last
    then none
    else some s

-- All the checks, with the mode and the format.
unfoldable pub find_scanout : Board → (memory width x y : ℕ) → PixelFormat → Option Scanout
find_scanout b memory width x y format = if not b.mode_valid then none else elim b.mode_info [
  | none ↦ none
  | some m ↦
      if not (format_matches_depth format m.depth) then none else elim (get_format_info format) [
        | none ↦ none
        | some (bytes, pixel_width) ↦ elim (calculate_pitch width format) [
          | none ↦ none
          | some (pitch, crtc) ↦ place_scanout b m memory width x y bytes pitch crtc
        ]
      ]
]

abbrev pub scanout_accesses : Scanout → List Access
scanout_accesses s =
    put crtc_pitch (bit_or s.crtc (s.crtc * 2 ^ 16)) ∷ put crtc_offset (s.offset % 2 ^ 32) ∷ []

module _ (hw : ℕ → ℕ → ℕ) where
  -- `RadeonSetPanning` for offsets that are not negative.
  unfoldable pub pan_to : Board → (memory width x y : ℕ) → PixelFormat → Board
  pan_to b memory width x y format = elim (find_scanout b memory width x y format) [
    | none ↦ b
    | some s ↦
        let (done, bus') = perform_all hw b.bus (scanout_accesses s) in
        if done
        then record b { bus = bus'; x_offset = pos s.actual_x; y_offset = pos y }
        else apply_display_state hw (record b { bus = bus'; mode_valid = false })
  ]

  -- `RadeonSetPanning`
  abbrev pub set_panning : Board → (memory width : ℕ) (x y : ℤ) → PixelFormat → Board
  set_panning b memory width (negsuc x) y format = b
  set_panning b memory width (pos x) (negsuc y) format = b
  set_panning b memory width (pos x) (pos y) format = pan_to b memory width x y format
