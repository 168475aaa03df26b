-- ===== src/Display/Format.antt =====
-- Pixel formats and pitches (src/radeon_mode.c: GetFormatInfo, GetDepthPixelWidth,
-- FormatMatchesDepth, CalculatePitch and the callbacks that answer from them).
use r200_p96_driver.Base.{
  ℕ, ◌+◌, ◌*◌, ◌/◌, ◌%◌, ◌^◌, ◌≤◌, ◌<◌, ◌≡◌, Bool, false, not, ◌||◌, Option, none, some, ltb, ◌==◌,
  if◌then◌else◌, bit_and, not32, arith, bit_and-ones, bit_and-field,
}
use r200_p96_driver.Regs.Display.{crtc_pix_width_8bpp, crtc_pix_width_16bpp, crtc_pix_width_32bpp}
use r200_p96_driver.Display.{PixelFormat, clut, r5g6b5pc, b8g8r8a8, unsupported}

-- `GetFormatInfo`: the bytes of a pixel and the CRTC's pixel width.
abbrev pub get_format_info : PixelFormat → Option (ℕ × ℕ)
get_format_info clut = some (1, crtc_pix_width_8bpp)
get_format_info r5g6b5pc = some (2, crtc_pix_width_16bpp)
get_format_info b8g8r8a8 = some (4, crtc_pix_width_32bpp)
get_format_info unsupported = none

abbrev pub get_depth_pixel_width : ℕ → Option ℕ
get_depth_pixel_width depth =
    if depth == 8
    then some crtc_pix_width_8bpp
    else if (depth == 15) || (depth == 16)
    then some crtc_pix_width_16bpp
    else if depth == 32
    then some crtc_pix_width_32bpp
    else none

abbrev pub format_matches_depth : PixelFormat → ℕ → Bool
format_matches_depth clut depth = depth == 8
format_matches_depth r5g6b5pc depth = (depth == 15) || (depth == 16)
format_matches_depth b8g8r8a8 depth = depth == 32
format_matches_depth unsupported depth = false

-- The body of `CalculatePitch` for a format with that many bytes to a pixel.
unfoldable pub pitch_of : ℕ → ℕ → Option (ℕ × ℕ)
pitch_of width bytes =
    let pitch = bit_and (width * bytes + 63) (not32 63) in
    let pixels = pitch / bytes in
    if (pitch == 0) || ltb 65535 pitch || not (bit_and pixels 7 == 0)
    then none
    else some (pitch, pixels / 8)

-- `CalculatePitch`: the bytes of a row and the CRTC's pitch.
unfoldable pub calculate_pitch : ℕ → PixelFormat → Option (ℕ × ℕ)
calculate_pitch width format =
    if (width == 0) || ltb 4096 width then none else elim (get_format_info format) [
      | none ↦ none
      | some (bytes, pixel_width) ↦ pitch_of width bytes
    ]

-- `RadeonCalculateBytesPerRow`
pub calculate_bytes_per_row : ℕ → PixelFormat → ℕ
unfolding calculate_pitch
calculate_bytes_per_row width format = elim (calculate_pitch width format) [
  | none ↦ 0
  | some (pitch, crtc) ↦ pitch % 2 ^ 16
]

-- `RadeonCalculateMemory`
abbrev pub calculate_memory : ℕ → PixelFormat → ℕ
calculate_memory memory format = elim (get_format_info format) [ none ↦ 0 | some info ↦ memory ]

-- `RadeonGetCompatibleFormats`, with the set of the scanout formats given by its flags.
abbrev pub get_compatible_formats : ℕ → PixelFormat → ℕ
get_compatible_formats scanout_formats format = elim (get_format_info format) [
  | none ↦ 0
  | some info ↦ scanout_formats
]

-- `~63`: the remainder by 64 is taken off.
pub round_down-64 : (a : ℕ) → a + 64 ≤ 2 ^ 32 → bit_and a (not32 63) ≡ a / 64 * 64
round_down-64 a h = omega (arith, bit_and-field 26 6 a)

-- A pitch holds the pixels of the row in whole units of 64 bytes, less than one unit over, and the
-- CRTC's pitch is the row in units of eight pixels.
pub record IsPitch (width bytes pitch crtc : ℕ) : Type 0 where
  pub holds : width * bytes ≤ pitch
  pub tight : pitch < width * bytes + 64
  pub whole : pitch % 64 ≡ 0
  pub units : crtc * 8 * bytes ≡ pitch

module _ (width : ℕ) (positive : 1 ≤ width) (bounded : width ≤ 4096) where
  pitch_of-1 : (let p = (width + 63) / 64 * 64 in pitch_of width 1 ≡ some (p, p / 8))
  unfolding pitch_of
  pitch_of-1 =
      rw (round_down-64 (width * 1 + 63) (omega arith))
        (ground (arith, bit_and-ones 3 ((width + 63) / 64 * 64)))

  pitch_of-2 : (let p = (width * 2 + 63) / 64 * 64 in pitch_of width 2 ≡ some (p, p / 16))
  unfolding pitch_of
  pitch_of-2 =
      rw (round_down-64 (width * 2 + 63) (omega arith))
        (ground (arith, bit_and-ones 3 ((width * 2 + 63) / 64 * 64 / 2)))

  pitch_of-4 : (let p = (width * 4 + 63) / 64 * 64 in pitch_of width 4 ≡ some (p, p / 32))
  unfolding pitch_of
  pitch_of-4 =
      rw (round_down-64 (width * 4 + 63) (omega arith))
        (ground (arith, bit_and-ones 3 ((width * 4 + 63) / 64 * 64 / 4)))

-- What a pitch of a format has to be: for a format that is not scanned out there is none.
abbrev pub IsPitchOf : ℕ → Option (ℕ × ℕ) → Option (ℕ × ℕ) → Type 0
IsPitchOf width none result = result ≡ none
IsPitchOf width (some (bytes, pixel_width)) result =
    (pitch : ℕ) × (crtc : ℕ) × (result ≡ some (pitch, crtc)) × IsPitch width bytes pitch crtc

-- `CalculatePitch` finds a pitch for every width from 1 to 4096 in every format that is scanned out,
-- and the pitch it finds holds the row in whole units of 64 bytes, less than one over.
calculate_pitch_lem :
    (width : ℕ) (format : PixelFormat)
    → 1 ≤ width
    → width ≤ 4096
    → IsPitchOf width (get_format_info format) (calculate_pitch width format)
unfolding calculate_pitch
calculate_pitch_lem width clut h g =
    let pitch = (width + 63) / 64 * 64 in
    (
      pitch,
      pitch / 8,
      ground (arith, pitch_of-1 width h g),
      record { holds = omega arith; tight = omega arith; whole = omega arith; units = omega arith },
    )
calculate_pitch_lem width r5g6b5pc h g =
    let pitch = (width * 2 + 63) / 64 * 64 in
    (
      pitch,
      pitch / 16,
      ground (arith, pitch_of-2 width h g),
      record { holds = omega arith; tight = omega arith; whole = omega arith; units = omega arith },
    )
calculate_pitch_lem width b8g8r8a8 h g =
    let pitch = (width * 4 + 63) / 64 * 64 in
    (
      pitch,
      pitch / 32,
      ground (arith, pitch_of-4 width h g),
      record { holds = omega arith; tight = omega arith; whole = omega arith; units = omega arith },
    )
calculate_pitch_lem width unsupported h g = ground arith
