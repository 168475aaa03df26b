-- ===== src/Accel/Fill.antt =====
-- Filling a rectangle (src/radeon_accel.c: SubmitSolidRect, SubmitPattern), behind PrepareMmioEngine.
-- The pattern words `data0` and `data1` are those that the caller prepared.
pub mod Registers
mod Tests
use r200_p96_driver.Base.{
  ℕ, ◌+◌, ◌-◌, ◌*◌, ◌/◌, ◌%◌, ◌^◌, Bool, true, false, List, [], ◌∷◌, if◌then◌else◌, bit_and, bit_or,
}
use r200_p96_driver.Display.{PixelFormat, clut, r5g6b5pc, b8g8r8a8, unsupported}
use r200_p96_driver.Accel.{AccelSurface}
use r200_p96_driver.Accel.Surface.{Rectangle}
use r200_p96_driver.Accel.Engine.{
  Engine, EngineStep, direct, state, master, write_mask, control, dst_pitch_offset, brush_fg,
  brush_bg, steps, begin_engine_path, hardware_pen, to_right_and_down,
}

-- `HardwareDatatype`
abbrev pub hardware_datatype : PixelFormat → ℕ
hardware_datatype clut = 2 * 2 ^ 8
hardware_datatype r5g6b5pc = 4 * 2 ^ 8
hardware_datatype b8g8r8a8 = 6 * 2 ^ 8
hardware_datatype unsupported = 0

abbrev pub gmc_dst_pitch_offset_cntl : ℕ
gmc_dst_pitch_offset_cntl = 2 ^ 1

abbrev pub gmc_brush_solid_color : ℕ
gmc_brush_solid_color = 13 * 2 ^ 4

abbrev pub gmc_brush_8x8_mono_fg_bg : ℕ
gmc_brush_8x8_mono_fg_bg = 0 * 2 ^ 4

abbrev pub gmc_src_datatype_color : ℕ
gmc_src_datatype_color = 3 * 2 ^ 12

abbrev pub gmc_clr_cmp_cntl_dis : ℕ
gmc_clr_cmp_cntl_dis = 2 ^ 28

abbrev pub rop3_p : ℕ
rop3_p = 0x00f00000

abbrev pub dst_y_x : ℕ
dst_y_x = 0x1438

abbrev pub dst_width_height : ℕ
dst_width_height = 0x1598

abbrev pub dst_height_width : ℕ
dst_height_width = 0x143c

abbrev pub brush_data0 : ℕ
brush_data0 = 0x1480

abbrev pub brush_data1 : ℕ
brush_data1 = 0x1484

abbrev pub brush_y_x : ℕ
brush_y_x = 0x1474

-- `writeMask`
abbrev pub plane_mask : (mask : ℕ) → PixelFormat → ℕ
plane_mask mask clut = mask
plane_mask mask r5g6b5pc = 0xffffffff
plane_mask mask b8g8r8a8 = 0xffffffff
plane_mask mask unsupported = 0xffffffff

-- Two `UWORD`s in a register.
abbrev pub word_pair : (high low : ℕ) → ℕ
word_pair high low = bit_or (high % 2 ^ 16 * 2 ^ 16) (low % 2 ^ 16)

-- `master` of `SubmitSolidRect`
abbrev pub solid_master : PixelFormat → (rop : ℕ) → ℕ
solid_master format rop =
    bit_or
      (bit_or
        (bit_or
          (bit_or (bit_or gmc_dst_pitch_offset_cntl gmc_brush_solid_color)
            (hardware_datatype format))
          gmc_src_datatype_color)
        rop)
      gmc_clr_cmp_cntl_dis

abbrev pub solid_rect_steps :
    AccelSurface → Rectangle → (pen mask : ℕ) → PixelFormat → (rop : ℕ) → List EngineStep
solid_rect_steps s q pen mask format rop =
    state master (solid_master format rop)
    ∷ state brush_fg (hardware_pen pen format)
    ∷ state write_mask (plane_mask mask format)
    ∷ state control to_right_and_down
    ∷ state dst_pitch_offset s.pitch_offset
    ∷ direct dst_y_x (word_pair (q.top + s.y_bias) (q.left + s.x_bias))
    ∷ direct dst_width_height (word_pair q.width q.height)
    ∷ []

-- `SubmitSolidRect`
unfoldable pub submit_solid_rect :
    Engine → AccelSurface → Rectangle → (pen mask : ℕ) → PixelFormat → (rop : ℕ) → Engine
submit_solid_rect e s q pen mask format rop =
    steps (begin_engine_path e false) (solid_rect_steps s q pen mask format rop)

-- `struct Pattern`, with the data that the caller makes of its memory.
pub record Pattern : Type 0 where
  pub x_offset : ℕ
  pub y_offset : ℕ
  pub fg_pen : ℕ
  pub bg_pen : ℕ
  pub data0 : ℕ
  pub data1 : ℕ

-- `phaseX` and `phaseY`
abbrev pub phase : (offset destination : ℕ) → ℕ
phase offset destination = bit_and (bit_and offset 7 + 8 - bit_and destination 7) 7

-- `master` of `SubmitPattern`
abbrev pub pattern_master : PixelFormat → ℕ
pattern_master format =
    bit_or
      (bit_or
        (bit_or (bit_or gmc_dst_pitch_offset_cntl gmc_brush_8x8_mono_fg_bg)
          (hardware_datatype format))
        rop3_p)
      gmc_clr_cmp_cntl_dis

abbrev pub pattern_steps :
    AccelSurface → Pattern → Rectangle → (mask : ℕ) → PixelFormat → List EngineStep
pattern_steps s p q mask format =
    let x = (q.left + s.x_bias) % 2 ^ 16 in
    let y = (q.top + s.y_bias) % 2 ^ 16 in
    state master (pattern_master format)
    ∷ state write_mask (plane_mask mask format)
    ∷ state brush_fg (hardware_pen p.fg_pen format)
    ∷ state brush_bg (hardware_pen p.bg_pen format)
    ∷ direct brush_data0 p.data0
    ∷ direct brush_data1 p.data1
    ∷ state control to_right_and_down
    ∷ state dst_pitch_offset s.pitch_offset
    ∷ direct brush_y_x (bit_or (phase p.y_offset y * 2 ^ 8) (phase p.x_offset x))
    ∷ direct dst_y_x (word_pair y x)
    ∷ direct dst_height_width (word_pair q.height q.width)
    ∷ []

-- `SubmitPattern`
unfoldable pub submit_pattern :
    Engine → AccelSurface → Pattern → Rectangle → (mask : ℕ) → PixelFormat → Engine
submit_pattern e s p q mask format =
    steps (begin_engine_path e false) (pattern_steps s p q mask format)
