-- ===== src/Accel/Fill/Registers.antt =====
-- What the engine's registers hold when a fill starts.
use r200_p96_driver.Base.{ℕ, ◌+◌, ◌%◌, ◌^◌, ◌≡◌, false, some, refl, inl, inr, Bool-cases}
use r200_p96_driver.Display.{PixelFormat}
use r200_p96_driver.Accel.{AccelSurface}
use r200_p96_driver.Accel.Surface.{Rectangle}
use r200_p96_driver.Accel.Engine.{
  Engine, master, write_mask, control, dst_pitch_offset, brush_fg, brush_bg, engine_address, steps,
  begin_engine_path, hardware_pen, to_right_and_down,
}
use r200_p96_driver.Accel.Engine.Cached.{
  IsCoherent, RegisterFile, file_of, effects, are_uncached-All, steps-effects,
}
use r200_p96_driver.Accel.Fill.{
  Pattern, plane_mask, word_pair, solid_master, pattern_master, pattern_steps, submit_pattern,
  dst_y_x, dst_width_height, dst_height_width, brush_data0, brush_data1,
}

begin_engine_path-IsCoherent : (e : Engine) → IsCoherent e → IsCoherent (begin_engine_path e false)
unfolding begin_engine_path
begin_engine_path-IsCoherent e h r v c = elim (Bool-cases e.owned) [
  | inl k ↦ rw k (h r v (rw k at c))
  | inr k ↦ absurd (cc (rw k at c))
]

-- The registers of a solid fill.
pub record IsFilling (file : RegisterFile) (s : AccelSurface) (q : Rectangle) (pen mask : ℕ)
    (format : PixelFormat) (rop : ℕ) : Type 0 where
  pub operation : file (engine_address master) ≡ some (solid_master format rop)
  pub colour : file (engine_address brush_fg) ≡ some (hardware_pen pen format)
  pub planes : file (engine_address write_mask) ≡ some (plane_mask mask format)
  pub direction : file (engine_address control) ≡ some to_right_and_down
  pub surface : file (engine_address dst_pitch_offset) ≡ some s.pitch_offset
  pub place : file dst_y_x ≡ some (word_pair (q.top + s.y_bias) (q.left + s.x_bias))
  pub size : file dst_width_height ≡ some (word_pair q.width q.height)

-- The registers of a pattern fill.
pub record IsTiling (file : RegisterFile) (s : AccelSurface) (p : Pattern) (q : Rectangle)
    (mask : ℕ) (format : PixelFormat) : Type 0 where
  pub operation : file (engine_address master) ≡ some (pattern_master format)
  pub foreground : file (engine_address brush_fg) ≡ some (hardware_pen p.fg_pen format)
  pub background : file (engine_address brush_bg) ≡ some (hardware_pen p.bg_pen format)
  pub planes : file (engine_address write_mask) ≡ some (plane_mask mask format)
  pub direction : file (engine_address control) ≡ some to_right_and_down
  pub surface : file (engine_address dst_pitch_offset) ≡ some s.pitch_offset
  pub tile : (file brush_data0 ≡ some p.data0) × (file brush_data1 ≡ some p.data1)
  pub place :
      file dst_y_x ≡ some (word_pair ((q.top + s.y_bias) % 2 ^ 16) ((q.left + s.x_bias) % 2 ^ 16))
  pub size : file dst_height_width ≡ some (word_pair q.height q.width)

-- The same for `SubmitPattern`, with the pens, the pattern and its rectangle.
pub submit_pattern-IsTiling :
    (e : Engine) (s : AccelSurface) (p : Pattern) (q : Rectangle) (mask : ℕ) (format : PixelFormat)
    → IsCoherent e
    → let e' = submit_pattern e s p q mask format in
      IsTiling (file_of e'.bus.written) s p q mask format × IsCoherent e'
unfolding submit_pattern
submit_pattern-IsTiling e s p q mask format h =
    let begun = begin_engine_path e false in
    let todo = pattern_steps s p q mask format in
    let at : (reg : ℕ)
        → (file_of (steps begun todo).bus.written reg
            ≡ effects (file_of begun.bus.written) todo reg)
          × IsCoherent (steps begun todo) =
      λ reg.
        steps-effects begun todo reg (begin_engine_path-IsCoherent e h)
          (are_uncached-All todo refl) in
    (
      record {
        operation = (at (engine_address master)).0;
        foreground = (at (engine_address brush_fg)).0;
        background = (at (engine_address brush_bg)).0;
        planes = (at (engine_address write_mask)).0;
        direction = (at (engine_address control)).0;
        surface = (at (engine_address dst_pitch_offset)).0;
        tile = ((at brush_data0).0, (at brush_data1).0);
        place = (at dst_y_x).0;
        size = (at dst_height_width).0;
      },
      (at 0).1,
    )
