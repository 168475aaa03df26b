-- ===== src/Display/Callbacks.antt =====
-- The callbacks that Picasso96 drives the display by (src/radeon_mode.c), and sequences of them.
pub mod Contained
pub mod Invariant
pub mod Same
mod Tests
use r200_p96_driver.Base.{
  ℕ, ◌+◌, ◌-◌, ◌^◌, ℤ, Bool, true, false, not, ◌&&◌, ◌||◌, List, [], ◌∷◌, Option, none, some,
  if◌then◌else◌,
}
use r200_p96_driver.Display.{
  Board, Dpms, ModeInfo, PixelFormat, clut, r5g6b5pc, b8g8r8a8, unsupported,
}
use r200_p96_driver.Display.Output.{apply_display_state, configure_dac, program_palette}
use r200_p96_driver.Display.Program.{program_timing, program_clock}
use r200_p96_driver.Display.Panning.{set_panning}
use r200_p96_driver.Display.Cursor.{
  set_sprite, set_sprite_image, set_sprite_color, set_sprite_position,
}

abbrev pub is_clut : PixelFormat → Bool
is_clut clut = true
is_clut r5g6b5pc = false
is_clut b8g8r8a8 = false
is_clut unsupported = false

module _ (hw : ℕ → ℕ → ℕ) where
  -- The end of a callback that failed.
  unfoldable pub give_up : Board → Board
  give_up b = apply_display_state hw (record b { mode_valid = false })

  -- `RadeonSetColorArray`
  unfoldable pub set_color_array : Board → (start count : ℕ) → Board
  set_color_array b start count =
      if is_clut b.rgb_format then (program_palette hw b start count false).1 else b

  -- `RadeonSetDAC`
  unfoldable pub set_dac : Board → PixelFormat → Board
  set_dac b format =
      let (configured, b1) = configure_dac hw b format in
      let (entered, b2) = program_palette hw b1 0 256 (not (is_clut format)) in
      if configured
      then (if entered then record b2 { rgb_format = format } else give_up b2)
      else give_up b1

  -- `RadeonSetGC`
  unfoldable pub set_gc : Board → Option ModeInfo → (border : Bool) → Board
  set_gc b mode border = (program_timing hw (record b { border = border }) mode).1

  -- `RadeonSetDisplay`
  unfoldable pub set_display : Board → Bool → Board
  set_display b state = apply_display_state hw (record b { display_enabled = state })

  -- `RadeonSetClock`, with the mode that the board holds.
  unfoldable pub clock_mode : Board → Option ModeInfo → Board
  clock_mode b none = give_up b
  clock_mode b (some m) =
      let (done, b') = program_clock hw b m in
      if done then apply_display_state hw b' else give_up b'

  abbrev pub set_clock : Board → Board
  set_clock b = clock_mode b b.mode_info

  -- `RadeonSetDPMSLevel`; a level of `none` is one above DPMS_OFF.
  unfoldable pub set_dpms_level : Board → Option Dpms → Board
  set_dpms_level b level = elim level [
    | none ↦ b
    | some l ↦ apply_display_state hw (record b { dpms_level = l })
  ]

-- A call of a callback of the display or the cursor.
pub data Call : Type 0 where
  color_array : (start count : ℕ) → Call
  dac : PixelFormat → Call
  gc : Option ModeInfo → Bool → Call
  display : Bool → Call
  clock : Call
  dpms : Option Dpms → Call
  panning : (memory width : ℕ) → (x y : ℤ) → PixelFormat → Call
  sprite : Bool → Call
  sprite_position : Call
  sprite_image : Call
  sprite_color : (index red green blue : ℕ) → Call

module _ (hw : ℕ → ℕ → ℕ) (swap : ℕ → ℕ) where
  pub call : Board → Call → Board
  call b (color_array start count) = set_color_array hw b start count
  call b (dac format) = set_dac hw b format
  call b (gc mode border) = set_gc hw b mode border
  call b (display state) = set_display hw b state
  call b clock = set_clock hw b
  call b (dpms level) = set_dpms_level hw b level
  call b (panning memory width x y format) = set_panning hw b memory width x y format
  call b (sprite active) = (set_sprite hw b active).1
  call b sprite_position = set_sprite_position b
  call b sprite_image = set_sprite_image swap b
  call b (sprite_color index red green blue) = set_sprite_color swap b index red green blue

  -- A sequence of calls, the first one first.
  pub calls : Board → List Call → Board
  calls b [] = b
  calls b (c ∷ rest) = calls (call b c) rest
