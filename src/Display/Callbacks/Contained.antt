-- ===== src/Display/Callbacks/Contained.antt =====
-- No sequence of callbacks makes a register access outside the window.
use r200_p96_driver.Base.{
  ℕ, ℤ, pos, negsuc, Bool, true, false, not, List, [], ◌∷◌, Option, none, some, leb, inl, inr,
  Option-cases,
}
use r200_p96_driver.Mmio.Window.{Extends-refl, Extends-trans, IsContained, mask32-Extends}
use r200_p96_driver.Mmio.Chain.{perform_all, perform_all-Extends}
use r200_p96_driver.Display.{Board, CursorState, Dpms, ModeInfo, PixelFormat}
use r200_p96_driver.Display.Output.{configure_dac}
use r200_p96_driver.Display.Program.{program_clock}
use r200_p96_driver.Display.Program.Window.{
  Keeps, if_board-Keeps, update_cursor_position-Keeps, apply_display_state-Keeps,
  configure_dac-Keeps, program_palette-Keeps, program_clock-Keeps, program_timing-Keeps,
}
use r200_p96_driver.Display.Cursor.{
  upload_cursor, set_sprite, switch_sprite, set_sprite_image, store_color, with_color,
}
use r200_p96_driver.Display.Panning.{find_scanout, scanout_accesses, pan_to, set_panning}
use r200_p96_driver.Display.Callbacks.{
  is_clut, give_up, set_color_array, set_dac, set_gc, set_display, clock_mode, set_dpms_level, Call,
  color_array, dac, gc, display, clock, dpms, panning, sprite, sprite_position, sprite_image,
  sprite_color, call, calls,
}

module _ (hw : ℕ → ℕ → ℕ) where
  give_up-Keeps : (b : Board) → Keeps b (give_up hw b)
  unfolding give_up
  give_up-Keeps b = apply_display_state-Keeps hw (record b { mode_valid = false })

  set_color_array-Keeps : (b : Board) (start count : ℕ) → Keeps b (set_color_array hw b start count)
  unfolding set_color_array
  set_color_array-Keeps b start count =
      if_board-Keeps (is_clut b.rgb_format) b _ _ (program_palette-Keeps hw b start count false)
        (Extends-refl b.bus)

  set_dac-Keeps : (b : Board) (format : PixelFormat) → Keeps b (set_dac hw b format)
  unfolding set_dac
  set_dac-Keeps b format =
      let configured = configure_dac-Keeps hw b format in
      let entered =
        Extends-trans configured
          (program_palette-Keeps hw (configure_dac hw b format).1 0 256 (not (is_clut format))) in
      if_board-Keeps (configure_dac hw b format).0 b _ _
        (if_board-Keeps _ b _ _ entered (Extends-trans entered (give_up-Keeps _)))
        (Extends-trans configured (give_up-Keeps _))

  clock_mode-Keeps : (b : Board) (mode : Option ModeInfo) → Keeps b (clock_mode hw b mode)
  unfolding clock_mode
  clock_mode-Keeps b none = give_up-Keeps b
  clock_mode-Keeps b (some m) =
      let programmed = program_clock-Keeps hw b m in
      if_board-Keeps (program_clock hw b m).0 b _ _
        (Extends-trans programmed (apply_display_state-Keeps hw _))
        (Extends-trans programmed (give_up-Keeps _))

  set_dpms_level-Keeps : (b : Board) (level : Option Dpms) → Keeps b (set_dpms_level hw b level)
  unfolding set_dpms_level
  set_dpms_level-Keeps b none = Extends-refl b.bus
  set_dpms_level-Keeps b (some l) = apply_display_state-Keeps hw (record b { dpms_level = l })

  pan_to-Keeps :
      (b : Board) (memory width x y : ℕ) (format : PixelFormat)
      → Keeps b (pan_to hw b memory width x y format)
  unfolding pan_to
  pan_to-Keeps b memory width x y format =
      elim (Option-cases (find_scanout b memory width x y format)) [
        | inl e ↦ rw (e, pan_to) (Extends-refl b.bus)
        | inr (s, e) ↦
            let programmed = perform_all-Extends hw b.bus (scanout_accesses s) in
            rw (e, pan_to)
              (if_board-Keeps (perform_all hw b.bus (scanout_accesses s)).0 b _ _ programmed
                (Extends-trans programmed (apply_display_state-Keeps hw _)))
      ]

  set_panning-Keeps :
      (b : Board) (memory width : ℕ) (x y : ℤ) (format : PixelFormat)
      → Keeps b (set_panning hw b memory width x y format)
  set_panning-Keeps b memory width (negsuc x) y format = Extends-refl b.bus
  set_panning-Keeps b memory width (pos x) (negsuc y) format = Extends-refl b.bus
  set_panning-Keeps b memory width (pos x) (pos y) format = pan_to-Keeps b memory width x y format

  switch_sprite-Keeps : (b : Board) (active : Bool) → Keeps b (switch_sprite hw b active).1
  unfolding switch_sprite
  switch_sprite-Keeps b true =
      Extends-trans (update_cursor_position-Keeps b) (mask32-Extends hw _ _ _ _)
  switch_sprite-Keeps b false = mask32-Extends hw b.bus _ _ _

  set_sprite-Keeps : (b : Board) (active : Bool) → Keeps b (set_sprite hw b active).1
  unfolding set_sprite
  set_sprite-Keeps b active = elim (Option-cases b.cursor) [
    | inl e ↦ rw (e, set_sprite) (Extends-refl b.bus)
    | inr (c, e) ↦
        rw (e, set_sprite)
          (switch_sprite-Keeps (record b { cursor = some (record c { visible = active }) }) active)
  ]

module _ (swap : ℕ → ℕ) where
  upload_cursor-Keeps : (b : Board) → Keeps b (upload_cursor swap b)
  unfolding upload_cursor
  upload_cursor-Keeps b = elim (Option-cases b.cursor) [
    | inl e ↦ rw (e, upload_cursor) (Extends-refl b.bus)
    | inr (c, e) ↦ rw (e, upload_cursor) (Extends-refl b.bus)
  ]

  set_sprite_image-Keeps : (b : Board) → Keeps b (set_sprite_image swap b)
  unfolding set_sprite_image
  set_sprite_image-Keeps b = Extends-trans (upload_cursor-Keeps b) (update_cursor_position-Keeps _)

  store_color-Keeps :
      (b : Board) (cursor : Option CursorState) (index color : ℕ)
      → Keeps b (store_color swap b cursor index color)
  unfolding store_color
  store_color-Keeps b none index color = Extends-refl b.bus
  store_color-Keeps b (some c) index color =
      if_board-Keeps (leb 3 index) b _ _ (Extends-refl b.bus)
        (upload_cursor-Keeps (record b { cursor = some (with_color c index color) }))

module _ (hw : ℕ → ℕ → ℕ) (swap : ℕ → ℕ) where
  call-Keeps : (b : Board) (c : Call) → Keeps b (call hw swap b c)
  unfolding call set_gc set_display
  call-Keeps b (color_array start count) = set_color_array-Keeps hw b start count
  call-Keeps b (dac format) = set_dac-Keeps hw b format
  call-Keeps b (gc mode border) = program_timing-Keeps hw (record b { border = border }) mode
  call-Keeps b (display state) = apply_display_state-Keeps hw (record b { display_enabled = state })
  call-Keeps b clock = clock_mode-Keeps hw b b.mode_info
  call-Keeps b (dpms level) = set_dpms_level-Keeps hw b level
  call-Keeps b (panning memory width x y format) = set_panning-Keeps hw b memory width x y format
  call-Keeps b (sprite active) = set_sprite-Keeps hw b active
  call-Keeps b sprite_position = update_cursor_position-Keeps b
  call-Keeps b sprite_image = set_sprite_image-Keeps swap b
  call-Keeps b (sprite_color index red green blue) = store_color-Keeps swap b b.cursor index _

  calls-Keeps : (b : Board) (cs : List Call) → Keeps b (calls hw swap b cs)
  unfolding calls
  calls-Keeps b [] = Extends-refl b.bus
  calls-Keeps b (c ∷ rest) = Extends-trans (call-Keeps b c) (calls-Keeps (call hw swap b c) rest)

  -- After register writes inside the window only, no sequence of callbacks of the display and the
  -- cursor writes a register outside it, whatever the modes, the formats and the card's answers.
  pub calls-IsContained :
      (b : Board) (cs : List Call) → IsContained b.bus → IsContained (calls hw swap b cs).bus
  calls-IsContained b cs h = (calls-Keeps b cs).contained h
