-- ===== src/Display/Callbacks/Invariant.antt =====
-- A mode that the driver takes for programmed is one that was validated.
use r200_p96_driver.Base.{
  arith, ℕ, ◌≡◌, ◌⊎◌, ◌∙◌, true, false, not, ◌||◌, List, [], ◌∷◌, Option, none, some, leb, inl, inr,
  Bool-cases, Option-cases, refl,
}
use r200_p96_driver.Regs.Display.{crtc_ext_cntl}
use r200_p96_driver.Mmio.{Bus, mask32}
use r200_p96_driver.Mmio.Chain.{perform_all}
use r200_p96_driver.Display.{Board, CursorState, ModeInfo}
use r200_p96_driver.Display.Format.{get_depth_pixel_width}
use r200_p96_driver.Display.Pll.{dvi_active}
use r200_p96_driver.Display.Timing.{validate_mode}
use r200_p96_driver.Display.Output.{all_disabled}
use r200_p96_driver.Display.Program.{tmds_for, all_accesses, timed, program_valid, program_timing}
use r200_p96_driver.Display.Cursor.{upload_cursor, set_sprite_image, store_color, with_color}
use r200_p96_driver.Display.Callbacks.{
  is_clut, set_color_array, set_gc, set_display, Call, color_array, dac, gc, display, clock, dpms,
  panning, sprite, sprite_position, sprite_image, sprite_color, call, calls,
}
use r200_p96_driver.Display.Callbacks.Same.{
  SameMode, SameMode-refl, SameMode-trans, if-SameMode, update_cursor_position-SameMode,
  upload_cursor-SameMode, program_palette-SameMode, set_dac-SameMode, clock_mode-SameMode,
  set_display-SameMode, set_dpms_level-SameMode, set_panning-SameMode, set_sprite-SameMode,
}

-- The mode that is programmed.
pub record IsTimed (b : Board) (m : ModeInfo) : Type 0 where
  pub current : b.mode_info ≡ some m
  pub valid : validate_mode m ≡ true
  pub deep : b.depth ≡ m.depth

abbrev pub IsConsistent : Board → Type 0
IsConsistent b = (b.mode_valid ≡ false) ⊎ ((m : ModeInfo) × IsTimed b m)

SameMode-IsConsistent : (b b' : Board) → SameMode b b' → IsConsistent b → IsConsistent b'
SameMode-IsConsistent b b' s (inl e) = elim s.validity [ inl f ↦ inl (f ∙ e) | inr f ↦ inl f ]
SameMode-IsConsistent b b' s (inr (m, t)) =
    inr (m, record { current = s.mode ∙ t.current; valid = t.valid; deep = s.depth ∙ t.deep })

module _ (hw : ℕ → ℕ → ℕ) where
  timed-IsTimed :
      (b : Board) (m : ModeInfo) (bus' : Bus) → validate_mode m ≡ true → IsTimed (timed b m bus') m
  timed-IsTimed b m bus' v =
      let moved = update_cursor_position-SameMode (record b {
        bus = bus';
        dvi_timing_ready = dvi_active b.clocks;
        mode_valid = true;
        mode_info = some m;
        depth = m.depth;
      }) in
      record { current = moved.mode; valid = v; deep = moved.depth }

  -- `ProgramTiming` gives the mode up, or leaves the one it was given, validated.
  program_valid-IsConsistent :
      (b : Board) (m : ModeInfo)
      → b.mode_valid ≡ false
      → validate_mode m ≡ true
      → IsConsistent (program_valid hw b m).1
  unfolding program_valid
  program_valid-IsConsistent b m e v = elim (Option-cases (get_depth_pixel_width m.depth)) [
    | inl f ↦ rw (f, program_valid) (inl e)
    | inr (pixel_width, f) ↦ elim (Option-cases (tmds_for b m)) [
      | inl g ↦ rw (f, g, program_valid) (inl e)
      | inr (tmds_pll, g) ↦
          elim (Bool-cases (perform_all hw b.bus (all_accesses b m pixel_width tmds_pll)).0) [
            | inl k ↦ rw (f, g, k, program_valid) (inr (m, timed-IsTimed b m _ v))
            | inr k ↦ rw (f, g, k, program_valid) (inl e)
          ]
    ]
  ]

  program_timing-IsConsistent :
      (b : Board) (mode : Option ModeInfo) → IsConsistent (program_timing hw b mode).1
  unfolding program_timing
  program_timing-IsConsistent b none = inl refl
  program_timing-IsConsistent b (some m) =
      let masked = (mask32 hw b.bus crtc_ext_cntl 0 all_disabled).0 in
      elim (Bool-cases (not masked || not (validate_mode m))) [
        | inl e ↦ rw (e, program_timing) (inl refl)
        | inr e ↦ rw (e, program_timing) (program_valid-IsConsistent _ m refl (ground (arith, e)))
      ]

module _ (hw : ℕ → ℕ → ℕ) (swap : ℕ → ℕ) where
  store_color-SameMode :
      (b : Board) (cursor : Option CursorState) (index color : ℕ)
      → SameMode b (store_color swap b cursor index color)
  unfolding store_color
  store_color-SameMode b none index color = SameMode-refl b
  store_color-SameMode b (some c) index color =
      let coloured = record b { cursor = some (with_color c index color) } in
      let uploaded = upload_cursor-SameMode swap coloured in
      if-SameMode (leb 3 index) b b (upload_cursor swap coloured) (SameMode-refl b)
        record { validity = uploaded.validity; mode = uploaded.mode; depth = uploaded.depth }

  call-IsConsistent : (b : Board) (c : Call) → IsConsistent b → IsConsistent (call hw swap b c)
  unfolding call set_gc set_display set_sprite_image set_color_array
  call-IsConsistent b (color_array start count) h =
      SameMode-IsConsistent b _
        (if-SameMode (is_clut b.rgb_format) b _ _ (program_palette-SameMode hw b start count false)
          (SameMode-refl b))
        h
  call-IsConsistent b (dac format) h = SameMode-IsConsistent b _ (set_dac-SameMode hw b format) h
  call-IsConsistent b (gc mode border) h =
      program_timing-IsConsistent hw (record b { border = border }) mode
  call-IsConsistent b (display state) h =
      SameMode-IsConsistent b _ (set_display-SameMode hw b state) h
  call-IsConsistent b clock h = SameMode-IsConsistent b _ (clock_mode-SameMode hw b b.mode_info) h
  call-IsConsistent b (dpms level) h =
      SameMode-IsConsistent b _ (set_dpms_level-SameMode hw b level) h
  call-IsConsistent b (panning memory width x y format) h =
      SameMode-IsConsistent b _ (set_panning-SameMode hw b memory width x y format) h
  call-IsConsistent b (sprite active) h =
      SameMode-IsConsistent b _ (set_sprite-SameMode hw b active) h
  call-IsConsistent b sprite_position h =
      SameMode-IsConsistent b _ (update_cursor_position-SameMode b) h
  call-IsConsistent b sprite_image h =
      SameMode-IsConsistent b _
        (SameMode-trans (upload_cursor-SameMode swap b) (update_cursor_position-SameMode _)) h
  call-IsConsistent b (sprite_color index red green blue) h =
      SameMode-IsConsistent b _ (store_color-SameMode b b.cursor index _) h

  -- If the driver holds no mode for programmed, or a validated one with its depth, then it does so after
  -- every sequence of callbacks of the display and the cursor.
  pub calls-IsConsistent :
      (b : Board) (cs : List Call) → IsConsistent b → IsConsistent (calls hw swap b cs)
  unfolding calls
  calls-IsConsistent b [] h = h
  calls-IsConsistent b (c ∷ rest) h =
      calls-IsConsistent (call hw swap b c) rest (call-IsConsistent b c h)
