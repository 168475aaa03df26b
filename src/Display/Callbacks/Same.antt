-- ===== src/Display/Callbacks/Same.antt =====
-- Callbacks that leave the mode alone, or only give it up.
use r200_p96_driver.Base.{
  ℕ, ◌-◌, ◌≡◌, ◌⊎◌, ◌∙◌, ℤ, pos, negsuc, Bool, true, false, not, ◌||◌, Option, none, some,
  if◌then◌else◌, leb, ltb, inl, inr, Option-cases, refl,
}
use r200_p96_driver.Mmio.Chain.{perform_all}
use r200_p96_driver.Display.{Board, Dpms, ModeInfo, PixelFormat}
use r200_p96_driver.Display.Format.{get_format_info}
use r200_p96_driver.Display.Pll.{decode_pll}
use r200_p96_driver.Display.Output.{apply_display_state, configure_dac, program_palette}
use r200_p96_driver.Display.Program.{program_clock}
use r200_p96_driver.Display.Cursor.{
  update_cursor_position, upload_cursor, set_sprite, switch_sprite,
}
use r200_p96_driver.Display.Panning.{find_scanout, scanout_accesses, pan_to, set_panning}
use r200_p96_driver.Display.Callbacks.{
  is_clut, give_up, set_dac, set_display, clock_mode, set_dpms_level,
}

-- A step that leaves the mode alone, or only gives it up.
pub record SameMode (b b' : Board) : Type 0 where
  pub validity : (b'.mode_valid ≡ b.mode_valid) ⊎ (b'.mode_valid ≡ false)
  pub mode : b'.mode_info ≡ b.mode_info
  pub depth : b'.depth ≡ b.depth

pub SameMode-refl : (b : Board) → SameMode b b
SameMode-refl b = record { validity = inl refl; mode = refl; depth = refl }

pub SameMode-trans : {a b c : Board} → SameMode a b → SameMode b c → SameMode a c
SameMode-trans p q = record {
  validity = elim q.validity [
    | inr e ↦ inr e
    | inl e ↦ elim p.validity [ inl f ↦ inl (e ∙ f) | inr f ↦ inr (e ∙ f) ]
  ];
  mode = q.mode ∙ p.mode;
  depth = q.depth ∙ p.depth;
}

pub if-SameMode :
    (test : Bool) (b x y : Board) → SameMode b x → SameMode b y → SameMode b (if test then x else y)
if-SameMode true b x y p q = p
if-SameMode false b x y p q = q

if_pair-SameMode :
    (test : Bool) (b : Board) (x y : Bool × Board)
    → SameMode b x.1
    → SameMode b y.1
    → SameMode b (if test then x else y).1
if_pair-SameMode true b x y p q = p
if_pair-SameMode false b x y p q = q

pub update_cursor_position-SameMode : (b : Board) → SameMode b (update_cursor_position b)
unfolding update_cursor_position
update_cursor_position-SameMode b = elim (Option-cases b.cursor) [
  | inl e ↦ rw (e, update_cursor_position) record { validity = inl refl; mode = refl; depth = refl }
  | inr (c, e) ↦
      rw (e, update_cursor_position) record { validity = inl refl; mode = refl; depth = refl }
]

pub upload_cursor-SameMode : (swap : ℕ → ℕ) (b : Board) → SameMode b (upload_cursor swap b)
unfolding upload_cursor
upload_cursor-SameMode swap b = elim (Option-cases b.cursor) [
  | inl e ↦ rw (e, upload_cursor) record { validity = inl refl; mode = refl; depth = refl }
  | inr (c, e) ↦ rw (e, upload_cursor) record { validity = inl refl; mode = refl; depth = refl }
]

module _ (hw : ℕ → ℕ → ℕ) where
  apply_display_state-SameMode : (b : Board) → SameMode b (apply_display_state hw b)
  unfolding apply_display_state
  apply_display_state-SameMode b = record { validity = inl refl; mode = refl; depth = refl }

  give_up-SameMode : (b : Board) → SameMode b (give_up hw b)
  unfolding give_up apply_display_state
  give_up-SameMode b = record { validity = inr refl; mode = refl; depth = refl }

  configure_dac-SameMode :
      (b : Board) (format : PixelFormat) → SameMode b (configure_dac hw b format).1
  unfolding configure_dac
  configure_dac-SameMode b format = elim (Option-cases (get_format_info format)) [
    | inl e ↦ rw (e, configure_dac) record { validity = inl refl; mode = refl; depth = refl }
    | inr (info, e) ↦
        rw (e, configure_dac) record { validity = inl refl; mode = refl; depth = refl }
  ]

  pub program_palette-SameMode :
      (b : Board) (start count : ℕ) (linear : Bool)
      → SameMode b (program_palette hw b start count linear).1
  unfolding program_palette
  program_palette-SameMode b start count linear =
      if_pair-SameMode (leb 256 start || ltb (256 - start) count) b _ _ (SameMode-refl b)
        record { validity = inl refl; mode = refl; depth = refl }

  pub set_dac-SameMode : (b : Board) (format : PixelFormat) → SameMode b (set_dac hw b format)
  unfolding set_dac
  set_dac-SameMode b format =
      let configured = configure_dac-SameMode b format in
      let palette = program_palette hw (configure_dac hw b format).1 0 256 (not (is_clut format)) in
      let entered : SameMode b palette.1 =
        SameMode-trans configured
          (program_palette-SameMode (configure_dac hw b format).1 0 256 (not (is_clut format))) in
      if-SameMode (configure_dac hw b format).0 b _ _
        (if-SameMode palette.0 b (record palette.1 { rgb_format = format }) (give_up hw palette.1)
          (record { validity = entered.validity; mode = entered.mode; depth = entered.depth })
          (SameMode-trans entered (give_up-SameMode palette.1)))
        (SameMode-trans configured (give_up-SameMode _))

  program_clock-SameMode : (b : Board) (m : ModeInfo) → SameMode b (program_clock hw b m).1
  unfolding program_clock
  program_clock-SameMode b m = elim (Option-cases (decode_pll m)) [
    | inl e ↦ rw (e, program_clock) (SameMode-refl b)
    | inr (d, e) ↦ rw (e, program_clock) record { validity = inl refl; mode = refl; depth = refl }
  ]

  pub clock_mode-SameMode : (b : Board) (mode : Option ModeInfo) → SameMode b (clock_mode hw b mode)
  unfolding clock_mode
  clock_mode-SameMode b none = give_up-SameMode b
  clock_mode-SameMode b (some m) =
      let programmed = program_clock-SameMode b m in
      let result = program_clock hw b m in
      if-SameMode result.0 b _ _ (SameMode-trans programmed (apply_display_state-SameMode result.1))
        (SameMode-trans programmed (give_up-SameMode result.1))

  pub set_display-SameMode : (b : Board) (state : Bool) → SameMode b (set_display hw b state)
  unfolding set_display apply_display_state
  set_display-SameMode b state = record { validity = inl refl; mode = refl; depth = refl }

  pub set_dpms_level-SameMode :
      (b : Board) (level : Option Dpms) → SameMode b (set_dpms_level hw b level)
  unfolding set_dpms_level apply_display_state
  set_dpms_level-SameMode b none = SameMode-refl b
  set_dpms_level-SameMode b (some l) = record { validity = inl refl; mode = refl; depth = refl }

  pan_to-SameMode :
      (b : Board) (memory width x y : ℕ) (format : PixelFormat)
      → SameMode b (pan_to hw b memory width x y format)
  unfolding pan_to apply_display_state
  pan_to-SameMode b memory width x y format =
      elim (Option-cases (find_scanout b memory width x y format)) [
        | inl e ↦ rw (e, pan_to) (SameMode-refl b)
        | inr (s, e) ↦
            rw (e, pan_to)
              (if-SameMode (perform_all hw b.bus (scanout_accesses s)).0 b _ _
                record { validity = inl refl; mode = refl; depth = refl }
                record { validity = inr refl; mode = refl; depth = refl })
      ]

  pub set_panning-SameMode :
      (b : Board) (memory width : ℕ) (x y : ℤ) (format : PixelFormat)
      → SameMode b (set_panning hw b memory width x y format)
  set_panning-SameMode b memory width (negsuc x) y format = SameMode-refl b
  set_panning-SameMode b memory width (pos x) (negsuc y) format = SameMode-refl b
  set_panning-SameMode b memory width (pos x) (pos y) format =
      pan_to-SameMode b memory width x y format

  switch_sprite-SameMode : (b : Board) (active : Bool) → SameMode b (switch_sprite hw b active).1
  unfolding switch_sprite
  switch_sprite-SameMode b true =
      let moved = update_cursor_position-SameMode b in
      record { validity = moved.validity; mode = moved.mode; depth = moved.depth }
  switch_sprite-SameMode b false = record { validity = inl refl; mode = refl; depth = refl }

  pub set_sprite-SameMode : (b : Board) (active : Bool) → SameMode b (set_sprite hw b active).1
  unfolding set_sprite
  set_sprite-SameMode b active = elim (Option-cases b.cursor) [
    | inl e ↦ rw (e, set_sprite) record { validity = inl refl; mode = refl; depth = refl }
    | inr (c, e) ↦
        let kept =
          switch_sprite-SameMode (record b { cursor = some (record c { visible = active }) })
            active in
        rw (e, set_sprite) record { validity = kept.validity; mode = kept.mode; depth = kept.depth }
  ]
