-- ===== src/Display/Program/Window.antt =====
-- The register accesses of the output stages, the clock, the timing and the cursor stay inside the
-- window.
use r200_p96_driver.Base.{
  ℕ, zero, suc, ◌-◌, Bool, true, false, ◌||◌, List, [], ◌∷◌, Option, none, some, ltb, leb, ◌==◌,
  if◌then◌else◌, bit_and, inl, inr, Bool-cases, Option-cases,
}
use r200_p96_driver.Regs.Clock.{ppll_ref_div, ppll_div_0, ppll_atomic_update_r, vclk_ecp_cntl}
use r200_p96_driver.Regs.Display.{crtc_ext_cntl}
use r200_p96_driver.Mmio.{Bus, read_pll, write_pll}
use r200_p96_driver.Mmio.Window.{
  Extends, Extends-refl, Extends-trans, read32-Extends, write32-Extends, mask32-Extends,
  read_pll-Extends, write_pll-Extends,
}
use r200_p96_driver.Mmio.Chain.{perform_all, perform_all-Extends}
use r200_p96_driver.Display.{Board, ModeInfo, PixelFormat}
use r200_p96_driver.Display.Format.{get_format_info, get_depth_pixel_width}
use r200_p96_driver.Display.Pll.{dvi_active, decode_pll}
use r200_p96_driver.Display.Cursor.{update_cursor_position}
use r200_p96_driver.Display.Output.{
  all_disabled, apply_display_state, configure_dac, program_palette,
}
use r200_p96_driver.Display.Program.{
  Stage, accesses, await, wait_atomic_update, perform_stage, perform_stages, select_clock,
  program_clock, tmds_for, all_accesses, program_valid, program_timing,
}

-- The board of a result sees the accesses of the one before it, and more.
abbrev pub Keeps : Board → Board → Type 0
Keeps b b' = Extends b.bus b'.bus

pub update_cursor_position-Keeps : (b : Board) → Keeps b (update_cursor_position b)
unfolding update_cursor_position
update_cursor_position-Keeps b = elim (Option-cases b.cursor) [
  | inl e ↦ rw e (Extends-refl b.bus)
  | inr (c, e) ↦ rw e (
      Extends-trans (write32-Extends b.bus _ _)
        (Extends-trans (write32-Extends _ _ _) (write32-Extends _ _ _)))
]

-- Both branches of a test.
if-Extends :
    (test : Bool) (b x y : Bus) → Extends b x → Extends b y → Extends b (if test then x else y)
if-Extends true b x y p q = p
if-Extends false b x y p q = q

if_pair-Extends :
    (test : Bool) (b : Bus) (x y : Bool × Bus)
    → Extends b x.1
    → Extends b y.1
    → Extends b (if test then x else y).1
if_pair-Extends true b x y p q = p
if_pair-Extends false b x y p q = q

-- The same for results with a board.
pub if-Keeps :
    (test : Bool) (b : Board) (x y : Bool × Board)
    → Keeps b x.1
    → Keeps b y.1
    → Keeps b (if test then x else y).1
if-Keeps true b x y p q = p
if-Keeps false b x y p q = q

-- The same for boards.
pub if_board-Keeps :
    (test : Bool) (b x y : Board) → Keeps b x → Keeps b y → Keeps b (if test then x else y)
if_board-Keeps true b x y p q = p
if_board-Keeps false b x y p q = q

module _ (hw : ℕ → ℕ → ℕ) where
  pub apply_display_state-Keeps : (b : Board) → Keeps b (apply_display_state hw b)
  unfolding apply_display_state
  apply_display_state-Keeps b = elim (Bool-cases (dvi_active b.clocks)) [
    | inl e ↦ rw e (
        Extends-trans (read32-Extends hw b.bus _)
          (Extends-trans (write32-Extends _ _ _) (mask32-Extends hw _ _ _ _)))
    | inr e ↦ rw e (mask32-Extends hw b.bus _ _ _)
  ]

  pub configure_dac-Keeps :
      (b : Board) (format : PixelFormat) → Keeps b (configure_dac hw b format).1
  unfolding configure_dac
  configure_dac-Keeps b format = elim (Option-cases (get_format_info format)) [
    | inl e ↦ rw (e, configure_dac) (read32-Extends hw b.bus _)
    | inr (info, e) ↦
        rw (e, configure_dac)
          (Extends-trans (read32-Extends hw b.bus _) (perform_all-Extends hw _ _))
  ]

  pub program_palette-Keeps :
      (b : Board) (start count : ℕ) (linear : Bool)
      → Keeps b (program_palette hw b start count linear).1
  unfolding program_palette
  program_palette-Keeps b start count linear =
      elim (Bool-cases (leb 256 start || ltb (256 - start) count)) [
        | inl e ↦ rw (e, program_palette) (Extends-refl b.bus)
        | inr e ↦
            rw (e, program_palette)
              (Extends-trans (read_pll-Extends hw b.bus _) (
                Extends-trans (write_pll-Extends _ _ _) (
                  Extends-trans
                    (if-Extends (write_pll _ _ _).0 _ _ _ (perform_all-Extends hw _ _)
                      (Extends-refl _))
                    (write_pll-Extends _ _ _))))
      ]

  wait_atomic_update-Extends : (polls : ℕ) (b : Bus) → Extends b (wait_atomic_update hw polls b).1
  unfolding wait_atomic_update
  wait_atomic_update-Extends zero b = Extends-refl b
  wait_atomic_update-Extends (suc polls) b =
      let one = read_pll-Extends hw b ppll_ref_div in
      let rest = wait_atomic_update-Extends polls (read_pll hw b ppll_ref_div).1 in
      elim (Bool-cases (bit_and (read_pll hw b ppll_ref_div).0 ppll_atomic_update_r == 0)) [
        | inl e ↦ rw (e, wait_atomic_update) one
        | inr e ↦ rw (e, wait_atomic_update) (Extends-trans one rest)
      ]

  perform_stage-Extends : (b : Bus) (s : Stage) → Extends b (perform_stage hw b s).1
  unfolding perform_stage
  perform_stage-Extends b (accesses chain) = perform_all-Extends hw b chain
  perform_stage-Extends b await = wait_atomic_update-Extends 10000 b

  perform_stages-Extends :
      (b : Bus) (stages : List Stage) → Extends b (perform_stages hw b stages).1
  unfolding perform_stages
  perform_stages-Extends b [] = Extends-refl b
  perform_stages-Extends b (s ∷ rest) = elim (Bool-cases (perform_stage hw b s).0) [
    | inl e ↦
        rw (e, perform_stages)
          (Extends-trans (perform_stage-Extends b s)
            (perform_stages-Extends (perform_stage hw b s).1 rest))
    | inr e ↦ rw (e, perform_stages) (perform_stage-Extends b s)
  ]

  select_clock-Extends :
      (b : Bus) (ref_divider feedback code : ℕ)
      → Extends b (select_clock hw b ref_divider feedback code).1
  unfolding select_clock
  select_clock-Extends b ref_divider feedback code =
      let reads = Extends-trans (read_pll-Extends hw b ppll_ref_div) (
        Extends-trans (read_pll-Extends hw _ ppll_div_0) (
          Extends-trans (read_pll-Extends hw _ vclk_ecp_cntl)
            (read_pll-Extends hw _ ppll_ref_div))) in
      let more = Extends-trans reads (read_pll-Extends hw _ ppll_div_0) in
      if_pair-Extends _ b _ _ (Extends-trans more (mask32-Extends hw _ _ _ _))
        (Extends-trans (if-Extends _ b _ _ more reads) (perform_stages-Extends _ _))

  pub program_clock-Keeps : (b : Board) (m : ModeInfo) → Keeps b (program_clock hw b m).1
  unfolding program_clock
  program_clock-Keeps b m = elim (Option-cases (decode_pll m)) [
    | inl e ↦ rw (e, program_clock) (Extends-refl b.bus)
    | inr ((feedback, code), e) ↦
        rw (e, program_clock) (select_clock-Extends b.bus b.clocks.ref_divider feedback code)
  ]

  program_valid-Keeps : (b : Board) (m : ModeInfo) → Keeps b (program_valid hw b m).1
  unfolding program_valid
  program_valid-Keeps b m = elim (Option-cases (get_depth_pixel_width m.depth)) [
    | inl e ↦ rw (e, program_valid) (Extends-refl b.bus)
    | inr (pixel_width, e) ↦ elim (Option-cases (tmds_for b m)) [
      | inl f ↦ rw (e, f, program_valid) (Extends-refl b.bus)
      | inr (tmds_pll, f) ↦
          let programmed = perform_all-Extends hw b.bus (all_accesses b m pixel_width tmds_pll) in
          rw (e, f, program_valid)
            (if-Keeps (perform_all hw b.bus (all_accesses b m pixel_width tmds_pll)).0 b _ _
              (Extends-trans programmed (update_cursor_position-Keeps _)) programmed)
    ]
  ]

  pub program_timing-Keeps :
      (b : Board) (mode : Option ModeInfo) → Keeps b (program_timing hw b mode).1
  unfolding program_timing
  program_timing-Keeps b none = mask32-Extends hw b.bus _ _ _
  program_timing-Keeps b (some m) =
      let masked = mask32-Extends hw b.bus crtc_ext_cntl 0 all_disabled in
      if-Keeps _ b _ _ masked (Extends-trans masked (program_valid-Keeps _ m))
