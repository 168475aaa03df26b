-- ===== src/Display/Program.antt =====
-- Programming a mode, its clock and its format (src/radeon_mode.c: WaitAtomicUpdate, ProgramClock,
-- ProgramTiming). A mode is a value: the board keeps the one that it was given.
pub mod Window
use r200_p96_driver.Base.{
  ℕ, zero, suc, ◌+◌, ◌-◌, ◌*◌, ◌/◌, ◌^◌, ◌%◌, Bool, true, false, not, ◌&&◌, ◌||◌, List, [], ◌∷◌,
  ◌++◌, Option, none, some, ltb, leb, ◌==◌, if◌then◌else◌, bit_and, bit_or, not32,
}
use r200_p96_driver.Regs.Display.{
  crtc_gen_cntl, crtc_ext_cntl, crtc_h_total_disp, crtc_h_sync_strt_wid, crtc_v_total_disp,
  crtc_v_sync_strt_wid, crtc_offset_cntl, crtc2_gen_cntl, crtc_dbl_scan_en, crtc_ext_disp_en,
  crtc_en, crtc_crt_on, vga_ati_linear, xcrt_cnt_en, crtc2_en, crtc2_disp_dis, crtc2_disp_req_en_b,
}
use r200_p96_driver.Regs.Panel.{
  fp_gen_cntl, fp_blank_en, fp_panel_format, fp_dont_shadow_vpar, fp_dont_shadow_hend,
  fp_crtc_h_total_disp, fp_crtc_v_total_disp, fp_h_sync_strt_wid, fp_v_sync_strt_wid,
  fp_horz_stretch, fp_vert_stretch, fp_horz_vert_active, tmds_pll_cntl, tmds_transmitter_cntl,
  tmds_pllrst, tmds_pllen,
}
use r200_p96_driver.Regs.Clock.{
  ppll_cntl, ppll_ref_div, ppll_div_0, vclk_ecp_cntl, htotal_cntl, ppll_ref_div_mask,
  ppll_fb3_div_mask, ppll_post3_div_mask, ppll_reset, ppll_sleep, ppll_refclk_sel, ppll_fbclk_sel,
  ppll_atomic_update_en, ppll_vga_atomic_update_en, ppll_atomic_update_r, ppll_atomic_update_w,
  vclk_src_sel_mask, vclk_src_sel_cpuclk, vclk_src_sel_ppllclk, pixclk_always_onb,
  pixclk_dac_always_onb, pll_div_sel,
}
use r200_p96_driver.Mmio.{
  Bus, read32, write32, mask32, read_pll, write_pll, mask_pll, clock_cntl_index,
}
use r200_p96_driver.Mmio.Chain.{Access, put, change, put_pll, change_pll, perform_all}
use r200_p96_driver.Display.{
  Board, Dpms, ModeInfo, PixelFormat, clut, r5g6b5pc, b8g8r8a8, unsupported,
}
use r200_p96_driver.Display.Format.{get_depth_pixel_width}
use r200_p96_driver.Display.Pll.{dvi_active, decode_pll, select_tmds_pll}
use r200_p96_driver.Display.Timing.{
  validate_mode, rows, h_total_display, h_sync, v_total_display, v_sync,
}
use r200_p96_driver.Display.Output.{
  all_disabled, panel_on, disable_unsupported_blocks, apply_display_state, configure_dac,
  program_palette,
}
use r200_p96_driver.Display.Cursor.{update_cursor_position}

-- `crtc` and `ext`
abbrev pub crtc_control : ModeInfo → ℕ → ℕ
crtc_control m pixel_width =
    let crtc = bit_or (bit_or crtc_ext_disp_en crtc_en) pixel_width in
    if m.double_scan then bit_or crtc crtc_dbl_scan_en else crtc

abbrev pub ext_control : Board → ℕ
ext_control b =
    let ext = bit_or (bit_or vga_ati_linear xcrt_cnt_en) all_disabled in
    if dvi_active b.clocks then ext else bit_or ext crtc_crt_on

abbrev pub timing_accesses : ModeInfo → (crtc ext : ℕ) → List Access
timing_accesses m crtc ext =
    change fp_gen_cntl (bit_or panel_on fp_blank_en) 0
    ∷ change crtc2_gen_cntl crtc2_en (bit_or crtc2_disp_dis crtc2_disp_req_en_b)
    ∷ put crtc_gen_cntl crtc
    ∷ put crtc_ext_cntl ext
    ∷ put crtc_h_total_disp (h_total_display m)
    ∷ put crtc_h_sync_strt_wid (h_sync m)
    ∷ put crtc_v_total_disp (v_total_display m)
    ∷ put crtc_v_sync_strt_wid (v_sync m)
    ∷ put crtc_offset_cntl 0
    ∷ []

abbrev pub panel_accesses : ModeInfo → (tmds_pll : ℕ) → List Access
panel_accesses m tmds_pll =
    let kept = bit_or (bit_or fp_panel_format fp_dont_shadow_vpar) fp_dont_shadow_hend in
    put fp_crtc_h_total_disp (h_total_display m)
    ∷ put fp_h_sync_strt_wid (h_sync m)
    ∷ put fp_crtc_v_total_disp (v_total_display m)
    ∷ put fp_v_sync_strt_wid (v_sync m)
    ∷ put fp_horz_stretch ((m.width / 8 - 1) * 2 ^ 16)
    ∷ put fp_vert_stretch ((rows m m.height - 1) * 2 ^ 12)
    ∷ put fp_horz_vert_active 0
    ∷ put tmds_pll_cntl tmds_pll
    ∷ change tmds_transmitter_cntl tmds_pllrst tmds_pllen
    ∷ change fp_gen_cntl (bit_or fp_blank_en kept) kept
    ∷ []

-- The TMDS value where DVI needs one.
abbrev pub tmds_for : Board → ModeInfo → Option ℕ
tmds_for b m = if dvi_active b.clocks then select_tmds_pll b.clocks m.pixel_clock else some 0

-- The accesses behind the checks of `ProgramTiming`.
abbrev pub all_accesses : Board → ModeInfo → (pixel_width tmds_pll : ℕ) → List Access
all_accesses b m pixel_width tmds_pll =
    disable_unsupported_blocks
    ++ timing_accesses m (crtc_control m pixel_width) (ext_control b)
    ++ (if dvi_active b.clocks then panel_accesses m tmds_pll else [])

-- The settings that the chain to the clock begins with, and those around the updates.
abbrev pub clock_setup : (ref_div divider : ℕ) → List Access
clock_setup ref_div divider =
    let updates = bit_or ppll_atomic_update_en ppll_vga_atomic_update_en in
    change_pll vclk_ecp_cntl (not32 vclk_src_sel_mask) vclk_src_sel_cpuclk
    ∷ change_pll ppll_cntl 0xffffffff
        (bit_or (bit_or (bit_or ppll_refclk_sel ppll_fbclk_sel) ppll_reset) updates)
    ∷ change clock_cntl_index pll_div_sel 0
    ∷ put_pll ppll_ref_div ref_div
    ∷ put_pll ppll_div_0 divider
    ∷ put_pll ppll_div_0 divider
    ∷ []

abbrev pub clock_update : List Access
clock_update = change_pll ppll_ref_div 0xffffffff ppll_atomic_update_w ∷ []

abbrev pub clock_release : List Access
clock_release =
    let updates = bit_or ppll_atomic_update_en ppll_vga_atomic_update_en in
    put_pll htotal_cntl 0
    ∷ change_pll ppll_cntl (not32 (bit_or (bit_or ppll_reset ppll_sleep) updates)) 0
    ∷ change_pll vclk_ecp_cntl (not32 vclk_src_sel_mask) vclk_src_sel_ppllclk
    ∷ change_pll vclk_ecp_cntl 0xffffffff (bit_or pixclk_always_onb pixclk_dac_always_onb)
    ∷ []

-- The stages of the `||` chain of `ProgramClock`: accesses, and waits for an update.
pub data Stage : Type 0 where
  accesses : List Access → Stage
  await : Stage

abbrev pub clock_stages : (ref_div divider : ℕ) → List Stage
clock_stages ref_div divider =
    accesses (clock_setup ref_div divider)
    ∷ await
    ∷ accesses clock_update
    ∷ await
    ∷ accesses clock_release
    ∷ []

-- The state that `ProgramTiming` begins with.
abbrev pub invalidated : Board → Board
invalidated b = record b {
  mode_valid = false;
  dvi_timing_ready = false;
  dvi_format_ready = false;
  mode_info = none;
}

-- The board behind a `ProgramTiming` that succeeds.
abbrev pub timed : Board → ModeInfo → Bus → Board
timed b m bus' = update_cursor_position (record b {
  bus = bus';
  dvi_timing_ready = dvi_active b.clocks;
  mode_valid = true;
  mode_info = some m;
  depth = m.depth;
})

module _ (hw : ℕ → ℕ → ℕ) where
  -- `WaitAtomicUpdate`, with the polls left. The delays between them are not modelled.
  pub wait_atomic_update : ℕ → Bus → Bool × Bus
  wait_atomic_update zero b = (false, b)
  wait_atomic_update (suc polls) b =
      let (value, b') = read_pll hw b ppll_ref_div in
      let rest = wait_atomic_update polls b' in
      if bit_and value ppll_atomic_update_r == 0 then (true, b') else rest

  pub perform_stage : Bus → Stage → Bool × Bus
  perform_stage b (accesses chain) = perform_all hw b chain
  perform_stage b await = wait_atomic_update 10000 b

  unfoldable pub perform_stages : Bus → List Stage → Bool × Bus
  perform_stages b [] = (true, b)
  perform_stages b (s ∷ rest) =
      let (done, b') = perform_stage b s in
      elim done [ true ↦ perform_stages b' rest | false ↦ (false, b') ]

  -- `ProgramClock` behind the decoded dividers. The second and third reads that the comparison makes
  -- are made only where the ones before agree.
  unfoldable pub select_clock : Bus → (ref_divider feedback code : ℕ) → Bool × Bus
  select_clock b ref_divider feedback code =
      let (old_ref, b1) = read_pll hw b ppll_ref_div in
      let ref_div = bit_or (bit_and old_ref (not32 ppll_ref_div_mask)) ref_divider in
      let (old_divider, b2) = read_pll hw b1 ppll_div_0 in
      let kept = bit_and old_divider (not32 (bit_or ppll_fb3_div_mask ppll_post3_div_mask)) in
      let divider = bit_or kept (bit_or feedback (code * 2 ^ 16)) in
      let (vclk, b3) = read_pll hw b2 vclk_ecp_cntl in
      let (ref_now, b4) = read_pll hw b3 ppll_ref_div in
      let (divider_now, b5) = read_pll hw b4 ppll_div_0 in
      let compared = if ref_div == ref_now then b5 else b4 in
      if (ref_div == ref_now)
        && (divider == divider_now)
        && (bit_and vclk vclk_src_sel_mask == vclk_src_sel_ppllclk)
      then mask32 hw b5 clock_cntl_index pll_div_sel 0
      else perform_stages compared (clock_stages ref_div divider)

  unfoldable pub program_clock : Board → ModeInfo → Bool × Board
  program_clock b m = elim (decode_pll m) [
    | none ↦ (false, b)
    | some (feedback, code) ↦
        let (done, bus') = select_clock b.bus b.clocks.ref_divider feedback code in
        (done, record b { bus = bus' })
  ]

  -- `ProgramTiming` behind the first write, for a mode that is there and valid.
  unfoldable pub program_valid : Board → ModeInfo → Bool × Board
  program_valid b m = elim (get_depth_pixel_width m.depth) [
    | none ↦ (false, b)
    | some pixel_width ↦ elim (tmds_for b m) [
      | none ↦ (false, b)
      | some tmds_pll ↦
          let (done, bus') = perform_all hw b.bus (all_accesses b m pixel_width tmds_pll) in
          if done then (true, timed b m bus') else (false, record b { bus = bus' })
    ]
  ]

  -- `ProgramTiming`; a mode of `none` is NULL.
  unfoldable pub program_timing : Board → Option ModeInfo → Bool × Board
  program_timing b mode =
      let b0 = invalidated b in
      let (masked, bus') = mask32 hw b0.bus crtc_ext_cntl 0 all_disabled in
      let b1 = record b0 { bus = bus' } in
      elim mode [
        | none ↦ (false, b1)
        | some m ↦ if not masked || not (validate_mode m) then (false, b1) else program_valid b1 m
      ]
