-- ===== src/Display/Output.antt =====
-- The output stages behind the timing (src/radeon_mode.c: ApplyDisplayState,
-- DisableUnsupportedBlocks, ConfigureDac, ProgramPalette). Each function passes the board on.
use r200_p96_driver.Base.{
  ℕ, zero, suc, ◌+◌, ◌-◌, ◌*◌, ◌^◌, ◌%◌, Bool, true, false, ◌&&◌, ◌||◌, List, [], ◌∷◌, none, some,
  ltb, leb, if◌then◌else◌, bit_and, bit_or, not32,
}
use r200_p96_driver.Regs.Display.{
  crtc_gen_cntl, crtc_ext_cntl, crtc_pix_width_mask, crtc_display_dis, crtc_hsync_dis,
  crtc_vsync_dis,
}
use r200_p96_driver.Regs.Panel.{
  fp_gen_cntl, fpon, fp_tmds_en, dac_cntl, dac_cntl2, dac_ext_cntl, dac_range_cntl_mask,
  dac_blanking, dac_mask_all, dac_8bit_en, dac2_dac_clk_sel, dac2_palette_acc_ctl,
  dac_force_blank_off_en, dac_force_data_en, disp_output_cntl, disp_dac_source_mask,
  disp_merge_cntl, disp_rgb_offset_en, palette_index, palette_30_data,
}
use r200_p96_driver.Regs.Blocks.{
  ovr_clr, ovr_wid_left_right, ovr_wid_top_bottom, ov0_scale_cntl, subpic_cntl, viph_control,
  i2c_cntl_1, gen_int_cntl, cap0_trig_cntl, cap1_trig_cntl, surface_cntl, surface0_info,
  surface1_info, surface2_info, surface3_info, surface4_info, surface5_info, surface6_info,
  surface7_info,
}
use r200_p96_driver.Regs.Clock.{vclk_ecp_cntl, pixclk_dac_always_onb}
use r200_p96_driver.Mmio.{read32, write32, mask32, read_pll, write_pll}
use r200_p96_driver.Mmio.Chain.{Access, put, change, perform_all}
use r200_p96_driver.Display.{Board, Dpms, on, standby, suspend, off, PixelFormat}
use r200_p96_driver.Display.Format.{get_format_info}
use r200_p96_driver.Display.Pll.{dvi_active}

abbrev pub is_on : Dpms → Bool
is_on on = true
is_on standby = false
is_on suspend = false
is_on off = false

-- The sync signals that a level stops.
abbrev pub stopped_syncs : Dpms → ℕ
stopped_syncs on = 0
stopped_syncs standby = crtc_hsync_dis
stopped_syncs suspend = crtc_vsync_dis
stopped_syncs off = bit_or crtc_hsync_dis crtc_vsync_dis

abbrev pub shows : Board → Bool
shows b = b.mode_valid && b.display_enabled && is_on b.dpms_level

-- `disabled`
abbrev pub disabled : Board → ℕ
disabled b = bit_or (if shows b then 0 else crtc_display_dis) (stopped_syncs b.dpms_level)

abbrev pub all_disabled : ℕ
all_disabled = bit_or (bit_or crtc_display_dis crtc_hsync_dis) crtc_vsync_dis

abbrev pub panel_on : ℕ
panel_on = bit_or fpon fp_tmds_en

-- The value for the panel's control register.
abbrev pub panel_value : Board → ℕ → ℕ
panel_value b fp =
    if shows b && b.dvi_timing_ready && b.dvi_format_ready
    then bit_or fp panel_on
    else bit_and fp (not32 panel_on)

-- `DisableUnsupportedBlocks`
abbrev pub disable_unsupported_blocks : List Access
disable_unsupported_blocks =
    put ovr_clr 0
    ∷ put ovr_wid_left_right 0
    ∷ put ovr_wid_top_bottom 0
    ∷ put ov0_scale_cntl 0
    ∷ put subpic_cntl 0
    ∷ put viph_control 0
    ∷ put i2c_cntl_1 0
    ∷ put gen_int_cntl 0
    ∷ put cap0_trig_cntl 0
    ∷ put cap1_trig_cntl 0
    ∷ put surface0_info 0
    ∷ put surface1_info 0
    ∷ put surface2_info 0
    ∷ put surface3_info 0
    ∷ put surface4_info 0
    ∷ put surface5_info 0
    ∷ put surface6_info 0
    ∷ put surface7_info 0
    ∷ []

-- The accesses of `ConfigureDac`, with the value of RADEON_DAC_CNTL.
abbrev pub dac_accesses : ℕ → ℕ → List Access
dac_accesses dac pixel_width =
    put surface_cntl 0
    ∷ change disp_output_cntl disp_dac_source_mask 0
    ∷ change dac_cntl2 (bit_or dac2_dac_clk_sel dac2_palette_acc_ctl) 0
    ∷ change dac_ext_cntl (bit_or dac_force_blank_off_en dac_force_data_en) 0
    ∷ put dac_cntl dac
    ∷ change crtc_gen_cntl crtc_pix_width_mask pixel_width
    ∷ change disp_merge_cntl disp_rgb_offset_en 0
    ∷ []

-- The three components of a palette entry in its 30 bits.
abbrev pub palette_value : Board → Bool → ℕ → ℕ
palette_value b linear index =
    let red = if linear then index % 2 ^ 8 else (b.palette index).red in
    let green = if linear then index % 2 ^ 8 else (b.palette index).green in
    let blue = if linear then index % 2 ^ 8 else (b.palette index).blue in
    bit_or (bit_or (red * 2 ^ 22) (green * 2 ^ 12)) (blue * 2 ^ 2)

-- The writes of the loop of `ProgramPalette`.
pub palette_accesses : Board → Bool → (index count : ℕ) → List Access
palette_accesses b linear index zero = []
palette_accesses b linear index (suc count) =
    put palette_index index
    ∷ put palette_30_data (palette_value b linear index)
    ∷ palette_accesses b linear (index + 1) count

module _ (hw : ℕ → ℕ → ℕ) where
  unfoldable pub apply_display_state : Board → Board
  apply_display_state b =
      let (fp, bus1) = read32 hw b.bus fp_gen_cntl in
      let bus2 =
        if dvi_active b.clocks then (write32 bus1 fp_gen_cntl (panel_value b fp)).1 else b.bus in
      record b { bus = (mask32 hw bus2 crtc_ext_cntl all_disabled (disabled b)).1 }

  unfoldable pub configure_dac : Board → PixelFormat → Bool × Board
  configure_dac b format =
      let (dac, bus1) = read32 hw b.bus dac_cntl in
      elim (get_format_info format) [
        | none ↦ (false, record b { bus = bus1 })
        | some (bytes, pixel_width) ↦
            let kept = bit_and dac (bit_or dac_range_cntl_mask dac_blanking) in
            let value = bit_or kept (bit_or dac_mask_all dac_8bit_en) in
            let (done, bus2) = perform_all hw bus1 (dac_accesses value pixel_width) in
            (done, record b { bus = bus2; dvi_format_ready = done && dvi_active b.clocks })
      ]

  unfoldable pub program_palette : Board → ℕ → ℕ → Bool → Bool × Board
  unfolding palette_accesses
  program_palette b start count linear =
      if leb 256 start || ltb (256 - start) count
      then (false, b)
      else let (saved, bus1) = read_pll hw b.bus vclk_ecp_cntl in
        let (stopped, bus2) =
          write_pll bus1 vclk_ecp_cntl (bit_and saved (not32 pixclk_dac_always_onb)) in
        let (entered, bus3) =
          perform_all hw bus2
            (change dac_cntl2 dac2_palette_acc_ctl 0 ∷ palette_accesses b linear start count) in
        let (restored, bus4) = write_pll (if stopped then bus3 else bus2) vclk_ecp_cntl saved in
        (stopped && entered && restored, record b { bus = bus4 })
