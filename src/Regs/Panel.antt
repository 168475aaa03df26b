-- ===== src/Regs/Panel.antt =====
-- Registers of the digital output, the DAC and the palette.
use r200_p96_driver.Base.{ℕ, ◌*◌, ◌^◌}

abbrev pub fp_gen_cntl : ℕ
fp_gen_cntl = 0x0284

abbrev pub fpon : ℕ
fpon = 2 ^ 0

abbrev pub fp_tmds_en : ℕ
fp_tmds_en = 2 ^ 2

abbrev pub fp_blank_en : ℕ
fp_blank_en = 2 ^ 1

abbrev pub fp_panel_format : ℕ
fp_panel_format = 2 ^ 3

abbrev pub fp_dont_shadow_vpar : ℕ
fp_dont_shadow_vpar = 2 ^ 16

abbrev pub fp_dont_shadow_hend : ℕ
fp_dont_shadow_hend = 2 ^ 17

abbrev pub fp_crtc_h_total_disp : ℕ
fp_crtc_h_total_disp = 0x0250

abbrev pub fp_crtc_v_total_disp : ℕ
fp_crtc_v_total_disp = 0x0254

abbrev pub fp_h_sync_strt_wid : ℕ
fp_h_sync_strt_wid = 0x02c4

abbrev pub fp_v_sync_strt_wid : ℕ
fp_v_sync_strt_wid = 0x02c8

abbrev pub fp_horz_stretch : ℕ
fp_horz_stretch = 0x028c

abbrev pub fp_vert_stretch : ℕ
fp_vert_stretch = 0x0290

abbrev pub fp_horz_vert_active : ℕ
fp_horz_vert_active = 0x0278

abbrev pub tmds_pll_cntl : ℕ
tmds_pll_cntl = 0x02a8

abbrev pub tmds_transmitter_cntl : ℕ
tmds_transmitter_cntl = 0x02a4

abbrev pub tmds_pllrst : ℕ
tmds_pllrst = 2 ^ 1

abbrev pub tmds_pllen : ℕ
tmds_pllen = 2 ^ 0

abbrev pub dac_cntl : ℕ
dac_cntl = 0x0058

abbrev pub dac_cntl2 : ℕ
dac_cntl2 = 0x007c

abbrev pub dac_ext_cntl : ℕ
dac_ext_cntl = 0x0280

abbrev pub dac_range_cntl_mask : ℕ
dac_range_cntl_mask = 0x00000003

abbrev pub dac_blanking : ℕ
dac_blanking = 2 ^ 2

abbrev pub dac_mask_all : ℕ
dac_mask_all = 0xff * 2 ^ 24

abbrev pub dac_8bit_en : ℕ
dac_8bit_en = 2 ^ 8

abbrev pub dac2_dac_clk_sel : ℕ
dac2_dac_clk_sel = 2 ^ 0

abbrev pub dac2_palette_acc_ctl : ℕ
dac2_palette_acc_ctl = 2 ^ 5

abbrev pub dac_force_blank_off_en : ℕ
dac_force_blank_off_en = 2 ^ 4

abbrev pub dac_force_data_en : ℕ
dac_force_data_en = 2 ^ 5

abbrev pub disp_output_cntl : ℕ
disp_output_cntl = 0x0d64

abbrev pub disp_dac_source_mask : ℕ
disp_dac_source_mask = 0x00000003

abbrev pub disp_merge_cntl : ℕ
disp_merge_cntl = 0x0d60

abbrev pub disp_rgb_offset_en : ℕ
disp_rgb_offset_en = 2 ^ 8

abbrev pub palette_index : ℕ
palette_index = 0x00b0

abbrev pub palette_30_data : ℕ
palette_30_data = 0x00b8
