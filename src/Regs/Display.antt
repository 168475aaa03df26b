-- ===== src/Regs/Display.antt =====
-- Registers of the display: timing, sync and framebuffer start.
use r200_p96_driver.Base.{ℕ, ◌*◌, ◌^◌}

abbrev pub crtc_gen_cntl : ℕ
crtc_gen_cntl = 0x0050

abbrev pub crtc_ext_cntl : ℕ
crtc_ext_cntl = 0x0054

abbrev pub crtc_h_total_disp : ℕ
crtc_h_total_disp = 0x0200

abbrev pub crtc_h_sync_strt_wid : ℕ
crtc_h_sync_strt_wid = 0x0204

abbrev pub crtc_v_total_disp : ℕ
crtc_v_total_disp = 0x0208

abbrev pub crtc_v_sync_strt_wid : ℕ
crtc_v_sync_strt_wid = 0x020c

abbrev pub crtc_offset : ℕ
crtc_offset = 0x0224

abbrev pub crtc_offset_cntl : ℕ
crtc_offset_cntl = 0x0228

abbrev pub crtc_pitch : ℕ
crtc_pitch = 0x022c

abbrev pub crtc2_gen_cntl : ℕ
crtc2_gen_cntl = 0x03f8

abbrev pub crtc_pix_width_mask : ℕ
crtc_pix_width_mask = 0x0f * 2 ^ 8

abbrev pub crtc_pix_width_8bpp : ℕ
crtc_pix_width_8bpp = 2 * 2 ^ 8

abbrev pub crtc_pix_width_16bpp : ℕ
crtc_pix_width_16bpp = 4 * 2 ^ 8

abbrev pub crtc_pix_width_32bpp : ℕ
crtc_pix_width_32bpp = 6 * 2 ^ 8

abbrev pub crtc_dbl_scan_en : ℕ
crtc_dbl_scan_en = 2 ^ 0

abbrev pub crtc_ext_disp_en : ℕ
crtc_ext_disp_en = 2 ^ 24

abbrev pub crtc_en : ℕ
crtc_en = 2 ^ 25

abbrev pub crtc_display_dis : ℕ
crtc_display_dis = 2 ^ 10

abbrev pub crtc_hsync_dis : ℕ
crtc_hsync_dis = 2 ^ 8

abbrev pub crtc_vsync_dis : ℕ
crtc_vsync_dis = 2 ^ 9

abbrev pub crtc_crt_on : ℕ
crtc_crt_on = 2 ^ 15

abbrev pub crtc_h_sync_pol : ℕ
crtc_h_sync_pol = 2 ^ 23

abbrev pub crtc_v_sync_pol : ℕ
crtc_v_sync_pol = 2 ^ 23

abbrev pub vga_ati_linear : ℕ
vga_ati_linear = 2 ^ 3

abbrev pub xcrt_cnt_en : ℕ
xcrt_cnt_en = 2 ^ 6

abbrev pub crtc2_en : ℕ
crtc2_en = 2 ^ 25

abbrev pub crtc2_disp_dis : ℕ
crtc2_disp_dis = 2 ^ 23

abbrev pub crtc2_disp_req_en_b : ℕ
crtc2_disp_req_en_b = 2 ^ 26

abbrev pub crtc_cur_en : ℕ
crtc_cur_en = 2 ^ 16

abbrev pub crtc_cur_mode_mask : ℕ
crtc_cur_mode_mask = 7 * 2 ^ 20

abbrev pub crtc_cur_mode_24bpp : ℕ
crtc_cur_mode_24bpp = 2 * 2 ^ 20

abbrev pub cur_offset : ℕ
cur_offset = 0x0260

abbrev pub cur_horz_vert_posn : ℕ
cur_horz_vert_posn = 0x0264

abbrev pub cur_horz_vert_off : ℕ
cur_horz_vert_off = 0x0268

abbrev pub cur_lock : ℕ
cur_lock = 2 ^ 31

abbrev pub crtc_vline_crnt_vline : ℕ
crtc_vline_crnt_vline = 0x0210

abbrev pub crtc_crnt_vline_mask : ℕ
crtc_crnt_vline_mask = 0x07ff * 2 ^ 16
