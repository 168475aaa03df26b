-- ===== src/Regs/Engine.antt =====
-- Registers of the command processor and the 2D engine.
use r200_p96_driver.Base.{ℕ, ◌*◌, ◌^◌}

abbrev pub cp_csq_cntl : ℕ
cp_csq_cntl = 0x0740

abbrev pub cp_csq_mode : ℕ
cp_csq_mode = 0x0744

abbrev pub cp_rb_cntl : ℕ
cp_rb_cntl = 0x0704

abbrev pub cp_rb_base : ℕ
cp_rb_base = 0x0700

abbrev pub cp_rb_rptr_addr : ℕ
cp_rb_rptr_addr = 0x070c

abbrev pub cp_rb_rptr_wr : ℕ
cp_rb_rptr_wr = 0x071c

abbrev pub cp_rb_wptr_delay : ℕ
cp_rb_wptr_delay = 0x0718

abbrev pub cp_me_ram_addr : ℕ
cp_me_ram_addr = 0x07d4

abbrev pub cp_me_ram_datah : ℕ
cp_me_ram_datah = 0x07dc

abbrev pub cp_me_ram_datal : ℕ
cp_me_ram_datal = 0x07e0

abbrev pub scratch_addr : ℕ
scratch_addr = 0x0774

abbrev pub scratch_umsk : ℕ
scratch_umsk = 0x0770

abbrev pub rbbm_soft_reset : ℕ
rbbm_soft_reset = 0x00f0

abbrev pub soft_reset_cp : ℕ
soft_reset_cp = 2 ^ 0

abbrev pub soft_reset_hi : ℕ
soft_reset_hi = 2 ^ 1

abbrev pub soft_reset_se : ℕ
soft_reset_se = 2 ^ 2

abbrev pub soft_reset_re : ℕ
soft_reset_re = 2 ^ 3

abbrev pub soft_reset_pp : ℕ
soft_reset_pp = 2 ^ 4

abbrev pub soft_reset_e2 : ℕ
soft_reset_e2 = 2 ^ 5

abbrev pub soft_reset_rb : ℕ
soft_reset_rb = 2 ^ 6

abbrev pub hdp_soft_reset : ℕ
hdp_soft_reset = 2 ^ 26

abbrev pub cp_cmdstrm_busy : ℕ
cp_cmdstrm_busy = 2 ^ 16

abbrev pub rb_no_update : ℕ
rb_no_update = 2 ^ 27

abbrev pub rb_rptr_wr_ena : ℕ
rb_rptr_wr_ena = 2 ^ 31

abbrev pub csq_pribm_indbm : ℕ
csq_pribm_indbm = 4 * 2 ^ 28

abbrev pub isync_cntl : ℕ
isync_cntl = 0x1724

abbrev pub isync_any2d_idle3d : ℕ
isync_any2d_idle3d = 2 ^ 0

abbrev pub isync_any3d_idle2d : ℕ
isync_any3d_idle2d = 2 ^ 1

abbrev pub isync_wait_idlegui : ℕ
isync_wait_idlegui = 2 ^ 4

abbrev pub isync_cpscratch_idlegui : ℕ
isync_cpscratch_idlegui = 2 ^ 5

abbrev pub bus_cntl : ℕ
bus_cntl = 0x0030

abbrev pub bus_master_dis : ℕ
bus_master_dis = 2 ^ 6

abbrev pub rb3d_cntl : ℕ
rb3d_cntl = 0x1c3c

abbrev pub rb2d_dstcache_mode : ℕ
rb2d_dstcache_mode = 0x3428

abbrev pub dp_datatype : ℕ
dp_datatype = 0x16c4

abbrev pub host_big_endian_en : ℕ
host_big_endian_en = 2 ^ 29

abbrev pub default_pitch_offset : ℕ
default_pitch_offset = 0x16e0

abbrev pub default_sc_bottom_right : ℕ
default_sc_bottom_right = 0x16e8

abbrev pub scissor_max : ℕ
scissor_max = 0x1fff1fff

abbrev pub sc_top_left : ℕ
sc_top_left = 0x16ec

abbrev pub sc_bottom_right : ℕ
sc_bottom_right = 0x16f0

abbrev pub dp_brush_frgd_clr : ℕ
dp_brush_frgd_clr = 0x147c

abbrev pub dp_brush_bkgd_clr : ℕ
dp_brush_bkgd_clr = 0x1478

abbrev pub dp_src_frgd_clr : ℕ
dp_src_frgd_clr = 0x15d8

abbrev pub dp_src_bkgd_clr : ℕ
dp_src_bkgd_clr = 0x15dc

abbrev pub dp_write_mask : ℕ
dp_write_mask = 0x16cc

abbrev pub dp_cntl : ℕ
dp_cntl = 0x16c0

abbrev pub dst_x_left_to_right : ℕ
dst_x_left_to_right = 2 ^ 0

abbrev pub dst_y_top_to_bottom : ℕ
dst_y_top_to_bottom = 2 ^ 1

abbrev pub dstcache_ctlstat : ℕ
dstcache_ctlstat = 0x1714

abbrev pub rb2d_dc_flush_all : ℕ
rb2d_dc_flush_all = 0x00000005

abbrev pub rb2d_dc_busy : ℕ
rb2d_dc_busy = 2 ^ 31
