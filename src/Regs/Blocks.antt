-- ===== src/Regs/Blocks.antt =====
-- Registers of blocks that the driver switches off.
use r200_p96_driver.Base.{ℕ}

abbrev pub ovr_clr : ℕ
ovr_clr = 0x0230

abbrev pub ovr_wid_left_right : ℕ
ovr_wid_left_right = 0x0234

abbrev pub ovr_wid_top_bottom : ℕ
ovr_wid_top_bottom = 0x0238

abbrev pub ov0_scale_cntl : ℕ
ov0_scale_cntl = 0x0420

abbrev pub subpic_cntl : ℕ
subpic_cntl = 0x0540

abbrev pub viph_control : ℕ
viph_control = 0x0c40

abbrev pub i2c_cntl_1 : ℕ
i2c_cntl_1 = 0x0094

abbrev pub gen_int_cntl : ℕ
gen_int_cntl = 0x0040

abbrev pub cap0_trig_cntl : ℕ
cap0_trig_cntl = 0x0950

abbrev pub cap1_trig_cntl : ℕ
cap1_trig_cntl = 0x09c0

abbrev pub surface_cntl : ℕ
surface_cntl = 0x0b00

abbrev pub surface0_info : ℕ
surface0_info = 0x0b0c

abbrev pub surface1_info : ℕ
surface1_info = 0x0b1c

abbrev pub surface2_info : ℕ
surface2_info = 0x0b2c

abbrev pub surface3_info : ℕ
surface3_info = 0x0b3c

abbrev pub surface4_info : ℕ
surface4_info = 0x0b4c

abbrev pub surface5_info : ℕ
surface5_info = 0x0b5c

abbrev pub surface6_info : ℕ
surface6_info = 0x0b6c

abbrev pub surface7_info : ℕ
surface7_info = 0x0b7c
