-- ===== src/Regs/Clock.antt =====
-- Registers behind the PLL index.
use r200_p96_driver.Base.{ℕ, ◌*◌, ◌^◌}

abbrev pub ppll_cntl : ℕ
ppll_cntl = 0x0002

abbrev pub ppll_ref_div : ℕ
ppll_ref_div = 0x0003

abbrev pub ppll_div_0 : ℕ
ppll_div_0 = 0x0004

abbrev pub vclk_ecp_cntl : ℕ
vclk_ecp_cntl = 0x0008

abbrev pub htotal_cntl : ℕ
htotal_cntl = 0x0009

abbrev pub ppll_ref_div_mask : ℕ
ppll_ref_div_mask = 0x000003ff

abbrev pub ppll_fb3_div_mask : ℕ
ppll_fb3_div_mask = 0x000007ff

abbrev pub ppll_post3_div_mask : ℕ
ppll_post3_div_mask = 0x00070000

abbrev pub ppll_reset : ℕ
ppll_reset = 2 ^ 0

abbrev pub ppll_sleep : ℕ
ppll_sleep = 2 ^ 1

abbrev pub ppll_refclk_sel : ℕ
ppll_refclk_sel = 2 ^ 4

abbrev pub ppll_fbclk_sel : ℕ
ppll_fbclk_sel = 2 ^ 5

abbrev pub ppll_atomic_update_en : ℕ
ppll_atomic_update_en = 2 ^ 16

abbrev pub ppll_vga_atomic_update_en : ℕ
ppll_vga_atomic_update_en = 2 ^ 17

abbrev pub ppll_atomic_update_r : ℕ
ppll_atomic_update_r = 2 ^ 15

abbrev pub ppll_atomic_update_w : ℕ
ppll_atomic_update_w = 2 ^ 15

abbrev pub vclk_src_sel_mask : ℕ
vclk_src_sel_mask = 0x00000003

abbrev pub vclk_src_sel_cpuclk : ℕ
vclk_src_sel_cpuclk = 0x00000000

abbrev pub vclk_src_sel_ppllclk : ℕ
vclk_src_sel_ppllclk = 0x00000003

abbrev pub pixclk_always_onb : ℕ
pixclk_always_onb = 2 ^ 6

abbrev pub pixclk_dac_always_onb : ℕ
pixclk_dac_always_onb = 2 ^ 7

abbrev pub pll_div_sel : ℕ
pll_div_sel = 3 * 2 ^ 8
