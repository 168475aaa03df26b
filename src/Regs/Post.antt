-- ===== src/Regs/Post.antt =====
-- Registers of the memory controller, the ROM and the clocks that start the card.
use r200_p96_driver.Base.{ℕ, ◌*◌, ◌^◌}

abbrev pub seprom_cntl1 : ℕ
seprom_cntl1 = 0x01c0

abbrev pub sck_prescale_mask : ℕ
sck_prescale_mask = 0xff * 2 ^ 24

abbrev pub viph_en : ℕ
viph_en = 2 ^ 21

abbrev pub bus_bios_dis_rom : ℕ
bus_bios_dis_rom = 2 ^ 12

abbrev pub crtc_disp_req_en_b : ℕ
crtc_disp_req_en_b = 2 ^ 26

abbrev pub crtc_sync_tristat : ℕ
crtc_sync_tristat = 2 ^ 11

abbrev pub clk_pwrmgt_cntl : ℕ
clk_pwrmgt_cntl = 0x0014

abbrev pub mc_busy : ℕ
mc_busy = 2 ^ 16

abbrev pub mem_str_cntl : ℕ
mem_str_cntl = 0x0150

abbrev pub mem_pwrup_complete : ℕ
mem_pwrup_complete = 0x00000003

abbrev pub dll_ready : ℕ
dll_ready = 2 ^ 19

abbrev pub clk_pwrmgt_cntl24 : ℕ
clk_pwrmgt_cntl24 = 2 ^ 24

abbrev pub mclk_cntl : ℕ
mclk_cntl = 0x0012

abbrev pub set_all_srcs_to_pci : ℕ
set_all_srcs_to_pci = 0x00001111

abbrev pub mem_sdram_mode_reg : ℕ
mem_sdram_mode_reg = 0x0158

abbrev pub sdram_mode_mask : ℕ
sdram_mode_mask = 0xffff0000

abbrev pub b3mem_reset_mask : ℕ
b3mem_reset_mask = 0x6fffffff

abbrev pub config_memsize : ℕ
config_memsize = 0x00f8

abbrev pub mc_agp_location : ℕ
mc_agp_location = 0x014c

abbrev pub mc_idle : ℕ
mc_idle = 2 ^ 2

abbrev pub mc_fb_location : ℕ
mc_fb_location = 0x0148

abbrev pub display_base_addr : ℕ
display_base_addr = 0x023c

abbrev pub display2_base_addr : ℕ
display2_base_addr = 0x033c

abbrev pub ov0_base_addr : ℕ
ov0_base_addr = 0x043c

abbrev pub config_aper_size : ℕ
config_aper_size = 0x0108
