-- ===== src/Bios/Location.antt =====
-- Where the card puts its memory (src/radeon_bios.c: SetFramebufferLocation), and the copy of a ROM
-- that is switched off (CopyDisabledRom). The results of `RadeonWrite32` are not looked at here.
pub mod Located
pub mod Covered
use r200_p96_driver.Base.{
  ℕ, zero, suc, ◌+◌, ◌-◌, ◌*◌, ◌/◌, ◌%◌, ◌^◌, Bool, true, false, not, ◌&&◌, ◌||◌, leb, ltb, ◌==◌,
  if◌then◌else◌, bit_and, bit_or, not32, add32, List, [], ◌∷◌,
}
use r200_p96_driver.Regs.Display.{
  crtc_gen_cntl, crtc2_gen_cntl, crtc_ext_cntl, crtc_en, crtc2_en, crtc_ext_disp_en, crtc_crt_on,
  crtc_display_dis, crtc2_disp_req_en_b,
}
use r200_p96_driver.Regs.Blocks.{viph_control}
use r200_p96_driver.Regs.Engine.{bus_cntl}
use r200_p96_driver.Regs.Post.{
  seprom_cntl1, sck_prescale_mask, viph_en, bus_bios_dis_rom, crtc_disp_req_en_b, crtc_sync_tristat,
  mc_agp_location, mem_str_cntl, mc_idle, mc_fb_location, display_base_addr, display2_base_addr,
  ov0_base_addr,
}
use r200_p96_driver.Cp.Fence.{host_path_cntl}
use r200_p96_driver.Mmio.{Bus, read32, write32}
use r200_p96_driver.Bios.{Rom, rom_signature_valid}

-- Calls of `RadeonWrite32` whose results are dropped.
abbrev pub store_all : Bus → List (ℕ × ℕ) → Bus
store_all bus [] = bus
store_all bus ((reg, value) ∷ rest) = store_all (write32 bus reg value).1 rest

-- The guards of `SetFramebufferLocation`, `physical` being `PromPhysicalAddress`.
unfoldable pub is_locatable : (physical : ℕ → ℕ) → (base aperture : ℕ) → Bool
is_locatable physical base aperture =
    not (base == 0)
    && not (aperture == 0)
    && leb (aperture - 1) (0xffffffff - base)
    && not (physical (base + aperture - 1) == 0)
    && physical (base + aperture - 1) == add32 (physical base) (aperture - 1)
    && bit_and (physical base) 0xffff == 0
    && leb (aperture - 1) (0xffffffff - physical base)
    && ltb ((physical base + aperture - 1) / 2 ^ 16) 0xffff

abbrev pub end_page : (start aperture : ℕ) → ℕ
end_page start aperture = (start + aperture - 1) / 2 ^ 16

abbrev pub location : (start aperture : ℕ) → ℕ
location start aperture = bit_or (start / 2 ^ 16) (end_page start aperture * 2 ^ 16)

-- `newAgp`
abbrev pub new_agp : (agp page : ℕ) → ℕ
new_agp agp page = if bit_and agp 0xffff == page + 1 then agp else bit_or (page * 2 ^ 16) (page + 1)

abbrev pub idle_polls : ℕ
idle_polls = 100000

-- What the function reads before it writes.
pub record Saved : Type 0 where
  pub crtc : ℕ
  pub crtc2 : ℕ
  pub ext : ℕ
  pub host : ℕ
  pub agp : ℕ
  pub bus : Bus

-- The display is blanked and the host path shut.
abbrev pub blanking : Saved → List (ℕ × ℕ)
blanking s =
    (crtc_gen_cntl, bit_or s.crtc crtc_disp_req_en_b)
    ∷ (crtc2_gen_cntl, bit_or s.crtc2 crtc2_disp_req_en_b)
    ∷ (crtc_ext_cntl, bit_or s.ext crtc_display_dis)
    ∷ (host_path_cntl, 0)
    ∷ []

-- The controller does not come to rest: all is put back.
abbrev pub putting_back : Saved → List (ℕ × ℕ)
putting_back s =
    (host_path_cntl, s.host)
    ∷ (mc_agp_location, s.agp)
    ∷ (crtc_gen_cntl, s.crtc)
    ∷ (crtc2_gen_cntl, s.crtc2)
    ∷ (crtc_ext_cntl, s.ext)
    ∷ []

-- The new place of the memory, and the display as it was.
abbrev pub locating : Saved → (start aperture : ℕ) → List (ℕ × ℕ)
locating s start aperture =
    (mc_fb_location, location start aperture)
    ∷ (mc_agp_location, new_agp s.agp (end_page start aperture))
    ∷ (display_base_addr, start)
    ∷ (display2_base_addr, start)
    ∷ (ov0_base_addr, start)
    ∷ (crtc_gen_cntl, s.crtc)
    ∷ (crtc2_gen_cntl, s.crtc2)
    ∷ (crtc_ext_cntl, s.ext)
    ∷ []

-- What follows the wait.
unfoldable pub settle : Saved → (start aperture : ℕ) → Bool × Bus → Bool × Bus
settle s start aperture (false, bus) = (false, store_all bus (putting_back s))
settle s start aperture (true, bus) = (true, store_all bus (locating s start aperture))

-- The six registers that `CopyDisabledRom` changes, as it reads them.
pub record Switches : Type 0 where
  pub seprom : ℕ
  pub viph : ℕ
  pub host : ℕ
  pub crtc : ℕ
  pub crtc2 : ℕ
  pub ext : ℕ
  pub bus : Bus

abbrev pub enabling_rom : Switches → List (ℕ × ℕ)
enabling_rom s =
    (seprom_cntl1, bit_or (bit_and s.seprom (not32 sck_prescale_mask)) (0x0c * 2 ^ 24))
    ∷ (viph_control, bit_and s.viph (not32 viph_en))
    ∷ (bus_cntl, bit_and s.host (not32 bus_bios_dis_rom))
    ∷ (
      crtc_gen_cntl,
      bit_or (bit_or (bit_and s.crtc (not32 crtc_en)) crtc_disp_req_en_b) crtc_ext_disp_en,
    )
    ∷ (crtc2_gen_cntl, bit_or (bit_and s.crtc2 (not32 crtc2_en)) crtc2_disp_req_en_b)
    ∷ (
      crtc_ext_cntl,
      bit_or (bit_or (bit_and s.ext (not32 crtc_crt_on)) crtc_sync_tristat) crtc_display_dis,
    )
    ∷ []

abbrev pub restoring_switches : Switches → List (ℕ × ℕ)
restoring_switches s =
    (crtc_ext_cntl, s.ext)
    ∷ (crtc2_gen_cntl, s.crtc2)
    ∷ (crtc_gen_cntl, s.crtc)
    ∷ (bus_cntl, s.host)
    ∷ (viph_control, s.viph)
    ∷ (seprom_cntl1, s.seprom)
    ∷ []

module _ (hw : ℕ → ℕ → ℕ) where
  -- The wait for the memory controller.
  unfoldable pub wait_controller_idle : (count : ℕ) → Bus → Bool × Bus
  wait_controller_idle zero bus = (false, bus)
  wait_controller_idle (suc count) bus =
      let (value, bus') = read32 hw bus mem_str_cntl in
      elim (bit_and value mc_idle == 0) [
        | false ↦ (true, bus')
        | true ↦ wait_controller_idle count bus'
      ]

  unfoldable pub save : Bus → Saved
  save bus =
      let (crtc, b1) = read32 hw bus crtc_gen_cntl in
      let (crtc2, b2) = read32 hw b1 crtc2_gen_cntl in
      let (ext, b3) = read32 hw b2 crtc_ext_cntl in
      let (host, b4) = read32 hw b3 host_path_cntl in
      let (agp, b5) = read32 hw b4 mc_agp_location in
      record { crtc = crtc; crtc2 = crtc2; ext = ext; host = host; agp = agp; bus = b5 }

  -- `SetFramebufferLocation`. On success `data->FramebufferGpuBase` is `physical base`.
  unfoldable pub set_framebuffer_location :
      (physical : ℕ → ℕ) → (base aperture : ℕ) → Bus → Bool × Bus
  set_framebuffer_location physical base aperture bus =
      let s = save bus in
      if not (is_locatable physical base aperture)
      then (false, bus)
      else settle s (physical base) aperture
          (wait_controller_idle idle_polls (store_all s.bus (blanking s)))

  unfoldable pub read_switches : Bus → Switches
  read_switches bus =
      let (seprom, b1) = read32 hw bus seprom_cntl1 in
      let (viph, b2) = read32 hw b1 viph_control in
      let (host, b3) = read32 hw b2 bus_cntl in
      let (crtc, b4) = read32 hw b3 crtc_gen_cntl in
      let (crtc2, b5) = read32 hw b4 crtc2_gen_cntl in
      let (ext, b6) = read32 hw b5 crtc_ext_cntl in
      record {
        seprom = seprom;
        viph = viph;
        host = host;
        crtc = crtc;
        crtc2 = crtc2;
        ext = ext;
        bus = b6;
      }

  -- `CopyDisabledRom`: whether the copy has the signature, the copy, and the bus. `read_rom` is what
  -- the window of the ROM shows behind the accesses that the bus has seen.
  unfoldable pub copy_disabled_rom : (read_rom : Bus → Rom) → (size : ℕ) → Bus → Bool × Rom × Bus
  copy_disabled_rom read_rom size bus =
      let s = read_switches bus in
      let enabled = store_all s.bus (enabling_rom s) in
      let copy = read_rom enabled in
      (rom_signature_valid copy 0 size, copy, store_all enabled (restoring_switches s))
