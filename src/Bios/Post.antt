-- ===== src/Bios/Post.antt =====
-- Starting a card that nothing has started (src/radeon_bios.c: PostCard, IsPosted).
use r200_p96_driver.Base.{
  ℕ, Bool, true, false, not, ◌||◌, ltb, ◌==◌, if◌then◌else◌, bit_and, bit_or, List, [], ◌∷◌,
}
use r200_p96_driver.Regs.Display.{crtc_gen_cntl, crtc2_gen_cntl, crtc_en}
use r200_p96_driver.Regs.Post.{config_memsize}
use r200_p96_driver.Mmio.{Bus, read32, write32}
use r200_p96_driver.Bios.{Bios}
use r200_p96_driver.Bios.Header.{
  table_offset, misc_table_offset, combios_asic_init_1, combios_asic_init_2, combios_pll_init,
  combios_mem_config, combios_dyn_clock,
}
use r200_p96_driver.Bios.Tables.{find_ram_reset_table, load_init_table, load_pll_table, reset_sdram}

-- `a(...) && b(...)`: each only where those before it succeed.
unfoldable pub run_all : List (Bus → Bool × Bus) → Bus → Bool × Bus
run_all [] bus = (true, bus)
run_all (f ∷ rest) bus =
    let (done, bus') = f bus in elim done [ true ↦ run_all rest bus' | false ↦ (false, bus') ]

-- `if (biosMemory && !RadeonWrite32(...)) return FALSE;`
abbrev pub store_memory_size : (bios_memory : ℕ) → Bus → Bool × Bus
store_memory_size bios_memory bus =
    if bios_memory == 0 then (true, bus) else write32 bus config_memsize bios_memory

module _ (hw : ℕ → ℕ → ℕ) where
  -- The tables of an image older than revision 9.
  pub post_old_card : Bios → (bios_memory : ℕ) → Bus → Bool × Bus
  post_old_card b bios_memory = run_all (
      load_pll_table hw b (table_offset b combios_pll_init)
      ∷ load_init_table hw b (table_offset b combios_asic_init_2)
      ∷ load_init_table hw b (misc_table_offset b 5)
      ∷ reset_sdram hw b (find_ram_reset_table b (table_offset b combios_mem_config))
      ∷ load_init_table hw b (misc_table_offset b 3)
      ∷ store_memory_size bios_memory
      ∷ load_pll_table hw b (table_offset b combios_dyn_clock)
      ∷ [])

  -- What follows the first table.
  pub post_rest : Bios → (bios_memory : ℕ) → Bus → Bool × Bus
  unfolding post_old_card
  post_rest b bios_memory bus =
      if ltb b.revision 9 then post_old_card b bios_memory bus else (true, bus)

  -- `PostCard`
  pub post_card : Bios → (bios_memory : ℕ) → Bus → Bool × Bus
  unfolding post_rest
  post_card b bios_memory bus =
      let asic1 = table_offset b combios_asic_init_1 in
      if asic1 == 0
      then (false, bus)
      else run_all (load_init_table hw b asic1 ∷ post_rest b bios_memory ∷ []) bus

  -- `IsPosted`
  unfoldable pub is_posted : Bus → Bool × Bus
  is_posted bus =
      let (crtc, b1) = read32 hw bus crtc_gen_cntl in
      let (crtc2, b2) = read32 hw b1 crtc2_gen_cntl in
      let (memory, b3) = read32 hw b2 config_memsize in
      (not (bit_and (bit_or crtc crtc2) crtc_en == 0) || not (memory == 0), b3)
