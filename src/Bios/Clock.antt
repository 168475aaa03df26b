-- ===== src/Bios/Clock.antt =====
-- The clocks of the PLL (src/radeon_bios.c: LoadClockInfo).
pub mod Usable
use r200_p96_driver.Base.{
  ℕ, ◌+◌, ◌*◌, ◌^◌, ◌%◌, ◌-◌, Bool, true, false, not, ◌&&◌, ◌||◌, leb, ltb, ◌==◌, if◌then◌else◌,
  mul32, bit_and, Option, none, some,
}
use r200_p96_driver.Regs.Clock.{ppll_ref_div, ppll_ref_div_mask}
use r200_p96_driver.Mmio.{Bus, read_pll}
use r200_p96_driver.Display.{Clocks}
use r200_p96_driver.Bios.{Bios, bios_has, bios16, bios32}
use r200_p96_driver.Bios.Header.{table_offset, combios_pll_info}

-- What the table says where it is not zero.
abbrev pub unless_zero : ℕ → ℕ → ℕ
unless_zero value default = if value == 0 then default else value

abbrev pub default_clocks : Clocks → Clocks
default_clocks c = record c {
  ref_clock_khz = 27000;
  ref_divider = 12;
  min_pll_khz = 125000;
  max_pll_khz = 400000;
}

-- The table of the PLL at `pll`.
unfoldable pub table_clocks : Bios → ℕ → Clocks → Clocks
table_clocks b pll c =
    let divider = bios16 b (pll + 0x10) in
    record c {
      ref_clock_khz = unless_zero (bios16 b (pll + 0x0e) * 10) 27000;
      ref_divider = if leb 2 divider && leb divider ppll_ref_div_mask then divider else 12;
      min_pll_khz = unless_zero (mul32 (bios32 b (pll + 0x12)) 10) 125000;
      max_pll_khz = unless_zero (mul32 (bios32 b (pll + 0x16)) 10) 400000;
    }

unfoldable pub repaired_clocks : Clocks → Clocks
repaired_clocks c =
    if (c.ref_clock_khz == 0)
      || ltb c.ref_divider 2
      || (c.min_pll_khz == 0)
      || ltb c.max_pll_khz c.min_pll_khz
    then default_clocks c
    else c

abbrev pub has_pll_table : Bios → Bool
has_pll_table b = let pll = table_offset b combios_pll_info in not (pll == 0) && bios_has b pll 0x1a

abbrev pub image_clocks : Option Bios → Clocks → Clocks
image_clocks none c = default_clocks c
image_clocks (some b) c =
    if has_pll_table b then table_clocks b (table_offset b combios_pll_info) c else default_clocks c

abbrev pub image_memory_clock : Option Bios → ℕ → ℕ
image_memory_clock none old = old
image_memory_clock (some b) old =
    if has_pll_table b then bios16 b (table_offset b combios_pll_info + 8) * 10000 else old

-- `LoadClockInfo`: the clocks, the clock of the memory, and the bus.
unfoldable pub load_clock_info :
    (hw : ℕ → ℕ → ℕ) → Bus → Option Bios → Clocks → (memory_clock_hz : ℕ) → Clocks × ℕ × Bus
unfolding repaired_clocks
load_clock_info hw bus image c memory_clock =
    let (value, bus') = read_pll hw bus ppll_ref_div in
    let hardware = bit_and value ppll_ref_div_mask in
    let loaded = repaired_clocks (image_clocks image c) in
    (
      if leb 2 hardware then record loaded { ref_divider = hardware } else loaded,
      image_memory_clock image memory_clock,
      bus',
    )
