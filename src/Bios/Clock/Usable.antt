-- ===== src/Bios/Clock/Usable.antt =====
-- The clocks are ones that `CalculatePll` can work with.
use r200_p96_driver.Base.{ℕ, ◌^◌, ◌≤◌, ◌<◌, arith, Option, none, some, bit_and-ones}
use r200_p96_driver.Regs.Clock.{ppll_ref_div}
use r200_p96_driver.Mmio.{Bus, read_pll}
use r200_p96_driver.Display.{Clocks}
use r200_p96_driver.Bios.{Bios}
use r200_p96_driver.Bios.Header.{table_offset, combios_pll_info}
use r200_p96_driver.Bios.Clock.{
  load_clock_info, repaired_clocks, image_clocks, table_clocks, default_clocks,
}

-- No divisor is zero or one, none is wider than its register, and the range is not empty.
pub record IsUsable (c : Clocks) : Type 0 where
  pub reference : 1 ≤ c.ref_clock_khz
  pub divider : (2 ≤ c.ref_divider) × (c.ref_divider ≤ 0x3ff)
  pub range : (1 ≤ c.min_pll_khz) × (c.min_pll_khz ≤ c.max_pll_khz)
  pub words : (c.min_pll_khz < 2 ^ 32) × (c.max_pll_khz < 2 ^ 32)

-- What the table gives before the repair.
record IsWord (c : Clocks) : Type 0 where
  divider : c.ref_divider ≤ 0x3ff
  words : (c.min_pll_khz < 2 ^ 32) × (c.max_pll_khz < 2 ^ 32)

table_clocks-IsWord : (b : Bios) (pll : ℕ) (c : Clocks) → IsWord (table_clocks b pll c)
unfolding table_clocks
table_clocks-IsWord b pll c = record { divider = ground arith; words = ground arith }

default_clocks-IsWord : (c : Clocks) → IsWord (default_clocks c)
default_clocks-IsWord c = record { divider = omega arith; words = omega arith }

image_clocks-IsWord : (image : Option Bios) (c : Clocks) → IsWord (image_clocks image c)
image_clocks-IsWord none c = default_clocks-IsWord c
image_clocks-IsWord (some b) c =
    ground
      (arith, table_clocks-IsWord b (table_offset b combios_pll_info) c, default_clocks-IsWord c)

repaired_clocks-IsUsable : (c : Clocks) → IsWord c → IsUsable (repaired_clocks c)
unfolding repaired_clocks
repaired_clocks-IsUsable c h = ground arith

-- Whatever the image holds and the card answers, or with no image at all, the clocks that
-- `LoadClockInfo` leaves have a reference of at least one kHz, a reference divider from 2 to 1023 and
-- a range that is not empty, and the choice of DVI is left alone.
pub load_clock_info-IsUsable :
    (hw : ℕ → ℕ → ℕ) (bus : Bus) (image : Option Bios) (c : Clocks) (memory_clock : ℕ)
    → IsUsable (load_clock_info hw bus image c memory_clock).0
unfolding load_clock_info
load_clock_info-IsUsable hw bus image c memory_clock = ground (
  arith,
  repaired_clocks-IsUsable (image_clocks image c) (image_clocks-IsWord image c),
  bit_and-ones 10 (read_pll hw bus ppll_ref_div).0,
)
