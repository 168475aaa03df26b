-- ===== src/Bios/Tests.antt =====
-- The theorems on the video BIOS at concrete inputs: a ROM with two images, tables in small images, and
-- a card whose memory controller is idle.
use r200_p96_driver.Base.{
  ℕ, ◌/◌, ◌%◌, ◌≡◌, ◌≤◌, true, false, refl, List, [], ◌∷◌, Option, none, some, ◌==◌, if◌then◌else◌,
  arith, add32, repeat,
}
use r200_p96_driver.Mmio.{Bus}
use r200_p96_driver.Display.{Clocks}
use r200_p96_driver.Display.Pll.{select_tmds_pll}
use r200_p96_driver.Bios.{Rom, Bios, bios16, bios32, bios8}
use r200_p96_driver.Bios.Image.{Roms, select_x86_image, is_image, is_wanted}
use r200_p96_driver.Bios.Image.Selected.{
  Reached, IsImage, IsWanted, select_x86_image_ends, select_x86_image-IsWanted,
}
use r200_p96_driver.Bios.Dvi.{DviInfo, load_dvi_info, pll_rows}
use r200_p96_driver.Bios.Dvi.Selecting.{Selects, select-loaded}
use r200_p96_driver.Bios.Tables.{load_init_table}
use r200_p96_driver.Bios.Tables.Commands.{
  InitCommand, store_direct, mask_direct_by, delay, Holds, obey_all, load_init_table-obey_all,
}
use r200_p96_driver.Bios.Location.{save, is_locatable, set_framebuffer_location}
use r200_p96_driver.Bios.Location.Covered.{Placed, set_framebuffer_location-Placed}
use r200_p96_driver.Bios.Start.{System, Slot, Start, initialize_hardware}
use r200_p96_driver.Bios.Start.Started.{IsEnd, initialize_hardware-IsEnd}
use r200_p96_driver.Bios.Header.{table_offset}

-- Zero but for some bytes.
abbrev bytes_at : List (ℕ × ℕ) → Rom
bytes_at [] i = 0
bytes_at ((at, byte) ∷ rest) i = if i == at then byte else bytes_at rest i

-- An image of 512 bytes.
abbrev one_image : Rom
one_image = bytes_at (
    (0, 0x55)
    ∷ (1, 0xaa)
    ∷ (2, 234)
    ∷ (0x18, 0x1c)
    ∷ (0x1c, 0x50)
    ∷ (0x1d, 0x43)
    ∷ (0x1e, 0x49)
    ∷ (0x1f, 0x52)
    ∷ (0x20, 0x02)
    ∷ (0x21, 0x10)
    ∷ (0x22, 0x61)
    ∷ (0x23, 0x59)
    ∷ (0x2c, 1)
    ∷ [])

-- Two of them, the first for another machine.
abbrev two_images : Roms
two_images = record {
  rom = λ i. if i == 0x30 then 3 else one_image (i % 512);
  allocation_size = 1024;
  device_id = 0x5961;
}

select_x86_image_ends_example :
    (found : Option (ℕ × ℕ)) × (select_x86_image 1025 two_images ≡ some found)
select_x86_image_ends_example = select_x86_image_ends two_images 1025 (omega arith) (omega arith)

second_image : select_x86_image 1025 two_images ≡ some (some (512, 512))
unfolding select_x86_image repeat is_image is_wanted
second_image = refl

select_x86_image-IsWanted_example :
    Reached two_images 512 × IsImage two_images 512 512 × IsWanted two_images 512 512
select_x86_image-IsWanted_example =
    select_x86_image-IsWanted two_images 1025 (omega arith) second_image

abbrev commands : List InitCommand
commands = store_direct 0x40 7 ∷ mask_direct_by 0x44 1 8 ∷ delay 5 ∷ []

abbrev three_entries : Bios
three_entries = record {
  image = bytes_at (
      (2, 0x40)
      ∷ (3, 0x20)
      ∷ (4, 7)
      ∷ (8, 0x44)
      ∷ (9, 0x60)
      ∷ (10, 1)
      ∷ (14, 8)
      ∷ (19, 0x80)
      ∷ (20, 5)
      ∷ []);
  image_size = 24;
  header = 0;
  revision = 4;
  directory_size = 0;
}

commands-Holds : Holds three_entries 2 commands
commands-Holds = (
  refl,
  (omega arith, refl),
  omega arith,
  (refl, (omega arith, refl, refl), omega arith, (refl, refl, omega arith, (refl, omega arith))),
)

abbrev window : Bus
window = record { mapped = true; mmio_size = 0x10000; now = 0; written = [] }

-- All bits of every register are set.
abbrev idle_card : ℕ → ℕ → ℕ
idle_card t reg = 0xffff_ffff

load_init_table-obey_all_example :
    load_init_table idle_card three_entries 2 window ≡ obey_all idle_card window commands
load_init_table-obey_all_example =
    load_init_table-obey_all idle_card three_entries 2 window commands (omega arith) commands-Holds
      (omega arith)

-- A connector for DVI, and two rows.
abbrev with_dvi_tables : Bios
with_dvi_tables = record {
  image = bytes_at (
      (0xb0, 0xd0)
      ∷ (0x94, 0xe0)
      ∷ (0xd3, 0x32)
      ∷ (0xe0, 4)
      ∷ (0xe5, 1)
      ∷ (0xe8, 5)
      ∷ (0xf1, 0x10)
      ∷ (0xf2, 6)
      ∷ (0xfb, 0x40)
      ∷ []);
  image_size = 0x200;
  header = 0x60;
  revision = 9;
  directory_size = 0x60;
}

abbrev two_rows : DviInfo
two_rows = record {
  pll =
      record { limit_10khz = 0x1000; value = 5 } ∷ record { limit_10khz = 0x4000; value = 6 } ∷ [];
  connector_type = 3;
  ddc_type = 2;
}

abbrev dvi_clocks : Clocks
dvi_clocks = record {
  ref_clock_khz = 27000;
  ref_divider = 12;
  min_pll_khz = 125000;
  max_pll_khz = 400000;
  dvi = some two_rows.pll;
}

two_rows-loaded : load_dvi_info with_dvi_tables true true ≡ some two_rows
unfolding load_dvi_info table_offset bios16 bios8 pll_rows bios32
two_rows-loaded = refl

second_row : select_tmds_pll dvi_clocks 100000000 ≡ some 6
unfolding select_tmds_pll
second_row = refl

select-loaded_example :
    (100000000 ≤ 165000000) × Selects two_rows.pll (add32 100000000 5000 / 10000) 6
select-loaded_example =
    select-loaded with_dvi_tables true true two_rows dvi_clocks 100000000 6 two_rows-loaded refl
      second_row

abbrev same_address : ℕ → ℕ
same_address a = a

set_framebuffer_location-Placed_example :
    let (done, bus) =
      set_framebuffer_location idle_card same_address 0x4000_0000 0x0400_0000 window in
    Placed
      (save idle_card window)
      0x4000_0000
      0x0400_0000
      window
      bus
      (is_locatable same_address 0x4000_0000 0x0400_0000)
      done
set_framebuffer_location-Placed_example =
    set_framebuffer_location-Placed idle_card same_address 0x4000_0000 0x0400_0000 window
      record { mapped = refl; large = omega arith }

abbrev system : System
system = record {
  hw = idle_card;
  config = 1;
  rom = λ bus writes. two_images.rom;
  physical = same_address;
  gives_memory = true;
  gives_dvi_memory = true;
}

abbrev slot : Slot
slot = record {
  rom_base = 0x5000_0000;
  rom_size = some 1024;
  device_id = 0x5961;
  memory_space_base = 0x4000_0000;
  dvi_requested = false;
}

abbrev before : Start
before = record {
  bus = window;
  config_writes = [];
  rom_held = false;
  clocks = dvi_clocks;
  memory_clock = 0;
  dvi_info = none;
  installed_vram = 0;
  framebuffer_gpu_base = 0;
  memory_size = 0;
  memory_space_size = 0x0800_0000;
  board_memory_clock = 0;
}

initialize_hardware-IsEnd_example :
    IsEnd system slot 0x0800_0000 (initialize_hardware system slot before)
initialize_hardware-IsEnd_example = initialize_hardware-IsEnd system slot before
