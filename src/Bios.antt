-- ===== src/Bios.antt =====
-- The video BIOS (src/radeon_bios.c): the ROM image as a function from the offset to the byte, and the
-- reads of it that are refused outside the image. A pointer into the ROM is an offset.
pub mod Image
pub mod Header
pub mod Clock
pub mod Dvi
pub mod Tables
pub mod Post
pub mod Location
pub mod Start
mod Tests
use r200_p96_driver.Base.{
  ℕ, ◌+◌, ◌*◌, ◌^◌, ◌-◌, Bool, true, false, not, ◌&&◌, ◌||◌, leb, ltb, ◌==◌, if◌then◌else◌,
}

abbrev pub bios_max_size : ℕ
bios_max_size = 0x0010_0000

abbrev pub bios_min_table : ℕ
bios_min_table = 0x60

abbrev pub bios_header_pointer : ℕ
bios_header_pointer = 0x48

-- The bytes of the allocated copy of the ROM.
abbrev pub Rom : Type 0
Rom = ℕ → ℕ

-- `struct RadeonBios`, once an image is selected: its bytes from its own start.
pub record Bios : Type 0 where
  pub image : Rom
  pub image_size : ℕ
  pub header : ℕ
  pub revision : ℕ
  pub directory_size : ℕ

-- `BiosHas`
abbrev pub bios_has : Bios → (offset size : ℕ) → Bool
bios_has b offset size = leb offset b.image_size && leb size (b.image_size - offset)

-- Two bytes and four bytes at a place, the lowest first.
abbrev pub word16 : Rom → ℕ → ℕ
word16 image offset = image offset + image (offset + 1) * 2 ^ 8

abbrev pub word32 : Rom → ℕ → ℕ
word32 image offset =
    image offset
    + image (offset + 1) * 2 ^ 8
    + image (offset + 2) * 2 ^ 16
    + image (offset + 3) * 2 ^ 24

unfoldable pub bios8 : Bios → ℕ → ℕ
bios8 b offset = if bios_has b offset 1 then b.image offset else 0

unfoldable pub bios16 : Bios → ℕ → ℕ
bios16 b offset = if bios_has b offset 2 then word16 b.image offset else 0

unfoldable pub bios32 : Bios → ℕ → ℕ
bios32 b offset = if bios_has b offset 4 then word32 b.image offset else 0

-- `RomSignatureValid`, of what stands at `offset`, with `size` bytes left.
abbrev pub rom_signature_valid : Rom → (offset size : ℕ) → Bool
rom_signature_valid rom offset size = leb 2 size && rom offset == 0x55 && rom (offset + 1) == 0xaa
