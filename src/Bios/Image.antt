-- ===== src/Bios/Image.antt =====
-- The image for this machine among those in the ROM (src/radeon_bios.c: SelectX86Image).
pub mod Selected
use r200_p96_driver.Base.{
  ℕ, zero, suc, ◌+◌, ◌*◌, ◌^◌, ◌-◌, ◌%◌, Bool, true, false, not, ◌&&◌, ◌||◌, leb, ltb, ◌==◌,
  if◌then◌else◌, bit_and, add32, Option, none, some, ◌⊎◌, inl, inr, repeat,
}
use r200_p96_driver.Bios.{Rom, word16, rom_signature_valid}

abbrev pub vendor_ati : ℕ
vendor_ati = 0x1002

-- What the loop looks at: the images from `offset` on.
pub record Roms : Type 0 where
  pub rom : Rom
  pub allocation_size : ℕ
  pub device_id : ℕ

abbrev pub pcir_at : Rom → ℕ → ℕ
pcir_at rom offset = word16 rom (offset + 0x18)

abbrev pub has_pcir : Rom → ℕ → Bool
has_pcir rom pcir =
    rom pcir == 0x50 && rom (pcir + 1) == 0x43 && rom (pcir + 2) == 0x49 && rom (pcir + 3) == 0x52

-- `(ULONG)blocks * 512UL`
abbrev pub image_bytes : Rom → ℕ → ℕ
image_bytes rom pcir = word16 rom (pcir + 0x10) * 512

-- `for (index = 0; index < imageSize; ++index) checksum += image[index];`
unfoldable pub checksum_from : Rom → (offset sum count : ℕ) → ℕ
checksum_from rom offset sum zero = sum
checksum_from rom offset sum (suc count) =
    checksum_from rom (offset + 1) (add32 sum (rom offset)) count

-- The PCI data structure stands inside the image and gives it a size.
unfoldable pub is_image : Roms → (offset remaining : ℕ) → Bool
is_image r offset remaining =
    rom_signature_valid r.rom offset remaining
    && leb (pcir_at r.rom offset) remaining
    && leb 0x18 (remaining - pcir_at r.rom offset)
    && has_pcir r.rom (offset + pcir_at r.rom offset)
    && not (word16 r.rom (offset + pcir_at r.rom offset + 0x10) == 0)
    && leb (image_bytes r.rom (offset + pcir_at r.rom offset)) remaining

-- The image is one for x86, of this card, and sums up to zero.
unfoldable pub is_wanted : Roms → (offset : ℕ) → Bool
unfolding checksum_from
is_wanted r offset =
    let pcir = offset + pcir_at r.rom offset in
    word16 r.rom (pcir + 4) == vendor_ati
    && word16 r.rom (pcir + 6) == r.device_id
    && r.rom (pcir + 0x14) == 0
    && bit_and (checksum_from r.rom offset 0 (image_bytes r.rom pcir)) 0xff == 0

abbrev pub is_last : Roms → (offset : ℕ) → Bool
is_last r offset = not (bit_and (r.rom (offset + pcir_at r.rom offset + 0x15)) 0x80 == 0)

abbrev pub size_at : Roms → (offset : ℕ) → ℕ
size_at r offset = image_bytes r.rom (offset + pcir_at r.rom offset)

-- A round of the loop: the result, the offset and the size of an image, or the next offset.
unfoldable pub try_image : Roms → (offset : ℕ) → Option (ℕ × ℕ) ⊎ ℕ
try_image r offset =
    if not (leb offset r.allocation_size && leb 0x1c (r.allocation_size - offset))
    then inl none
    else if not (is_image r offset (r.allocation_size - offset))
    then inl none
    else if is_wanted r offset
    then inl (some (offset, size_at r offset))
    else if is_last r offset
    then inl none
    else inr (add32 offset (size_at r offset))

-- `SelectX86Image`, with fuel; `select_x86_image_ends` says how much is enough.
unfoldable pub select_x86_image : ℕ → Roms → Option (Option (ℕ × ℕ))
unfolding try_image
select_x86_image fuel r = repeat fuel (try_image r) 0
