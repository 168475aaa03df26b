-- ===== src/Bios/Image/Selected.antt =====
-- Which image is selected.
use r200_p96_driver.Base.{
  ℕ, zero, suc, ◌+◌, ◌^◌, ◌-◌, ◌%◌, ◌≤◌, ◌<◌, ◌≡◌, refl, true, false, bit_and-ones, add32, Option,
  none, some, inl, inr, repeat_ends, repeat_returns, arith,
}
use r200_p96_driver.Bios.{Rom, word16}
use r200_p96_driver.Bios.Image.{
  Roms, vendor_ati, pcir_at, image_bytes, checksum_from, is_image, is_wanted, is_last, size_at,
  try_image, select_x86_image,
}

-- The sum of `count` bytes from `offset` on.
abbrev pub byte_sum : Rom → (offset count : ℕ) → ℕ
byte_sum rom offset zero = 0
byte_sum rom offset (suc count) = rom offset + byte_sum rom (offset + 1) count

checksum_from_lem :
    (rom : Rom) (offset sum count : ℕ)
    → sum < 2 ^ 32
    → checksum_from rom offset sum count ≡ (sum + byte_sum rom offset count) % 2 ^ 32
unfolding checksum_from
checksum_from_lem rom offset sum zero h = omega arith
checksum_from_lem rom offset sum (suc count) h =
    omega (arith, checksum_from_lem rom (offset + 1) (add32 sum (rom offset)) count (omega arith))

-- An image at `offset`, `size` bytes long, inside the ROM, with both signatures.
pub record IsImage (r : Roms) (offset size : ℕ) : Type 0 where
  pub inside : offset + size ≤ r.allocation_size
  pub whole_blocks : (size % 512 ≡ 0) × (512 ≤ size)
  pub signature : (r.rom offset ≡ 0x55) × (r.rom (offset + 1) ≡ 0xaa)
  pub pcir_inside : offset + pcir_at r.rom offset + 0x18 ≤ r.allocation_size
  pub pcir_signature :
      let pcir = offset + pcir_at r.rom offset in
      (r.rom pcir ≡ 0x50)
      × (r.rom (pcir + 1) ≡ 0x43)
      × (r.rom (pcir + 2) ≡ 0x49)
      × (r.rom (pcir + 3) ≡ 0x52)
  pub its_size : size ≡ image_bytes r.rom (offset + pcir_at r.rom offset)

-- An image for the x86, of this card, whose bytes sum up to a multiple of 256.
pub record IsWanted (r : Roms) (offset size : ℕ) : Type 0 where
  pub vendor : word16 r.rom (offset + pcir_at r.rom offset + 4) ≡ vendor_ati
  pub device : word16 r.rom (offset + pcir_at r.rom offset + 6) ≡ r.device_id
  pub code_type : r.rom (offset + pcir_at r.rom offset + 0x14) ≡ 0
  pub checksum : byte_sum r.rom offset size % 256 ≡ 0

-- The offsets that are reached from the start of the ROM, each over an image that is not wanted and
-- is not marked as the last.
pub data Reached (r : Roms) : ℕ → Type 0 where
  first : Reached r 0
  next :
      {offset : ℕ} (size : ℕ)
      → Reached r offset
      → IsImage r offset size
      → is_wanted r offset ≡ false
      → is_last r offset ≡ false
      → Reached r (offset + size)

module _ (r : Roms) where
  is_image-IsImage :
      (offset : ℕ)
      → offset ≤ r.allocation_size
      → is_image r offset (r.allocation_size - offset) ≡ true
      → IsImage r offset (size_at r offset)
  unfolding is_image
  is_image-IsImage offset h e = record {
    inside = ground arith;
    whole_blocks = ground arith;
    signature = ground arith;
    pcir_inside = ground arith;
    pcir_signature = ground arith;
    its_size = refl;
  }

  is_wanted-IsWanted :
      (offset : ℕ) → is_wanted r offset ≡ true → IsWanted r offset (size_at r offset)
  unfolding is_wanted
  is_wanted-IsWanted offset e = record {
    vendor = ground arith;
    device = ground arith;
    code_type = ground arith;
    checksum = ground (
      arith,
      bit_and-ones 8 (checksum_from r.rom offset 0 (size_at r offset)),
      checksum_from_lem r.rom offset 0 (size_at r offset),
    );
  }

  -- What a round that goes on has seen, and what one that selects has.
  going_on :
      (offset offset' : ℕ)
      → r.allocation_size < 2 ^ 32
      → try_image r offset ≡ inr offset'
      → (offset ≤ r.allocation_size)
        × (is_image r offset (r.allocation_size - offset) ≡ true)
        × (is_wanted r offset ≡ false)
        × (is_last r offset ≡ false)
        × (offset' ≡ add32 offset (size_at r offset))
  unfolding try_image
  going_on offset offset' small e = ground arith

  selecting :
      (offset : ℕ) (found : ℕ × ℕ)
      → try_image r offset ≡ inl (some found)
      → (offset ≤ r.allocation_size)
        × (is_image r offset (r.allocation_size - offset) ≡ true)
        × (is_wanted r offset ≡ true)
        × (found ≡ (offset, size_at r offset))
  unfolding try_image
  selecting offset found e = ground arith

  -- The next offset, with no wrap.
  next-IsImage :
      (offset offset' : ℕ)
      → r.allocation_size < 2 ^ 32
      → try_image r offset ≡ inr offset'
      → (offset' ≡ offset + size_at r offset) × IsImage r offset (size_at r offset)
  next-IsImage offset offset' small e =
      let seen = going_on offset offset' small e in
      let image = is_image-IsImage offset seen.0 seen.1 in
      (omega (arith, seen.4, image.inside), image)

  next-Reached :
      (offset offset' : ℕ)
      → r.allocation_size < 2 ^ 32
      → Reached r offset
      → try_image r offset ≡ inr offset'
      → Reached r offset'
  next-Reached offset offset' small way e =
      let seen = going_on offset offset' small e in
      let step = next-IsImage offset offset' small e in
      rw step.0 (next (size_at r offset) way step.1 seen.2 seen.3)

  -- In a ROM of less than 4 GB, with one round for each byte of the ROM and one more, the search ends.
  pub select_x86_image_ends :
      (fuel : ℕ)
      → r.allocation_size < 2 ^ 32
      → r.allocation_size < fuel
      → (found : Option (ℕ × ℕ)) × (select_x86_image fuel r ≡ some found)
  unfolding select_x86_image
  select_x86_image_ends fuel small enough =
      repeat_ends (λ offset. offset ≤ r.allocation_size) (λ offset. r.allocation_size - offset)
        (try_image r)
        (λ offset offset' h e.
          let step = next-IsImage offset offset' small e in
          omega (arith, step.0, step.1.inside, step.1.whole_blocks.1, h))
        fuel 0 (omega arith) (omega arith)

  -- The image that `SelectX86Image` selects in a ROM of less than 4 GB is reached from its start over
  -- images that are not wanted, lies whole in the ROM with both signatures, and is wanted.
  pub select_x86_image-IsWanted :
      (fuel : ℕ) {offset size : ℕ}
      → r.allocation_size < 2 ^ 32
      → select_x86_image fuel r ≡ some (some (offset, size))
      → Reached r offset × IsImage r offset size × IsWanted r offset size
  unfolding select_x86_image
  select_x86_image-IsWanted fuel small e =
      repeat_returns (Reached r) Right (try_image r)
        (λ offset offset' way. next-Reached offset offset' small way) right fuel 0 first e
    where
      Right : Option (ℕ × ℕ) → Type 0
      Right none = Unit
      Right (some (offset, size)) =
          Reached r offset × IsImage r offset size × IsWanted r offset size

      right :
          (offset : ℕ) (result : Option (ℕ × ℕ))
          → Reached r offset
          → try_image r offset ≡ inl result
          → Right result
      right offset none way e = tt
      right offset (some found) way e =
          let seen = selecting offset found e in
          rw seen.3 (way, is_image-IsImage offset seen.0 seen.1, is_wanted-IsWanted offset seen.2)
