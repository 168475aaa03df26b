-- ===== src/Vram.antt =====
-- Private video memory (src/dma.c): blocks taken off the top of the visible memory and given back in
-- the opposite order.
pub mod Stack
mod Tests
use r200_p96_driver.Base.{
  ℕ, ◌+◌, ◌-◌, ◌^◌, Bool, true, false, not, ◌&&◌, ◌||◌, Option, none, some, ltb, ◌==◌,
  if◌then◌else◌, bit_and, add32, sub32, not32,
}

-- The fields of `struct BoardInfo` that the allocator uses. A base of zero is NULL.
pub record Board : Type 0 where
  pub memory_base : ℕ
  pub memory_size : ℕ
  pub memory_space_size : ℕ

abbrev pub private_vram_mask : ℕ
private_vram_mask = 4096 - 1

abbrev pub page_round : ℕ → ℕ
page_round n = bit_and (add32 n private_vram_mask) (not32 private_vram_mask)

-- `RadeonAllocatePrivateVram`: the address and the board, or `none` for NULL.
unfoldable pub allocate_private_vram : Board → ℕ → Option (ℕ × Board)
allocate_private_vram b requested =
    if (b.memory_base == 0) || (requested == 0) || ltb (not32 0 - private_vram_mask) requested
    then none
    else if ltb b.memory_size (page_round requested)
    then none
    else let size =
        bit_and (sub32 b.memory_size (page_round requested)) (not32 private_vram_mask) in
      some (add32 b.memory_base size, record b { memory_size = size })

-- `RadeonFreePrivateVram`
pub free_private_vram : Board → ℕ → ℕ → Bool × Board
free_private_vram b memory requested =
    let offset = sub32 memory b.memory_base in
    let size = page_round requested in
    if (b.memory_base == 0)
      || (memory == 0)
      || (requested == 0)
      || ltb (not32 0 - private_vram_mask) requested
      || ltb memory b.memory_base
    then (false, b)
    else if not (offset == b.memory_size)
        || ltb b.memory_space_size offset
        || ltb (sub32 b.memory_space_size offset) size
    then (false, b)
    else (true, record b { memory_size = add32 b.memory_size size })
