-- ===== src/AuxPool.antt =====
-- The sub-allocator of the aux surface pool (src/radeon3d_service.c: AuxPoolAlloc, AuxPoolFree):
-- a first fit over a table of at most eight blocks of private video memory.
pub mod Valid
pub mod Search
pub mod Table
pub mod FirstFit
mod Tests
use mathlib.Core.Option
use r200_p96_driver.Base.{
  ℕ, zero, suc, ◌+◌, ◌-◌, ◌^◌, Bool, true, false, not, ◌&&◌, ◌||◌, Option, none, some, List, [],
  ◌∷◌, ltb, leb, ◌==◌, if◌then◌else◌, bit_and, add32, sub32, not32,
}

-- `struct Radeon3DAuxBlock`. A block of zero bytes is a free entry of the table.
pub record AuxBlock : Type 0 where
  pub offset : ℕ
  pub bytes : ℕ

-- The pool's fields of `struct RadeonChipBase`. The base address serves only as a test here.
pub record Pool : Type 0 where
  pub present : Bool
  pub total : ℕ
  pub blocks : List AuxBlock

abbrev pub aux_pool_align_mask : ℕ
aux_pool_align_mask = 4096 - 1

abbrev pub block_end : AuxBlock → ℕ
block_end b = add32 b.offset b.bytes

-- The two tests of the inner loop: the block is live and meets `[candidate, candidate + bytes)`.
pub overlaps : AuxBlock → ℕ → ℕ → Bool
overlaps b bytes candidate =
    not (b.bytes == 0) && (ltb candidate (block_end b) && ltb b.offset (add32 candidate bytes))

-- One pass of the `for` loop: the candidate that it leaves, and `moved`.
pub push_past : List AuxBlock → ℕ → ℕ → Bool → ℕ × Bool
push_past [] bytes candidate moved = (candidate, moved)
push_past (b ∷ bs) bytes candidate moved =
    push_past bs bytes (if overlaps b bytes candidate then block_end b else candidate)
      (moved || overlaps b bytes candidate)

-- The `while (moved)` loop. The outer `none` is out of fuel, the inner one is `return FALSE`.
pub find_gap : ℕ → List AuxBlock → ℕ → ℕ → ℕ → Option (Option ℕ)
find_gap zero blocks total bytes candidate = none
find_gap (suc fuel) blocks total bytes candidate =
    let pass = push_past blocks bytes candidate false in
    let rest = find_gap fuel blocks total bytes pass.0 in
    if ltb total candidate || ltb (sub32 total candidate) bytes
    then some none
    else if pass.1
    then rest
    else some (some pass.0)

-- The last loop: the first free entry takes the new block.
pub place : List AuxBlock → AuxBlock → Option (List AuxBlock)
place [] new = none
place (b ∷ bs) new =
    if b.bytes == 0 then some (new ∷ bs) else Option.map (λ rest. b ∷ rest) (place bs new)

abbrev pub round_up : ℕ → ℕ
round_up bytes = bit_and (add32 bytes aux_pool_align_mask) (not32 aux_pool_align_mask)

-- The `*offsetOut` and `*bytesOut` of a successful call are the block's fields.
abbrev pub settle : Pool → ℕ → Option (Option ℕ) → Option AuxBlock × Pool
settle p bytes none = (none, p)
settle p bytes (some none) = (none, p)
settle p bytes (some (some candidate)) =
    let new : AuxBlock = record { offset = candidate; bytes = bytes } in
    elim (place p.blocks new) [
      | none ↦ (none, p)
      | some blocks ↦ (some new, record p { blocks = blocks })
    ]

pub alloc : Pool → ℕ → Option AuxBlock × Pool
alloc p bytes =
    if not p.present || (bytes == 0) || ltb (sub32 p.total aux_pool_align_mask) bytes
    then (none, p)
    else settle p (round_up bytes) (find_gap (p.total + 2) p.blocks p.total (round_up bytes) 0)

-- `AuxPoolFree`: the first entry with this offset and size becomes free.
pub free_blocks : List AuxBlock → ℕ → ℕ → List AuxBlock
free_blocks [] offset bytes = []
free_blocks (b ∷ bs) offset bytes =
    if not (b.bytes == bytes) || not (b.offset == offset)
    then b ∷ free_blocks bs offset bytes
    else record { offset = 0; bytes = 0 } ∷ bs

pub free : Pool → ℕ → ℕ → Pool
unfolding free_blocks
free p offset bytes = record p { blocks = free_blocks p.blocks offset bytes }
