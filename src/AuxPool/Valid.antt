-- ===== src/AuxPool/Valid.antt =====
-- When a table of blocks is well formed, and what keeps it so.
use r200_p96_driver.Base.{
  ℕ, ◌+◌, ◌%◌, ◌^◌, ◌≤◌, ◌<◌, ◌≡◌, ◌≢◌, ◌⊎◌, true, false, List, [], ◌∷◌, arith, All, Any, Option,
  none, some,
}
use r200_p96_driver.AuxPool.{AuxBlock, Pool, overlaps}

-- A live block ends inside the pool, and starts and ends on a page.
pub record Fits (total : ℕ) (b : AuxBlock) : Type 0 where
  pub inside : b.offset + b.bytes ≤ total
  pub offset_page : b.offset % 4096 ≡ 0
  pub bytes_page : b.bytes % 4096 ≡ 0

-- Two blocks share no byte (a free entry has none).
abbrev pub Apart : AuxBlock → AuxBlock → Type 0
Apart a b =
    (a.bytes ≡ 0)
    ⊎ (b.bytes ≡ 0)
    ⊎ (a.offset + a.bytes ≤ b.offset)
    ⊎ (b.offset + b.bytes ≤ a.offset)

abbrev pub AllApart : List AuxBlock → Type 0
AllApart [] = Unit
AllApart (b ∷ bs) = All (Apart b) bs × AllApart bs

-- The pool has a page at least, and is at most half of the address space, as it lies in video
-- memory (the driver reserves 4 MiB).
pub record IsValid (p : Pool) : Type 0 where
  pub large : 4096 ≤ p.total
  pub small : p.total ≤ 2 ^ 31
  pub fit : All (Fits p.total) p.blocks
  pub apart : AllApart p.blocks

-- `[o, o + n)` meets the live block `b`.
abbrev pub Meets : ℕ → ℕ → AuxBlock → Type 0
Meets o n b = (b.bytes ≢ 0) × (o < b.offset + b.bytes) × (b.offset < o + n)

-- What a search for `n` bytes should find: the least place with room that meets no live block, or
-- that every place with room meets one.
abbrev pub FoundIn : ℕ → ℕ → List AuxBlock → Option ℕ → Type 0
FoundIn total n blocks (some c) =
    (c + n ≤ total)
    × (c % 4096 ≡ 0)
    × All (Apart (record { offset = c; bytes = n })) blocks
    × ((o : ℕ) → o < c → Any (Meets o n) blocks)
FoundIn total n blocks none = (o : ℕ) → o + n ≤ total → Any (Meets o n) blocks

-- The test in the code is `Meets`, where nothing wraps.
pub overlaps-Meets :
    {total : ℕ} (b : AuxBlock) (n c : ℕ)
    → total ≤ 2 ^ 31
    → Fits total b
    → n ≤ total
    → c ≤ total
    → overlaps b n c ≡ true
    → Meets c n b
unfolding overlaps
overlaps-Meets b n c small fit hn hc h = ground arith

pub not-overlaps-Apart :
    {total : ℕ} (b : AuxBlock) (n c : ℕ)
    → total ≤ 2 ^ 31
    → Fits total b
    → n ≤ total
    → c ≤ total
    → overlaps b n c ≡ false
    → Apart (record { offset = c; bytes = n }) b
unfolding overlaps
not-overlaps-Apart b n c small fit hn hc h = ground arith
