-- ===== src/AuxPool/Tests.antt =====
-- The theorems on the aux pool at a concrete table: one live block, then a hole, then another.
use r200_p96_driver.Base.{
  ℕ, ◌+◌, ◌*◌, ◌≤◌, ◌≡◌, ◌≢◌, ◌⊎◌, refl, true, none, some, [], ◌∷◌, All, Any, arith,
}
use r200_p96_driver.AuxPool.{
  AuxBlock, Pool, find_gap, round_up, alloc, free, place, push_past, overlaps,
}
use r200_p96_driver.AuxPool.Valid.{IsValid, Meets}
use r200_p96_driver.AuxPool.Table.{Cleared}
use r200_p96_driver.AuxPool.FirstFit.{FirstFit, alloc-FirstFit, free-alloc, alloc-none}

abbrev block : ℕ → ℕ → AuxBlock
block offset bytes = record { offset = offset; bytes = bytes }

abbrev four_pages : Pool
four_pages = record {
  present = true;
  total = 4 * 4096;
  blocks = block 0 4096 ∷ block 0 0 ∷ block 8192 4096 ∷ [];
}

four_pages-IsValid : IsValid four_pages
four_pages-IsValid = record {
  large = omega arith;
  small = omega arith;
  fit = ground arith;
  apart = ground arith;
}

-- A page and a byte find no hole; a page goes between the blocks.
abbrev filled : Pool
filled = record four_pages { blocks = block 0 4096 ∷ block 4096 4096 ∷ block 8192 4096 ∷ [] }

alloc_page : alloc four_pages 4000 ≡ (some (block 4096 4096), filled)
unfolding alloc find_gap push_past overlaps place
alloc_page = refl

alloc_two_pages : alloc four_pages 4097 ≡ (none, four_pages)
unfolding alloc find_gap push_past overlaps
alloc_two_pages = refl

alloc-FirstFit_example : FirstFit four_pages 4000 (block 4096 4096) × IsValid filled
alloc-FirstFit_example = alloc-FirstFit four_pages 4000 four_pages-IsValid alloc_page

free-alloc_example :
    (free filled 4096 4096 ≡ four_pages)
    × All Cleared filled.blocks
    × ((offset bytes : ℕ) → All Cleared (free filled offset bytes).blocks)
free-alloc_example = free-alloc four_pages 4000 four_pages-IsValid (ground arith) alloc_page

alloc-none_example :
    (four_pages ≡ four_pages)
    × (All (λ b. b.bytes ≢ 0) four_pages.blocks
        ⊎ ((o : ℕ)
            → o + round_up 4097 ≤ 4 * 4096
            → Any (Meets o (round_up 4097)) four_pages.blocks))
alloc-none_example =
    alloc-none four_pages 4097 four_pages-IsValid (refl, omega arith, omega arith) alloc_two_pages
