-- ===== src/Cp/Copy.antt =====
-- Copying dwords into the ring (src/radeon_cp.c: CpBurstCopySwapped and the loops of CpCommit and
-- CpCommitStream).
pub mod Placed
use r200_p96_driver.Base.{
  ℕ, zero, suc, ◌+◌, ◌-◌, ◌*◌, ◌/◌, ◌%◌, ◌^◌, ◌≤◌, ◌<◌, ◌≡◌, Bool, List, [], ◌∷◌, arith, leb, ltb,
  ◌==◌, if◌then◌else◌, bit_or, get_or,
}

-- A store of one dword.
abbrev pub store : (ℕ → ℕ) → ℕ → ℕ → ℕ → ℕ
store m at v i = if i == at then v else m i

abbrev pub drop {ℓ} : {A : Type ℓ} → ℕ → List A → List A
drop zero xs = xs
drop (suc n) [] = []
drop (suc n) (x ∷ xs) = drop n xs

-- The 68k instructions of the burst on a data register: `rol.w #8` turns the low word round by a
-- byte, `swap` exchanges the two words.
abbrev pub rol_word8 : ℕ → ℕ
rol_word8 d = d / 2 ^ 16 * 2 ^ 16 + (d % 2 ^ 8 * 2 ^ 8 + d % 2 ^ 16 / 2 ^ 8)

abbrev pub swap_words : ℕ → ℕ
swap_words d = d % 2 ^ 16 * 2 ^ 16 + d / 2 ^ 16

pub swap_register : ℕ → ℕ
swap_register d = rol_word8 (swap_words (rol_word8 d))

-- Eight registers are loaded, swapped and stored.
pub burst8 : (ℕ → ℕ) → ℕ → List ℕ → ℕ → ℕ
burst8 m at src =
    store
      (store
        (store
          (store
            (store (store (store (store m at (word 0)) (at + 1) (word 1)) (at + 2) (word 2))
              (at + 3) (word 3))
            (at + 4) (word 4))
          (at + 5) (word 5))
        (at + 6) (word 6))
      (at + 7) (word 7)
  where
    word : ℕ → ℕ
    word k = swap_register (get_or src k 0)

-- SWAPLONG of the system's byte-order header.
module _ (swap_long : ℕ → ℕ) where
  -- `while (words--) *dst++ = SWAPLONG(*src++);`
  pub copy_words : (ℕ → ℕ) → ℕ → List ℕ → ℕ → ℕ → ℕ
  copy_words m at src zero = m
  copy_words m at src (suc words) =
      copy_words (store m at (swap_long (get_or src 0 0))) (at + 1) (drop 1 src) words

  -- The whole routine; the rounds of the first loop are `words / 8`, and fuel above that is unused.
  pub burst_copy : ℕ → (ℕ → ℕ) → ℕ → List ℕ → ℕ → ℕ → ℕ
  unfolding burst8
  burst_copy zero m at src words = copy_words m at src words
  burst_copy (suc fuel) m at src words =
      let rest = burst_copy fuel (burst8 m at src) (at + 8) (drop 8 src) (words - 8) in
      if leb 8 words then rest else copy_words m at src words
