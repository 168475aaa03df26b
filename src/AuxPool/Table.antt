-- ===== src/AuxPool/Table.antt =====
-- The block table: filling the first free entry, and freeing an entry.
use r200_p96_driver.Base.{
  ℕ, ◌≡◌, ◌≢◌, ◌⊎◌, inl, inr, refl, List, [], ◌∷◌, none, some, arith, All, All-map, Bool-cases,
  Option-cases, ◌==◌, not, ◌||◌,
}
use r200_p96_driver.AuxPool.{AuxBlock, place, free_blocks}
use r200_p96_driver.AuxPool.Valid.{Apart, AllApart}

abbrev pub empty_block : AuxBlock
empty_block = record { offset = 0; bytes = 0 }

-- A free entry is all zero, as the table starts and as `free_blocks` leaves an entry.
abbrev pub Cleared : AuxBlock → Type 0
Cleared b = b.bytes ≡ 0 → b.offset ≡ 0

pub Apart-symm : (a b : AuxBlock) → Apart a b → Apart b a
Apart-symm a b h = ground arith

-- Filling an entry, by the two ways that the loop goes on.
place_cases :
    (b : AuxBlock) (bs : List AuxBlock) (new : AuxBlock) {out : List AuxBlock}
    → place (b ∷ bs) new ≡ some out
    → ((b.bytes ≡ 0) × (out ≡ new ∷ bs))
      ⊎ ((b.bytes ≢ 0) × ((rest : List AuxBlock) × (place bs new ≡ some rest) × (out ≡ b ∷ rest)))
unfolding place
place_cases b bs new h = elim (Option-cases (place bs new)) [
  | inl e ↦ ground arith
  | inr (rest, e) ↦ elim (Bool-cases (b.bytes == 0)) [
    | inl free ↦ inl (ground arith, ground arith)
    | inr live ↦ inr (ground arith, (rest, e, ground arith))
  ]
]

place-nil : (new : AuxBlock) (out : List AuxBlock) → place [] new ≢ some out
unfolding place
place-nil new out h = cc

-- The table is full exactly when nothing can be placed.
pub place-none :
    (bs : List AuxBlock) (new : AuxBlock) → place bs new ≡ none → All (λ b. b.bytes ≢ 0) bs
unfolding place
place-none [] new h = tt
place-none (b ∷ bs) new h = elim (Option-cases (place bs new)) [
  | inl e ↦ (ground arith, place-none bs new e)
  | inr (rest, e) ↦ absurd (ground arith)
]

module _ (P : AuxBlock → Type 0) where
  pub place-All :
      (bs : List AuxBlock) (new : AuxBlock) {out : List AuxBlock}
      → All P bs
      → P new
      → place bs new ≡ some out
      → All P out
  place-All [] new {out} all p h = absurd (place-nil new out h)
  place-All (b ∷ bs) new {out} all p h = elim (place_cases b bs new h) [
    | inl (free, e) ↦ rw e (p, all.1)
    | inr (live, (rest, there, e)) ↦ rw e (all.0, place-All bs new all.1 p there)
  ]

  pub free_blocks-All :
      (bs : List AuxBlock) (offset bytes : ℕ)
      → All P bs
      → P empty_block
      → All P (free_blocks bs offset bytes)
  unfolding free_blocks
  free_blocks-All [] offset bytes all p = tt
  free_blocks-All (b ∷ bs) offset bytes all p =
      elim (Bool-cases (not (b.bytes == bytes) || not (b.offset == offset))) [
        | inl other ↦ rw other (all.0, free_blocks-All bs offset bytes all.1 p)
        | inr this ↦ rw this (p, all.1)
      ]

pub place-AllApart :
    (bs : List AuxBlock) (new : AuxBlock) {out : List AuxBlock}
    → AllApart bs
    → All (Apart new) bs
    → place bs new ≡ some out
    → AllApart out
place-AllApart [] new {out} apart fresh h = absurd (place-nil new out h)
place-AllApart (b ∷ bs) new apart fresh h = elim (place_cases b bs new h) [
  | inl (free, e) ↦ rw e (fresh.1, apart.1)
  | inr (live, (rest, there, e)) ↦ rw e (
    place-All (Apart b) bs new apart.0 (Apart-symm new b fresh.0) there,
    place-AllApart bs new apart.1 fresh.1 there,
  )
]

pub free_blocks-AllApart :
    (bs : List AuxBlock) (offset bytes : ℕ) → AllApart bs → AllApart (free_blocks bs offset bytes)
unfolding free_blocks
free_blocks-AllApart [] offset bytes apart = tt
free_blocks-AllApart (b ∷ bs) offset bytes apart =
    elim (Bool-cases (not (b.bytes == bytes) || not (b.offset == offset))) [
      | inl other ↦ rw other (
        free_blocks-All (Apart b) bs offset bytes apart.0 (inr (inl refl)),
        free_blocks-AllApart bs offset bytes apart.1,
      )
      | inr this ↦ rw this (All-map bs (λ c h. inl refl) apart.0, apart.1)
    ]

-- Freeing a block that has just been placed gives the table back.
pub free_blocks-place :
    (bs : List AuxBlock) (new : AuxBlock) {out : List AuxBlock}
    → new.bytes ≢ 0
    → All (Apart new) bs
    → All Cleared bs
    → place bs new ≡ some out
    → free_blocks out new.offset new.bytes ≡ bs
unfolding free_blocks
free_blocks-place [] new {out} pos fresh cleared h = absurd (place-nil new out h)
free_blocks-place (b ∷ bs) new pos fresh cleared h = elim (place_cases b bs new h) [
  | inl (free, e) ↦ rw e (ground (arith, cleared.0 free))
  | inr (live, (rest, there, e)) ↦
      rw e (ground (arith, free_blocks-place bs new pos fresh.1 cleared.1 there, fresh.0))
]
