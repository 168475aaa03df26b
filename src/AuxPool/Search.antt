-- ===== src/AuxPool/Search.antt =====
-- The search for a gap: what a pass over the table and the loop of passes establish.
use r200_p96_driver.Base.{
  ℕ, zero, suc, ◌+◌, ◌-◌, ◌%◌, ◌^◌, ◌≤◌, ◌<◌, ◌≡◌, ◌≢◌, ◌⊎◌, inl, inr, refl, Bool, true, false,
  List, [], ◌∷◌, Option, none, some, arith, All, Any, All-map, Bool-cases, if◌then◌else◌, ◌||◌, ltb,
  sub32,
}
use native.Mathlib.Decide.{dec_lt}
use r200_p96_driver.AuxPool.{AuxBlock, block_end, overlaps, push_past, find_gap}
use r200_p96_driver.AuxPool.Valid.{Fits, Apart, Meets, FoundIn, overlaps-Meets, not-overlaps-Apart}

true_of_or : (a : Bool) → (a || true) ≡ true
true_of_or true = refl
true_of_or false = refl

left_of_or : (a : Bool) → (a || false) ≡ false → a ≡ false
left_of_or true h = h
left_of_or false h = h

left_true_of_or : (a : Bool) → (a || false) ≡ true → a ≡ true
left_true_of_or true h = h
left_true_of_or false h = h

-- Every position below `c` meets some block of the table, for blocks that Q stands for.
module _ (total n : ℕ) (small : total ≤ 2 ^ 31) (room : n ≤ total) where
  -- where one block leaves the candidate
  abbrev pushed : AuxBlock → ℕ → ℕ
  pushed b c = if overlaps b n c then block_end b else c

  pushed_bounds :
      (b : AuxBlock) (c : ℕ) → Fits total b → c ≤ total → (c ≤ pushed b c) × (pushed b c ≤ total)
  pushed_bounds b c fit h = elim (Bool-cases (overlaps b n c)) [
    | inl hit ↦ ground (arith, overlaps-Meets b n c small fit room h hit)
    | inr miss ↦ ground arith
  ]

  pushed_page : (b : AuxBlock) (c : ℕ) → Fits total b → c % 4096 ≡ 0 → pushed b c % 4096 ≡ 0
  pushed_page b c fit h = elim (Bool-cases (overlaps b n c)) [
    | inl hit ↦ ground arith
    | inr miss ↦ ground arith
  ]

  pushed_blocked :
      (Q : ℕ → Type 0) (b : AuxBlock) (c : ℕ)
      → Fits total b
      → c ≤ total
      → ((o : ℕ) → Meets o n b → Q o)
      → ((o : ℕ) → o < c → Q o)
      → (o : ℕ) → o < pushed b c
      → Q o
  pushed_blocked Q b c fit h meets below o lt = elim (Bool-cases (overlaps b n c)) [
    | inl hit ↦
        let m = overlaps-Meets b n c small fit room h hit in
        let lt' : o < block_end b = rw hit at lt in
        elim (dec_lt o c) [ yes p ↦ below o p | no p ↦ meets o (m.0, omega arith, omega arith) ]
    | inr miss ↦ below o (rw miss at lt)
  ]

  push_past_bounds :
      (bs : List AuxBlock) (c : ℕ) (moved : Bool)
      → All (Fits total) bs
      → c ≤ total
      → (c ≤ (push_past bs n c moved).0) × ((push_past bs n c moved).0 ≤ total)
  unfolding push_past
  push_past_bounds [] c moved fits h = omega arith
  push_past_bounds (b ∷ bs) c moved fits h = omega (
    arith,
    pushed_bounds b c fits.0 h,
    push_past_bounds bs (pushed b c) (moved || overlaps b n c) fits.1
        (pushed_bounds b c fits.0 h).1,
  )

  push_past_page :
      (bs : List AuxBlock) (c : ℕ) (moved : Bool)
      → All (Fits total) bs
      → c % 4096 ≡ 0
      → (push_past bs n c moved).0 % 4096 ≡ 0
  unfolding push_past
  push_past_page [] c moved fits h = h
  push_past_page (b ∷ bs) c moved fits h =
      push_past_page bs (pushed b c) (moved || overlaps b n c) fits.1 (pushed_page b c fits.0 h)

  push_past_blocked :
      (Q : ℕ → Type 0) (bs : List AuxBlock) (c : ℕ) (moved : Bool)
      → All (Fits total) bs
      → c ≤ total
      → All (λ b. (o : ℕ) → Meets o n b → Q o) bs
      → ((o : ℕ) → o < c → Q o)
      → (o : ℕ) → o < (push_past bs n c moved).0
      → Q o
  unfolding push_past
  push_past_blocked Q [] c moved fits h meets below = below
  push_past_blocked Q (b ∷ bs) c moved fits h meets below =
      push_past_blocked Q bs (pushed b c) (moved || overlaps b n c) fits.1
        (pushed_bounds b c fits.0 h).1 meets.1 (pushed_blocked Q b c fits.0 h meets.0 below)

  -- Once set, `moved` stays set.
  set_moved :
      (bs : List AuxBlock) (c : ℕ) (moved : Bool)
      → moved ≡ true
      → (push_past bs n c moved).1 ≢ false
  unfolding push_past
  set_moved [] c moved m e = cc
  set_moved (b ∷ bs) c moved m e = set_moved bs (pushed b c) (moved || overlaps b n c) (rw m refl) e

  end_of_hit : (b : AuxBlock) (c : ℕ) → overlaps b n c ≡ true → pushed b c ≡ block_end b
  end_of_hit b c hit = rw hit

  -- A pass that ends with `moved` clear has changed nothing, and meets no block.
  push_past_still :
      (bs : List AuxBlock) (c : ℕ) (moved : Bool)
      → All (Fits total) bs
      → c ≤ total
      → (push_past bs n c moved).1 ≡ false
      → (moved ≡ false)
        × ((push_past bs n c moved).0 ≡ c)
        × All (Apart (record { offset = c; bytes = n })) bs
  unfolding push_past
  push_past_still [] c moved fits h e = (e, refl, tt)
  push_past_still (b ∷ bs) c moved fits h e = elim (Bool-cases (overlaps b n c)) [
    | inl hit ↦
        absurd (set_moved bs (pushed b c) (moved || overlaps b n c) (rw hit (true_of_or moved)) e)
    | inr miss ↦
        let rest = push_past_still bs c (moved || false) fits.1 h (rw (miss, push_past) at e) in
        rw (miss, push_past)
          (
            left_of_or moved rest.0,
            rest.1,
            (not-overlaps-Apart b n c small fits.0 room h miss, rest.2),
          )
  ]

  -- One that ends with `moved` set, having begun with it clear, has gone up.
  push_past_moves :
      (bs : List AuxBlock) (c : ℕ) (moved : Bool)
      → All (Fits total) bs
      → c ≤ total
      → (push_past bs n c moved).1 ≡ true
      → (moved ≡ true) ⊎ (c < (push_past bs n c moved).0)
  unfolding push_past
  push_past_moves [] c moved fits h e = inl e
  push_past_moves (b ∷ bs) c moved fits h e = elim (Bool-cases (overlaps b n c)) [
    | inl hit ↦ inr (
        omega (
          arith,
          overlaps-Meets b n c small fits.0 room h hit,
          end_of_hit b c hit,
          push_past_bounds bs (pushed b c) (moved || overlaps b n c) fits.1
              (pushed_bounds b c fits.0 h).1,
        ))
    | inr miss ↦
        rw (miss, push_past)
          (elim (push_past_moves bs c (moved || false) fits.1 h (rw (miss, push_past) at e)) [
            | inl m ↦ inl (left_true_of_or moved m)
            | inr up ↦ inr up
          ])
  ]

  Meets-Any : (bs : List AuxBlock) → All (λ b. (o : ℕ) → Meets o n b → Any (Meets o n) bs) bs
  Meets-Any [] = tt
  Meets-Any (b ∷ bs) = (λ o m. inl m, All-map bs (λ d h o m. inr (h o m)) (Meets-Any bs))

  -- The loop ends within as many rounds as there are places left, and has then searched them all.
  pub find_gap-FoundIn :
      (fuel : ℕ) (blocks : List AuxBlock) (c : ℕ)
      → All (Fits total) blocks
      → c ≤ total
      → total < c + fuel
      → c % 4096 ≡ 0
      → ((o : ℕ) → o < c → Any (Meets o n) blocks)
      → (r : Option ℕ) × (find_gap fuel blocks total n c ≡ some r) × FoundIn total n blocks r
  unfolding find_gap
  find_gap-FoundIn zero blocks c fits h enough page below = absurd (omega arith)
  find_gap-FoundIn (suc fuel) blocks c fits h enough page below = elim (dec_lt (total - c) n) [
    | yes p ↦
        let full : (ltb total c || ltb (sub32 total c) n) ≡ true = ground arith in
        (none, rw (full, find_gap), λ o ho. below o (omega arith))
    | no p ↦
        let fits_here : (ltb total c || ltb (sub32 total c) n) ≡ false = ground arith in
        elim (Bool-cases (push_past blocks n c false).1) [
          | inl moves ↦
              let rest =
                find_gap-FoundIn fuel blocks (push_past blocks n c false).0 fits
                  (push_past_bounds blocks c false fits h).1 (omega (arith, went_up moves))
                  (push_past_page blocks c false fits page)
                  (push_past_blocked (λ o. Any (Meets o n) blocks) blocks c false fits h
                    (Meets-Any blocks) below) in
              (rest.0, rw (fits_here, moves, find_gap) rest.1, rest.2)
          | inr still ↦
              let here = push_past_still blocks c false fits h still in
              (
                some c,
                rw (fits_here, still, here.1, find_gap) refl,
                (omega arith, page, here.2, below),
              )
        ]
  ]
    where
      went_up : (push_past blocks n c false).1 ≡ true → c < (push_past blocks n c false).0
      went_up e = elim (push_past_moves blocks c false fits h e) [ inl bad ↦ cc | inr up ↦ up ]
