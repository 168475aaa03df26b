-- ===== src/Cp/Copy/Placed.antt =====
-- What the copies leave in memory, position by position.
use r200_p96_driver.Base.{
  ℕ, zero, suc, ◌+◌, ◌-◌, ◌*◌, ◌/◌, ◌%◌, ◌^◌, ◌≤◌, ◌<◌, ◌≡◌, ◌∙◌, refl, ap, true, ◌&&◌, List, [],
  ◌∷◌, ltb, leb, if◌then◌else◌, get_or, arith, All,
}
use native.Mathlib.Decide.{dec_lt}
use r200_p96_driver.Cp.Copy.{store, drop, burst_copy, swap_register, burst8, copy_words}

-- What SWAPLONG is documented to do: it reverses the four bytes of a longword.
abbrev pub Reverses : (ℕ → ℕ) → Type 0
Reverses swap_long =
    (x : ℕ)
    → x < 2 ^ 32
    → swap_long x
      ≡ x % 2 ^ 8 * 2 ^ 24 + x / 2 ^ 8 % 2 ^ 8 * 2 ^ 16 + x / 2 ^ 16 % 2 ^ 8 * 2 ^ 8 + x / 2 ^ 24

-- Memory `m` with `f 0`, `f 1`, … in the `n` dwords from `at` on.
abbrev pub overlay : (ℕ → ℕ) → ℕ → ℕ → (ℕ → ℕ) → ℕ → ℕ
overlay m at n f i = if leb at i && ltb i (at + n) then f (i - at) else m i

abbrev pub IsWords : List ℕ → Type 0
IsWords = All (λ w. w < 2 ^ 32)

pub get_or-IsWords : (xs : List ℕ) (k : ℕ) → IsWords xs → get_or xs k 0 < 2 ^ 32
get_or-IsWords [] k h = omega arith
get_or-IsWords (x ∷ xs) zero h = h.0
get_or-IsWords (x ∷ xs) (suc k) h = get_or-IsWords xs k h.1

pub drop-IsWords : (n : ℕ) (xs : List ℕ) → IsWords xs → IsWords (drop n xs)
drop-IsWords zero xs h = h
drop-IsWords (suc n) [] h = tt
drop-IsWords (suc n) (x ∷ xs) h = drop-IsWords n xs h.1

pub get_or-drop :
    (n : ℕ) (xs : List ℕ) (k j : ℕ) → j ≡ n + k → get_or (drop n xs) k 0 ≡ get_or xs j 0
get_or-drop zero xs k j e = ap (λ t. get_or xs t 0) (omega arith)
get_or-drop (suc n) [] k j e = refl
get_or-drop (suc n) (x ∷ xs) k zero e = absurd (omega arith)
get_or-drop (suc n) (x ∷ xs) k (suc j) e = get_or-drop n xs k j (omega arith)

-- On a longword the three instructions of the burst do what SWAPLONG does.
pub swap_register_lem :
    (swap_long : ℕ → ℕ) (x : ℕ) → Reverses swap_long → x < 2 ^ 32 → swap_register x ≡ swap_long x
unfolding swap_register
swap_register_lem swap_long x rev h = omega (arith, rev x h)

burst8-overlay :
    (m : ℕ → ℕ) (at : ℕ) (src : List ℕ) (i : ℕ)
    → burst8 m at src i ≡ overlay m at 8 (λ k. swap_register (get_or src k 0)) i
unfolding burst8
burst8-overlay m at src i = ground arith

pub overlay-cong :
    (m m' : ℕ → ℕ) (at n : ℕ) (f : ℕ → ℕ) (i : ℕ)
    → m i ≡ m' i
    → overlay m at n f i ≡ overlay m' at n f i
overlay-cong m m' at n f i e = ground arith

-- Two copies side by side are one.
pub overlay-overlay :
    (m : ℕ → ℕ) (at n total : ℕ) (f g h : ℕ → ℕ) (i : ℕ)
    → n ≤ total
    → (at ≤ i → i < at + n → f (i - at) ≡ h (i - at))
    → (at + n ≤ i → g (i - (at + n)) ≡ h (i - at))
    → overlay (overlay m at n f) (at + n) (total - n) g i ≡ overlay m at total h i
overlay-overlay m at n total f g h i le ef eg = ground (arith, ef, eg)

module _ (swap_long : ℕ → ℕ) where
  copy_words-overlay :
      (words : ℕ) (m : ℕ → ℕ) (at : ℕ) (src : List ℕ) (i : ℕ)
      → copy_words swap_long m at src words i
        ≡ overlay m at words (λ k. swap_long (get_or src k 0)) i
  unfolding copy_words
  copy_words-overlay zero m at src i = ground arith
  copy_words-overlay (suc words) m at src i = ground (
    arith,
    copy_words-overlay words (store m at (swap_long (get_or src 0 0))) (at + 1) (drop 1 src) i,
    get_or-drop 1 src (i - (at + 1)) (i - at),
  )

  module _ (rev : Reverses swap_long) where
    -- The burst copy leaves the swapped source in memory, however its rounds are cut into bursts.
    pub burst_copy-overlay :
        (fuel words : ℕ) (m : ℕ → ℕ) (at : ℕ) (src : List ℕ) (i : ℕ)
        → IsWords src
        → burst_copy swap_long fuel m at src words i
          ≡ overlay m at words (λ k. swap_long (get_or src k 0)) i
    unfolding burst_copy
    burst_copy-overlay zero words m at src i h = copy_words-overlay words m at src i
    burst_copy-overlay (suc fuel) words m at src i h = elim (dec_lt words 8) [
      | yes few ↦ ground (arith, copy_words-overlay words m at src i)
      | no many ↦
          let deep : leb 8 words ≡ true = ground arith in
          rw deep (
            burst_copy-overlay fuel (words - 8) (burst8 m at src) (at + 8) (drop 8 src) i
              (drop-IsWords 8 src h)
            ∙ overlay-cong (burst8 m at src) (overlay m at 8 (λ k. swap_register (get_or src k 0)))
                (at + 8) (words - 8) (λ k. swap_long (get_or (drop 8 src) k 0)) i
                (burst8-overlay m at src i)
            ∙ overlay-overlay m at 8 words (λ k. swap_register (get_or src k 0))
                (λ k. swap_long (get_or (drop 8 src) k 0)) (λ k. swap_long (get_or src k 0)) i
                (omega arith)
                (λ _ _.
                  swap_register_lem swap_long (get_or src (i - at) 0) rev
                    (get_or-IsWords src (i - at) h))
                (λ le. ap swap_long (get_or-drop 8 src (i - (at + 8)) (i - at) (omega arith))))
    ]
