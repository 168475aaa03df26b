-- ===== src/Cp/Stream/Layout.antt =====
-- Where each dword of a stream ends up in the ring.
use r200_p96_driver.Base.{
  ℕ, zero, suc, ◌+◌, ◌-◌, ◌%◌, ◌≤◌, ◌<◌, ◌≡◌, ◌∙◌, ap, sym, refl, Bool, true, false, List, ltb,
  ◌==◌, if◌then◌else◌, sub32, get_or, length, arith,
}
use native.Mathlib.Decide.{dec_lt}
use r200_p96_driver.Cp.{ring_dwords}
use r200_p96_driver.Cp.Copy.{store, drop, burst_copy}
use r200_p96_driver.Cp.Copy.Placed.{
  Reverses, overlay, IsWords, get_or-drop, drop-IsWords, overlay-cong, overlay-overlay,
  burst_copy-overlay,
}
use r200_p96_driver.Cp.Stream.{stream_dword, fill, segment_a, segment_b, write_ring}

-- The dwords of `commands` come first in the stream.
abbrev pub Carries : List ℕ → (ℕ → ℕ) → Type 0
Carries commands dword = (k : ℕ) → k < length commands → dword k ≡ get_or commands k 0

pub stream_dword-Carries :
    (commands : List ℕ) (add_fence : Bool) (sequence : ℕ)
    → Carries commands (stream_dword commands add_fence sequence)
unfolding stream_dword
stream_dword-Carries commands add_fence sequence k h = ground arith

module _ (swap_long : ℕ → ℕ) (rev : Reverses swap_long) where
  fill-overlay :
      (dword : ℕ → ℕ) (left : ℕ) (m : ℕ → ℕ) (at index : ℕ) (i : ℕ)
      → fill swap_long dword m at index left i
        ≡ overlay m at left (λ k. swap_long (dword (index + k))) i
  unfolding fill
  fill-overlay dword zero m at index i = ground arith
  fill-overlay dword (suc left) m at index i =
      ground (
        arith,
        fill-overlay dword left (store m at (swap_long (dword index))) (at + 1) (index + 1) i,
      )

  module _ (commands : List ℕ) (dword : ℕ → ℕ) (carries : Carries commands dword)
      (words : IsWords commands) where
    -- A block move and a fill, from dword `base` of the stream on.
    move_then_fill :
        (m : ℕ → ℕ) (at base moved total past next left i : ℕ)
        → moved ≤ total
        → past ≡ at + moved
        → next ≡ base + moved
        → left ≡ total - moved
        → ((k : ℕ) → k < moved → base + k < length commands)
        → fill swap_long dword
            (burst_copy swap_long moved m at (drop base commands) moved)
            past
            next
            left
            i
          ≡ overlay m at total (λ k. swap_long (dword (base + k))) i
    move_then_fill m at base moved total past next left i le past_eq next_eq left_eq fits =
        fill-overlay dword left (burst_copy swap_long moved m at (drop base commands) moved) past
          next i
        ∙ overlay-cong (burst_copy swap_long moved m at (drop base commands) moved)
            (overlay m at moved (λ k. swap_long (get_or (drop base commands) k 0))) past left
            (λ k. swap_long (dword (next + k))) i
            (burst_copy-overlay swap_long rev moved moved m at (drop base commands) i
              (drop-IsWords base commands words))
        ∙ rw (past_eq, left_eq)
            (overlay-overlay m at moved total (λ k. swap_long (get_or (drop base commands) k 0))
              (λ k. swap_long (dword (next + k))) (λ k. swap_long (dword (base + k))) i le
              (λ lo hi. ap swap_long (
                get_or-drop base commands (i - at) (base + (i - at)) refl
                ∙ sym (carries (base + (i - at)) (fits (i - at) (omega arith)))))
              (λ lo. ap (λ t. swap_long (dword t)) (omega arith)))

    segment_a-overlay :
        (m : ℕ → ℕ) (at first i : ℕ)
        → segment_a swap_long commands dword m at first i
          ≡ overlay m at first (λ k. swap_long (dword (0 + k))) i
    unfolding segment_a
    segment_a-overlay m at first i =
        let moved = if ltb first (length commands) then first else length commands in
        move_then_fill m at 0 moved first (at + moved) moved (first - moved) i (ground arith) refl
          (omega arith) refl (λ k lt. ground arith)

    segment_b-overlay :
        (m : ℕ → ℕ) (first remaining i : ℕ)
        → segment_b swap_long commands dword m first remaining i
          ≡ overlay m 0 remaining (λ k. swap_long (dword (first + k))) i
    unfolding segment_b
    segment_b-overlay m first remaining i =
        let left = length commands - first in
        let moved =
          if ltb first (length commands)
          then (if ltb remaining left then remaining else left)
          else 0 in
        move_then_fill m 0 first moved remaining moved (first + moved)
          (first + remaining - (first + moved)) i (ground arith) (omega arith) refl (omega arith)
          (λ k lt. ground arith)

    overlay-slot :
        (m : ℕ → ℕ) (at total i : ℕ)
        → at < ring_dwords
        → i < ring_dwords
        → at + total ≤ ring_dwords
        → (f : ℕ → ℕ)
        → overlay m at total (λ k. f (0 + k)) i ≡ (
            if ltb ((i + ring_dwords - at) % ring_dwords) total
            then f ((i + ring_dwords - at) % ring_dwords)
            else m i)
    overlay-slot m at total i ha hi ht f = elim (dec_lt i at) [
      | yes before ↦
          let k : (i + ring_dwords - at) % ring_dwords ≡ i + ring_dwords - at = omega arith in
          rw k (ground arith)
      | no after ↦
          let k : (i + ring_dwords - at) % ring_dwords ≡ i - at = omega arith in rw k (ground arith)
    ]

    -- Slot `i` of the ring holds the dword of the stream that is due there, counting from the write
    -- pointer and round the end, and what it held before where the stream does not reach.
    pub write_ring_lem :
        (m : ℕ → ℕ) (write_pointer total i : ℕ)
        → write_pointer < ring_dwords
        → total < ring_dwords
        → i < ring_dwords
        → let k = (i + ring_dwords - write_pointer) % ring_dwords in
          write_ring swap_long commands dword m write_pointer total i
          ≡ (if ltb k total then swap_long (dword k) else m i)
    unfolding write_ring
    write_ring_lem m write_pointer total i hw ht hi =
        elim (dec_lt (ring_dwords - write_pointer) total) [
          | yes wraps ↦
              let first = ring_dwords - write_pointer in
              let space : sub32 ring_dwords write_pointer ≡ first = omega arith in
              let cut : ltb total first ≡ false = ground arith in
              let more : (total - first == 0) ≡ false = ground arith in
              rw (space, cut, more)
                (ground (
                  arith,
                  segment_b-overlay (segment_a swap_long commands dword m write_pointer first) first
                      (total - first) i,
                  segment_a-overlay m write_pointer first i,
                ))
          | no fits ↦
              let space : sub32 ring_dwords write_pointer ≡ ring_dwords - write_pointer =
                omega arith in
              let whole : (if ltb total (ring_dwords - write_pointer)
                    then total
                    else ring_dwords - write_pointer)
                  ≡ total =
                ground arith in
              let done : (total - total == 0) ≡ true = ground arith in
              rw (space, whole, done)
                (segment_a-overlay m write_pointer total i
                  ∙ overlay-slot m write_pointer total i hw hi (omega arith)
                      (λ k. swap_long (dword k)))
        ]
