-- ===== src/Cp/Fence/Serial.antt =====
-- The order of fences: `NextFence` counts through every 32-bit number but zero, and the signed
-- difference of `CpFenceReached` tells the earlier fence from the later one across the wrap.
use r200_p96_driver.Base.{ℕ, zero, suc, ◌+◌, ◌-◌, ◌%◌, ◌^◌, ◌<◌, ◌≡◌, ◌∙◌, leb, arith}
use r200_p96_driver.Cp.{fence_reached, take_sequence}

-- The sequence that the submission number `k` takes, counting from the counter `next`.
unfoldable pub issued : ℕ → ℕ → ℕ
issued next zero = (take_sequence next).0
issued next (suc k) = issued (take_sequence next).1 k

take_sequence-next :
    (next : ℕ)
    → next < 2 ^ 32
    → ((take_sequence next).1 < 2 ^ 32)
      × ((take_sequence (take_sequence next).1).0 ≡ (take_sequence next).0 % (2 ^ 32 - 1) + 1)
      × (0 < (take_sequence next).0)
      × ((take_sequence next).0 < 2 ^ 32)
unfolding take_sequence
take_sequence-next next h = ground arith

-- Fence `k` is `k` places after the first on the cycle of the nonzero 32-bit numbers.
pub issued_lem :
    (next k : ℕ)
    → next < 2 ^ 32
    → issued next k ≡ ((take_sequence next).0 + k - 1) % (2 ^ 32 - 1) + 1
unfolding issued
issued_lem next zero h = omega (arith, take_sequence-next next h)
issued_lem next (suc k) h =
    let t = take_sequence-next next h in
    issued_lem (take_sequence next).1 k t.0 ∙ omega (arith, t.1, t.2, t.3)

-- While fewer than 2 ^ 31 - 1 fences lie between them, a fence counts as reached exactly when the
-- scratch register holds it or a later one, also across the wrap of the counter.
pub fence_reached-issued :
    (next i j : ℕ)
    → next < 2 ^ 32
    → i < j + 2 ^ 31 - 1
    → j < i + 2 ^ 31 - 1
    → fence_reached (issued next j) (issued next i) ≡ leb i j
unfolding fence_reached
fence_reached-issued next i j h near near' =
    ground (arith, issued_lem next i h, issued_lem next j h, take_sequence-next next h)
