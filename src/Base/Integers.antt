-- ===== src/Base/Integers.antt =====
-- Signed numbers, for the coordinates that the source keeps in a `WORD` or a `LONG`.
use Prim.Native.Nat.{ℕ, ◌+◌, ◌-◌}
use r200_p96_driver.Base.Compare.{ltb, if◌then◌else◌}

-- `negsuc n` is `-(n + 1)`.
pub data ℤ : Type 0 where
  pos : ℕ → ℤ
  negsuc : ℕ → ℤ

-- `m - n`
abbrev pub minus : ℕ → ℕ → ℤ
minus m n = if ltb m n then negsuc (n - m - 1) else pos (m - n)

infixl 60 ◌-ℤ◌
abbrev pub ◌-ℤ◌ : ℤ → ℤ → ℤ
pos m -ℤ pos n = minus m n
pos m -ℤ negsuc n = pos (m + n + 1)
negsuc m -ℤ pos n = negsuc (m + n)
negsuc m -ℤ negsuc n = minus n m
