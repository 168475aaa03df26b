-- ===== src/Base/Words.antt =====
-- `ULONG` arithmetic: 32-bit words as native numbers, with the wrap written out.
use Prim.Native.Nat.{ℕ, ◌+◌, ◌-◌, ◌*◌, ◌%◌, ◌^◌}
use mathlib.Core.Bool.{Bool}
use r200_p96_driver.Base.Compare.{ltb}

abbrev pub word : ℕ
word = 2 ^ 32

-- `(ULONG)x`
abbrev pub u32 : ℕ → ℕ
u32 x = x % 2 ^ 32

abbrev pub add32 : ℕ → ℕ → ℕ
add32 a b = (a + b) % 2 ^ 32

abbrev pub sub32 : ℕ → ℕ → ℕ
sub32 a b = (a + 2 ^ 32 - b) % 2 ^ 32

abbrev pub mul32 : ℕ → ℕ → ℕ
mul32 a b = (a * b) % 2 ^ 32

-- `~x` of a word
abbrev pub not32 : ℕ → ℕ
not32 x = 2 ^ 32 - 1 - x

-- `(LONG)x >= 0`
abbrev pub is_nonneg : ℕ → Bool
is_nonneg x = ltb x (2 ^ 31)
