-- ===== src/Base/Bits.antt =====
-- Masks and fields as arithmetic: what `&` with a run of ones and `|` of disjoint fields do.
use Prim.Native.Nat.{
  ℕ, zero, suc, ◌+◌, ◌-◌, ◌*◌, ◌/◌, ◌%◌, ◌^◌, ◌≤◌, ◌<◌, min, max, bit_and, bit_or, digits,
  bit_and-bitwise, bit_or-bitwise,
}
use mathlib.Core.Path.{◌≡◌, refl, ap}
use native.Mathlib.Nat.{pow-suc, one-le-pow}
use native.Mathlib.Omega.{arith}

-- The recursion on binary digits that the native operations stand for needs no more rounds than
-- its first argument, and so has an equation for the lowest digit with no rounds in it.
module _ (z : ℕ → ℕ) (f : ℕ → ℕ → ℕ) where
  digits-enough : (a b n m : ℕ) → a ≤ n → a ≤ m → digits z f n a b ≡ digits z f m a b
  digits-enough zero b zero zero p q = refl
  digits-enough zero b zero (suc m) p q = refl
  digits-enough zero b (suc n) zero p q = refl
  digits-enough zero b (suc n) (suc m) p q = refl
  digits-enough (suc a) b zero m p q = absurd (omega arith)
  digits-enough (suc a) b (suc n) zero p q = absurd (omega arith)
  digits-enough (suc a) b (suc n) (suc m) p q =
      ap (λ t. t * 2 + f (suc a % 2) (b % 2))
        (digits-enough (suc a / 2) (b / 2) n m (omega arith) (omega arith))

  digits-low :
      (a b : ℕ)
      → digits z f (suc a) (suc a) b
        ≡ digits z f (suc a / 2) (suc a / 2) (b / 2) * 2 + f (suc a % 2) (b % 2)
  digits-low a b =
      ap (λ t. t * 2 + f (suc a % 2) (b % 2))
        (digits-enough (suc a / 2) (b / 2) a (suc a / 2) (omega arith) (omega arith))

pub bit_and-low : (a b : ℕ) → bit_and a b ≡ bit_and (a / 2) (b / 2) * 2 + min (a % 2) (b % 2)
bit_and-low zero b = simp bit_and-bitwise (omega arith)
bit_and-low (suc a) b = simp bit_and-bitwise (digits-low (λ t. 0) min a b)

pub bit_or-low : (a b : ℕ) → bit_or a b ≡ bit_or (a / 2) (b / 2) * 2 + max (a % 2) (b % 2)
bit_or-low zero b = simp bit_or-bitwise (omega arith)
bit_or-low (suc a) b = simp bit_or-bitwise (digits-low (λ t. t) max a b)

-- Induction from the half of a number, with a bound on the number as the rounds.
by_halves {ℓ} : (P : ℕ → Type ℓ) (n a : ℕ) → a ≤ n → P 0 → ((b : ℕ) → P (b / 2) → P b) → P a
by_halves P n zero h base step = base
by_halves P zero (suc a) h base step = absurd (omega arith)
by_halves P (suc n) (suc a) h base step =
    step (suc a) (by_halves P n (suc a / 2) (omega arith) base step)

pub bit_and-zero : (a : ℕ) → bit_and a 0 ≡ 0
bit_and-zero a =
    by_halves (λ t. bit_and t 0 ≡ 0) a a (omega arith) refl
      λ b ih. omega (arith, bit_and-low b 0, ih)

pub bit_or-zero : (a : ℕ) → bit_or a 0 ≡ a
bit_or-zero a =
    by_halves (λ t. bit_or t 0 ≡ t) a a (omega arith) refl λ b ih. omega (arith, bit_or-low b 0, ih)

bit_or-zero_left : (b : ℕ) → bit_or 0 b ≡ b
bit_or-zero_left b = simp bit_or-bitwise (omega arith)

pub bit_or_comm : (a b : ℕ) → bit_or a b ≡ bit_or b a
bit_or_comm a =
    by_halves (λ t. (b : ℕ) → bit_or t b ≡ bit_or b t) a a (omega arith)
      (λ b. omega (arith, bit_or-zero b, bit_or-zero_left b))
      λ c ih b. ground (arith, bit_or-low c b, bit_or-low b c, ih (b / 2))

double : (q k : ℕ) → q * 2 ^ suc k ≡ q * 2 ^ k + q * 2 ^ k
double q k = omega (arith, ap (λ (t : ℕ). q * t) (pow-suc 2 k))

-- A number with `r` below its digit `k` and `q` from there on, under a run of `k` ones.
module _ (q : ℕ) where
  bit_and-ones_at : (k r : ℕ) → r < 2 ^ k → bit_and (q * 2 ^ k + r) (2 ^ k - 1) ≡ r
  bit_and-ones_at zero r h = omega (arith, bit_and-zero (q * 1 + r))
  bit_and-ones_at (suc k) r h = ground (
    arith,
    bit_and-low (q * 2 ^ suc k + r) (2 ^ suc k - 1),
    double q k,
    pow-suc 2 k,
    one-le-pow k 2,
    bit_and-ones_at k (r / 2),
  )

  -- Under a mask that is shifted up by `k`.
  bit_and-shifted_at :
      (m k r : ℕ) → r < 2 ^ k → bit_and (q * 2 ^ k + r) (m * 2 ^ k) ≡ bit_and q m * 2 ^ k
  bit_and-shifted_at m zero r h = ground arith
  bit_and-shifted_at m (suc k) r h = ground (
    arith,
    bit_and-low (q * 2 ^ suc k + r) (m * 2 ^ suc k),
    double q k,
    double m k,
    double (bit_and q m) k,
    pow-suc 2 k,
    bit_and-shifted_at m k (r / 2),
  )

  -- `|` with a number that is shifted up by `k`.
  pub bit_or-shifted_at :
      (m k r : ℕ) → r < 2 ^ k → bit_or (q * 2 ^ k + r) (m * 2 ^ k) ≡ bit_or q m * 2 ^ k + r
  bit_or-shifted_at m zero r h = ground arith
  bit_or-shifted_at m (suc k) r h = ground (
    arith,
    bit_or-low (q * 2 ^ suc k + r) (m * 2 ^ suc k),
    double q k,
    double m k,
    double (bit_or q m) k,
    pow-suc 2 k,
    bit_or-shifted_at m k (r / 2),
  )

  -- `|` adds fields that do not meet.
  pub bit_or-fields : (k r : ℕ) → r < 2 ^ k → bit_or (q * 2 ^ k) r ≡ q * 2 ^ k + r
  bit_or-fields zero r h = ground (arith, bit_or-zero q)
  bit_or-fields (suc k) r h =
      ground (arith, bit_or-low (q * 2 ^ suc k) r, double q k, pow-suc 2 k, bit_or-fields k (r / 2))

-- The same with the low field first.
pub bit_or-low_first : (q k r : ℕ) → r < 2 ^ k → bit_or r (q * 2 ^ k) ≡ q * 2 ^ k + r
bit_or-low_first q k r h = omega (arith, bit_or_comm r (q * 2 ^ k), bit_or-fields q k r h)

-- `& (2^k - 1)` is the remainder by `2^k`.
pub bit_and-ones : (k a : ℕ) → bit_and a (2 ^ k - 1) ≡ a % 2 ^ k
bit_and-ones k a = ground (arith, one-le-pow k 2, bit_and-ones_at (a / 2 ^ k) k (a % 2 ^ k))

-- `& ((2^j - 1) << k)` keeps the `j` digits from digit `k` on.
pub bit_and-field : (j k a : ℕ) → bit_and a ((2 ^ j - 1) * 2 ^ k) ≡ a / 2 ^ k % 2 ^ j * 2 ^ k
bit_and-field j k a = ground (
  arith,
  one-le-pow k 2,
  bit_and-shifted_at (a / 2 ^ k) (2 ^ j - 1) k (a % 2 ^ k),
  bit_and-ones j (a / 2 ^ k),
)
