-- ===== src/Service/Batch/Floats.antt =====
-- What the coordinates of a vertex mean as floats of single precision, and that the unsigned comparison
-- of their bits compares their values (include/radeon3d_emit.h: UnsignedFloatBits).
use mathlib.Core.Path.{subst, sym}
use r200_p96_driver.Base.{
  ℕ, zero, suc, ◌+◌, ◌-◌, ◌*◌, ◌/◌, ◌%◌, ◌^◌, ◌≤◌, ◌<◌, ◌≡◌, refl, true, false, ◌==◌, ◌⊎◌, inl, inr,
  if◌then◌else◌, sym, ap, ◌∙◌, leb, Bool-cases, arith, bit_and, bit_or, bit_and-ones, bit_or-fields,
}
use native.Mathlib.Nat.{one-le-pow, pow-suc, pow-le-pow_right, mul-le-mul, mul-le-mul_right}
use r200_p96_driver.Service.Batch.{top_bit, unsigned_float_bits, valid_screen_coordinate}

-- The value of the bits of a float that is not negative, in units of 2^-149, the least such float.
abbrev pub scaled_value : ℕ → ℕ
scaled_value bits =
    if bits / 2 ^ 23 == 0 then bits else (2 ^ 23 + bits % 2 ^ 23) * 2 ^ (bits / 2 ^ 23 - 1)

-- A float that is finite, not negative, and at most `limit`.
pub record IsFloatUpTo (limit bits : ℕ) : Type 0 where
  pub positive : bits < 2 ^ 31
  pub finite : bits / 2 ^ 23 < 255
  pub bounded : scaled_value bits ≤ limit * 2 ^ 149

pow_add : (a b : ℕ) → 2 ^ (a + b) ≡ 2 ^ a * 2 ^ b
pow_add zero b = let same : 0 + b ≡ b = omega arith in rw same (omega arith)
pow_add (suc a) b =
    let next : suc a + b ≡ suc (a + b) = omega arith in
    rw next (grind (arith, pow_add a b, pow-suc 2 (a + b), pow-suc 2 a))

pow_next : (n : ℕ) → 2 ^ (n + 1) ≡ 2 ^ n * 2
pow_next n = omega (arith, pow_add n 1)

top_bit_lem :
    (fuel scan : ℕ)
    → 0 < scan
    → scan < 2 ^ suc fuel
    → (2 ^ top_bit fuel scan ≤ scan) × (scan < 2 ^ suc (top_bit fuel scan))
unfolding top_bit
top_bit_lem zero scan pos small = (omega arith, small)
top_bit_lem (suc fuel) scan pos small = elim (Bool-cases (scan / 2 == 0)) [
  | inl e ↦ rw (e, top_bit) (ground (arith, e), ground (arith, e))
  | inr e ↦
      let rest =
        top_bit_lem fuel (scan / 2) (ground (arith, e))
          (omega (arith, small, pow-suc 2 (suc fuel))) in
      let top = top_bit fuel (scan / 2) in
      let low : 2 ^ (top + 1) ≡ 2 ^ top * 2 = pow_next top in
      let high : 2 ^ suc (top + 1) ≡ 2 ^ (top + 1) * 2 = pow-suc 2 (top + 1) in
      let double : 2 ^ suc top ≡ 2 ^ top * 2 = pow-suc 2 top in
      rw (e, top_bit) (omega (arith, rest.0, low), omega (arith, rest.1, low, high, double))
]

-- The value of a float whose exponent is not zero.
abbrev normal_value : (exponent fraction : ℕ) → ℕ
normal_value exponent fraction = (2 ^ 23 + fraction) * 2 ^ (exponent - 1)

-- Values of floats with exponents that differ.
normal_value_less : (e f m n : ℕ) → 0 < e → e < f → m < 2 ^ 23 → normal_value e m ≤ normal_value f n
normal_value_less e f m n pos less small =
    let next : 2 ^ e ≡ 2 ^ (e - 1) * 2 =
      subst (λ t. 2 ^ t ≡ 2 ^ (e - 1) * 2) (omega arith) (pow-suc 2 (e - 1)) in
    let step = pow-le-pow_right {n = 2} (omega arith) {i = e} {j = f - 1} (omega arith) in
    let low = mul-le-mul_right {m = 2 ^ 23 + m} {n = 2 ^ 24} (2 ^ (e - 1)) (omega arith) in
    let high =
      mul-le-mul {n₁ = 2 ^ 23} {m₁ = 2 ^ e} {n₂ = 2 ^ 23 + n} {m₂ = 2 ^ (f - 1)} (omega arith)
        step in
    omega (arith, next, low, high)

scaled_value_mono : (a b : ℕ) → a ≤ b → scaled_value a ≤ scaled_value b
scaled_value_mono a b h =
    let one = one-le-pow (b / 2 ^ 23 - 1) 2 (omega arith) in
    elim (Bool-cases (b / 2 ^ 23 == 0)) [
      | inl zero_b ↦
          let zero_a : (a / 2 ^ 23 == 0) ≡ true = ground (arith, zero_b) in rw (zero_a, zero_b) h
      | inr some_b ↦ elim (Bool-cases (a / 2 ^ 23 == 0)) [
        | inl zero_a ↦
            let least =
              mul-le-mul {n₁ = 2 ^ 23} {m₁ = 1} {n₂ = 2 ^ 23 + b % 2 ^ 23}
                {m₂ = 2 ^ (b / 2 ^ 23 - 1)} (omega arith) one in
            let small : a < 2 ^ 23 = ground (arith, zero_a) in
            rw (zero_a, some_b) (omega (arith, least, small))
        | inr some_a ↦
            rw (some_a, some_b)
              (elim (le_cases (a / 2 ^ 23) (b / 2 ^ 23) (omega arith)) [
                | inl less ↦
                    normal_value_less (a / 2 ^ 23) (b / 2 ^ 23) (a % 2 ^ 23) (b % 2 ^ 23)
                      (ground (arith, some_a)) less (omega arith)
                | inr same ↦ rw same (
                    mul-le-mul_right {m = 2 ^ 23 + a % 2 ^ 23} {n = 2 ^ 23 + b % 2 ^ 23}
                      (2 ^ (b / 2 ^ 23 - 1)) (omega (arith, same)))
              ])
      ]
    ]
  where
    le_cases : (m n : ℕ) → m ≤ n → (m < n) ⊎ (m ≡ n)
    le_cases m n l = ground arith

-- The bits of a number with its highest digit at `top`, and their value.
module _ (limit top : ℕ) (least : 2 ^ top ≤ limit) (most : limit < 2 ^ suc top)
    (small : limit ≤ 2 ^ 16) where
  few : top ≤ 16
  few = elim (Bool-cases (leb 17 top)) [
    | inl large ↦
        let far =
          pow-le-pow_right {n = 2} (omega arith) {i = 17} {j = top} (ground (arith, large)) in
        absurd (omega (arith, far, least, small))
    | inr other ↦ ground (arith, other)
  ]

  shifted : (2 ^ 23 ≤ limit * 2 ^ (23 - top)) × (limit * 2 ^ (23 - top) < 2 ^ 24)
  shifted =
      let sum : top + (23 - top) ≡ 23 = omega (arith, few) in
      let whole : 2 ^ top * 2 ^ (23 - top) ≡ 2 ^ 23 =
        sym (pow_add top (23 - top)) ∙ ap (λ n. 2 ^ n) sum in
      let low = mul-le-mul_right {m = 2 ^ top} {n = limit} (2 ^ (23 - top)) least in
      let double : 2 ^ suc top ≡ 2 ^ top * 2 = pow-suc 2 top in
      let high =
        mul-le-mul_right {m = limit + 1} {n = 2 ^ top * 2} (2 ^ (23 - top))
          (omega (arith, most, double)) in
      let one = one-le-pow (23 - top) 2 (omega arith) in
      (omega (arith, whole, low), grind (arith, whole, high, one))

  float_bits :
      bit_or ((127 + top) * 2 ^ 23) (bit_and (limit * 2 ^ (23 - top)) 0x007fffff)
      ≡ (126 + top) * 2 ^ 23 + limit * 2 ^ (23 - top)
  float_bits =
      let fraction = bit_and-ones 23 (limit * 2 ^ (23 - top)) in
      let joined = bit_or-fields (127 + top) 23 (limit * 2 ^ (23 - top) % 2 ^ 23) (omega arith) in
      rw fraction (omega (arith, joined, shifted))

  float_value : scaled_value ((126 + top) * 2 ^ 23 + limit * 2 ^ (23 - top)) ≡ limit * 2 ^ 149
  float_value =
      let bits = (126 + top) * 2 ^ 23 + limit * 2 ^ (23 - top) in
      let exponent : bits / 2 ^ 23 ≡ 127 + top = omega (arith, shifted) in
      let fraction : 2 ^ 23 + bits % 2 ^ 23 ≡ limit * 2 ^ (23 - top) = omega (arith, shifted) in
      let some_bits : (127 + top == 0) ≡ false = ground arith in
      let less_one : 127 + top - 1 ≡ 126 + top = omega arith in
      let sum : (23 - top) + (126 + top) ≡ 149 = omega (arith, few) in
      let whole : 2 ^ (23 - top) * 2 ^ (126 + top) ≡ 2 ^ 149 =
        sym (pow_add (23 - top) (126 + top)) ∙ ap (λ n. 2 ^ n) sum in
      rw (exponent, fraction, some_bits, less_one) (grind (arith, whole))

-- A number of at most 2^16 has bits with its value.
unsigned_float_bits_lem :
    (limit : ℕ)
    → limit ≤ 2 ^ 16
    → (scaled_value (unsigned_float_bits limit) ≡ limit * 2 ^ 149)
      × (unsigned_float_bits limit < 144 * 2 ^ 23)
unsigned_float_bits_lem limit small = elim (Bool-cases (limit == 0)) [
  | inl none ↦
      let zero_limit : limit ≡ 0 = ground (arith, none) in
      unfold unsigned_float_bits in rw zero_limit (refl, omega arith)
  | inr some ↦
      let t = top_bit_lem 32 limit (ground (arith, some)) (omega arith) in
      let top = top_bit 32 limit in
      unfold unsigned_float_bits in
      rw (some, float_bits limit top t.0 t.1 small)
        (
          float_value limit top t.0 t.1 small,
          omega (arith, few limit top t.0 t.1 small, shifted limit top t.0 t.1 small),
        )
]

-- What `ValidScreenCoordinate` accepts, up to a limit that a target has.
pub valid_screen_coordinate-IsFloatUpTo :
    (bits limit : ℕ)
    → limit ≤ 2 ^ 16
    → valid_screen_coordinate bits limit ≡ true
    → IsFloatUpTo limit bits
unfolding valid_screen_coordinate
valid_screen_coordinate-IsFloatUpTo bits limit small h =
    let below : bits ≤ unsigned_float_bits limit = ground (arith, h) in
    let l = unsigned_float_bits_lem limit small in
    record {
      positive = omega (arith, below, l.1);
      finite = omega (arith, below, l.1);
      bounded =
          subst (λ v. scaled_value bits ≤ v) l.0
            (scaled_value_mono bits (unsigned_float_bits limit) below);
    }
