-- ===== src/Mmio/Window.antt =====
-- Every access stays inside the mapped window.
use r200_p96_driver.Base.{
  ℕ, ◌+◌, ◌%◌, ◌≤◌, ◌≡◌, ◌∙◌, Bool-cases, inl, inr, refl, true, ◌∷◌, arith, All, bit_and, bit_or,
}
use r200_p96_driver.Base.{bit_and-ones}
use r200_p96_driver.Mmio.{
  Bus, is_refused, read32, write32, mask32, read_indexed, write_indexed, mask_indexed, read_pll,
  write_pll, mask_pll, clock_cntl_index, clock_cntl_data,
}

-- A longword-aligned register that lies whole inside a window of `size` bytes.
abbrev pub InWindow : ℕ → ℕ × ℕ → Type 0
InWindow size w = (w.0 % 4 ≡ 0) × (w.0 + 4 ≤ size)

abbrev pub IsContained : Bus → Type 0
IsContained b = All (InWindow b.mmio_size) b.written

-- The accesses that a bus has seen start with those of another, in a window of the same size.
pub record Extends (b c : Bus) : Type 0 where
  pub same_size : c.mmio_size ≡ b.mmio_size
  pub contained : IsContained b → IsContained c

pub Extends-refl : (b : Bus) → Extends b b
Extends-refl b = record { same_size = refl; contained = λ h. h }

pub Extends-trans : {a b c : Bus} → Extends a b → Extends b c → Extends a c
Extends-trans p q = record {
  same_size = q.same_size ∙ p.same_size;
  contained = λ h. q.contained (p.contained h);
}

pub write32-Extends : (b : Bus) (reg value : ℕ) → Extends b (write32 b reg value).1
unfolding write32
write32-Extends b reg value = record {
  same_size = ground arith;
  contained = λ h. ground (arith, bit_and-ones 2 reg);
}

module _ (hw : ℕ → ℕ → ℕ) where
  pub read32-Extends : (b : Bus) (reg : ℕ) → Extends b (read32 hw b reg).1
  unfolding read32
  read32-Extends b reg = record { same_size = ground arith; contained = λ h. ground arith }

  pub mask32-Extends : (b : Bus) (reg clear flags : ℕ) → Extends b (mask32 hw b reg clear flags).1
  unfolding mask32
  mask32-Extends b reg clear flags = elim (Bool-cases (is_refused b reg)) [
    | inl e ↦ rw e (Extends-refl b)
    | inr e ↦ rw e (Extends-trans (read32-Extends b reg) (write32-Extends _ reg _))
  ]

  pub read_indexed-Extends : (b : Bus) (index : ℕ) → Extends b (read_indexed hw b index).1
  unfolding read_indexed
  read_indexed-Extends b index = elim (Bool-cases (write32 b 0 index).0) [
    | inl e ↦ rw e (Extends-trans (write32-Extends b 0 index) (read32-Extends _ 4))
    | inr e ↦ rw e (write32-Extends b 0 index)
  ]

  pub read_pll-Extends : (b : Bus) (index : ℕ) → Extends b (read_pll hw b index).1
  unfolding read_pll
  read_pll-Extends b index = elim (Bool-cases (write32 b 8 (bit_and index 0x3f)).0) [
    | inl e ↦ rw e (Extends-trans (write32-Extends b 8 _) (read32-Extends _ 12))
    | inr e ↦ rw e (write32-Extends b 8 _)
  ]

pub write_indexed-Extends : (b : Bus) (index value : ℕ) → Extends b (write_indexed b index value).1
unfolding write_indexed
write_indexed-Extends b index value = elim (Bool-cases (write32 b 0 index).0) [
  | inl e ↦ rw e (Extends-trans (write32-Extends b 0 index) (write32-Extends _ 4 value))
  | inr e ↦ rw e (write32-Extends b 0 index)
]

pub write_pll-Extends : (b : Bus) (index value : ℕ) → Extends b (write_pll b index value).1
unfolding write_pll
write_pll-Extends b index value =
    elim (Bool-cases (write32 b 8 (bit_or (bit_and index 0x3f) 0x80)).0) [
      | inl e ↦
          elim (Bool-cases
            (write32 (write32 b 8 (bit_or (bit_and index 0x3f) 0x80)).1 12 value).0) [
              | inl f ↦ rw (e, f) (Extends-trans two (write32-Extends _ 8 0))
              | inr f ↦ rw (e, f) two
            ]
      | inr e ↦ rw e one
    ]
  where
    one : Extends b (write32 b 8 (bit_or (bit_and index 0x3f) 0x80)).1
    one = write32-Extends b 8 _

    two : Extends b (write32 (write32 b 8 (bit_or (bit_and index 0x3f) 0x80)).1 12 value).1
    two = Extends-trans one (write32-Extends _ 12 value)

module _ (hw : ℕ → ℕ → ℕ) where
  pub mask_pll-Extends :
      (b : Bus) (index and_mask or_mask : ℕ) → Extends b (mask_pll hw b index and_mask or_mask).1
  unfolding mask_pll
  mask_pll-Extends b index and_mask or_mask =
      Extends-trans (read_pll-Extends hw b index) (write_pll-Extends _ index _)

  mask_indexed-Extends :
      (b : Bus) (index and_mask or_mask : ℕ)
      → Extends b (mask_indexed hw b index and_mask or_mask).1
  unfolding mask_indexed
  mask_indexed-Extends b index and_mask or_mask =
      Extends-trans (read_indexed-Extends hw b index) (write_indexed-Extends _ index _)

  -- After writes into the mapped window only, no register access function writes outside it,
  -- whatever the register, the value and the card's answers.
  accesses-IsContained :
      (b : Bus) (reg x y : ℕ)
      → IsContained b
      → IsContained (write32 b reg x).1
        × IsContained (mask32 hw b reg x y).1
        × IsContained (mask_indexed hw b reg x y).1
        × IsContained (mask_pll hw b reg x y).1
  accesses-IsContained b reg x y h = (
    (write32-Extends b reg x).contained h,
    (mask32-Extends hw b reg x y).contained h,
    (mask_indexed-Extends b reg x y).contained h,
    (mask_pll-Extends b reg x y).contained h,
  )

  -- In a window that holds the clock registers, a read-modify-write of a PLL register selects it,
  -- stores the new value with the write enable set, and takes the write enable back.
  mask_pll_lem :
      (b : Bus) (index and_mask or_mask : ℕ)
      → b.mapped ≡ true
      → 16 ≤ b.mmio_size
      → let slot = bit_and index 0x3f in
        let old = hw (b.now + 1) clock_cntl_data in
        mask_pll hw b index and_mask or_mask ≡ (
          true,
          record b {
            now = b.now + 5;
            written =
                (clock_cntl_index, 0)
                ∷ (clock_cntl_data, bit_or (bit_and old and_mask) or_mask)
                ∷ (clock_cntl_index, bit_or slot 0x80)
                ∷ (clock_cntl_index, slot)
                ∷ b.written;
          },
        )
  unfolding mask_pll read_pll write_pll read32 write32
  mask_pll_lem b index and_mask or_mask m h = ground arith
