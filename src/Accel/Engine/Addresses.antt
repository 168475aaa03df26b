-- ===== src/Accel/Engine/Addresses.antt =====
-- The indices of the engine's cached registers and their addresses.
use r200_p96_driver.Base.{
  ℕ, ◌≡◌, ◌∙◌, Bool, true, false, not, ◌&&◌, ◌==◌, if◌then◌else◌, inl, inr, refl, sym, ap, arith,
  Bool-cases,
}
use r200_p96_driver.Accel.Engine.{
  EngineRegister, master, write_mask, control, dst_pitch_offset, src_pitch_offset, brush_fg,
  brush_bg, src_fg, src_bg, top_left, bottom_right, engine_index, engine_address,
}

abbrev address_at : ℕ → ℕ
address_at i =
    if i == 0
    then engine_address master
    else if i == 1
    then engine_address write_mask
    else if i == 2
    then engine_address control
    else if i == 3
    then engine_address dst_pitch_offset
    else if i == 4
    then engine_address src_pitch_offset
    else if i == 5
    then engine_address brush_fg
    else if i == 6
    then engine_address brush_bg
    else if i == 7
    then engine_address src_fg
    else if i == 8
    then engine_address src_bg
    else if i == 9
    then engine_address top_left
    else engine_address bottom_right

address_at-index : (r : EngineRegister) → address_at (engine_index r) ≡ engine_address r
address_at-index master = refl
address_at-index write_mask = refl
address_at-index control = refl
address_at-index dst_pitch_offset = refl
address_at-index src_pitch_offset = refl
address_at-index brush_fg = refl
address_at-index brush_bg = refl
address_at-index src_fg = refl
address_at-index src_bg = refl
address_at-index top_left = refl
address_at-index bottom_right = refl

abbrev index_at : ℕ → ℕ
index_at a =
    if a == engine_address master
    then 0
    else if a == engine_address write_mask
    then 1
    else if a == engine_address control
    then 2
    else if a == engine_address dst_pitch_offset
    then 3
    else if a == engine_address src_pitch_offset
    then 4
    else if a == engine_address brush_fg
    then 5
    else if a == engine_address brush_bg
    then 6
    else if a == engine_address src_fg
    then 7
    else if a == engine_address src_bg
    then 8
    else if a == engine_address top_left
    then 9
    else 10

index_at-address : (r : EngineRegister) → index_at (engine_address r) ≡ engine_index r
index_at-address master = refl
index_at-address write_mask = refl
index_at-address control = refl
index_at-address dst_pitch_offset = refl
index_at-address src_pitch_offset = refl
index_at-address brush_fg = refl
index_at-address brush_bg = refl
index_at-address src_fg = refl
index_at-address src_bg = refl
index_at-address top_left = refl
index_at-address bottom_right = refl

pub equal_numbers : (m n : ℕ) → (m == n) ≡ true → m ≡ n
equal_numbers m n h = ground (arith, h)

-- Two registers have the same index just if they have the same address.
pub same_index :
    (q r : EngineRegister)
    → (engine_index q == engine_index r) ≡ (engine_address q == engine_address r)
same_index q r = elim (Bool-cases (engine_index q == engine_index r)) [
  | inl e ↦ e ∙ sym (equal (engine_address q) (engine_address r) (addresses (equal_numbers _ _ e)))
  | inr e ↦ elim (Bool-cases (engine_address q == engine_address r)) [
    | inr f ↦ e ∙ sym f
    | inl f ↦ absurd (differ (engine_index q) (engine_index r) e (indices (equal_numbers _ _ f)))
  ]
]
  where
    equal : (m n : ℕ) → m ≡ n → (m == n) ≡ true
    equal m n h = ground (arith, h)

    differ : (m n : ℕ) → (m == n) ≡ false → m ≡ n → ⊥
    differ m n h g = ground (arith, h, g)

    addresses : engine_index q ≡ engine_index r → engine_address q ≡ engine_address r
    addresses h = sym (address_at-index q) ∙ ap address_at h ∙ address_at-index r

    indices : engine_address q ≡ engine_address r → engine_index q ≡ engine_index r
    indices h = sym (index_at-address q) ∙ ap index_at h ∙ index_at-address r

-- An address that is none of the cached registers'.
abbrev pub is_uncached : ℕ → Bool
is_uncached reg =
    not (reg == engine_address master)
    && not (reg == engine_address write_mask)
    && not (reg == engine_address control)
    && not (reg == engine_address dst_pitch_offset)
    && not (reg == engine_address src_pitch_offset)
    && not (reg == engine_address brush_fg)
    && not (reg == engine_address brush_bg)
    && not (reg == engine_address src_fg)
    && not (reg == engine_address src_bg)
    && not (reg == engine_address top_left)
    && not (reg == engine_address bottom_right)
