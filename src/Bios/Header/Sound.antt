-- ===== src/Bios/Header/Sound.antt =====
-- What the offsets and sizes from the directory are good for.
use r200_p96_driver.Base.{
  ℕ, ◌+◌, ◌*◌, ◌^◌, ◌%◌, ◌≤◌, ◌<◌, ◌≡◌, ◌⊎◌, inl, inr, true, false, arith, Bool-cases, leb, ltb,
  refl, if◌then◌else◌, ◌||◌,
}
use r200_p96_driver.Bios.{Bios, bios16, bios_has}
use r200_p96_driver.Bios.Header.{
  parse_header, is_atom, checked_offset, table_offset, bios_memory_size, bios_megabytes,
}

-- An offset behind the fixed part of the image, and inside it.
abbrev pub IsTable : Bios → ℕ → Type 0
IsTable b offset = (0x60 ≤ offset) × (offset < b.image_size)

pub checked_offset-IsTable :
    (b : Bios) (offset : ℕ) → (checked_offset b offset ≡ 0) ⊎ IsTable b (checked_offset b offset)
unfolding checked_offset
checked_offset-IsTable b offset = elim (Bool-cases (ltb offset 0x60)) [
  | inl e ↦ inl (ground arith)
  | inr e ↦ elim (Bool-cases (bios_has b offset 1)) [
    | inl f ↦ inr (ground arith)
    | inr f ↦ inl (ground arith)
  ]
]

-- The header stands behind the fixed part of the image, with the whole directory inside.
pub record HasDirectory (b : Bios) : Type 0 where
  pub behind : 0x60 ≤ b.header
  pub inside : b.header + b.directory_size ≤ b.image_size
  pub known : (b.revision ≤ 0x10) × (0x32 ≤ b.directory_size)
  pub combios : is_atom b.image (b.header + 4) ≡ false

pub parse_header-HasDirectory :
    (b b' : Bios)
    → parse_header b ≡ (true, b')
    → HasDirectory b' × (b'.image ≡ b.image) × (b'.image_size ≡ b.image_size)
unfolding parse_header
parse_header-HasDirectory b b' e = ground arith

pub table_offset-IsTable :
    (b : Bios) (field : ℕ) → (table_offset b field ≡ 0) ⊎ IsTable b (table_offset b field)
unfolding table_offset
table_offset-IsTable b field = elim (Bool-cases (leb b.directory_size (field + 1))) [
  | inl e ↦ rw e (inl refl)
  | inr e ↦ rw e (checked_offset-IsTable b (bios16 b (b.header + field)))
]

in_bytes :
    (megabytes : ℕ)
    → let size = if ltb megabytes 4 || ltb 512 megabytes then 0 else megabytes * 1024 * 1024 in
      (size ≡ 0) ⊎ ((4 * 2 ^ 20 ≤ size) × (size ≤ 512 * 2 ^ 20) × (size % 2 ^ 20 ≡ 0))
in_bytes megabytes = elim (Bool-cases (ltb megabytes 4 || ltb 512 megabytes)) [
  | inl e ↦ rw e (inl refl)
  | inr e ↦ rw e (inr (ground arith))
]

-- The size in bytes is a number of megabytes from 4 to 512, or zero for an unknown size.
pub bios_memory_size_lem :
    (b : Bios)
    → (bios_memory_size b ≡ 0)
      ⊎ ((4 * 2 ^ 20 ≤ bios_memory_size b)
          × (bios_memory_size b ≤ 512 * 2 ^ 20)
          × (bios_memory_size b % 2 ^ 20 ≡ 0))
unfolding bios_memory_size
bios_memory_size_lem b = in_bytes (bios_megabytes b)
