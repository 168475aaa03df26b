-- ===== src/Vram/Stack.antt =====
-- The private video memory is a stack of pages above the visible memory.
use mathlib.Core.Path.{Path, subst}
use r200_p96_driver.Base.{
  some-inj, ℕ, ◌+◌, ◌-◌, ◌*◌, ◌/◌, ◌%◌, ◌^◌, ◌≤◌, ◌<◌, ◌≡◌, Bool, true, false, some, refl, sym, ap,
  ◌∙◌, inl, inr, arith, bit_and, add32, sub32, not32, bit_and-field, Bool-cases, ltb, ◌==◌, ◌||◌,
  not,
}
use r200_p96_driver.Vram.{
  Board, private_vram_mask, page_round, allocate_private_vram, free_private_vram,
}

-- A board whose memory lies in the address space, and not at NULL.
pub record IsValid (b : Board) : Type 0 where
  pub based : 0 < b.memory_base
  pub visible : b.memory_size ≤ b.memory_space_size
  pub inside : b.memory_base + b.memory_space_size < 2 ^ 32

page_round_lem : (n : ℕ) → n + 4095 < 2 ^ 32 → page_round n ≡ (n + 4095) / 4096 * 4096
page_round_lem n h = omega (arith, bit_and-field 20 12 (add32 n 4095))

page_floor_lem : (n : ℕ) → n < 2 ^ 32 → bit_and n (not32 private_vram_mask) ≡ n / 4096 * 4096
page_floor_lem n h = omega (arith, bit_and-field 20 12 n)

-- The board that an allocation of `requested` bytes leaves.
abbrev taken : Board → ℕ → Board
taken b requested = record b {
  memory_size = (b.memory_size - (requested + 4095) / 4096 * 4096) / 4096 * 4096;
}

record Granted (b : Board) (requested : ℕ) (r : ℕ × Board) : Type 0 where
  some_bytes : 0 < requested
  few : requested + 4095 < 2 ^ 32
  room : (requested + 4095) / 4096 * 4096 ≤ b.memory_size
  result : r ≡ (b.memory_base + (taken b requested).memory_size, taken b requested)

granted_pair :
    (b : Board) (requested : ℕ)
    → IsValid b
    → page_round requested ≡ (requested + 4095) / 4096 * 4096
    → page_round requested ≤ b.memory_size
    → let size = bit_and (sub32 b.memory_size (page_round requested)) (not32 private_vram_mask) in
      Path
        (ℕ × Board)
        (add32 b.memory_base size, record b { memory_size = size })
        (b.memory_base + (taken b requested).memory_size, taken b requested)
granted_pair b requested v round room =
    let size : bit_and (sub32 b.memory_size (page_round requested)) (not32 private_vram_mask)
        ≡ (taken b requested).memory_size =
      omega
        (arith, v.inside, v.visible, page_floor_lem (sub32 b.memory_size (page_round requested))) in
    let address : add32 b.memory_base (taken b requested).memory_size
        ≡ b.memory_base + (taken b requested).memory_size =
      omega (arith, v.inside, v.visible) in
    rw (size, address) refl

allocate-Granted :
    (b : Board) (requested : ℕ) (r : ℕ × Board)
    → IsValid b
    → allocate_private_vram b requested ≡ some r
    → Granted b requested r
unfolding allocate_private_vram
allocate-Granted b requested r v h =
    elim (Bool-cases
      ((b.memory_base == 0) || (requested == 0) || ltb (not32 0 - private_vram_mask) requested)) [
        | inl e ↦ absurd (cc (rw e at h))
        | inr e ↦
            let few : (0 < requested) × (requested + 4095 < 2 ^ 32) = ground (arith, e, v.inside) in
            elim (Bool-cases (ltb b.memory_size (page_round requested))) [
              | inl f ↦ absurd (cc (rw (e, f) at h))
              | inr f ↦
                  let round = page_round_lem requested few.1 in
                  let room : page_round requested ≤ b.memory_size = ground (arith, f) in
                  record {
                    some_bytes = few.0;
                    few = few.1;
                    room = omega (arith, round, room);
                    result =
                        sym (some-inj (rw (e, f) at h)) ∙ granted_pair b requested v round room;
                  }
            ]
      ]

-- What an allocation hands out.
pub record Taken (b : Board) (requested address : ℕ) (b' : Board) : Type 0 where
  pub at : address ≡ b'.memory_base + b'.memory_size
  pub same_space : (b'.memory_base ≡ b.memory_base) × (b'.memory_space_size ≡ b.memory_space_size)
  pub page : b'.memory_size % 4096 ≡ 0
  pub room : b'.memory_size + requested ≤ b.memory_size
  pub tight : b.memory_size < b'.memory_size + requested + 8192
  pub still : IsValid b'

-- On a valid board, a block begins where the visible memory ends now, whole pages above the base, lies
-- in the memory that was visible and is not any more, and wastes less than two pages.
pub allocate-Taken :
    (b : Board) (requested : ℕ) {address : ℕ} {b' : Board}
    → IsValid b
    → allocate_private_vram b requested ≡ some (address, b')
    → Taken b requested address b'
unfolding allocate_private_vram
allocate-Taken b requested {address} v h =
    let g = allocate-Granted b requested _ v h in
    let at = ap (λ (x : ℕ × Board). x.0) g.result in
    subst (Taken b requested address) (sym (ap (λ (x : ℕ × Board). x.1) g.result)) (record {
      at = at;
      same_space = (refl, refl);
      page = omega arith;
      room = omega (arith, g.room);
      tight = omega (arith, g.some_bytes);
      still = record { based = v.based; visible = omega (arith, v.visible); inside = v.inside };
    })

-- On a valid board whose base lies on a page, a block begins on a page of the address space, right above
-- the memory that stays visible, ends in the memory that was visible, and wastes less than two pages.
-- The board stays valid.
pub allocate_private_vram_lem :
    (b : Board) (requested : ℕ) {address : ℕ} {b' : Board}
    → IsValid b
    → b.memory_base % 4096 ≡ 0
    → allocate_private_vram b requested ≡ some (address, b')
    → (address % 4096 ≡ 0)
      × (address ≡ b'.memory_base + b'.memory_size)
      × (address + requested ≤ b.memory_base + b.memory_size)
      × (b.memory_base + b.memory_size < address + requested + 8192)
      × (b' ≡ record b { memory_size = b'.memory_size })
      × IsValid b'
allocate_private_vram_lem b requested {address} {b'} v page h =
    let t = allocate-Taken b requested v h in
    let base = t.same_space.0 in
    (
      omega (arith, t.at, base, t.page, page),
      t.at,
      omega (arith, t.at, base, t.room),
      omega (arith, t.at, base, t.tight),
      λ i. record {
        memory_base = base i;
        memory_size = b'.memory_size;
        memory_space_size = t.same_space.1 i;
      },
      t.still,
    )

-- The block right above the visible memory can be freed.
pub free_private_vram-top :
    (b : Board) (requested : ℕ)
    → IsValid b
    → 0 < requested
    → b.memory_size + (requested + 4095) / 4096 * 4096 ≤ b.memory_space_size
    → free_private_vram b (b.memory_base + b.memory_size) requested
      ≡ (true, record b { memory_size = b.memory_size + (requested + 4095) / 4096 * 4096 })
unfolding free_private_vram
free_private_vram-top b requested v pos room =
    let pages = (requested + 4095) / 4096 * 4096 in
    let round : page_round requested ≡ pages =
      page_round_lem requested (omega (arith, v.inside, v.based)) in
    let offset : sub32 (b.memory_base + b.memory_size) b.memory_base ≡ b.memory_size =
      omega (arith, v.inside, v.visible) in
    let no_null : (b.memory_base == 0)
          || (b.memory_base + b.memory_size == 0)
          || (requested == 0)
          || ltb (not32 0 - private_vram_mask) requested
          || ltb (b.memory_base + b.memory_size) b.memory_base
        ≡ false =
      ground (arith, v.based, v.inside) in
    let fits : not (b.memory_size == b.memory_size)
          || ltb b.memory_space_size b.memory_size
          || ltb (sub32 b.memory_space_size b.memory_size) pages
        ≡ false =
      ground (arith, v.visible, v.inside) in
    let sum : add32 b.memory_size pages ≡ b.memory_size + pages = omega (arith, v.inside) in
    rw (offset, no_null, round, fits, sum) refl

-- On a board whose visible memory ends on a page, freeing the block that was allocated last gives
-- the board back.
pub free-allocate :
    (b : Board) (requested : ℕ) {address : ℕ} {b' : Board}
    → IsValid b
    → b.memory_size % 4096 ≡ 0
    → allocate_private_vram b requested ≡ some (address, b')
    → free_private_vram b' address requested ≡ (true, b)
free-allocate b requested {address} {b'} v page h =
    let g = allocate-Granted b requested _ v h in
    let t = allocate-Taken b requested v h in
    let board_is = ap (λ (x : ℕ × Board). x.1) g.result in
    let top = free_private_vram-top b' requested t.still g.some_bytes (
      omega (
        arith,
        ap (λ (x : Board). x.memory_size) board_is,
        ap (λ (x : Board). x.memory_space_size) board_is,
        g.room,
        v.visible,
      )) in
    let size : (taken b requested).memory_size + (requested + 4095) / 4096 * 4096 ≡ b.memory_size =
      omega (arith, page, g.room) in
    let whole : Path (Bool × Board)
        (true, record b' { memory_size = b'.memory_size + (requested + 4095) / 4096 * 4096 })
        (true, b) =
      rw (board_is, size) refl in
    ap (λ a. free_private_vram b' a requested) t.at ∙ top ∙ whole
