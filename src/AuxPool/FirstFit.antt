-- ===== src/AuxPool/FirstFit.antt =====
-- What `alloc` and `free` promise of a valid pool.
use r200_p96_driver.Base.{
  ℕ, ◌+◌, ◌*◌, ◌/◌, ◌%◌, ◌^◌, ◌≤◌, ◌<◌, ◌≡◌, ◌≢◌, ◌⊎◌, inl, inr, refl, sym, ◌∙◌, ap, true, false,
  List, Option, none, some, arith, All, Any, Bool-cases, Option-cases, bit_and-field, ltb, sub32,
  not, ◌||◌, ◌==◌, add32,
}
use mathlib.Core.Path.{subst}
use r200_p96_driver.AuxPool.{AuxBlock, Pool, place, round_up, settle, alloc, free}
use r200_p96_driver.AuxPool.Valid.{Fits, Apart, IsValid, Meets, FoundIn}
use r200_p96_driver.AuxPool.Search.{find_gap-FoundIn}
use r200_p96_driver.AuxPool.Table.{
  Cleared, place-none, place-All, place-AllApart, free_blocks-All, free_blocks-AllApart,
  free_blocks-place,
}

pub round_up_lem : (n : ℕ) → n + 4095 < 2 ^ 32 → round_up n ≡ (n + 4095) / 4096 * 4096
round_up_lem n h = omega (arith, bit_and-field 20 12 (add32 n 4095))

-- The requests that get past the first test.
abbrev pub Admitted : Pool → ℕ → Type 0
Admitted p n = (p.present ≡ true) × (0 < n) × (n + 4095 ≤ p.total)

round_up_bounds :
    {total : ℕ} (n : ℕ)
    → total ≤ 2 ^ 31
    → n + 4095 ≤ total
    → (n ≤ round_up n) × (round_up n < n + 4096) × (round_up n ≤ total) × (round_up n % 4096 ≡ 0)
round_up_bounds n small h = omega (arith, round_up_lem n)

-- A request that gets past the first test is settled by a search that has ended.
search :
    (p : Pool) (n : ℕ)
    → IsValid p
    → Admitted p n
    → (r : Option ℕ) × (alloc p n ≡ settle p (round_up n) (some r))
      × FoundIn p.total (round_up n) p.blocks r
unfolding alloc
search p n v ad =
    let found =
      find_gap-FoundIn p.total (round_up n) v.small (round_up_bounds n v.small ad.2).2 (p.total + 2)
        p.blocks 0 v.fit (omega arith) (omega arith) (omega arith) (λ o lt. absurd (omega arith)) in
    let past : (not p.present || (n == 0) || ltb (sub32 p.total 4095) n) ≡ false =
      ground (arith, v.large) in
    (found.0, rw (past, found.1) refl, found.2)

-- What a caller is owed for a request of `n` bytes: a block that is large enough by less than a page,
-- in bounds, apart from every live block, and at the lowest offset that has room.
pub record FirstFit (p : Pool) (n : ℕ) (b : AuxBlock) : Type 0 where
  pub enough : n ≤ b.bytes
  pub tight : b.bytes < n + 4096
  pub fits : Fits p.total b
  pub apart : All (Apart b) p.blocks
  pub least : (o : ℕ) → o < b.offset → Any (Meets o b.bytes) p.blocks

-- A request outside `Admitted` returns FALSE.
not-Admitted : (p : Pool) (n : ℕ) → 4096 ≤ p.total → (alloc p n ≡ (none, p)) ⊎ Admitted p n
unfolding alloc
not-Admitted p n large =
    elim (Bool-cases (not p.present || (n == 0) || ltb (sub32 p.total 4095) n)) [
      | inl refused ↦ inl (rw refused)
      | inr past ↦ inr (ground arith, ground arith, ground arith)
    ]

-- A call that succeeds has found a place and a free entry.
record Settled (p : Pool) (m : ℕ) (r : Option ℕ) (b : AuxBlock) (q : Pool) : Type 0 where
  at : ℕ
  table : List AuxBlock
  found : r ≡ some at
  new : b ≡ record { offset = at; bytes = m }
  placed : place p.blocks b ≡ some table
  after : q ≡ record p { blocks = table }

settle-Settled :
    (p : Pool) (m : ℕ) (r : Option ℕ) {b : AuxBlock} {q : Pool}
    → settle p m (some r) ≡ (some b, q)
    → Settled p m r b q
settle-Settled p m none h = absurd (cc)
settle-Settled p m (some c) h =
    elim (Option-cases (place p.blocks (record { offset = c; bytes = m }))) [
      | inl e ↦ absurd (ground arith)
      | inr (table, e) ↦ record {
        at = c;
        table = table;
        found = refl;
        new = ground arith;
        placed = ground arith;
        after = ground arith;
      }
    ]

settle-none :
    (p : Pool) (m : ℕ) (r : Option ℕ) {q : Pool}
    → FoundIn p.total m p.blocks r
    → settle p m (some r) ≡ (none, q)
    → (q ≡ p)
      × (All (λ b. b.bytes ≢ 0) p.blocks ⊎ ((o : ℕ) → o + m ≤ p.total → Any (Meets o m) p.blocks))
settle-none p m none f h = (ap (λ (t : Option AuxBlock × Pool). t.1) (sym h), inr f)
settle-none p m (some c) f h =
    elim (Option-cases (place p.blocks (record { offset = c; bytes = m }))) [
      | inl e ↦ (ground arith, inl (place-none p.blocks _ e))
      | inr (table, e) ↦ absurd (ground arith)
    ]

module _ (p : Pool) (m : ℕ) (r : Option ℕ) {b : AuxBlock} {q : Pool} (s : Settled p m r b q)
    (f : FoundIn p.total m p.blocks r) where
  found_at : FoundIn p.total m p.blocks (some s.at)
  found_at = subst (λ t. FoundIn p.total m p.blocks t) s.found f

  new-Apart : All (Apart b) p.blocks
  new-Apart = subst (λ t. All (Apart t) p.blocks) (sym s.new) found_at.2

  new_bytes : b.bytes ≡ m
  new_bytes = ap (λ (t : AuxBlock). t.bytes) s.new

  new_offset : b.offset ≡ s.at
  new_offset = ap (λ (t : AuxBlock). t.offset) s.new

  new-Fits : m % 4096 ≡ 0 → Fits p.total b
  new-Fits page = omega (arith, new_bytes, new_offset, found_at.0, found_at.1)

  new_least : (o : ℕ) → o < b.offset → Any (Meets o b.bytes) p.blocks
  new_least o lt =
      subst (λ t. Any (Meets o t) p.blocks) (sym new_bytes)
        (found_at.3 o (omega (arith, new_offset)))

  after-IsValid : IsValid p → Fits p.total b → IsValid q
  after-IsValid v fits = rw s.after (record {
    large = v.large;
    small = v.small;
    fit = place-All (Fits p.total) p.blocks b v.fit fits s.placed;
    apart = place-AllApart p.blocks b v.apart new-Apart s.placed;
  })

module _ (p : Pool) (n : ℕ) (v : IsValid p) where
  granted :
      {b : AuxBlock} {q : Pool}
      → alloc p n ≡ (some b, q)
      → Admitted p n
        × ((r : Option ℕ) × Settled p (round_up n) r b q × FoundIn p.total (round_up n) p.blocks r)
  granted h = elim (not-Admitted p n v.large) [
    | inl refused ↦ absurd (cc)
    | inr ad ↦
        let s = search p n v ad in (ad, (s.0, settle-Settled p (round_up n) s.0 (sym s.1 ∙ h), s.2))
  ]

  -- On a valid pool, a successful `AuxPoolAlloc` returns a block that is first fit, and leaves a valid
  -- pool.
  pub alloc-FirstFit :
      {b : AuxBlock} {q : Pool} → alloc p n ≡ (some b, q) → FirstFit p n b × IsValid q
  alloc-FirstFit h =
      let (ad, (r, s, f)) = granted h in
      let bounds = round_up_bounds n v.small ad.2 in
      let m = round_up n in
      let fits = new-Fits p m r s f bounds.3 in
      (
        record {
          enough = omega (arith, new_bytes p m r s f, bounds.0);
          tight = omega (arith, new_bytes p m r s f, bounds.1);
          fits = fits;
          apart = new-Apart p m r s f;
          least = new_least p m r s f;
        },
        after-IsValid p m r s f v fits,
      )

  -- On a valid pool whose free entries are all zero, `AuxPoolFree` of what `AuxPoolAlloc` has returned
  -- gives the pool back. The free entries are all zero behind the `AuxPoolAlloc`, and behind any
  -- `AuxPoolFree` that follows it, too.
  pub free-alloc :
      {b : AuxBlock} {q : Pool}
      → All Cleared p.blocks
      → alloc p n ≡ (some b, q)
      → (free q b.offset b.bytes ≡ p)
        × All Cleared q.blocks
        × ((offset bytes : ℕ) → All Cleared (free q offset bytes).blocks)
  unfolding free
  free-alloc {b} {q} cleared h =
      let (ad, (r, s, f)) = granted h in
      let live : b.bytes ≢ 0 =
        omega (arith, new_bytes p (round_up n) r s f, round_up_bounds n v.small ad.2, ad.1) in
      let table = place-All Cleared p.blocks b cleared (λ none. absurd (live none)) s.placed in
      rw s.after (
        ap (λ (t : List AuxBlock). record p { blocks = t })
            (free_blocks-place p.blocks b live (new-Apart p (round_up n) r s f) cleared s.placed),
        table,
        λ offset bytes. free_blocks-All Cleared s.table offset bytes table (λ none. refl),
      )

  -- On a valid pool, `AuxPoolAlloc` refuses a request that is within the pool's limits only if the table
  -- is full, or if every place with room meets a live block; a refusal changes nothing.
  pub alloc-none :
      {q : Pool}
      → Admitted p n
      → alloc p n ≡ (none, q)
      → (q ≡ p)
        × (All (λ b. b.bytes ≢ 0) p.blocks
            ⊎ ((o : ℕ) → o + round_up n ≤ p.total → Any (Meets o (round_up n)) p.blocks))
  alloc-none ad h = let s = search p n v ad in settle-none p (round_up n) s.0 s.2 (sym s.1 ∙ h)

  -- `AuxPoolFree` keeps the pool valid, whatever it is given.
  free-IsValid : (offset bytes : ℕ) → IsValid (free p offset bytes)
  unfolding free
  free-IsValid offset bytes = record {
    large = v.large;
    small = v.small;
    fit = free_blocks-All (Fits p.total) p.blocks offset bytes v.fit (omega arith);
    apart = free_blocks-AllApart p.blocks offset bytes v.apart;
  }
