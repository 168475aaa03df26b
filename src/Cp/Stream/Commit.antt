-- ===== src/Cp/Stream/Commit.antt =====
-- What a commit promises: on TRUE the whole stream is in the ring, on slots that the command
-- processor has consumed, and the new write pointer is out; on FALSE nothing is.
use r200_p96_driver.Base.{
  ℕ, ◌+◌, ◌-◌, ◌%◌, ◌^◌, ◌≤◌, ◌<◌, ◌≡◌, ◌≢◌, ◌∙◌, ap, sym, ◌⊎◌, inl, inr, refl, Bool, true, false,
  List, ◌∷◌, ltb, bit_and, add32, sub32, arith, bit_and-ones,
}
use mathlib.Core.Path.{subst}
use r200_p96_driver.Mmio.{Bus, read32, write32}
use r200_p96_driver.Cp.{CpState, ring_dwords, ring_mask, cp_rb_rptr, cp_rb_wptr, free_dwords}
use r200_p96_driver.Cp.Reserve.Bounded.{Reserved}
use r200_p96_driver.Cp.Copy.Placed.{Reverses, IsWords}
use r200_p96_driver.Cp.Stream.{write_ring, hand_over, commit_reserved}
use r200_p96_driver.Cp.Stream.Layout.{Carries, write_ring_lem}
use r200_p96_driver.Cp.Stream.Sizes.{IsReady, swap-swap, unread-apart, slot-distance}

module _ (swap_long : ℕ → ℕ) (hw : ℕ → ℕ → ℕ) where
  -- `st'` is `st` after a stream whose dword `k` is `dword k` has been handed over.
  pub record Committed (st : CpState) (total : ℕ) (dword : ℕ → ℕ) (st' : CpState) : Type 0 where
    pub pointer : st'.write_pointer ≡ (st.write_pointer + total) % ring_dwords
    pub kicked : st'.bus.written ≡ (cp_rb_wptr, st'.write_pointer) ∷ st.bus.written
    pub stream :
        (k : ℕ) → k < total → swap_long (st'.ring ((st.write_pointer + k) % ring_dwords)) ≡ dword k
    pub window : (st'.bus.mapped ≡ st.bus.mapped) × (st'.bus.mmio_size ≡ st.bus.mmio_size)
    pub read_at : ℕ
    pub unread :
        let r = bit_and (hw read_at cp_rb_rptr) ring_mask in
        (j : ℕ)
        → j < (st.write_pointer + ring_dwords - r) % ring_dwords
        → st'.ring ((r + j) % ring_dwords) ≡ st.ring ((r + j) % ring_dwords)

  -- A commit changes nothing else.
  abbrev pub SameCounters : CpState → CpState → Type 0
  SameCounters st st' =
      st' ≡ record st { bus = st'.bus; ring = st'.ring; write_pointer = st'.write_pointer }

  -- `st'` differs from `st` in what the command processor cannot see: the accesses, and ring slots
  -- from the write pointer on.
  pub record Unsent (st st' : CpState) : Type 0 where
    pub frame : st' ≡ record st { bus = st'.bus; ring = st'.ring }
    pub silent : st'.bus.written ≡ st.bus.written
    pub window : (st'.bus.mapped ≡ st.bus.mapped) × (st'.bus.mmio_size ≡ st.bus.mmio_size)

  hand_over-cases :
      (st : CpState) (total last : ℕ)
      → IsReady st
      → total < ring_dwords
      → let next = (st.write_pointer + total) % ring_dwords in
        ((swap_long (st.ring ((st.write_pointer + total + ring_dwords - 1) % ring_dwords)) ≡ last)
          × (hand_over swap_long hw st total last ≡ (
            true,
            record st {
              bus = record st.bus {
                now = st.bus.now + 2;
                written = (cp_rb_wptr, next) ∷ st.bus.written;
              };
              write_pointer = next;
            },
          )))
        ⊎ ((swap_long (st.ring ((st.write_pointer + total + ring_dwords - 1) % ring_dwords)) ≢ last)
            × (hand_over swap_long hw st total last ≡ (false, st)))
  unfolding hand_over read32 write32
  hand_over-cases st total last v h =
      let at : bit_and (sub32 (add32 st.write_pointer total) 1) ring_mask
          ≡ (st.write_pointer + total + ring_dwords - 1) % ring_dwords =
        omega (arith, v.slot, bit_and-ones 18 (sub32 (add32 st.write_pointer total) 1)) in
      let next : bit_and (add32 st.write_pointer total) ring_mask
          ≡ (st.write_pointer + total) % ring_dwords =
        omega (arith, v.slot, bit_and-ones 18 (add32 st.write_pointer total)) in
      rw (at, next) (ground (arith, v.mapped, v.window))

module _ (swap_long : ℕ → ℕ) (rev : Reverses swap_long) (hw : ℕ → ℕ → ℕ) (st : CpState)
    (v : IsReady st) (commands : List ℕ) (words : IsWords commands) (dword : ℕ → ℕ) (total : ℕ)
    (small : total < ring_dwords) where
  -- The ring after the copy, and the state that is handed over.
  abbrev filled : ℕ → ℕ
  filled = write_ring swap_long commands dword st.ring st.write_pointer total

  abbrev reserved : Bus → CpState
  reserved bus = record st { bus = bus; ring = filled }

  reserved-IsReady :
      (bus : Bus)
      → bus.mapped ≡ st.bus.mapped
      → bus.mmio_size ≡ st.bus.mmio_size
      → IsReady (reserved bus)
  reserved-IsReady bus m z = record {
    ready = v.ready;
    slot = v.slot;
    aligned = v.aligned;
    mapped = m ∙ v.mapped;
    window = omega (arith, z, v.window);
  }

  module _ (carries : Carries commands dword) (longs : (k : ℕ) → dword k < 2 ^ 32) where
    filled-stream :
        (k : ℕ) → k < total → swap_long (filled ((st.write_pointer + k) % ring_dwords)) ≡ dword k
    filled-stream k h =
        let distance = slot-distance st.write_pointer k v.slot (omega arith) in
        let here =
          write_ring_lem swap_long rev commands dword carries words st.ring st.write_pointer total
            ((st.write_pointer + k) % ring_dwords) v.slot small (omega arith) in
        let inside : ltb k total ≡ true = ground arith in
        ap swap_long (here ∙ rw (distance, inside) refl)
        ∙ swap-swap swap_long (dword k) rev (longs k)

    filled-unread :
        (r : ℕ)
        → r < ring_dwords
        → total ≤ free_dwords r st.write_pointer
        → (j : ℕ) → j < (st.write_pointer + ring_dwords - r) % ring_dwords
        → filled ((r + j) % ring_dwords) ≡ st.ring ((r + j) % ring_dwords)
    filled-unread r hr room j h =
        let apart = unread-apart r st.write_pointer total j hr v.slot room h in
        let there =
          write_ring_lem swap_long rev commands dword carries words st.ring st.write_pointer total
            ((r + j) % ring_dwords) v.slot small (omega arith) in
        let outside : ltb (((r + j) % ring_dwords + ring_dwords - st.write_pointer) % ring_dwords)
              total
            ≡ false =
          ground arith in
        there ∙ rw outside refl

    last_slot :
        0 < total
        → (st.write_pointer + total + ring_dwords - 1) % ring_dwords
          ≡ (st.write_pointer + (total - 1)) % ring_dwords
    last_slot pos = omega (arith, v.slot)

    pub commit_reserved-true :
        (answer : Bool × Bus) {st' : CpState}
        → Reserved hw st total answer
        → commit_reserved swap_long hw st commands dword total answer ≡ (true, st')
        → Committed swap_long hw st total dword st' × SameCounters swap_long hw st st'
    unfolding commit_reserved
    commit_reserved-true (false, bus) res h = absurd (cc)
    commit_reserved-true (true, bus) res h =
        elim (hand_over-cases swap_long hw (reserved bus) total (dword (total - 1))
          (reserved-IsReady bus res.mapped res.mmio_size) small) [
            | inl (same, e) ↦
                let room = res.room refl in
                let after = ap (λ (x : Bool × CpState). x.1) (sym e ∙ h) in
                subst
                  (λ t. Committed swap_long hw st total dword t × SameCounters swap_long hw st t)
                  after
                  (
                    record {
                      pointer = refl;
                      kicked = rw res.written refl;
                      stream = filled-stream;
                      window = (res.mapped, res.mmio_size);
                      read_at = room.0;
                      unread =
                          filled-unread (bit_and (hw room.0 cp_rb_rptr) ring_mask)
                            (omega (arith, bit_and-ones 18 (hw room.0 cp_rb_rptr))) room.1;
                    },
                    refl,
                  )
            | inr (ne, e) ↦ absurd (cc)
          ]

    pub commit_reserved-false :
        (answer : Bool × Bus) {st' : CpState}
        → Reserved hw st total answer
        → commit_reserved swap_long hw st commands dword total answer ≡ (false, st')
        → Unsent swap_long hw st st'
    unfolding commit_reserved
    commit_reserved-false (false, bus) res h =
        subst (Unsent swap_long hw st) (ap (λ (x : Bool × CpState). x.1) h)
          (record { frame = refl; silent = res.written; window = (res.mapped, res.mmio_size) })
    commit_reserved-false (true, bus) res h =
        elim (hand_over-cases swap_long hw (reserved bus) total (dword (total - 1))
          (reserved-IsReady bus res.mapped res.mmio_size) small) [
            | inl (same, e) ↦ absurd (cc)
            | inr (ne, e) ↦
                subst (Unsent swap_long hw st) (ap (λ (x : Bool × CpState). x.1) (sym e ∙ h))
                  (record {
                    frame = refl;
                    silent = res.written;
                    window = (res.mapped, res.mmio_size);
                  })
          ]

    pub commit_reserved-granted :
        (bus : Bus)
        → 0 < total
        → Reserved hw st total (true, bus)
        → (st' : CpState) × (commit_reserved swap_long hw st commands dword total (true, bus)
            ≡ (true, st'))
    unfolding commit_reserved
    commit_reserved-granted bus pos res =
        elim (hand_over-cases swap_long hw (reserved bus) total (dword (total - 1))
          (reserved-IsReady bus res.mapped res.mmio_size) small) [
            | inl (same, e) ↦ (_, e)
            | inr (ne, e) ↦
                absurd (ne (rw (last_slot pos) (filled-stream (total - 1) (omega arith))))
          ]
