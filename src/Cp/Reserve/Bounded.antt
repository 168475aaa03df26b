-- ===== src/Cp/Reserve/Bounded.antt =====
-- `CpReserve` ends, and what its answer means.
use r200_p96_driver.Base.{
  ℕ, zero, suc, ◌+◌, ◌-◌, ◌≤◌, ◌<◌, ◌≡◌, inr, refl, ap, ◌∙◌, Bool, true, some, arith, bit_and,
  repeat_ends, repeat_returns, repeat-inl,
}
use r200_p96_driver.Mmio.{Bus, read32}
use r200_p96_driver.Cp.{CpState, ring_mask, stall_polls, cp_rb_rptr, free_dwords, read_clock}
use r200_p96_driver.Cp.Reserve.{
  Poll, poll_at, poll_at-GoesOn, poll_at-ends, ring_pointer, poll_ring, reserve_start, reserve,
  reserve_deadline,
}

-- The window holds the read pointer's register.
abbrev pub IsOpen : Bus → Type 0
IsOpen b = (b.mapped ≡ true) × (cp_rb_rptr + 4 ≤ b.mmio_size)

module _ (hw : ℕ → ℕ → ℕ) where
  -- What an answer of `CpReserve` says.
  pub record Reserved (st : CpState) (dwords : ℕ) (answer : Bool × Bus) : Type 0 where
    pub mapped : answer.1.mapped ≡ st.bus.mapped
    pub mmio_size : answer.1.mmio_size ≡ st.bus.mmio_size
    pub written : answer.1.written ≡ st.bus.written
    pub room :
        answer.0 ≡ true
        → (t : ℕ) × (dwords ≤ free_dwords (bit_and (hw t cp_rb_rptr) ring_mask) st.write_pointer)

module _ (hw : ℕ → ℕ → ℕ) (clock : ℕ → ℕ) where
  pub read_open :
      (b : Bus)
      → IsOpen b
      → read32 hw b cp_rb_rptr ≡ (hw b.now cp_rb_rptr, record b { now = b.now + 1 })
  unfolding read32
  read_open b h = ground arith

  pub deadline_bus :
      (st : CpState)
      → ((reserve_deadline clock st).1.mapped ≡ st.bus.mapped)
        × ((reserve_deadline clock st).1.mmio_size ≡ st.bus.mmio_size)
        × ((reserve_deadline clock st).1.written ≡ st.bus.written)
  unfolding read_clock
  deadline_bus st = ground arith

  -- The state that every round starts in, the read pointer being at rest at `v` from the access
  -- number `settled` on.
  record Polling (settled v : ℕ) (s : Poll) : Type 0 where
    open_bus : IsOpen s.bus
    within : s.stall < stall_polls
    seen : settled + 1 < s.bus.now → s.last_read_pointer ≡ v

  abbrev polls_left : ℕ → Poll → ℕ
  polls_left settled s = settled + 2 - s.bus.now + (stall_polls - s.stall)

  module _ (deadline write_pointer dwords settled v : ℕ)
      (rest : (t : ℕ) → settled ≤ t → bit_and (hw t cp_rb_rptr) ring_mask ≡ v) where
    keeps_Polling :
        (s t : Poll)
        → Polling settled v s
        → poll_ring hw clock deadline write_pointer dwords s ≡ inr t
        → Polling settled v t × (polls_left settled t < polls_left settled s)
    unfolding poll_ring
    keeps_Polling s t p h =
        let e = read_open s.bus p.open_bus in
        let g =
          poll_at-GoesOn clock deadline write_pointer dwords s (ring_pointer hw s.bus)
            (read32 hw s.bus cp_rb_rptr).1 h in
        let ptr : ring_pointer hw s.bus ≡ bit_and (hw s.bus.now cp_rb_rptr) ring_mask =
          ap (λ (x : ℕ × Bus). bit_and x.0 ring_mask) e in
        let now : (read32 hw s.bus cp_rb_rptr).1.now ≡ s.bus.now + 1 =
          ap (λ (x : ℕ × Bus). x.1.now) e in
        let size : (read32 hw s.bus cp_rb_rptr).1.mmio_size ≡ s.bus.mmio_size =
          ap (λ (x : ℕ × Bus). x.1.mmio_size) e in
        let mapped : (read32 hw s.bus cp_rb_rptr).1.mapped ≡ s.bus.mapped =
          ap (λ (x : ℕ × Bus). x.1.mapped) e in
        (
          record {
            open_bus =
                (g.mapped ∙ mapped ∙ p.open_bus.0, omega (arith, g.mmio_size, size, p.open_bus.1));
            within = g.budget p.within;
            seen = λ late. g.last ∙ ptr ∙ rest s.bus.now (omega (arith, g.soon, now));
          },
          ground (
            arith,
            g.now,
            g.counted,
            g.stall,
            g.budget,
            p.seen,
            p.within,
            ptr,
            now,
            rest s.bus.now,
          ),
        )

    start-Polling : (st : CpState) → IsOpen st.bus → Polling settled v (reserve_start hw clock st)
    unfolding reserve_start
    start-Polling st o =
        let d = deadline_bus st in
        let b = (reserve_deadline clock st).1 in
        let ob : IsOpen b = (d.0 ∙ o.0, omega (arith, d.1, o.1)) in
        let e = read_open b ob in
        let now : (read32 hw b cp_rb_rptr).1.now ≡ b.now + 1 = ap (λ (x : ℕ × Bus). x.1.now) e in
        record {
          open_bus = (
            ap (λ (x : ℕ × Bus). x.1.mapped) e ∙ ob.0,
            omega (arith, ap (λ (x : ℕ × Bus). x.1.mmio_size) e, ob.1),
          );
          within = omega arith;
          seen = λ late.
              ap (λ (x : ℕ × Bus). bit_and x.0 ring_mask) e ∙ rest b.now (omega (arith, now));
        }

  -- `CpReserve` ends, even if the command processor stops for good: where the read pointer is at
  -- rest from the access number `settled` on, `settled + 20003` rounds are enough.
  pub reserve_ends :
      (fuel : ℕ) (st : CpState) (dwords settled v : ℕ)
      → IsOpen st.bus
      → ((t : ℕ) → settled ≤ t → bit_and (hw t cp_rb_rptr) ring_mask ≡ v)
      → settled + 20003 ≤ fuel
      → (r : Bool × Bus) × (reserve hw clock fuel st dwords ≡ some r)
  unfolding reserve reserve_start
  reserve_ends fuel st dwords settled v o rest enough =
      let d = (reserve_deadline clock st).0 in
      repeat_ends (Polling settled v) (polls_left settled)
        (poll_ring hw clock d st.write_pointer dwords)
        (keeps_Polling d st.write_pointer dwords settled v rest) fuel (reserve_start hw clock st)
        (omega arith) (start-Polling d st.write_pointer dwords settled v rest st o)

  record SameWindow (st : CpState) (s : Poll) : Type 0 where
    mapped : s.bus.mapped ≡ st.bus.mapped
    mmio_size : s.bus.mmio_size ≡ st.bus.mmio_size
    written : s.bus.written ≡ st.bus.written

  read-SameWindow :
      (st : CpState) (b : Bus)
      → IsOpen st.bus
      → b.mapped ≡ st.bus.mapped
      → b.mmio_size ≡ st.bus.mmio_size
      → ((read32 hw b cp_rb_rptr).1.mapped ≡ b.mapped)
        × ((read32 hw b cp_rb_rptr).1.mmio_size ≡ b.mmio_size)
        × ((read32 hw b cp_rb_rptr).1.written ≡ b.written)
        × (ring_pointer hw b ≡ bit_and (hw b.now cp_rb_rptr) ring_mask)
  read-SameWindow st b o m z =
      let e = read_open b (m ∙ o.0, omega (arith, z, o.1)) in
      (
        ap (λ (x : ℕ × Bus). x.1.mapped) e,
        ap (λ (x : ℕ × Bus). x.1.mmio_size) e,
        ap (λ (x : ℕ × Bus). x.1.written) e,
        ap (λ (x : ℕ × Bus). bit_and x.0 ring_mask) e,
      )

  pub reserve-Reserved :
      (fuel : ℕ) (st : CpState) (dwords : ℕ) {answer : Bool × Bus}
      → IsOpen st.bus
      → reserve hw clock fuel st dwords ≡ some answer
      → Reserved hw st dwords answer
  unfolding reserve reserve_start poll_ring
  reserve-Reserved fuel st dwords o h =
      let d = (reserve_deadline clock st).0 in
      let bus = (reserve_deadline clock st).1 in
      let db = deadline_bus st in
      let r0 = read-SameWindow st bus o db.0 db.1 in
      repeat_returns (SameWindow st) (Reserved hw st dwords)
        (poll_ring hw clock d st.write_pointer dwords)
        (λ s t p e.
          let r = read-SameWindow st s.bus o p.mapped p.mmio_size in
          let g =
            poll_at-GoesOn clock d st.write_pointer dwords s (ring_pointer hw s.bus)
              (read32 hw s.bus cp_rb_rptr).1 e in
          record {
            mapped = g.mapped ∙ r.0 ∙ p.mapped;
            mmio_size = g.mmio_size ∙ r.1 ∙ p.mmio_size;
            written = g.written ∙ r.2 ∙ p.written;
          })
        (λ s a p e.
          let r = read-SameWindow st s.bus o p.mapped p.mmio_size in
          let g =
            poll_at-ends clock d st.write_pointer dwords s (ring_pointer hw s.bus)
              (read32 hw s.bus cp_rb_rptr).1 e in
          record {
            mapped = g.1 ∙ r.0 ∙ p.mapped;
            mmio_size = g.2 ∙ r.1 ∙ p.mmio_size;
            written = g.0 ∙ r.2 ∙ p.written;
            room = λ yes_room. (s.bus.now, rw (← r.3) (g.3 yes_room));
          })
        fuel (reserve_start hw clock st)
        (record { mapped = r0.0 ∙ db.0; mmio_size = r0.1 ∙ db.1; written = r0.2 ∙ db.2 }) h

  -- Where the ring has room at the first poll, the answer is TRUE.
  pub reserve-room :
      (fuel : ℕ) (st : CpState) (dwords : ℕ)
      → dwords ≤ free_dwords (ring_pointer hw (reserve_start hw clock st).bus) st.write_pointer
      → reserve hw clock (suc fuel) st dwords
        ≡ some (true, (read32 hw (reserve_start hw clock st).bus cp_rb_rptr).1)
  unfolding reserve poll_ring poll_at
  reserve-room fuel st dwords h =
      repeat-inl fuel (poll_ring hw clock (reserve_deadline clock st).0 st.write_pointer dwords)
        (reserve_start hw clock st) (ground arith)

  pub reserve-room_always :
      (fuel : ℕ) (st : CpState) (dwords : ℕ)
      → 0 < fuel
      → IsOpen st.bus
      → ((t : ℕ) → dwords ≤ free_dwords (bit_and (hw t cp_rb_rptr) ring_mask) st.write_pointer)
      → (bus : Bus) × (reserve hw clock fuel st dwords ≡ some (true, bus))
  unfolding reserve_start
  reserve-room_always zero st dwords pos o room = absurd (omega arith)
  reserve-room_always (suc fuel) st dwords pos o room =
      let d = deadline_bus st in
      let b = (reserve_deadline clock st).1 in
      let first = read-SameWindow st b o d.0 d.1 in
      let s = reserve_start hw clock st in
      let again = read-SameWindow st s.bus o (first.0 ∙ d.0) (first.1 ∙ d.1) in
      (_, reserve-room fuel st dwords (rw again.3 (room s.bus.now)))

  -- In an open window, an answer of TRUE was given when the read pointer left room for `dwords`,
  -- and no register was written.
  reserve-granted :
      (fuel : ℕ) (st : CpState) (dwords : ℕ) {bus : Bus}
      → IsOpen st.bus
      → reserve hw clock fuel st dwords ≡ some (true, bus)
      → (bus.written ≡ st.bus.written)
        × ((t : ℕ) × (dwords ≤ free_dwords (bit_and (hw t cp_rb_rptr) ring_mask) st.write_pointer))
  reserve-granted fuel st dwords o h =
      let r = reserve-Reserved fuel st dwords o h in (r.written, r.room refl)
