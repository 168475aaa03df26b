-- ===== src/Cp/Reserve.antt =====
-- `CpReserve`: polling the read pointer until the ring has room, with a budget of polls that see no
-- progress and a deadline on the clock.
pub mod Bounded
use r200_p96_driver.Base.{
  ℕ, zero, suc, ◌+◌, ◌-◌, ◌*◌, ◌/◌, ◌%◌, ◌^◌, ◌≤◌, ◌<◌, ◌≡◌, ◌⊎◌, inl, inr, refl, Bool, true, false,
  not, ◌&&◌, Option, none, some, arith, ltb, leb, ◌==◌, if◌then◌else◌, bit_and, add32, sub32,
  is_nonneg, repeat, repeat_ends, repeat_returns, Bool-cases,
}
use r200_p96_driver.Mmio.{Bus, read32, is_refused}
use r200_p96_driver.Cp.{
  CpState, ring_mask, stall_polls, progress_every, ring_wait_ms, cp_rb_rptr, wait_ticks,
  free_dwords, read_clock,
}

-- The variables of the loop.
pub record Poll : Type 0 where
  pub bus : Bus
  pub last_read_pointer : ℕ
  pub stall : ℕ
  pub polls : ℕ

module _ (clock : ℕ → ℕ) where
  -- Every sixteenth poll looks at the clock.
  poll_clock : ℕ → Poll → (Bool × Bus) ⊎ Poll
  poll_clock deadline s =
      if leb progress_every (s.polls + 1)
      then (if not (deadline == 0)
          then (if is_nonneg (sub32 (read_clock clock s.bus).0 deadline)
              then inl (false, (read_clock clock s.bus).1)
              else inr (record s { bus = (read_clock clock s.bus).1; polls = 0 }))
          else inr (record s { polls = 0 }))
      else inr (record s { polls = s.polls + 1 })

  -- The body of the `for (;;)`, the read pointer having been read.
  unfoldable pub poll_at : ℕ → ℕ → ℕ → Poll → ℕ → Bus → (Bool × Bus) ⊎ Poll
  unfolding poll_clock
  poll_at deadline write_pointer dwords s read_pointer bus =
      if leb dwords (free_dwords read_pointer write_pointer)
      then inl (true, bus)
      else if not (read_pointer == s.last_read_pointer)
      then poll_clock deadline (record s { bus = bus; last_read_pointer = read_pointer })
      else if leb stall_polls (s.stall + 1)
      then inl (false, bus)
      else poll_clock deadline (record s { bus = bus; stall = s.stall + 1 })

  abbrev pub reserve_deadline : CpState → ℕ × Bus
  reserve_deadline st =
      if st.timer_open && not (st.eclock_rate == 0)
      then (
        add32 (read_clock clock st.bus).0 (wait_ticks st.eclock_rate ring_wait_ms),
        (read_clock clock st.bus).1,
      )
      else (0, st.bus)

  -- What a round leaves behind when it goes on.
  pub record GoesOn (s : Poll) (read_pointer : ℕ) (bus : Bus) (t : Poll) : Type 0 where
    pub mapped : t.bus.mapped ≡ bus.mapped
    pub mmio_size : t.bus.mmio_size ≡ bus.mmio_size
    pub written : t.bus.written ≡ bus.written
    pub now : bus.now ≤ t.bus.now
    pub soon : t.bus.now ≤ bus.now + 1
    pub last : t.last_read_pointer ≡ read_pointer
    pub stall : s.stall ≤ t.stall
    pub counted : read_pointer ≡ s.last_read_pointer → t.stall ≡ s.stall + 1
    pub budget : s.stall < stall_polls → t.stall < stall_polls

  pub poll_at-GoesOn :
      (deadline write_pointer dwords : ℕ) (s : Poll) (read_pointer : ℕ) (bus : Bus) {t : Poll}
      → poll_at deadline write_pointer dwords s read_pointer bus ≡ inr t
      → GoesOn s read_pointer bus t
  unfolding poll_at read_clock
  poll_at-GoesOn deadline write_pointer dwords s read_pointer bus h = ground arith

  -- What it returns when it ends.
  pub poll_at-ends :
      (deadline write_pointer dwords : ℕ) (s : Poll) (read_pointer : ℕ) (bus : Bus) {r : Bool}
      {b : Bus}
      → poll_at deadline write_pointer dwords s read_pointer bus ≡ inl (r, b)
      → (b.written ≡ bus.written)
        × (b.mapped ≡ bus.mapped)
        × (b.mmio_size ≡ bus.mmio_size)
        × (r ≡ true → dwords ≤ free_dwords read_pointer write_pointer)
        × (r ≡ false → free_dwords read_pointer write_pointer < dwords)
  unfolding poll_at read_clock
  poll_at-ends deadline write_pointer dwords s read_pointer bus h = ground arith

-- `RB_RPTR & CP_RING_MASK`
abbrev pub ring_pointer : (ℕ → ℕ → ℕ) → Bus → ℕ
ring_pointer hw b = bit_and (read32 hw b cp_rb_rptr).0 ring_mask

module _ (hw : ℕ → ℕ → ℕ) (clock : ℕ → ℕ) where
  unfoldable pub poll_ring : ℕ → ℕ → ℕ → Poll → (Bool × Bus) ⊎ Poll
  unfolding poll_at
  poll_ring deadline write_pointer dwords s =
      poll_at clock deadline write_pointer dwords s (ring_pointer hw s.bus)
        (read32 hw s.bus cp_rb_rptr).1

  unfoldable pub reserve_start : CpState → Poll
  reserve_start st =
      let bus = (reserve_deadline clock st).1 in
      record {
        bus = (read32 hw bus cp_rb_rptr).1;
        last_read_pointer = ring_pointer hw bus;
        stall = 0;
        polls = 0;
      }

  -- With fuel; the theorems below say how much is enough.
  unfoldable pub reserve : ℕ → CpState → ℕ → Option (Bool × Bus)
  reserve fuel st dwords =
      repeat fuel (poll_ring (reserve_deadline clock st).0 st.write_pointer dwords)
        (reserve_start st)
