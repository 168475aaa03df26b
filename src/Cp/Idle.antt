-- ===== src/Cp/Idle.antt =====
-- `RadeonCpWait`: polling the scratch register for the pending fence, with a look at the read pointer
-- and the clock every sixteenth round.
pub mod Ends
mod Tests
use mathlib.Core.Option
use r200_p96_driver.Base.{
  ℕ, ◌+◌, ◌/◌, Bool, true, false, not, ◌&&◌, ◌⊎◌, inl, inr, Option, none, some, leb, ◌==◌,
  if◌then◌else◌, sub32, is_nonneg, repeat,
}
use r200_p96_driver.Mmio.{Bus, read32}
use r200_p96_driver.Cp.{CpState, stall_polls, progress_every, cp_rb_rptr, scratch_reg0, read_clock}
use r200_p96_driver.Cp.Reserve.{ring_pointer, reserve_deadline}
use r200_p96_driver.Cp.Fence.{invalidate_host_read_buffer}

-- The variables of the loop.
pub record Watch : Type 0 where
  pub bus : Bus
  pub last_read_pointer : ℕ
  pub stall : ℕ
  pub polls : ℕ

module _ (hw : ℕ → ℕ → ℕ) (clock : ℕ → ℕ) where
  -- `if (deadline && (LONG)(CpClock(state) - deadline) >= 0) return FALSE;`
  pub watch_clock : ℕ → Watch → (Bool × Bus) ⊎ Watch
  watch_clock deadline s =
      if not (deadline == 0)
      then (if is_nonneg (sub32 (read_clock clock s.bus).0 deadline)
          then inl (false, (read_clock clock s.bus).1)
          else inr (record s { bus = (read_clock clock s.bus).1 }))
      else inr s

  -- The sixteenth round: the read pointer, the stall budget and the clock.
  pub watch_progress : ℕ → Watch → ℕ → Bus → (Bool × Bus) ⊎ Watch
  unfolding watch_clock
  watch_progress deadline s read_pointer bus =
      if not (read_pointer == s.last_read_pointer)
      then watch_clock deadline
          (record { bus = bus; last_read_pointer = read_pointer; stall = s.stall; polls = 0 })
      else if leb (stall_polls / progress_every) (s.stall + 1)
      then inl (false, bus)
      else watch_clock deadline (record s { bus = bus; stall = s.stall + 1; polls = 0 })

  -- The body of the `for (;;)`, `bus` being what the read of the scratch register leaves.
  pub watch_scratch : ℕ → ℕ → Watch → ℕ → Bus → (Bool × Bus) ⊎ Watch
  unfolding watch_progress
  watch_scratch deadline pending s scratch bus =
      if scratch == pending
      then inl (invalidate_host_read_buffer hw bus)
      else if leb progress_every (s.polls + 1)
      then watch_progress deadline s (ring_pointer hw bus) (read32 hw bus cp_rb_rptr).1
      else inr (record s { bus = bus; polls = s.polls + 1 })

  pub watch : ℕ → ℕ → Watch → (Bool × Bus) ⊎ Watch
  unfolding watch_scratch
  watch deadline pending s =
      watch_scratch deadline pending s (read32 hw s.bus scratch_reg0).0
        (read32 hw s.bus scratch_reg0).1

  -- The loop's end: success clears both counters.
  pub settle_wait : CpState → Bool × Bus → Bool × CpState
  settle_wait st (false, bus) = (false, record st { bus = bus })
  settle_wait st (true, bus) =
      (true, record st { bus = bus; pending_fence = 0; pending_unfenced = 0 })

  pub watch_start : CpState → Watch
  watch_start st =
      let bus = (reserve_deadline clock st).1 in
      record {
        bus = (read32 hw bus cp_rb_rptr).1;
        last_read_pointer = ring_pointer hw bus;
        stall = 0;
        polls = 0;
      }

  -- `RadeonCpWait`, with fuel; `wait_ends` says how much is enough.
  pub wait : ℕ → CpState → Option (Bool × CpState)
  unfolding settle_wait
  wait fuel st =
      if not st.ready
      then some (false, st)
      else if st.pending_fence == 0
      then some (true, st)
      else Option.map (settle_wait st)
          (repeat fuel (watch (reserve_deadline clock st).0 st.pending_fence) (watch_start st))
