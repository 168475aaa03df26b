-- ===== src/Cp/Fence.antt =====
-- The fences of src/radeon_cp.c: testing one, waiting for one, waiting until the engines are idle,
-- and taking over the counters that a lease holder left.
pub mod Serial
pub mod Testing
pub mod Waiting
pub mod Drained
mod Tests
use mathlib.Core.Option
use r200_p96_driver.Base.{
  ℕ, zero, suc, ◌+◌, ◌-◌, ◌^◌, Bool, true, false, not, ◌&&◌, ◌||◌, List, [], ◌∷◌, ◌⊎◌, inl, inr,
  Option, none, some, ltb, leb, ◌==◌, if◌then◌else◌, bit_and, bit_or, add32, sub32, is_nonneg,
  repeat,
}
use r200_p96_driver.Mmio.{Bus, read32, write32}
use r200_p96_driver.Cp.{
  CpState, ring_mask, max_fence_wait_ms, cp_rb_rptr, scratch_reg0, wait_ticks, fence_reached,
  read_clock,
}

abbrev pub host_path_cntl : ℕ
host_path_cntl = 0x0130

abbrev pub hdp_read_buffer_invalidate : ℕ
hdp_read_buffer_invalidate = 2 ^ 27

abbrev pub rbbm_status : ℕ
rbbm_status = 0x0e40

abbrev pub rbbm_fifocnt_mask : ℕ
rbbm_fifocnt_mask = 0x7f

abbrev pub rbbm_active : ℕ
rbbm_active = 2 ^ 31

abbrev pub timeout_polls : ℕ
timeout_polls = 100000

module _ (hw : ℕ → ℕ → ℕ) where
  -- `CpInvalidateHostReadBuffer`
  unfoldable pub invalidate_host_read_buffer : Bus → Bool × Bus
  invalidate_host_read_buffer b =
      let (host, b1) = read32 hw b host_path_cntl in
      let (first, b2) = write32 b1 host_path_cntl (bit_or host hdp_read_buffer_invalidate) in
      if not first
      then (false, b2)
      else let (second, b4) = write32 (read32 hw b2 host_path_cntl).1 host_path_cntl host in
        if not second then (false, b4) else (true, (read32 hw b4 host_path_cntl).1)

  -- What follows the invalidation in `RadeonCpTestFence`.
  pub retire : CpState → ℕ → Bool × Bus → Bool × CpState
  retire st current (false, bus) = (false, record st { bus = bus })
  retire st current (true, bus) = (
    true,
    if not (st.pending_fence == 0) && fence_reached current st.pending_fence
        then record st { bus = bus; pending_fence = 0 }
        else record st { bus = bus },
  )

  -- `RadeonCpTestFence`
  pub test_fence : CpState → ℕ → Bool × CpState
  unfolding retire invalidate_host_read_buffer
  test_fence st fence =
      if not st.ready || (fence == 0)
      then (false, st)
      else let (current, bus) = read32 hw st.bus scratch_reg0 in
        if not (fence_reached current fence)
        then (false, record st { bus = bus })
        else retire st current (invalidate_host_read_buffer bus)

  -- `for (count = 0; count < n; ++count) { if (... status ...) return TRUE; RadeonDelayUs(1); }`
  unfoldable pub poll_status : (ℕ → Bool) → ℕ → Bus → Bool × Bus
  poll_status good zero b = (false, b)
  poll_status good (suc count) b =
      let (status, b') = read32 hw b rbbm_status in
      elim (good status) [ true ↦ (true, b') | false ↦ poll_status good count b' ]

  abbrev pub fifo_free : ℕ → Bool
  fifo_free status = leb 64 (bit_and status rbbm_fifocnt_mask)

  abbrev pub engines_idle : ℕ → Bool
  engines_idle status = bit_and status rbbm_active == 0

  -- `CpWaitGuiIdle`
  unfoldable pub wait_gui_idle : Bus → Bool × Bus
  wait_gui_idle b =
      let (free, b') = poll_status fifo_free timeout_polls b in
      if not free then (false, b') else poll_status engines_idle timeout_polls b'

  -- `RadeonCpWaitDrained`
  pub wait_drained : CpState → Bool × CpState
  unfolding wait_gui_idle
  wait_drained st =
      if not st.ready
      then (false, st)
      else if st.pending_unfenced == 0
      then (true, st)
      else let (idle, bus) = wait_gui_idle st.bus in
        if not idle
        then (false, record st { bus = bus })
        else (true, record st { bus = bus; pending_unfenced = 0 })

  -- `RadeonCpAdoptFence`
  pub adopt_fence : CpState → ℕ → CpState
  adopt_fence st last_fence =
      if last_fence == 0
      then record st { pending_fence = 0; pending_unfenced = 0 }
      else let (read_pointer, bus) = read32 hw st.bus cp_rb_rptr in
        record st {
          bus = bus;
          pending_fence = 0;
          pending_unfenced = 0;
          next_fence =
              if add32 last_fence 1 == 0 then add32 (add32 last_fence 1) 1 else add32 last_fence 1;
          write_pointer = bit_and read_pointer ring_mask;
        }

  module _ (clock : ℕ → ℕ) where
    -- The body of the loop of `RadeonCpWaitFence`.
    pub poll_fence : ℕ → ℕ → CpState → (Bool × CpState) ⊎ CpState
    poll_fence fence deadline st =
        let (reached, st') = test_fence st fence in
        if reached
        then inl (true, st')
        else let (now, bus) = read_clock clock st'.bus in
          if is_nonneg (sub32 now deadline)
          then inl (false, record st' { bus = bus })
          else inr (record st' { bus = bus })

    -- The deadline, and the state after the clock was read.
    abbrev pub fence_deadline : CpState → ℕ → ℕ × CpState
    fence_deadline st timeout_ms =
        let ms = if ltb max_fence_wait_ms timeout_ms then max_fence_wait_ms else timeout_ms in
        (
          add32 (read_clock clock st.bus).0 (wait_ticks st.eclock_rate ms),
          record st { bus = (read_clock clock st.bus).1 },
        )

    -- `RadeonCpWaitFence`, with fuel; `wait_fence_ends` says how much is enough.
    pub wait_fence : ℕ → CpState → ℕ → ℕ → Option (Bool × CpState)
    wait_fence fuel st fence timeout_ms =
        if fence == 0
        then some (false, st)
        else if timeout_ms == 0
        then some (test_fence st fence)
        else if not st.timer_open || (st.eclock_rate == 0)
        then some (false, st)
        else repeat fuel (poll_fence fence (fence_deadline st timeout_ms).0)
            (fence_deadline st timeout_ms).1
