-- ===== src/Cp/Launch.antt =====
-- Making the command processor run (src/radeon_cp.c: CpReset, CpLoadMicrocode, CpConfigureRing,
-- CpRingTest).
pub mod Running
pub mod Ends
use r200_p96_driver.Base.{
  ℕ, zero, suc, ◌+◌, ◌-◌, ◌*◌, ◌^◌, Bool, true, false, not, ◌&&◌, ◌||◌, List, [], ◌∷◌, Option, none,
  some, ltb, ◌==◌, if◌then◌else◌, bit_and, bit_or, not32,
}
use r200_p96_driver.Regs.Engine.{
  cp_csq_cntl, cp_csq_mode, cp_rb_cntl, cp_rb_base, cp_rb_rptr_addr, cp_rb_rptr_wr,
  cp_rb_wptr_delay, cp_me_ram_addr, cp_me_ram_datah, cp_me_ram_datal, scratch_addr, scratch_umsk,
  rbbm_soft_reset, soft_reset_cp, cp_cmdstrm_busy, rb_no_update, rb_rptr_wr_ena, csq_pribm_indbm,
  isync_cntl, isync_any2d_idle3d, isync_any3d_idle2d, isync_wait_idlegui, isync_cpscratch_idlegui,
}
use r200_p96_driver.Mmio.{Bus, read32, write32}
use r200_p96_driver.Mmio.Chain.{Access, put, perform_all}
use r200_p96_driver.Cp.{CpState, scratch_reg0, cp_rb_wptr, packet0}
use r200_p96_driver.Cp.Fence.{poll_status, wait_gui_idle, timeout_polls}
use r200_p96_driver.Cp.Commit.{commit}

abbrev pub rb_cntl_value : ℕ
rb_cntl_value = bit_or (bit_or (bit_or 17 (9 * 2 ^ 8)) (2 ^ 18)) rb_no_update

abbrev pub csq_cache_partition : ℕ
csq_cache_partition = 0x5010

abbrev pub test_before : ℕ
test_before = 0xcafe_dead

abbrev pub test_after : ℕ
test_after = 0xdead_beef

-- What is outside the driver: the card, its clock, `SWAPLONG`, the rounds that loops are given, the
-- command word of the card behind the writes of it, the microcode, and what the system answers to
-- requests for memory and for the timer, whose rate is zero where it cannot be read.
pub record Outside : Type 0 where
  pub hw : ℕ → ℕ → ℕ
  pub clock : ℕ → ℕ
  pub swap_long : ℕ → ℕ
  pub fuel : ℕ
  pub command : List ℕ → ℕ
  pub microcode : List (ℕ × ℕ)
  pub gives_memory : Bool
  pub timer : Option ℕ

abbrev pub on_bus : Bool × Bus → CpState → Bool × CpState
on_bus (done, bus) st = (done, record st { bus = bus })

-- `a(...) && b(...)`, where a loop in either may run out of rounds.
abbrev pub also :
    Option (Bool × CpState) → (CpState → Option (Bool × CpState)) → Option (Bool × CpState)
also none next = none
also (some (false, st)) next = some (false, st)
also (some (true, st)) next = next st

module _ (hw : ℕ → ℕ → ℕ) where
  abbrev pub stream_idle : ℕ → Bool
  stream_idle status = bit_and status cp_cmdstrm_busy == 0

  -- `CpWaitCommandStreamIdle`
  unfoldable pub wait_command_stream_idle : Bus → Bool × Bus
  wait_command_stream_idle = poll_status hw stream_idle timeout_polls

  -- `CpReset` from where it has read the reset register.
  unfoldable pub pulse_reset : (reset : ℕ) → Bus → Bool × Bus
  pulse_reset reset bus =
      let (raised, b1) = write32 bus rbbm_soft_reset (bit_or reset soft_reset_cp) in
      let (value, b2) = read32 hw b1 rbbm_soft_reset in
      let (lowered, b3) = write32 b2 rbbm_soft_reset (bit_and reset (not32 soft_reset_cp)) in
      let (value', b4) = read32 hw b3 rbbm_soft_reset in
      if not raised
      then (false, b1)
      else if not lowered
      then (false, b3)
      else poll_status hw stream_idle timeout_polls b4

  -- `CpReset`
  unfoldable pub cp_reset : Bus → Bool × Bus
  unfolding pulse_reset
  cp_reset bus =
      let (stopped, b1) = perform_all hw bus (put cp_csq_mode 0 ∷ put cp_csq_cntl 0 ∷ []) in
      let (value, b2) = read32 hw b1 cp_csq_cntl in
      let (reset, b3) = read32 hw b2 rbbm_soft_reset in
      if not stopped then (false, b1) else pulse_reset reset b3

  -- The loop over the microcode: `[1]` is the high half, `[0]` the low one.
  abbrev pub microcode_accesses : List (ℕ × ℕ) → List Access
  microcode_accesses [] = []
  microcode_accesses ((low, high) ∷ rest) =
      put cp_me_ram_datah high ∷ put cp_me_ram_datal low ∷ microcode_accesses rest

  -- `CpLoadMicrocode`
  unfoldable pub load_microcode : List (ℕ × ℕ) → Bus → Bool × Bus
  load_microcode microcode bus =
      let (idle, b1) = wait_gui_idle hw bus in
      if not idle
      then (false, b1)
      else perform_all hw b1 (put cp_me_ram_addr 0 ∷ microcode_accesses microcode)

abbrev pub ring_accesses : (gpu_address : ℕ) → List Access
ring_accesses gpu_address =
    put cp_rb_wptr_delay 0x40
    ∷ put cp_rb_cntl rb_cntl_value
    ∷ put cp_rb_base gpu_address
    ∷ put cp_rb_rptr_addr 0
    ∷ put scratch_addr 0
    ∷ put scratch_umsk 0
    ∷ put cp_rb_cntl (bit_or rb_cntl_value rb_rptr_wr_ena)
    ∷ put cp_rb_rptr_wr 0
    ∷ put cp_rb_wptr 0
    ∷ put cp_rb_cntl rb_cntl_value
    ∷ []

abbrev pub queue_accesses : List Access
queue_accesses =
    put cp_csq_mode 0x1050
    ∷ put cp_rb_wptr_delay 0
    ∷ put cp_csq_mode csq_cache_partition
    ∷ put cp_csq_cntl csq_pribm_indbm
    ∷ []

abbrev pub startup : List ℕ
startup =
    packet0 isync_cntl 0
    ∷ bit_or (bit_or (bit_or isync_any2d_idle3d isync_any3d_idle2d) isync_wait_idlegui)
        isync_cpscratch_idlegui
    ∷ []

module _ (y : Outside) where
  -- `CpConfigureRing`, from the second chain on.
  unfoldable pub open_queue : CpState → Option (Bool × CpState)
  open_queue st =
      let (opened, b1) = perform_all y.hw st.bus queue_accesses in
      let (value, b2) = read32 y.hw b1 cp_csq_cntl in
      if not opened
      then some (false, record st { bus = b1 })
      else commit y.swap_long y.hw y.clock y.fuel (record st { bus = b2; ready = true }) startup

  -- `CpConfigureRing`
  unfoldable pub configure_ring : CpState → Option (Bool × CpState)
  configure_ring st =
      let (placed, b1) = perform_all y.hw st.bus (ring_accesses st.ring_gpu_address) in
      if not placed
      then some (false, record st { bus = b1 })
      else open_queue (record st { bus = b1; write_pointer = 0 })

  -- The loop of `CpRingTest`, with the polls that are left.
  unfoldable pub poll_scratch : ℕ → CpState → Bool × CpState
  poll_scratch zero st = (false, st)
  poll_scratch (suc polls) st =
      let (value, bus) = read32 y.hw st.bus scratch_reg0 in
      elim (value == test_after) [
        | true ↦ (true, record st { bus = bus })
        | false ↦ poll_scratch polls (record st { bus = bus })
      ]

  -- `CpRingTest`
  unfoldable pub ring_test : CpState → Option (Bool × CpState)
  ring_test st =
      let (stored, bus) = write32 st.bus scratch_reg0 test_before in
      if not stored
      then some (false, record st { bus = bus })
      else also
          (commit y.swap_long y.hw y.clock y.fuel (record st { bus = bus })
            (packet0 scratch_reg0 0 ∷ test_after ∷ []))
          (λ st'. some (poll_scratch timeout_polls st'))

  -- The chain that both starts end with, from the reset on.
  unfoldable pub bring_up : CpState → Option (Bool × CpState)
  bring_up st = also (some (on_bus (cp_reset y.hw st.bus) st)) λ s1.
      also (some (on_bus (load_microcode y.hw y.microcode s1.bus) s1))
        λ s2. also (configure_ring s2) λ s3. ring_test s3
