-- ===== src/Cp.antt =====
-- The command processor's ring (src/radeon_cp.c): reserving space, copying a stream into the ring,
-- fences. A dword of the ring is a number below 2 ^ 32, as the 68k stores it.
pub mod Copy
pub mod Reserve
pub mod Stream
pub mod Submit
pub mod Fence
pub mod Idle
pub mod Commit
pub mod Launch
pub mod Life
mod Tests
use r200_p96_driver.Base.{
  ℕ, zero, suc, ◌+◌, ◌-◌, ◌*◌, ◌/◌, ◌%◌, ◌^◌, Bool, true, false, not, ◌&&◌, ◌||◌, List, [], ◌∷◌,
  Option, none, some, ltb, leb, ◌==◌, if◌then◌else◌, bit_and, bit_or, add32, sub32, mul32, not32,
  is_nonneg,
}
use r200_p96_driver.Mmio.{Bus, read32, write32}

abbrev pub ring_dwords : ℕ
ring_dwords = 1024 * 1024 / 4

abbrev pub ring_mask : ℕ
ring_mask = ring_dwords - 1

abbrev pub ring_alignment : ℕ
ring_alignment = 16

abbrev pub max_command_dwords : ℕ
max_command_dwords = 64

abbrev pub fence_dwords : ℕ
fence_dwords = 6

abbrev pub stall_polls : ℕ
stall_polls = 20000

abbrev pub progress_every : ℕ
progress_every = 16

abbrev pub ring_wait_ms : ℕ
ring_wait_ms = 1000

abbrev pub max_fence_wait_ms : ℕ
max_fence_wait_ms = 60000

-- RADEON3D_MAX_BATCH_DWORDS
abbrev pub max_batch_dwords : ℕ
max_batch_dwords = 8192

-- RADEON_CP_PACKET2, the one-dword no-op
abbrev pub packet2 : ℕ
packet2 = 0x8000_0000

-- RADEON_CP_PACKET0(reg, count)
abbrev pub packet0 : ℕ → ℕ → ℕ
packet0 reg count = bit_or (count * 2 ^ 16) (reg / 4)

abbrev pub cp_rb_rptr : ℕ
cp_rb_rptr = 0x0710

abbrev pub cp_rb_wptr : ℕ
cp_rb_wptr = 0x0714

abbrev pub scratch_reg0 : ℕ
scratch_reg0 = 0x15e0

-- `struct RadeonCpState`, the ring's memory, and the bus of the board. The staging buffer is
-- rebuilt by each commit, and so is no part of the state.
pub record CpState : Type 0 where
  pub bus : Bus
  pub ring : ℕ → ℕ
  pub ring_gpu_address : ℕ
  pub write_pointer : ℕ
  pub pending_fence : ℕ
  pub pending_unfenced : ℕ
  pub next_fence : ℕ
  pub eclock_rate : ℕ
  pub ready : Bool
  pub timer_open : Bool

-- `CpWaitTicks`
unfoldable pub wait_ticks : ℕ → ℕ → ℕ
wait_ticks rate ms = add32 (mul32 (rate / 1000) ms) (mul32 (rate % 1000) ms / 1000)

-- `CpFenceReached`
unfoldable pub fence_reached : ℕ → ℕ → Bool
fence_reached current fence = not (fence == 0) && is_nonneg (sub32 current fence)

-- `sequence = NextFence++`, twice where the first is zero: the sequence, and the next fence.
unfoldable pub take_sequence : ℕ → ℕ × ℕ
take_sequence next =
    if next == 0 then (add32 next 1, add32 (add32 next 1) 1) else (next, add32 next 1)

-- Rounding up to whole ring slots.
abbrev pub padded : ℕ → ℕ
padded n = bit_and (sub32 (add32 n ring_alignment) 1) (not32 (ring_alignment - 1))

-- The free dwords of the ring, as `CpReserve` computes them.
abbrev pub free_dwords : ℕ → ℕ → ℕ
free_dwords read_pointer write_pointer =
    bit_and (sub32 (sub32 read_pointer write_pointer) 1) ring_mask

-- `CpClock`: the low word of the EClock at this access.
pub read_clock : (ℕ → ℕ) → Bus → ℕ × Bus
read_clock clock b = (clock b.now, record b { now = b.now + 1 })
