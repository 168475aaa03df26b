-- ===== src/Cp/Commit.antt =====
-- The short way into the ring (src/radeon_cp.c: CpCommit, RadeonCpSubmit). The staging buffer is
-- rebuilt by each commit: a dword of it is a function of the index.
pub mod Kept
use mathlib.Core.Option
use r200_p96_driver.Base.{
  ℕ, ◌+◌, ◌-◌, ◌*◌, ◌^◌, Bool, true, false, not, ◌||◌, List, [], ◌∷◌, ◌++◌, Option, none, some, ltb,
  leb, ◌==◌, if◌then◌else◌, bit_or, sub32, get_or, length,
}
use r200_p96_driver.Mmio.{Bus}
use r200_p96_driver.Cp.{
  CpState, ring_dwords, max_command_dwords, fence_dwords, packet0, packet2, scratch_reg0, padded,
  take_sequence,
}
use r200_p96_driver.Cp.Reserve.{reserve}
use r200_p96_driver.Cp.Stream.{fill, hand_over}

-- `staging[index]`, before its bytes are swapped.
abbrev pub staged : List ℕ → ℕ → ℕ
staged commands index = if ltb index (length commands) then get_or commands index 0 else packet2

-- The fence of `RadeonCpSubmit`: the caches are flushed, the 2D engine and the host are idle, and the
-- sequence goes into the scratch register.
abbrev pub fence_tail : ℕ → List ℕ
fence_tail sequence =
    packet0 0x1714 0
    ∷ 0xf
    ∷ packet0 0x1720 0
    ∷ bit_or (bit_or (2 ^ 16) (2 ^ 18)) (2 ^ 9)
    ∷ packet0 scratch_reg0 0
    ∷ sequence
    ∷ []

module _ (swap_long : ℕ → ℕ) (hw : ℕ → ℕ → ℕ) where
  -- The two loops over the ring.
  unfoldable pub copy_staged : List ℕ → (ℕ → ℕ) → (write_pointer total : ℕ) → ℕ → ℕ
  copy_staged commands m write_pointer total =
      let space = sub32 ring_dwords write_pointer in
      let first = if ltb total space then total else space in
      fill swap_long (staged commands) (fill swap_long (staged commands) m write_pointer 0 first) 0
        first (total - first)

  -- What follows the reservation.
  unfoldable pub commit_staged : CpState → List ℕ → (total : ℕ) → Bool × Bus → Bool × CpState
  commit_staged st commands total (false, bus) = (false, record st { bus = bus })
  commit_staged st commands total (true, bus) =
      let ring = copy_staged commands st.ring st.write_pointer total in
      hand_over swap_long hw (record st { bus = bus; ring = ring }) total
        (staged commands (total - 1))

module _ (swap_long : ℕ → ℕ) (hw : ℕ → ℕ → ℕ) (clock : ℕ → ℕ) (fuel : ℕ) where
  -- `CpCommit`
  unfoldable pub commit : CpState → List ℕ → Option (Bool × CpState)
  unfolding commit_staged
  commit st commands =
      let total = padded (length commands) in
      if not st.ready || (length commands == 0) || ltb max_command_dwords (length commands)
      then some (false, st)
      else if (total == 0) || leb ring_dwords total
      then some (false, st)
      else Option.map (commit_staged swap_long hw st commands total)
          (reserve hw clock fuel st total)

  -- What follows the commit of `RadeonCpSubmit`.
  abbrev pub fence_pending : ℕ → Bool × CpState → Bool × CpState
  fence_pending sequence (false, st) = (false, st)
  fence_pending sequence (true, st) = (true, record st { pending_fence = sequence })

  -- `RadeonCpSubmit`
  pub submit : CpState → List ℕ → Option (Bool × CpState)
  submit st commands =
      let (sequence, next) = take_sequence st.next_fence in
      if not st.ready
        || (length commands == 0)
        || ltb (max_command_dwords - fence_dwords) (length commands)
      then some (false, st)
      else Option.map (fence_pending sequence)
          (commit (record st { next_fence = next }) (commands ++ fence_tail sequence))
