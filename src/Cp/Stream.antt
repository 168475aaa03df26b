-- ===== src/Cp/Stream.antt =====
-- `CpCommitStream` and what it is made of: the stream with its fence tail and padding, written into
-- the ring in two segments, checked by its last dword, and handed over by the write pointer.
pub mod Layout
pub mod Sizes
pub mod Commit
use mathlib.Core.Option
use r200_p96_driver.Base.{
  ℕ, zero, suc, ◌+◌, ◌-◌, ◌*◌, ◌/◌, ◌^◌, Bool, true, false, not, ◌&&◌, ◌||◌, List, [], ◌∷◌, Option,
  none, some, ltb, leb, ◌==◌, if◌then◌else◌, bit_and, bit_or, add32, sub32, get_or, length,
}
use r200_p96_driver.Mmio.{Bus, read32, write32}
use r200_p96_driver.Cp.{
  CpState, ring_dwords, ring_mask, fence_dwords, max_batch_dwords, packet0, packet2, cp_rb_wptr,
  scratch_reg0, padded,
}
use r200_p96_driver.Cp.Reserve.{reserve}
use r200_p96_driver.Cp.Copy.{store, drop, burst_copy}

-- WAIT_2D_IDLECLEAN, WAIT_3D_IDLECLEAN, WAIT_HOST_IDLECLEAN and WAIT_DMA_GUI_IDLE
abbrev pub wait_all_idle : ℕ
wait_all_idle = bit_or (bit_or (bit_or (2 ^ 16) (2 ^ 17)) (2 ^ 18)) (2 ^ 9)

-- `fenceCommands`: flush the caches, wait until all is idle, then write the scratch register.
abbrev pub fence_commands : List ℕ
fence_commands =
    packet0 0x1714 0 ∷ 0xf ∷ packet0 0x1720 0 ∷ wait_all_idle ∷ packet0 scratch_reg0 0 ∷ []

-- `CpStreamDword`. `index -= commandCount` is done where it cannot wrap.
pub stream_dword : List ℕ → Bool → ℕ → ℕ → ℕ
stream_dword commands add_fence sequence index =
    if ltb index (length commands)
    then get_or commands index 0
    else if add_fence && ltb (index - length commands) (fence_dwords - 1)
    then get_or fence_commands (index - length commands) 0
    else if add_fence && (index - length commands == fence_dwords - 1)
    then sequence
    else packet2

module _ (swap_long : ℕ → ℕ) where
  -- `for (; index < n; ++index, ++dst) *dst = SWAPLONG(CpStreamDword(...));` with the rounds left.
  unfoldable pub fill : (ℕ → ℕ) → (ℕ → ℕ) → ℕ → ℕ → ℕ → ℕ → ℕ
  fill dword m at index zero = m
  fill dword m at index (suc left) =
      fill dword (store m at (swap_long (dword index))) (at + 1) (index + 1) left

  -- From the write pointer to the end of the ring, or of the stream.
  pub segment_a : List ℕ → (ℕ → ℕ) → (ℕ → ℕ) → ℕ → ℕ → ℕ → ℕ
  unfolding fill
  segment_a commands dword m write_pointer first =
      let moved = if ltb first (length commands) then first else length commands in
      fill dword (burst_copy swap_long moved m write_pointer commands moved) (write_pointer + moved)
        moved (first - moved)

  -- What is left, from the start of the ring.
  pub segment_b : List ℕ → (ℕ → ℕ) → (ℕ → ℕ) → ℕ → ℕ → ℕ → ℕ
  unfolding fill
  segment_b commands dword m first remaining =
      let left = length commands - first in
      let moved =
        if ltb first (length commands)
        then (if ltb remaining left then remaining else left)
        else 0 in
      fill dword (burst_copy swap_long moved m 0 (drop first commands) moved) moved (first + moved)
        (first + remaining - (first + moved))

  -- The ring after both segments, for a stream of `total` dwords.
  pub write_ring : List ℕ → (ℕ → ℕ) → (ℕ → ℕ) → ℕ → ℕ → ℕ → ℕ
  unfolding segment_a segment_b
  write_ring commands dword m write_pointer total =
      let space = sub32 ring_dwords write_pointer in
      let first = if ltb total space then total else space in
      let m' = segment_a commands dword m write_pointer first in
      if total - first == 0 then m' else segment_b commands dword m' first (total - first)

  module _ (hw : ℕ → ℕ → ℕ) where
    -- After the ring is written: the readback of the last dword, and the new write pointer.
    unfoldable pub hand_over : CpState → ℕ → ℕ → Bool × CpState
    hand_over st total expected_last =
        let last = bit_and (sub32 (add32 st.write_pointer total) 1) ring_mask in
        let next = bit_and (add32 st.write_pointer total) ring_mask in
        let (stored, bus) = write32 st.bus cp_rb_wptr next in
        if not (swap_long (st.ring last) == expected_last)
        then (false, st)
        else if stored
        then (true, record st { bus = (read32 hw bus cp_rb_wptr).1; write_pointer = next })
        else (false, record st { bus = bus })

    -- What follows the reservation.
    pub commit_reserved : CpState → List ℕ → (ℕ → ℕ) → ℕ → Bool × Bus → Bool × CpState
    unfolding write_ring hand_over
    commit_reserved st commands dword total (false, bus) = (false, record st { bus = bus })
    commit_reserved st commands dword total (true, bus) =
        let ring = write_ring commands dword st.ring st.write_pointer total in
        hand_over (record st { bus = bus; ring = ring }) total (dword (total - 1))

  module _ (hw : ℕ → ℕ → ℕ) (clock : ℕ → ℕ) (fuel : ℕ) where
    -- `CpCommitStream`. The list is the `commandCount` dwords behind `commands`, which is not NULL.
    unfoldable pub commit_stream : CpState → List ℕ → Bool → ℕ → Option (Bool × CpState)
    commit_stream st commands add_fence sequence =
        let count = length commands in
        let total = padded (add32 count (if add_fence then fence_dwords else 0)) in
        if not st.ready
          || (count == 0)
          || ltb max_batch_dwords count
          || (total == 0)
          || leb ring_dwords total
        then some (false, st)
        else Option.map
            (commit_reserved hw st commands (stream_dword commands add_fence sequence) total)
            (reserve hw clock fuel st total)
