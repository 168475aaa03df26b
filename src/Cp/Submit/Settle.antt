-- ===== src/Cp/Submit/Settle.antt =====
-- What a submission leaves behind, and the bookkeeping that follows the commit.
use r200_p96_driver.Base.{
  ℕ, ◌-◌, ◌^◌, ◌≤◌, ◌<◌, ◌≡◌, ◌≢◌, ◌⊎◌, inl, inr, refl, Bool, true, false, List, ◌==◌, length,
  arith, Bool-cases,
}
use r200_p96_driver.Cp.{CpState, max_batch_dwords, take_sequence}
use r200_p96_driver.Cp.Copy.Placed.{IsWords}
use r200_p96_driver.Cp.Stream.{stream_dword}
use r200_p96_driver.Cp.Stream.Sizes.{IsReady, stream_size}
use r200_p96_driver.Cp.Stream.Commit.{Committed}
use r200_p96_driver.Cp.Submit.{Submission, settle_fence, next_sequence}

-- The streams that a submission takes.
pub record IsStream (commands : List ℕ) : Type 0 where
  pub some_dwords : 0 < length commands
  pub few : length commands ≤ max_batch_dwords
  pub words : IsWords commands

pub take_sequence_lem :
    (next : ℕ) → next < 2 ^ 32 → ((take_sequence next).0 ≢ 0) × ((take_sequence next).0 < 2 ^ 32)
unfolding take_sequence
take_sequence_lem next h = ground arith

pub next_sequence-lt :
    (add_fence : Bool) (next : ℕ) → next < 2 ^ 32 → (next_sequence add_fence next).0 < 2 ^ 32
next_sequence-lt true next h = (take_sequence_lem next h).1
next_sequence-lt false next h = omega arith

-- A success changes two counters of the state.
pub settle_fence_state :
    (add_fence : Bool) (sequence : ℕ) (st : CpState)
    → let after = (settle_fence add_fence sequence (true, st)).state in
      after
      ≡ record st { pending_fence = after.pending_fence; pending_unfenced = after.pending_unfenced }
unfolding settle_fence
settle_fence_state true sequence st = refl
settle_fence_state false sequence st = elim (Bool-cases (st.pending_unfenced == 2 ^ 32 - 1)) [
  | inl e ↦ rw e refl
  | inr e ↦ rw e refl
]

pub settle_fence_done :
    (add_fence : Bool) (sequence : ℕ) (st : CpState)
    → (settle_fence add_fence sequence (true, st)).done ≡ true
unfolding settle_fence
settle_fence_done true sequence st = refl
settle_fence_done false sequence st = refl

pub settle_fence_lem :
    (add_fence : Bool) (next : ℕ) (st : CpState)
    → next < 2 ^ 32
    → st.pending_unfenced < 2 ^ 32
    → let sequence = (next_sequence add_fence next).0 in
      let sub = settle_fence add_fence sequence (true, st) in
      (sub.fence_out ≡ sequence)
      × (((add_fence ≡ true)
            × (sub.fence_out ≢ 0)
            × (sub.state.pending_fence ≡ sub.fence_out)
            × (sub.state.pending_unfenced ≡ 0))
          ⊎ ((add_fence ≡ false)
              × (sub.state.pending_fence ≡ st.pending_fence)
              × (0 < sub.state.pending_unfenced)
              × (st.pending_unfenced ≤ sub.state.pending_unfenced)
              × (sub.state.pending_unfenced < 2 ^ 32)))
unfolding settle_fence
settle_fence_lem true next st h u = (refl, inl (refl, (take_sequence_lem next h).0, refl, refl))
settle_fence_lem false next st h u = (refl, inr (ground arith))

-- What a caller finds after TRUE: the stream is handed over, and its fence covers it and all that
-- was in flight before it.
pub record Delivered (swap_long : ℕ → ℕ) (hw : ℕ → ℕ → ℕ) (st : CpState) (commands : List ℕ)
    (add_fence : Bool) (sub : Submission) : Type 0 where
  pub committed :
      Committed swap_long hw st
        (stream_size commands add_fence)
        (stream_dword commands add_fence (next_sequence add_fence st.next_fence).0)
        sub.state
  pub still_ready : IsReady sub.state
  pub fence_out : sub.fence_out ≡ (next_sequence add_fence st.next_fence).0
  pub next_fence : sub.state.next_fence ≡ (next_sequence add_fence st.next_fence).1
  pub pending :
      ((add_fence ≡ true)
        × (sub.fence_out ≢ 0)
        × (sub.state.pending_fence ≡ sub.fence_out)
        × (sub.state.pending_unfenced ≡ 0))
      ⊎ ((add_fence ≡ false)
          × (sub.state.pending_fence ≡ st.pending_fence)
          × (0 < sub.state.pending_unfenced)
          × (st.pending_unfenced ≤ sub.state.pending_unfenced)
          × (sub.state.pending_unfenced < 2 ^ 32))

-- What a caller finds after FALSE: no register was written, and nothing else is in flight.
pub record Refused (st : CpState) (sub : Submission) : Type 0 where
  pub still_ready : IsReady sub.state
  pub fence_out : sub.fence_out ≡ 0
  pub written : sub.state.bus.written ≡ st.bus.written
  pub write_pointer : sub.state.write_pointer ≡ st.write_pointer
  pub pending_fence : sub.state.pending_fence ≡ st.pending_fence
  pub pending_unfenced : sub.state.pending_unfenced ≡ st.pending_unfenced
