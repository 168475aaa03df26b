-- ===== src/Cp/Submit.antt =====
-- `RadeonCpSubmitStream`: the fence sequence, the commit, and the bookkeeping of what is in flight.
pub mod Settle
pub mod Submitted
use mathlib.Core.Option
use r200_p96_driver.Base.{
  ℕ, ◌+◌, ◌-◌, ◌^◌, Bool, true, false, not, ◌&&◌, ◌||◌, List, [], ◌∷◌, Option, none, some, ltb,
  ◌==◌, if◌then◌else◌, length,
}
use r200_p96_driver.Cp.{CpState, max_batch_dwords, take_sequence}
use r200_p96_driver.Cp.Stream.{commit_stream}

-- The result, the value behind `fenceOut`, and the state.
pub record Submission : Type 0 where
  pub done : Bool
  pub fence_out : ℕ
  pub state : CpState

-- What follows the commit. A fenced submission covers every earlier one; the count of the others
-- stays at its top.
pub settle_fence : Bool → ℕ → Bool × CpState → Submission
settle_fence add_fence sequence (false, st) = record { done = false; fence_out = 0; state = st }
settle_fence true sequence (true, st) = record {
  done = true;
  fence_out = sequence;
  state = record st { pending_fence = sequence; pending_unfenced = 0 };
}
settle_fence false sequence (true, st) = record {
  done = true;
  fence_out = 0;
  state =
      if st.pending_unfenced == 2 ^ 32 - 1
      then st
      else record st { pending_unfenced = st.pending_unfenced + 1 };
}

-- The sequence that a submission takes, and the counter after it.
abbrev pub next_sequence : Bool → ℕ → ℕ × ℕ
next_sequence add_fence next = if add_fence then take_sequence next else (0, next)

module _ (swap_long : ℕ → ℕ) (hw : ℕ → ℕ → ℕ) (clock : ℕ → ℕ) (fuel : ℕ) where
  pub submit_stream : CpState → List ℕ → Bool → Option Submission
  unfolding settle_fence
  submit_stream st commands add_fence =
      if not st.ready || (length commands == 0) || ltb max_batch_dwords (length commands)
      then some (record { done = false; fence_out = 0; state = st })
      else let (sequence, next) = next_sequence add_fence st.next_fence in
        Option.map (settle_fence add_fence sequence) (
          commit_stream swap_long hw clock fuel (record st { next_fence = next }) commands add_fence
            sequence)
