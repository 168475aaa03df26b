-- ===== src/Cp/Stream/Sizes.antt =====
-- A ring in use, and the sizes and distances that a commit computes with.
use r200_p96_driver.Base.{
  ℕ, ◌+◌, ◌-◌, ◌*◌, ◌/◌, ◌%◌, ◌^◌, ◌≤◌, ◌<◌, ◌≡◌, Bool, true, false, List, if◌then◌else◌, add32,
  sub32, length, arith, bit_and-ones, bit_and-field,
}
use r200_p96_driver.Cp.{
  CpState, ring_dwords, fence_dwords, max_batch_dwords, scratch_reg0, padded, free_dwords,
}
use r200_p96_driver.Cp.Reserve.Bounded.{IsOpen}
use r200_p96_driver.Cp.Copy.Placed.{Reverses, IsWords, get_or-IsWords}
use r200_p96_driver.Cp.Stream.{stream_dword, fence_commands}

-- A ring in use: the write pointer is a slot boundary, and the window holds the registers.
pub record IsReady (st : CpState) : Type 0 where
  pub ready : st.ready ≡ true
  pub slot : st.write_pointer < ring_dwords
  pub aligned : st.write_pointer % 16 ≡ 0
  pub mapped : st.bus.mapped ≡ true
  pub window : scratch_reg0 + 4 ≤ st.bus.mmio_size

pub IsReady-IsOpen : {st : CpState} → IsReady st → IsOpen st.bus
IsReady-IsOpen v = (v.mapped, omega (arith, v.window))

-- The dwords that a stream takes up.
abbrev pub stream_size : List ℕ → Bool → ℕ
stream_size commands add_fence =
    padded (add32 (length commands) (if add_fence then fence_dwords else 0))

pub padded_lem : (n : ℕ) → n < 2 ^ 31 → padded n ≡ (n + 15) / 16 * 16
padded_lem n h = omega (arith, bit_and-field 28 4 (sub32 (add32 n 16) 1))

pub free_dwords_lem :
    (r w : ℕ)
    → r < ring_dwords
    → w < ring_dwords
    → free_dwords r w ≡ (r + ring_dwords - w + ring_dwords - 1) % ring_dwords
free_dwords_lem r w hr hw = omega (arith, bit_and-ones 18 (sub32 (sub32 r w) 1))

fence_commands-IsWords : IsWords fence_commands
fence_commands-IsWords = omega arith

pub stream_dword-lt :
    (commands : List ℕ) (add_fence : Bool) (sequence k : ℕ)
    → IsWords commands
    → sequence < 2 ^ 32
    → stream_dword commands add_fence sequence k < 2 ^ 32
unfolding stream_dword
stream_dword-lt commands add_fence sequence k h s = ground (
  arith,
  get_or-IsWords commands k h,
  get_or-IsWords fence_commands (k - length commands) fence_commands-IsWords,
)

pub swap-lt : (swap_long : ℕ → ℕ) (x : ℕ) → Reverses swap_long → x < 2 ^ 32 → swap_long x < 2 ^ 32
swap-lt swap_long x rev h = omega (arith, rev x h)

pub swap-swap :
    (swap_long : ℕ → ℕ) (x : ℕ) → Reverses swap_long → x < 2 ^ 32 → swap_long (swap_long x) ≡ x
swap-swap swap_long x rev h = omega (arith, rev x h, rev (swap_long x) (swap-lt swap_long x rev h))

pub stream_size_lem :
    (commands : List ℕ) (add_fence : Bool)
    → length commands ≤ max_batch_dwords
    → (length commands + (if add_fence then fence_dwords else 0) ≤ stream_size commands add_fence)
      × (stream_size commands add_fence % 16 ≡ 0)
      × (stream_size commands add_fence ≤ max_batch_dwords + 16)
stream_size_lem commands true h = omega (arith, padded_lem (add32 (length commands) 6))
stream_size_lem commands false h = omega (arith, padded_lem (add32 (length commands) 0))

-- The slots that a commit of `total` dwords writes are none of those that the command processor has
-- still to read, from its read pointer up to the write pointer.
pub unread-apart :
    (r w total j : ℕ)
    → r < ring_dwords
    → w < ring_dwords
    → total ≤ free_dwords r w
    → j < (w + ring_dwords - r) % ring_dwords
    → total ≤ ((r + j) % ring_dwords + ring_dwords - w) % ring_dwords
unread-apart r w total j hr hw room h = omega (arith, free_dwords_lem r w)

-- A slot that it writes is found by its distance from the write pointer.
pub slot-distance :
    (w k : ℕ)
    → w < ring_dwords
    → k < ring_dwords
    → ((w + k) % ring_dwords + ring_dwords - w) % ring_dwords ≡ k
slot-distance w k hw hk = omega arith
