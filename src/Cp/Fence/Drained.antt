-- ===== src/Cp/Fence/Drained.antt =====
-- What the success of `RadeonCpWaitDrained` means.
use r200_p96_driver.Base.{
  ℕ, zero, suc, ◌+◌, ◌≡◌, ◌≢◌, ◌==◌, ap, refl, ◌⊎◌, inl, inr, Bool, true, false, arith, bit_and,
  Bool-cases,
}
use r200_p96_driver.Mmio.{Bus, is_refused, read32}
use r200_p96_driver.Cp.{CpState}
use r200_p96_driver.Cp.Stream.Sizes.{IsReady}
use r200_p96_driver.Cp.Fence.{
  rbbm_status, rbbm_active, timeout_polls, fifo_free, engines_idle, poll_status, wait_gui_idle,
  wait_drained,
}
use r200_p96_driver.Cp.Fence.Testing.{Holds}

module _ (hw : ℕ → ℕ → ℕ) where
  read_status :
      (b : Bus)
      → Holds b
      → read32 hw b rbbm_status ≡ (hw b.now rbbm_status, record b { now = b.now + 1 })
  unfolding read32
  read_status b h =
      let open_window : is_refused b rbbm_status ≡ false = ground (arith, h.1) in
      rw open_window refl

  poll_status-step :
      (good : ℕ → Bool) (count : ℕ) (b : Bus)
      → Holds b
      → let b' = record b { now = b.now + 1 } in
        ((good (hw b.now rbbm_status) ≡ true) × (poll_status hw good (suc count) b ≡ (true, b')))
        ⊎ (poll_status hw good (suc count) b ≡ poll_status hw good count b')
  unfolding poll_status
  poll_status-step good count b h = elim (Bool-cases (good (hw b.now rbbm_status))) [
    | inl e ↦ inl (e, rw (poll_status, read_status b h, e, read_status b h) refl)
    | inr e ↦ inr (
        rw (poll_status, read_status b h, e)
          (ap (λ (x : ℕ × Bus). poll_status hw good count x.1) (read_status b h)))
  ]

  -- TRUE means that the status was good at some access, and the window is as before.
  poll_status-good :
      (good : ℕ → Bool) (count : ℕ) (b : Bus)
      → Holds b
      → Holds (poll_status hw good count b).1
        × (((poll_status hw good count b).0 ≡ false) ⊎ ((t : ℕ) × (good (hw t rbbm_status) ≡ true)))
  unfolding poll_status
  poll_status-good good zero b h = (h, inl refl)
  poll_status-good good (suc count) b h = elim (poll_status-step good count b h) [
    | inl hit ↦ rw hit.1 (h, inr (b.now, hit.0))
    | inr miss ↦
        let rest = poll_status-good good count (record b { now = b.now + 1 }) h in rw miss rest
  ]

  -- `RadeonCpWaitDrained` on a ring in use that says TRUE, with unfenced submissions in flight, has
  -- read the idle state of the engines from the status register, and counts none in flight.
  pub wait_drained-idle :
      (st : CpState)
      → IsReady st
      → st.pending_unfenced ≢ 0
      → (wait_drained hw st).0 ≡ true
      → ((wait_drained hw st).1.pending_unfenced ≡ 0)
        × ((t : ℕ) × (bit_and (hw t rbbm_status) rbbm_active ≡ 0))
  unfolding wait_drained wait_gui_idle
  wait_drained-idle st v flight said =
      let free = poll_status-good (fifo_free hw) timeout_polls st.bus (v.mapped, v.window) in
      let idle =
        poll_status-good (engines_idle hw) timeout_polls
          (poll_status hw (fifo_free hw) timeout_polls st.bus).1 free.0 in
      let some_flight : (st.pending_unfenced == 0) ≡ false = ground (arith, flight) in
      elim (Bool-cases (poll_status hw (fifo_free hw) timeout_polls st.bus).0) [
        | inl f ↦
            elim (Bool-cases
              (poll_status hw (engines_idle hw) timeout_polls
                (poll_status hw (fifo_free hw) timeout_polls st.bus).1).0) [
                  | inl g ↦
                      rw (v.ready, some_flight, f, g)
                        (
                          refl,
                          elim idle.1 [
                            | inl no_luck ↦ absurd (cc)
                            | inr at ↦ (at.0, ground (arith, at.1))
                          ],
                        )
                  | inr g ↦ absurd (cc (rw (v.ready, some_flight, f, g) at said))
                ]
        | inr f ↦ absurd (cc (rw (v.ready, some_flight, f) at said))
      ]
