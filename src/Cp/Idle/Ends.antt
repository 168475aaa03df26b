-- ===== src/Cp/Idle/Ends.antt =====
-- `RadeonCpWait` ends, and what its success means.
use mathlib.Core.Path.{Path, subst}
use mathlib.Core.Option
use r200_p96_driver.Base.{
  some-inj, ℕ, ◌+◌, ◌-◌, ◌*◌, ◌/◌, ◌≤◌, ◌<◌, ◌≡◌, ◌≢◌, ◌∙◌, sym, ap, refl, ◌⊎◌, inl, inr, Bool,
  true, false, Option, some, leb, ◌==◌, if◌then◌else◌, bit_and, arith, repeat, repeat_ends,
  repeat_returns, Bool-cases, Option-cases,
}
use r200_p96_driver.Mmio.{Bus}
use r200_p96_driver.Cp.{CpState, ring_mask, stall_polls, cp_rb_rptr, scratch_reg0, read_clock}
use r200_p96_driver.Cp.Reserve.{reserve_deadline}
use r200_p96_driver.Cp.Stream.Sizes.{IsReady}
use r200_p96_driver.Cp.Reserve.Bounded.{IsOpen, read_open, deadline_bus}
use r200_p96_driver.Cp.Fence.Testing.{Holds, read_scratch}
use r200_p96_driver.Cp.Idle.{
  Watch, watch_clock, watch_progress, watch_scratch, watch, watch_start, settle_wait, wait,
}

inr-inj : {s t : Watch} → Path ((Bool × Bus) ⊎ Watch) (inr s) (inr t) → s ≡ t
inr-inj h = cc

module _ (hw : ℕ → ℕ → ℕ) (clock : ℕ → ℕ) where
  watch_progress-inr :
      (deadline : ℕ) (s : Watch) (read_pointer : ℕ) (bus : Bus) {t : Watch}
      → watch_progress hw clock deadline s read_pointer bus ≡ inr t
      → (t.bus.mapped ≡ bus.mapped)
        × (t.bus.mmio_size ≡ bus.mmio_size)
        × (bus.now ≤ t.bus.now)
        × (t.polls ≡ 0)
        × (t.last_read_pointer ≡ read_pointer)
        × (((read_pointer ≡ s.last_read_pointer)
              × (t.stall ≡ s.stall + 1)
              × (s.stall + 1 < stall_polls / 16))
            ⊎ ((read_pointer ≢ s.last_read_pointer) × (t.stall ≡ s.stall)))
  unfolding watch_progress watch_clock read_clock
  watch_progress-inr deadline s read_pointer bus h = ground arith

  -- A round that goes on, in terms of the card's answers.
  watch-inr :
      (deadline pending : ℕ) (s : Watch) {t : Watch}
      → Holds s.bus
      → watch hw clock deadline pending s ≡ inr t
      → let seen = bit_and (hw (s.bus.now + 1) cp_rb_rptr) ring_mask in
        Holds t.bus
        × (((t.bus.now ≡ s.bus.now + 1)
              × (t.polls ≡ s.polls + 1)
              × (t.stall ≡ s.stall)
              × (s.polls + 1 < 16)
              × (t.last_read_pointer ≡ s.last_read_pointer))
            ⊎ ((s.bus.now + 2 ≤ t.bus.now)
                × (t.polls ≡ 0)
                × (t.last_read_pointer ≡ seen)
                × (((seen ≡ s.last_read_pointer)
                      × (t.stall ≡ s.stall + 1)
                      × (s.stall + 1 < stall_polls / 16))
                    ⊎ ((seen ≢ s.last_read_pointer) × (t.stall ≡ s.stall)))))
  unfolding watch watch_scratch
  watch-inr deadline pending s {t} h e =
      let b = record s.bus { now = s.bus.now + 1 } in
      let e' : watch_scratch hw clock deadline pending s (hw s.bus.now scratch_reg0) b ≡ inr t =
        ap (λ (x : ℕ × Bus). watch_scratch hw clock deadline pending s x.0 x.1)
          (sym (read_scratch hw s.bus h))
        ∙ e in
      let read = read_open hw clock b (h.0, omega (arith, h.1)) in
      elim (Bool-cases (hw s.bus.now scratch_reg0 == pending)) [
        | inl same ↦ absurd (cc (rw same at e'))
        | inr other ↦ elim (Bool-cases (leb 16 (s.polls + 1))) [
          | inl sample ↦
              let p =
                watch_progress-inr deadline s (bit_and (hw (s.bus.now + 1) cp_rb_rptr) ring_mask)
                  (record b { now = b.now + 1 })
                  (ap
                      (λ (x : ℕ × Bus).
                        watch_progress hw clock deadline s (bit_and x.0 ring_mask) x.1)
                      (sym read)
                    ∙ rw (other, sample) at e') in
              ((p.0 ∙ h.0, omega (arith, p.1, h.1)), inr (omega (arith, p.2), p.3, p.4, p.5))
          | inr plain ↦
              let same = inr-inj (rw (other, plain) at e') in
              (
                subst (λ x. Holds x.bus) same h,
                inl (
                  sym (ap (λ (x : Watch). x.bus.now) same),
                  sym (ap (λ (x : Watch). x.polls) same),
                  sym (ap (λ (x : Watch). x.stall) same),
                  ground (arith, plain),
                  sym (ap (λ (x : Watch). x.last_read_pointer) same),
                ),
              )
        ]
      ]

  record Watching (s : Watch) : Type 0 where
    holds : Holds s.bus
    budget : s.stall < stall_polls / 16
    few : s.polls < 16

  abbrev rounds_left : ℕ → ℕ → Watch → ℕ
  rounds_left settled v s =
      64 * (settled - s.bus.now)
      + 16 * (stall_polls / 16 - s.stall)
      + (16 - s.polls)
      + (if s.last_read_pointer == v then 0 else 32)

  watch-Watching :
      (deadline pending : ℕ) (s t : Watch)
      → Watching s
      → watch hw clock deadline pending s ≡ inr t
      → Watching t
  watch-Watching deadline pending s t w e =
      let r = watch-inr deadline pending s w.holds e in
      record { holds = r.0; budget = ground (arith, r.1, w.budget); few = ground (arith, r.1) }

  watch_goes_down :
      (deadline pending settled v : ℕ)
      → ((t : ℕ) → settled ≤ t → bit_and (hw t cp_rb_rptr) ring_mask ≡ v)
      → (s t : Watch) → Watching s
      → watch hw clock deadline pending s ≡ inr t
      → Watching t × (rounds_left settled v t < rounds_left settled v s)
  watch_goes_down deadline pending settled v rest s t w e =
      let r = watch-inr deadline pending s w.holds e in
      let v_is = rest (s.bus.now + 1) in
      (watch-Watching deadline pending s t w e, ground (arith, r.1, v_is, w.budget, w.few))

  watch_start-Watching : (st : CpState) → IsReady st → Watching (watch_start hw clock st)
  unfolding watch_start
  watch_start-Watching st v =
      let d = deadline_bus hw clock st in
      let b = (reserve_deadline clock st).1 in
      let o : IsOpen b = (d.0 ∙ v.mapped, omega (arith, d.1, v.window)) in
      let e = read_open hw clock b o in
      record {
        holds = (
          ap (λ (x : ℕ × Bus). x.1.mapped) e ∙ o.0,
          omega (arith, ap (λ (x : ℕ × Bus). x.1.mmio_size) e, d.1, v.window),
        );
        budget = omega arith;
        few = omega arith;
      }

  abbrev loop : ℕ → CpState → Option (Bool × Bus)
  loop fuel st =
      repeat fuel (watch hw clock (reserve_deadline clock st).0 st.pending_fence)
        (watch_start hw clock st)

  -- Nothing is pending, or the loop runs.
  wait-guards :
      (fuel : ℕ) (st : CpState)
      → IsReady st
      → ((st.pending_fence ≡ 0) × (wait hw clock fuel st ≡ some (true, st)))
        ⊎ (wait hw clock fuel st ≡ Option.map (settle_wait hw clock st) (loop fuel st))
  unfolding wait
  wait-guards fuel st ready = elim (Bool-cases (st.pending_fence == 0)) [
    | inl none_pending ↦ inl (ground arith, rw (ready.ready, none_pending) refl)
    | inr one ↦ inr (rw (ready.ready, one) refl)
  ]

  -- `RadeonCpWait` on a ring in use returns, even if the command processor stops for good and the
  -- clock cannot be read: where the read pointer is at rest from the access number `settled` on,
  -- `64 * settled + 20049` rounds are enough.
  pub wait_ends :
      (fuel : ℕ) (st : CpState) (settled v : ℕ)
      → IsReady st
      → ((t : ℕ) → settled ≤ t → bit_and (hw t cp_rb_rptr) ring_mask ≡ v)
      → 64 * settled + 20049 ≤ fuel
      → (r : Bool × CpState) × (wait hw clock fuel st ≡ some r)
  unfolding watch_start
  wait_ends fuel st settled v ready rest enough =
      let d = (reserve_deadline clock st).0 in
      let run =
        repeat_ends Watching (rounds_left settled v) (watch hw clock d st.pending_fence)
          (watch_goes_down d st.pending_fence settled v rest) fuel (watch_start hw clock st)
          (ground arith) (watch_start-Watching st ready) in
      elim (wait-guards fuel st ready) [
        | inl idle ↦ (_, idle.1)
        | inr e ↦ (_, e ∙ ap (Option.map (settle_wait hw clock st)) run.1)
      ]

  watch_progress-inl :
      (deadline : ℕ) (s : Watch) (read_pointer : ℕ) (bus : Bus) {r : Bool × Bus}
      → watch_progress hw clock deadline s read_pointer bus ≡ inl r
      → r.0 ≡ false
  unfolding watch_progress watch_clock
  watch_progress-inl deadline s read_pointer bus h = ground arith

  watch-true :
      (deadline pending : ℕ) (s : Watch) (r : Bool × Bus)
      → Watching s
      → watch hw clock deadline pending s ≡ inl r
      → r.0 ≡ true
      → (t : ℕ) × (hw t scratch_reg0 ≡ pending)
  unfolding watch watch_scratch
  watch-true deadline pending s r w e said =
      let e' : watch_scratch hw clock deadline pending s (hw s.bus.now scratch_reg0)
            (record s.bus { now = s.bus.now + 1 })
          ≡ inl r =
        ap (λ (x : ℕ × Bus). watch_scratch hw clock deadline pending s x.0 x.1)
          (sym (read_scratch hw s.bus w.holds))
        ∙ e in
      elim (Bool-cases (hw s.bus.now scratch_reg0 == pending)) [
        | inl same ↦ (s.bus.now, ground (arith, same))
        | inr other ↦ elim (Bool-cases (leb 16 (s.polls + 1))) [
          | inl sample ↦
              let refused = watch_progress-inl deadline s _ _ (rw (other, sample) at e') in
              absurd (cc)
          | inr plain ↦ absurd (cc (rw (other, plain) at e'))
        ]
      ]

  -- A wait on a ring in use that says TRUE, with a fence pending, has read just that fence from the
  -- scratch register, and nothing is pending afterwards.
  pub wait-retired :
      (fuel : ℕ) (st : CpState) {st' : CpState}
      → IsReady st
      → st.pending_fence ≢ 0
      → wait hw clock fuel st ≡ some (true, st')
      → ((t : ℕ) × (hw t scratch_reg0 ≡ st.pending_fence))
        × (st'.pending_fence ≡ 0)
        × (st'.pending_unfenced ≡ 0)
  unfolding settle_wait
  wait-retired fuel st {st'} ready pending h =
      let d = (reserve_deadline clock st).0 in
      elim (wait-guards fuel st ready) [
        | inl idle ↦ absurd (pending idle.0)
        | inr e ↦ elim (Option-cases (loop fuel st)) [
          | inl out ↦ absurd (cc (sym e ∙ h, out))
          | inr ((false, bus), run) ↦
              absurd (cc (ap (Option.map (settle_wait hw clock st)) (sym run) ∙ sym e ∙ h))
          | inr ((true, bus), run) ↦
              let after =
                ap (λ (x : Bool × CpState). x.1)
                  (some-inj (ap (Option.map (settle_wait hw clock st)) (sym run) ∙ sym e ∙ h)) in
              (
                repeat_returns Watching
                    (λ r. r.0 ≡ true → (t : ℕ) × (hw t scratch_reg0 ≡ st.pending_fence))
                    (watch hw clock d st.pending_fence)
                    (λ s t w f. watch-Watching d st.pending_fence s t w f)
                    (watch-true d st.pending_fence) fuel (watch_start hw clock st)
                    (watch_start-Watching st ready) run refl,
                sym (ap (λ (x : CpState). x.pending_fence) after),
                sym (ap (λ (x : CpState). x.pending_unfenced) after),
              )
        ]
      ]
