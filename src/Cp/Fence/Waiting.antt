-- ===== src/Cp/Fence/Waiting.antt =====
-- What `RadeonCpWaitFence` answers, that it ends, and what `RadeonCpAdoptFence` sets up.
use mathlib.Core.Path.{subst}
use r200_p96_driver.Base.{
  some-inj, ℕ, ◌+◌, ◌-◌, ◌^◌, ◌≤◌, ◌<◌, ◌≡◌, ◌≢◌, ◌∙◌, sym, ap, refl, ◌⊎◌, inl, inr, Bool, true,
  false, not, ◌||◌, ◌==◌, arith, some, sub32, is_nonneg, repeat, repeat_ends, repeat_returns,
  Bool-cases, bit_and-ones,
}
use r200_p96_driver.Mmio.{Bus, is_refused, read32}
use r200_p96_driver.Cp.{
  CpState, ring_dwords, cp_rb_rptr, scratch_reg0, fence_reached, take_sequence, read_clock,
}
use r200_p96_driver.Cp.Stream.Sizes.{IsReady}
use r200_p96_driver.Cp.Fence.{test_fence, poll_fence, fence_deadline, wait_fence, adopt_fence}
use r200_p96_driver.Cp.Fence.Testing.{test_fence-says, test_fence-unreached}
use r200_p96_driver.Cp.Fence.Serial.{issued}

module _ (hw : ℕ → ℕ → ℕ) (clock : ℕ → ℕ) where
  -- A read of the scratch register saw the fence.
  abbrev pub WasReached : ℕ → Type 0
  WasReached fence = (t : ℕ) × (fence_reached (hw t scratch_reg0) fence ≡ true)

  IsReady-later :
      {st : CpState}
      → IsReady st
      → (now : ℕ) → IsReady (record st { bus = record st.bus { now = now } })
  IsReady-later v now = record {
    ready = v.ready;
    slot = v.slot;
    aligned = v.aligned;
    mapped = v.mapped;
    window = v.window;
  }

  -- One round: TRUE for a fence that was reached, or the clock was past the deadline, or a state
  -- that differs in the number of accesses.
  poll_fence-reached :
      (fence deadline : ℕ) (st : CpState)
      → IsReady st
      → fence_reached (hw st.bus.now scratch_reg0) fence ≡ true
      → poll_fence hw clock fence deadline st ≡ inl (true, (test_fence hw st fence).1)
  unfolding poll_fence
  poll_fence-reached fence deadline st v r = rw ((test_fence-says hw st fence v), r) refl

  poll_fence-unreached :
      (fence deadline : ℕ) (st : CpState)
      → IsReady st
      → fence_reached (hw st.bus.now scratch_reg0) fence ≡ false
      → (now : ℕ) × (st.bus.now ≤ now)
        × (let st' = record st { bus = record st.bus { now = now + 1 } } in
            ((is_nonneg (sub32 (clock now) deadline) ≡ true)
              × (poll_fence hw clock fence deadline st ≡ inl (false, st')))
            ⊎ ((is_nonneg (sub32 (clock now) deadline) ≡ false)
                × (poll_fence hw clock fence deadline st ≡ inr st')))
  unfolding poll_fence read_clock
  poll_fence-unreached fence deadline st v r =
      let t = test_fence-unreached hw st fence v.ready (v.mapped, v.window) r in
      (
        t.0,
        t.1,
        elim (Bool-cases (is_nonneg (sub32 (clock t.0) deadline))) [
          | inl e ↦ inl (e, rw (t.2, e) refl)
          | inr e ↦ inr (e, rw (t.2, e) refl)
        ],
      )

  inr-inj : {a : Bool × CpState ⊎ CpState} {s t : CpState} → a ≡ inr s → a ≡ inr t → s ≡ t
  inr-inj p q = cc

  round-goes_on :
      (fence deadline : ℕ) (s t : CpState)
      → IsReady s
      → poll_fence hw clock fence deadline s ≡ inr t
      → IsReady t
        × ((now : ℕ) × (s.bus.now ≤ now)
            × (t.bus.now ≡ now + 1)
            × (is_nonneg (sub32 (clock now) deadline) ≡ false))
  round-goes_on fence deadline s t v h =
      elim (Bool-cases (fence_reached (hw s.bus.now scratch_reg0) fence)) [
        | inl r ↦ absurd (cc (poll_fence-reached fence deadline s v r, h))
        | inr r ↦
            let u = poll_fence-unreached fence deadline s v r in
            elim u.2 [
              | inl late ↦ absurd (cc (late.1, h))
              | inr early ↦
                  let e = inr-inj early.1 h in
                  (
                    subst IsReady e (IsReady-later v (u.0 + 1)),
                    (u.0, u.1, ap (λ (x : CpState). x.bus.now) (sym e), early.0),
                  )
            ]
      ]

  round-ends :
      (fence deadline : ℕ) (s : CpState) (r : Bool × CpState)
      → IsReady s
      → poll_fence hw clock fence deadline s ≡ inl r
      → r.0 ≡ true
      → WasReached fence
  round-ends fence deadline s r v h said =
      elim (Bool-cases (fence_reached (hw s.bus.now scratch_reg0) fence)) [
        | inl e ↦ (s.bus.now, e)
        | inr e ↦ elim (poll_fence-unreached fence deadline s v e).2 [
          | inl late ↦ absurd (cc)
          | inr early ↦ absurd (cc)
        ]
      ]

  -- The early returns, and the loop.
  wait_fence-guards :
      (fuel : ℕ) (st : CpState) (fence timeout_ms : ℕ)
      → let start = fence_deadline hw clock st timeout_ms in
        ((wait_fence hw clock fuel st fence timeout_ms ≡ some (false, st))
          ⊎ (wait_fence hw clock fuel st fence timeout_ms ≡ some (test_fence hw st fence)))
        ⊎ (wait_fence hw clock fuel st fence timeout_ms
            ≡ repeat fuel (poll_fence hw clock fence start.0) start.1)
  unfolding wait_fence
  wait_fence-guards fuel st fence timeout_ms = elim (Bool-cases (fence == 0)) [
    | inl e ↦ inl (inl (rw e refl))
    | inr e ↦ elim (Bool-cases (timeout_ms == 0)) [
      | inl z ↦ inl (inr (rw (e, z) refl))
      | inr z ↦ elim (Bool-cases (not st.timer_open || (st.eclock_rate == 0))) [
        | inl c ↦ inl (inl (rw (e, z, c) refl))
        | inr c ↦ inr (rw (e, z, c) refl)
      ]
    ]
  ]

  -- A wait on a ring in use that says TRUE has read the fence, or a later one, from the scratch
  -- register.
  pub wait_fence-reached :
      (fuel : ℕ) (st : CpState) (fence timeout_ms : ℕ) {st' : CpState}
      → IsReady st
      → wait_fence hw clock fuel st fence timeout_ms ≡ some (true, st')
      → WasReached fence
  unfolding read_clock
  wait_fence-reached fuel st fence timeout_ms v h =
      let start = fence_deadline hw clock st timeout_ms in
      elim (wait_fence-guards fuel st fence timeout_ms) [
        | inl (inl e) ↦ absurd (cc)
        | inl (inr e) ↦
            let tested = ap (λ (x : Bool × CpState). x.0) (some-inj (sym e ∙ h)) in
            (st.bus.now, sym (test_fence-says hw st fence v) ∙ tested)
        | inr e ↦
            repeat_returns IsReady (λ r. r.0 ≡ true → WasReached fence)
              (poll_fence hw clock fence start.0)
              (λ s t p f. (round-goes_on fence start.0 s t p f).0) (round-ends fence start.0) fuel
              start.1 (IsReady-later v (st.bus.now + 1)) (sym e ∙ h) refl
      ]

  -- A wait on a ring in use returns once the clock has passed the deadline: where every read of the
  -- clock from the access number `late` on is past it, `late + 2` rounds are enough.
  wait_fence_ends :
      (fuel : ℕ) (st : CpState) (fence timeout_ms late : ℕ)
      → IsReady st
      → ((t : ℕ)
          → late ≤ t
          → is_nonneg (sub32 (clock t) (fence_deadline hw clock st timeout_ms).0) ≡ true)
      → late + 2 ≤ fuel
      → (r : Bool × CpState) × (wait_fence hw clock fuel st fence timeout_ms ≡ some r)
  unfolding read_clock
  wait_fence_ends fuel st fence timeout_ms late v past enough =
      let start = fence_deadline hw clock st timeout_ms in
      elim (wait_fence-guards fuel st fence timeout_ms) [
        | inl (inl e) ↦ (_, e)
        | inl (inr e) ↦ (_, e)
        | inr e ↦
            let ended =
              repeat_ends IsReady (λ s. late + 1 - s.bus.now) (poll_fence hw clock fence start.0)
                (λ s t p f.
                  let g = round-goes_on fence start.0 s t p f in
                  (g.0, ground (arith, past g.1.0, g.1.1, g.1.2, g.1.3)))
                fuel start.1 (omega arith) (IsReady-later v (st.bus.now + 1)) in
            (ended.0, e ∙ ended.1)
      ]

read32-written : (hw : ℕ → ℕ → ℕ) (b : Bus) (reg : ℕ) → (read32 hw b reg).1.written ≡ b.written
unfolding read32
read32-written hw b reg = elim (Bool-cases (is_refused b reg)) [
  | inl e ↦ rw e refl
  | inr e ↦ rw e refl
]

-- After a lease holder's last fence, the counter names the next fence in the order, and nothing is
-- pending; without one, the counter and the write pointer stay.
pub adopt_fence_lem :
    (hw : ℕ → ℕ → ℕ) (st : CpState) (last_fence : ℕ)
    → last_fence < 2 ^ 32
    → let st' = adopt_fence hw st last_fence in
      (st'.pending_fence ≡ 0)
      × (st'.pending_unfenced ≡ 0)
      × (st'.bus.written ≡ st.bus.written)
      × (((last_fence ≡ 0)
            × (st'.next_fence ≡ st.next_fence)
            × (st'.write_pointer ≡ st.write_pointer))
          ⊎ ((last_fence ≢ 0)
              × (issued st'.next_fence 0 ≡ issued last_fence 1)
              × (st'.write_pointer < ring_dwords)))
unfolding adopt_fence issued take_sequence
adopt_fence_lem hw st last_fence h = elim (Bool-cases (last_fence == 0)) [
  | inl e ↦ rw e (refl, refl, refl, inl (ground (arith, e), refl, refl))
  | inr e ↦ rw e (
    refl,
    refl,
    read32-written hw st.bus cp_rb_rptr,
    inr (
      ground (arith, e),
      ground (arith, h),
      omega (arith, bit_and-ones 18 (read32 hw st.bus cp_rb_rptr).0),
    ),
  )
]
