-- ===== src/Cp/Launch/Running.antt =====
-- A command processor that was brought up is ready for streams.
use r200_p96_driver.Base.{
  ℕ, zero, suc, ◌+◌, ◌≤◌, ◌≡◌, ◌∙◌, refl, ap, some-inj, Bool, true, false, not, Option, none, some,
  ◌==◌, inl, inr, Bool-cases, arith,
}
use mathlib.Core.Path.{subst}
use r200_p96_driver.Mmio.{Bus, read32, write32}
use r200_p96_driver.Mmio.Chain.{perform_all}
use r200_p96_driver.Regs.Engine.{cp_csq_cntl}
use r200_p96_driver.Cp.{CpState, scratch_reg0}
use r200_p96_driver.Cp.Fence.{timeout_polls}
use r200_p96_driver.Cp.Commit.Kept.{IsAligned, Keeps, Keeps-trans, moved-Keeps, commit-Keeps}
use r200_p96_driver.Cp.Stream.Sizes.{IsReady}
use r200_p96_driver.Cp.Launch.{
  Outside, on_bus, also, cp_reset, load_microcode, ring_accesses, queue_accesses, startup,
  open_queue, configure_ring, poll_scratch, ring_test, bring_up, test_after, test_before,
}

-- Both parts of a chain that succeeded.
also-true :
    (first : Option (Bool × CpState)) (next : CpState → Option (Bool × CpState)) {st' : CpState}
    → also first next ≡ some (true, st')
    → (st : CpState) × (first ≡ some (true, st)) × (next st ≡ some (true, st'))
also-true none next h = absurd (cc)
also-true (some (false, st)) next h = absurd (cc)
also-true (some (true, st)) next h = (st, refl, h)

-- The window that the bus shows.
abbrev HasScratch : Bus → Type 0
HasScratch b = (b.mapped ≡ true) × (scratch_reg0 + 4 ≤ b.mmio_size)

-- The counters of what is in flight and the place of the ring, as they were.
pub record SameFlight (st st' : CpState) : Type 0 where
  pub pending :
      (st'.pending_fence ≡ st.pending_fence) × (st'.pending_unfenced ≡ st.pending_unfenced)
  pub place : st'.ring_gpu_address ≡ st.ring_gpu_address

pub SameFlight-trans : {a b c : CpState} → SameFlight a b → SameFlight b c → SameFlight a c
SameFlight-trans p q = record {
  pending = (q.pending.0 ∙ p.pending.0, q.pending.1 ∙ p.pending.1);
  place = q.place ∙ p.place;
}

pub on_bus-SameFlight :
    (r : Bool × Bus) (st : CpState) {r' : Bool × CpState}
    → some (on_bus r st) ≡ some r'
    → SameFlight st r'.1
on_bus-SameFlight (done, bus) st h =
    subst (λ (x : Bool × CpState). SameFlight st x.1) (some-inj h)
      record { pending = (refl, refl); place = refl }

module _ (y : Outside) where
  -- Any answer but zero comes from a register inside the window.
  answered :
      (b : Bus)
      → (read32 y.hw b scratch_reg0).0 ≡ test_after
      → HasScratch (read32 y.hw b scratch_reg0).1
  unfolding read32
  answered b e = ground (arith, e)

  poll_scratch-true :
      (polls : ℕ) (st : CpState) {st' : CpState}
      → poll_scratch y polls st ≡ (true, st')
      → HasScratch st'.bus × Keeps st st'
  unfolding poll_scratch
  poll_scratch-true zero st h = absurd (cc)
  poll_scratch-true (suc polls) st {st'} h =
      let read = read32 y.hw st.bus scratch_reg0 in
      let after = record st { bus = read.1 } in
      elim (Bool-cases (read.0 == test_after)) [
        | inl e ↦
            subst (λ (x : CpState). HasScratch x.bus × Keeps st x)
              (ap (λ (r : Bool × CpState). r.1) (rw (e, poll_scratch) at h))
              (answered st.bus (ground (arith, e)), moved-Keeps st read.1 st.ring)
        | inr e ↦
            let rest = poll_scratch-true polls after (rw (e, poll_scratch) at h) in
            (rest.0, Keeps-trans (moved-Keeps st read.1 st.ring) rest.1)
      ]

  -- A ring test that succeeds was made on a mapped window.
  ring_test-true :
      (st : CpState) {st' : CpState}
      → ring_test y st ≡ some (true, st')
      → HasScratch st'.bus × Keeps st st'
  unfolding ring_test
  ring_test-true st {st'} h =
      let written = write32 st.bus scratch_reg0 test_before in
      elim (Bool-cases (not written.0)) [
        | inl e ↦ absurd (cc (rw e at h))
        | inr e ↦
            let parts = also-true _ _ (rw e at h) in
            let polled = poll_scratch-true timeout_polls parts.0 (some-inj parts.2) in
            (
              polled.0,
              Keeps-trans (moved-Keeps st written.1 st.ring)
                  (Keeps-trans (commit-Keeps y.swap_long y.hw y.clock y.fuel _ _ parts.1) polled.1),
            )
      ]

  -- A ring that was configured is in use from its start.
  configure_ring-true :
      (st : CpState) {st' : CpState}
      → configure_ring y st ≡ some (true, st')
      → IsAligned st' × (st'.ready ≡ true) × SameFlight st st'
  unfolding configure_ring open_queue
  configure_ring-true st {st'} h =
      let (placed, b1) = perform_all y.hw st.bus (ring_accesses st.ring_gpu_address) in
      let (opened, b2) = perform_all y.hw b1 queue_accesses in
      let (value, b3) = read32 y.hw b2 cp_csq_cntl in
      elim (Bool-cases (not placed)) [
        | inl e ↦ absurd (cc (rw e at h))
        | inr e ↦ elim (Bool-cases (not opened)) [
          | inl f ↦ absurd (cc (rw (e, f) at h))
          | inr f ↦
              let kept =
                commit-Keeps y.swap_long y.hw y.clock y.fuel
                  (record st { bus = b3; write_pointer = 0; ready = true }) startup
                  (rw (e, f) at h) in
              (
                kept.position (record { slot = omega arith; aligned = omega arith }),
                kept.ready,
                record { pending = kept.pending; place = kept.place },
              )
        ]
      ]

  pub bring_up-IsReady :
      (st : CpState) {st' : CpState}
      → bring_up y st ≡ some (true, st')
      → IsReady st' × SameFlight st st'
  unfolding bring_up
  bring_up-IsReady st {st'} h =
      let reset = also-true _ _ h in
      let loaded = also-true _ _ reset.2 in
      let configured = also-true _ _ loaded.2 in
      let running = configure_ring-true loaded.0 configured.1 in
      let tested = ring_test-true configured.0 configured.2 in
      let place = tested.1.position running.0 in
      (
        record {
          ready = tested.1.ready ∙ running.1;
          slot = place.slot;
          aligned = place.aligned;
          mapped = tested.0.0;
          window = tested.0.1;
        },
        SameFlight-trans (on_bus-SameFlight (cp_reset y.hw st.bus) st reset.1) (
            SameFlight-trans
              (on_bus-SameFlight (load_microcode y.hw y.microcode reset.0.bus) reset.0 loaded.1)
              (SameFlight-trans running.2
                record { pending = tested.1.pending; place = tested.1.place })),
      )
