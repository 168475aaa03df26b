-- ===== src/Cp/Launch/Ends.antt =====
-- Bringing the command processor up comes to an end, even if it does nothing, and leaves what is in
-- flight alone.
use mathlib.Core.Path.{subst}
use r200_p96_driver.Base.{
  ℕ, ◌+◌, zero, suc, ◌≤◌, ◌≡◌, refl, some-inj, Bool, true, false, not, ◌&&◌, ◌||◌, ◌==◌, leb, ltb,
  Option, none, some, List, [], ◌∷◌, inl, inr, Bool-cases, arith, bit_and, length,
}
use r200_p96_driver.Mmio.{Bus, read32, write32}
use r200_p96_driver.Mmio.Chain.{Access, put, perform, perform_all}
use r200_p96_driver.Regs.Engine.{cp_csq_cntl}
use r200_p96_driver.Cp.{
  CpState, ring_mask, ring_dwords, cp_rb_rptr, max_command_dwords, padded, scratch_reg0, packet0,
}
use r200_p96_driver.Cp.Reserve.Bounded.{IsOpen, reserve_ends}
use r200_p96_driver.Cp.Fence.{timeout_polls}
use r200_p96_driver.Cp.Commit.{commit, commit_staged}
use r200_p96_driver.Cp.Commit.Kept.{Keeps, commit-Keeps}
use r200_p96_driver.Cp.Launch.{
  Outside, on_bus, also, cp_reset, load_microcode, ring_accesses, queue_accesses, startup,
  open_queue, configure_ring, poll_scratch, ring_test, bring_up, test_after, test_before,
}
use r200_p96_driver.Cp.Launch.Running.{SameFlight, SameFlight-trans, on_bus-SameFlight}

-- A result, rather than rounds that run out.
abbrev pub Ends {ℓ} : {A : Type ℓ} → Option A → Type ℓ
Ends {A = A} o = (a : A) × (o ≡ some a)

-- Writes of registers from the read pointer of the ring on.
abbrev are_high : List Access → Bool
are_high [] = true
are_high (put reg value ∷ rest) = leb cp_rb_rptr reg && are_high rest
are_high (other ∷ rest) = false

read-IsOpen : (hw : ℕ → ℕ → ℕ) (b : Bus) (reg : ℕ) → IsOpen b → IsOpen (read32 hw b reg).1
unfolding read32
read-IsOpen hw b reg o = ground arith

written-IsOpen :
    (b : Bus) (reg value : ℕ)
    → leb cp_rb_rptr reg ≡ true
    → (write32 b reg value).0 ≡ true
    → IsOpen (write32 b reg value).1
unfolding write32
written-IsOpen b reg value r h = ground (arith, r, h)

module _ (hw : ℕ → ℕ → ℕ) where
  perform_all-IsOpen :
      (b : Bus) (reg value : ℕ) (rest : List Access)
      → are_high (put reg value ∷ rest) ≡ true
      → (perform_all hw b (put reg value ∷ rest)).0 ≡ true
      → IsOpen (perform_all hw b (put reg value ∷ rest)).1
  unfolding perform_all perform
  perform_all-IsOpen b reg value [] r h = elim (Bool-cases (write32 b reg value).0) [
    | inl e ↦ rw (e, perform_all) (written-IsOpen b reg value (ground (arith, r)) e)
    | inr e ↦ absurd (cc (rw (e, perform_all) at h))
  ]
  perform_all-IsOpen b reg value (put reg' value' ∷ rest) r h =
      elim (Bool-cases (write32 b reg value).0) [
        | inl e ↦
            rw (e, perform_all)
              (perform_all-IsOpen (write32 b reg value).1 reg' value' rest (ground (arith, r))
                (rw (e, perform_all) at h))
        | inr e ↦ absurd (cc (rw (e, perform_all) at h))
      ]
  perform_all-IsOpen b reg value (other ∷ rest) r h = absurd (ground (arith, r))

module _ (y : Outside) (settled v : ℕ)
    (rest : (t : ℕ) → settled ≤ t → bit_and (y.hw t cp_rb_rptr) ring_mask ≡ v)
    (enough : settled + 20003 ≤ y.fuel) where
  commit-Ends :
      (st : CpState) (commands : List ℕ)
      → IsOpen st.bus
      → Ends (commit y.swap_long y.hw y.clock y.fuel st commands)
  unfolding commit
  commit-Ends st commands o =
      let total = padded (length commands) in
      let few = length commands in
      let r = reserve_ends y.hw y.clock y.fuel st total settled v o rest enough in
      elim (Bool-cases (not st.ready || (few == 0) || ltb max_command_dwords few)) [
        | inl e ↦ rw e ((false, st), refl)
        | inr e ↦ elim (Bool-cases ((total == 0) || leb ring_dwords total)) [
          | inl f ↦ rw (e, f) ((false, st), refl)
          | inr f ↦ rw (e, f) (commit_staged y.swap_long y.hw st commands total r.0, rw r.1 refl)
        ]
      ]

  also-Ends :
      (first : Option (Bool × CpState)) (next : CpState → Option (Bool × CpState))
      → Ends first
      → ((st : CpState) → Ends (next st))
      → Ends (also first next)
  also-Ends none next (r, e) n = absurd (cc)
  also-Ends (some (false, st)) next f n = ((false, st), refl)
  also-Ends (some (true, st)) next f n = n st

  configure_ring-Ends : (st : CpState) → Ends (configure_ring y st)
  unfolding configure_ring open_queue
  configure_ring-Ends st =
      let (placed, b1) = perform_all y.hw st.bus (ring_accesses st.ring_gpu_address) in
      let (opened, b2) = perform_all y.hw b1 queue_accesses in
      let (value, b3) = read32 y.hw b2 cp_csq_cntl in
      elim (Bool-cases (not placed)) [
        | inl e ↦ rw e (_, refl)
        | inr e ↦ elim (Bool-cases opened) [
          | inr f ↦ rw (e, f) (_, refl)
          | inl f ↦
              rw (e, f)
                (commit-Ends (record st { bus = b3; write_pointer = 0; ready = true }) startup
                  (read-IsOpen y.hw b2 cp_csq_cntl (perform_all-IsOpen y.hw b1 _ _ _ refl f)))
        ]
      ]

  ring_test-Ends : (st : CpState) → Ends (ring_test y st)
  unfolding ring_test
  ring_test-Ends st =
      let written = write32 st.bus scratch_reg0 test_before in
      elim (Bool-cases written.0) [
        | inr e ↦ rw e (_, refl)
        | inl e ↦ rw e (
            also-Ends _ _
              (commit-Ends (record st { bus = written.1 })
                (packet0 scratch_reg0 0 ∷ test_after ∷ [])
                (written-IsOpen st.bus scratch_reg0 test_before refl e))
              (λ st'. (_, refl)))
      ]

  pub bring_up-Ends : (st : CpState) → Ends (bring_up y st)
  unfolding bring_up
  bring_up-Ends st =
      also-Ends (some (on_bus (cp_reset y.hw st.bus) st)) _ (_, refl)
        λ s1.
          also-Ends (some (on_bus (load_microcode y.hw y.microcode s1.bus) s1)) _ (_, refl)
            λ s2. also-Ends _ _ (configure_ring-Ends s2) λ s3. ring_test-Ends s3

-- However a chain ends.
also-SameFlight :
    (st : CpState) (first : Option (Bool × CpState)) (next : CpState → Option (Bool × CpState))
    {r : Bool × CpState}
    → ((r1 : Bool × CpState) → first ≡ some r1 → SameFlight st r1.1)
    → ((s : CpState) (r2 : Bool × CpState) → next s ≡ some r2 → SameFlight s r2.1)
    → also first next ≡ some r
    → SameFlight st r.1
also-SameFlight st none next f n h = absurd (cc)
also-SameFlight st (some (false, s)) next f n h =
    subst (λ (x : Bool × CpState). SameFlight st x.1) (some-inj h) (f (false, s) refl)
also-SameFlight st (some (true, s)) next f n h = SameFlight-trans (f (true, s) refl) (n s _ h)

-- Only the bus, the write pointer and the ready flag differ.
ended :
    (st st1 : CpState) {r : Bool × CpState}
    → SameFlight st st1
    → some (false, st1) ≡ some r
    → SameFlight st r.1
ended st st1 f h = subst (λ (x : Bool × CpState). SameFlight st x.1) (some-inj h) f

plain : (st st1 : CpState) → Keeps st st1 → SameFlight st st1
plain st st1 k = record { pending = k.pending; place = k.place }

module _ (y : Outside) where
  configure_ring-SameFlight :
      (st : CpState) (r : Bool × CpState) → configure_ring y st ≡ some r → SameFlight st r.1
  unfolding configure_ring open_queue
  configure_ring-SameFlight st r h =
      let (placed, b1) = perform_all y.hw st.bus (ring_accesses st.ring_gpu_address) in
      let (opened, b2) = perform_all y.hw b1 queue_accesses in
      let (value, b3) = read32 y.hw b2 cp_csq_cntl in
      elim (Bool-cases (not placed)) [
        | inl e ↦
            ended st (record st { bus = b1 }) record { pending = (refl, refl); place = refl }
              (rw e at h)
        | inr e ↦ elim (Bool-cases (not opened)) [
          | inl f ↦
              ended st (record st { bus = b2; write_pointer = 0 })
                record { pending = (refl, refl); place = refl } (rw (e, f) at h)
          | inr f ↦
              let kept =
                commit-Keeps y.swap_long y.hw y.clock y.fuel
                  (record st { bus = b3; write_pointer = 0; ready = true }) startup
                  (rw (e, f) at h) in
              record { pending = kept.pending; place = kept.place }
        ]
      ]

  poll_scratch-SameFlight : (polls : ℕ) (st : CpState) → SameFlight st (poll_scratch y polls st).1
  unfolding poll_scratch
  poll_scratch-SameFlight zero st = record { pending = (refl, refl); place = refl }
  poll_scratch-SameFlight (suc polls) st =
      let read = read32 y.hw st.bus scratch_reg0 in
      elim (Bool-cases (read.0 == test_after)) [
        | inl e ↦ rw (e, poll_scratch) record { pending = (refl, refl); place = refl }
        | inr e ↦
            let more = poll_scratch-SameFlight polls (record st { bus = read.1 }) in
            rw (e, poll_scratch) record { pending = more.pending; place = more.place }
      ]

  ring_test-SameFlight :
      (st : CpState) (r : Bool × CpState) → ring_test y st ≡ some r → SameFlight st r.1
  unfolding ring_test
  ring_test-SameFlight st r h =
      let written = write32 st.bus scratch_reg0 test_before in
      let moved = record st { bus = written.1 } in
      let test : List ℕ = packet0 scratch_reg0 0 ∷ test_after ∷ [] in
      elim (Bool-cases (not written.0)) [
        | inl e ↦ ended st moved record { pending = (refl, refl); place = refl } (rw e at h)
        | inr e ↦
            also-SameFlight st (commit y.swap_long y.hw y.clock y.fuel moved test)
              (λ s. some (poll_scratch y timeout_polls s))
              (λ r1 g.
                let kept = commit-Keeps y.swap_long y.hw y.clock y.fuel moved test g in
                record { pending = kept.pending; place = kept.place })
              (λ s r2 g.
                subst (λ (x : Bool × CpState). SameFlight s x.1) (some-inj g)
                  (poll_scratch-SameFlight timeout_polls s))
              (rw e at h)
      ]

  pub bring_up-SameFlight :
      (st : CpState) (r : Bool × CpState) → bring_up y st ≡ some r → SameFlight st r.1
  unfolding bring_up
  bring_up-SameFlight st r h =
      also-SameFlight st (some (on_bus (cp_reset y.hw st.bus) st)) _
        (λ r1 g. on_bus-SameFlight (cp_reset y.hw st.bus) st g)
        (λ s1 r2.
          also-SameFlight s1 (some (on_bus (load_microcode y.hw y.microcode s1.bus) s1)) _
            (λ r1 g. on_bus-SameFlight (load_microcode y.hw y.microcode s1.bus) s1 g)
            (λ s2 r3. also-SameFlight s2 _ _ (configure_ring-SameFlight s2) ring_test-SameFlight))
        h
