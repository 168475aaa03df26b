-- ===== src/Cp/Commit/Kept.antt =====
-- What a commit leaves alone, and where it leaves the write pointer.
use mathlib.Core.Path.{subst}
use r200_p96_driver.Base.{
  ℕ, ◌-◌, ◌%◌, ◌^◌, ◌<◌, ◌≡◌, ◌∙◌, refl, some-inj, Bool, true, false, not, ◌||◌, List, some, ltb,
  leb, ◌==◌, inl, inr, Bool-cases, Option-cases, arith, length, bit_and, bit_and-ones, add32, sub32,
}
use r200_p96_driver.Mmio.{Bus, write32}
use r200_p96_driver.Cp.{CpState, ring_dwords, max_command_dwords, padded, cp_rb_wptr}
use r200_p96_driver.Cp.Reserve.{reserve}
use r200_p96_driver.Cp.Stream.{hand_over}
use r200_p96_driver.Cp.Stream.Sizes.{padded_lem}
use r200_p96_driver.Cp.Commit.{staged, copy_staged, commit_staged, commit}

-- The write pointer is at a slot of the ring where a commit can begin.
pub record IsAligned (st : CpState) : Type 0 where
  pub slot : st.write_pointer < ring_dwords
  pub aligned : st.write_pointer % 16 ≡ 0

-- What a commit keeps, whether it succeeds or not.
pub record Keeps (st st' : CpState) : Type 0 where
  pub position : IsAligned st → IsAligned st'
  pub ready : st'.ready ≡ st.ready
  pub pending :
      (st'.pending_fence ≡ st.pending_fence) × (st'.pending_unfenced ≡ st.pending_unfenced)
  pub counter : st'.next_fence ≡ st.next_fence
  pub timer : (st'.timer_open ≡ st.timer_open) × (st'.eclock_rate ≡ st.eclock_rate)
  pub place : st'.ring_gpu_address ≡ st.ring_gpu_address

pub Keeps-refl : (st : CpState) → Keeps st st
Keeps-refl st = record {
  position = λ h. h;
  ready = refl;
  pending = (refl, refl);
  counter = refl;
  timer = (refl, refl);
  place = refl;
}

pub Keeps-trans : {a b c : CpState} → Keeps a b → Keeps b c → Keeps a c
Keeps-trans p q = record {
  position = λ h. q.position (p.position h);
  ready = q.ready ∙ p.ready;
  pending = (q.pending.0 ∙ p.pending.0, q.pending.1 ∙ p.pending.1);
  counter = q.counter ∙ p.counter;
  timer = (q.timer.0 ∙ p.timer.0, q.timer.1 ∙ p.timer.1);
  place = q.place ∙ p.place;
}

-- Another bus and another ring are not looked at.
pub moved-Keeps :
    (st : CpState) (bus : Bus) (ring : ℕ → ℕ) → Keeps st (record st { bus = bus; ring = ring })
moved-Keeps st bus ring = record {
  position = λ h. record { slot = h.slot; aligned = h.aligned };
  ready = refl;
  pending = (refl, refl);
  counter = refl;
  timer = (refl, refl);
  place = refl;
}

module _ (swap_long : ℕ → ℕ) (hw : ℕ → ℕ → ℕ) where
  hand_over-Keeps :
      (st : CpState) (total expected : ℕ)
      → total % 16 ≡ 0
      → Keeps st (hand_over swap_long hw st total expected).1
  unfolding hand_over
  hand_over-Keeps st total expected t =
      let pointer = bit_and-ones 18 (add32 st.write_pointer total) in
      let (stored, bus) =
        write32 st.bus cp_rb_wptr (bit_and (add32 st.write_pointer total) (2 ^ 18 - 1)) in
      let last = bit_and (sub32 (add32 st.write_pointer total) 1) (2 ^ 18 - 1) in
      elim (Bool-cases (not (swap_long (st.ring last) == expected))) [
        | inl e ↦ rw e (Keeps-refl st)
        | inr e ↦ elim (Bool-cases stored) [
          | inr f ↦ rw (e, f) (moved-Keeps st bus st.ring)
          | inl f ↦
              rw (e, f)
                record {
                  position = λ h. record { slot = ground arith; aligned = ground arith };
                  ready = refl;
                  pending = (refl, refl);
                  counter = refl;
                  timer = (refl, refl);
                  place = refl;
                }
        ]
      ]

  commit_staged-Keeps :
      (st : CpState) (commands : List ℕ) (total : ℕ) (answer : Bool × Bus)
      → total % 16 ≡ 0
      → Keeps st (commit_staged swap_long hw st commands total answer).1
  unfolding commit_staged
  commit_staged-Keeps st commands total (false, bus) t = moved-Keeps st bus st.ring
  commit_staged-Keeps st commands total (true, bus) t =
      let ring = copy_staged swap_long hw commands st.ring st.write_pointer total in
      Keeps-trans (moved-Keeps st bus ring) (
        hand_over-Keeps (record st { bus = bus; ring = ring }) total (staged commands (total - 1))
          t)

  -- A commit, however it ends, leaves the write pointer where the next one can begin, and changes
  -- nothing but the ring, the write pointer and the bus.
  pub commit-Keeps :
      (clock : ℕ → ℕ) (fuel : ℕ) (st : CpState) (commands : List ℕ) {r : Bool × CpState}
      → commit swap_long hw clock fuel st commands ≡ some r
      → Keeps st r.1
  unfolding commit
  commit-Keeps clock fuel st commands {r} h =
      let total = padded (length commands) in
      let keep = λ (x : Bool × CpState) (e : x ≡ r) (k : Keeps st x.1).
        subst (λ (y : Bool × CpState). Keeps st y.1) e k in
      let few = length commands in
      elim (Bool-cases (not st.ready || (few == 0) || ltb max_command_dwords few)) [
        | inl e ↦ keep (false, st) (some-inj (rw e at h)) (Keeps-refl st)
        | inr e ↦ elim (Bool-cases ((total == 0) || leb ring_dwords total)) [
          | inl f ↦ keep (false, st) (some-inj (rw (e, f) at h)) (Keeps-refl st)
          | inr f ↦ elim (Option-cases (reserve hw clock fuel st total)) [
            | inl g ↦ absurd (cc (rw (e, f, g) at h))
            | inr (answer, g) ↦
                keep (commit_staged swap_long hw st commands total answer)
                  (some-inj (rw (e, f, g) at h))
                  (commit_staged-Keeps st commands total answer
                    (ground (arith, e, padded_lem (length commands))))
          ]
        ]
      ]
