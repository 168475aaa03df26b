-- ===== src/Cp/Life/Ends.antt =====
-- A start comes to an end, even if the command processor does nothing.
use mathlib.Core.Path.{subst}
use r200_p96_driver.Base.{
  ℕ, ◌+◌, ◌≤◌, ◌≡◌, ◌∙◌, refl, some-inj, Bool, true, false, not, ◌&&◌, ◌||◌, ◌==◌, Option, none,
  some, inl, inr, Bool-cases, bit_and, not32, arith,
}
use r200_p96_driver.Vram
use r200_p96_driver.Vram.{allocate_private_vram}
use r200_p96_driver.Mmio.{write32}
use r200_p96_driver.Regs.Engine.{bus_cntl, bus_master_dis}
use r200_p96_driver.Cp.{CpState, ring_mask, cp_rb_rptr}
use r200_p96_driver.Cp.Launch.{Outside}
use r200_p96_driver.Cp.Launch.Ends.{Ends, bring_up-Ends, bring_up-SameFlight}
use r200_p96_driver.Cp.Launch.Running.{SameFlight, SameFlight-trans}
use r200_p96_driver.Cp.Life.Started.{open_timer-pending}
use r200_p96_driver.Cp.Life.{
  command_master, Driver, ring_size, saving, master_and_up, disable_now, disable, release, shutdown,
  give_up, open_timer, cleared, is_ring_outside, finish_initialize, then_finish, with_ring,
  initialize,
}

module _ (y : Outside) (settled v : ℕ)
    (rest : (t : ℕ) → settled ≤ t → bit_and (y.hw t cp_rb_rptr) ring_mask ≡ v)
    (enough : settled + 20003 ≤ y.fuel) where
  master_and_up-Ends : (d : Driver) → Ends (master_and_up y d)
  unfolding master_and_up
  master_and_up-Ends d =
      let (stored, bus) =
        write32 d.state.bus bus_cntl (bit_and d.saved_bus_cntl (not32 bus_master_dis)) in
      elim (Bool-cases (bit_and (y.command d.command_writes) command_master == 0)) [
        | inl e ↦ rw e (_, refl)
        | inr e ↦ elim (Bool-cases (not stored)) [
          | inl f ↦ rw (e, f) (_, refl)
          | inr f ↦ rw (e, f) (bring_up-Ends y settled v rest enough (record d.state { bus = bus }))
        ]
      ]

  -- With no fence pending, stopping the processor waits for nothing.
  disable-Ends :
      (orderly : Bool) (st : CpState) → st.pending_fence ≡ 0 → Ends (disable y orderly st)
  unfolding disable
  disable-Ends orderly st none_pending =
      let no_wait : (orderly && st.ready && not (st.pending_fence == 0)) ≡ false =
        ground (arith, none_pending) in
      rw no_wait (disable_now y true st, refl)

  give_up-Ends : (d : Driver) → d.state.pending_fence ≡ 0 → Ends (give_up y d)
  unfolding give_up shutdown
  give_up-Ends d p = elim (Bool-cases (not d.allocated)) [
    | inl e ↦ rw e ((false, d), refl)
    | inr e ↦ let r = disable-Ends true d.state p in rw e ((false, release d r.0), rw r.1 refl)
  ]

  master_and_up-SameFlight :
      (d : Driver) (r : Bool × CpState) → master_and_up y d ≡ some r → SameFlight d.state r.1
  unfolding master_and_up
  master_and_up-SameFlight d r h =
      let (stored, bus) =
        write32 d.state.bus bus_cntl (bit_and d.saved_bus_cntl (not32 bus_master_dis)) in
      let here : SameFlight d.state (record d.state { bus = bus }) = record {
        pending = (refl, refl);
        place = refl;
      } in
      elim (Bool-cases (bit_and (y.command d.command_writes) command_master == 0)) [
        | inl e ↦
            subst (λ (x : Bool × CpState). SameFlight d.state x.1) (some-inj (rw e at h))
              record { pending = (refl, refl); place = refl }
        | inr e ↦ elim (Bool-cases (not stored)) [
          | inl f ↦
              subst (λ (x : Bool × CpState). SameFlight d.state x.1) (some-inj (rw (e, f) at h))
                here
          | inr f ↦
              SameFlight-trans here
                (bring_up-SameFlight y (record d.state { bus = bus }) r (rw (e, f) at h))
        ]
      ]

  finish_initialize-Ends :
      (d : Driver)
      → d.state.pending_fence ≡ 0
      → Ends (then_finish (finish_initialize y d) (master_and_up y d))
  unfolding finish_initialize
  finish_initialize-Ends d p =
      let up = master_and_up-Ends d in
      let kept = master_and_up-SameFlight d up.0 up.1 in rw up.1 (finish up.0 kept)
    where
      finish : (r : Bool × CpState) → SameFlight d.state r.1 → Ends (finish_initialize y d r)
      finish (true, st) k = (_, refl)
      finish (false, st) k = give_up-Ends (record d { state = st }) (k.pending.0 ∙ p)

  with_ring-Ends :
      (d : Driver) (answer : Option (ℕ × Vram.Board))
      → d.state.pending_fence ≡ 0
      → Ends (with_ring y d answer)
  unfolding with_ring saving
  with_ring-Ends d none p = give_up-Ends d p
  with_ring-Ends d (some (ring, memory)) p =
      let held = record d { memory = memory; ring_memory = ring } in
      elim (Bool-cases (is_ring_outside held ring)) [
        | inl e ↦ rw e (give_up-Ends held p)
        | inr e ↦ rw e (finish_initialize-Ends _ p)
      ]

  -- `RadeonCpInitialize` returns even if the command processor does nothing: where its read pointer is
  -- at rest from the access number `settled` on, `settled + 20003` rounds are enough for every wait.
  pub initialize-Ends : (d : Driver) → Ends (initialize y d)
  unfolding initialize
  initialize-Ends d =
      let (timed, st) = open_timer y (cleared d.state) in
      let fresh = record d {
        allocated = true;
        state = st;
        ring_memory = 0;
        saved_bus_cntl = 0;
        saved_command = 0;
        bus_configured = false;
      } in
      let nothing = (open_timer-pending y (cleared d.state)).0 in
      elim (Bool-cases (d.allocated || (d.memory.memory_base == 0) || not d.has_registers)) [
        | inl e ↦ rw e ((false, d), refl)
        | inr e ↦ elim (Bool-cases (not y.gives_memory)) [
          | inl f ↦ rw (e, f) ((false, d), refl)
          | inr f ↦ elim (Bool-cases (not timed)) [
            | inl g ↦ rw (e, f, g) (give_up-Ends fresh nothing)
            | inr g ↦
                rw (e, f, g)
                  (with_ring-Ends fresh (allocate_private_vram d.memory ring_size) nothing)
          ]
        ]
      ]
