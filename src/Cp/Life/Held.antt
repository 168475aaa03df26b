-- ===== src/Cp/Life/Held.antt =====
-- What a start that succeeds holds until the shutdown.
use mathlib.Core.Path.{subst}
use r200_p96_driver.Base.{
  ℕ, ◌+◌, ◌-◌, ◌%◌, ◌≡◌, ◌∙◌, refl, ap, some-inj, Bool, true, false, not, ◌||◌, ◌==◌, Option, none,
  some, ◌∷◌, inl, inr, Bool-cases, Option-cases, bit_or,
}
use r200_p96_driver.Vram
use r200_p96_driver.Vram.{allocate_private_vram, free_private_vram}
use r200_p96_driver.Vram.Stack.{IsValid}
use r200_p96_driver.Cp.{CpState}
use r200_p96_driver.Cp.Launch.{Outside}
use r200_p96_driver.Cp.Life.{
  command_master, Driver, ring_size, saving, master_and_up, shutdown, open_timer, cleared,
  is_ring_outside, finish_initialize, with_ring, initialize,
}
use r200_p96_driver.Cp.Life.Released.{memory_after, if_eq, shutdown-IsStopped}
use r200_p96_driver.Cp.Life.Started.{give_up-false}
use r200_p96_driver.Cp.Life.Returned.{IsGivenBack, taken_back, gave_back}

module _ (y : Outside) where
  -- What a start that succeeds holds, whatever the state becomes afterwards.
  record Holds (d d1 : Driver) : Type 0 where
    allocated : d1.allocated ≡ true
    memory : memory_after d1 ≡ d.memory
    master : d1.bus_configured ≡ true
    command :
        d1.saved_command ∷ d1.command_writes
        ≡ y.command d.command_writes
          ∷ bit_or (y.command d.command_writes) command_master
          ∷ d.command_writes

  with_ring-Holds :
      (d : Driver) (answer : Option (ℕ × Vram.Board)) {d1 : Driver}
      → IsValid d.memory
      → d.memory.memory_size % 4096 ≡ 0
      → d.allocated ≡ true
      → allocate_private_vram d.memory ring_size ≡ answer
      → with_ring y d answer ≡ some (true, d1)
      → Holds d d1
  unfolding with_ring saving finish_initialize
  with_ring-Holds d none v page a got h = absurd (give_up-false y d h)
  with_ring-Holds d (some (ring, memory)) v page a got h =
      let held = record d { memory = memory; ring_memory = ring } in
      elim (Bool-cases (is_ring_outside held ring)) [
        | inl e ↦ absurd (give_up-false y held (rw e at h))
        | inr e ↦
            let placed = saving y (record held {
              state = record d.state {
                ring_gpu_address = d.framebuffer_gpu_base + (ring - memory.memory_base);
              };
            }) in
            let h' = rw e at h in
            elim (Option-cases (master_and_up y placed)) [
              | inl f ↦ absurd (cc (rw f at h'))
              | inr ((false, st), f) ↦
                  absurd (give_up-false y (record placed { state = st }) (rw f at h'))
              | inr ((true, st), f) ↦
                  subst (Holds d) (ap (λ (x : Bool × Driver). x.1) (some-inj (rw f at h'))) record {
                    allocated = a;
                    memory = taken_back d.memory memory ring v page got;
                    master = refl;
                    command = refl;
                  }
            ]
      ]

  initialize-Holds :
      (d : Driver) {d1 : Driver}
      → IsValid d.memory
      → d.memory.memory_size % 4096 ≡ 0
      → initialize y d ≡ some (true, d1)
      → Holds d d1
  unfolding initialize
  initialize-Holds d {d1} v page h =
      let (timed, st) = open_timer y (cleared d.state) in
      let fresh = record d {
        allocated = true;
        state = st;
        ring_memory = 0;
        saved_bus_cntl = 0;
        saved_command = 0;
        bus_configured = false;
      } in
      elim (Bool-cases (d.allocated || (d.memory.memory_base == 0) || not d.has_registers)) [
        | inl e ↦ absurd (cc (rw e at h))
        | inr e ↦ elim (Bool-cases (not y.gives_memory)) [
          | inl f ↦ absurd (cc (rw (e, f) at h))
          | inr f ↦ elim (Bool-cases (not timed)) [
            | inl g ↦ absurd (give_up-false y fresh (rw (e, f, g) at h))
            | inr g ↦
                let held =
                  with_ring-Holds fresh (allocate_private_vram d.memory ring_size) v page refl refl
                    (rw (e, f, g) at h) in
                record {
                  allocated = held.allocated;
                  memory = held.memory;
                  master = held.master;
                  command = held.command;
                }
          ]
        ]
      ]

  -- A shutdown that returns, behind a start that succeeded, gives back all that the start took, whatever
  -- the state of the command processor became in between: on a valid board whose visible memory ended on
  -- a page, the board's memory is as before the start, nothing is allocated, the timer is closed, the
  -- processor not ready, and the command word of the card written back as it was read.
  pub shutdown-initialize :
      (d : Driver) {d1 d2 : Driver} (st : CpState)
      → IsValid d.memory
      → d.memory.memory_size % 4096 ≡ 0
      → initialize y d ≡ some (true, d1)
      → shutdown y (record d1 { state = st }) ≡ some d2
      → IsGivenBack y d d2
  shutdown-initialize d {d1} st v page started h =
      let held = initialize-Holds d v page started in
      gave_back y d (record d1 { state = st }) held.memory
        (inr (if_eq d1.bus_configured _ d1.command_writes true held.master ∙ held.command))
        (shutdown-IsStopped y (record d1 { state = st }) held.allocated h)
