-- ===== src/Cp/Life/Returned.antt =====
-- What a start took is given back by a start that fails and by a shutdown.
use mathlib.Core.Path.{subst}
use r200_p96_driver.Base.{
  ℕ, ◌+◌, ◌-◌, ◌%◌, ◌≡◌, ◌∙◌, ◌⊎◌, refl, ap, Bool, true, false, not, ◌||◌, ◌==◌, if◌then◌else◌,
  Option, none, some, List, ◌∷◌, inl, inr, Bool-cases, Option-cases, arith, bit_or,
}
use r200_p96_driver.Vram
use r200_p96_driver.Vram.{allocate_private_vram, free_private_vram}
use r200_p96_driver.Vram.Stack.{IsValid, allocate-Taken, free-allocate}
use r200_p96_driver.Cp.Launch.{Outside}
use r200_p96_driver.Cp.Life.{
  command_master, Driver, ring_size, saving, master_and_up, open_timer, cleared, is_ring_outside,
  finish_initialize, with_ring, initialize,
}
use r200_p96_driver.Cp.Life.Released.{IsStopped, memory_after, if_eq, give_up-IsStopped}

-- All that a start took is given back: the memory, the state and the timer, and the processor is
-- stopped. The command word was not written, or it was written back behind the one that made the card a
-- master.
pub record IsGivenBack (y : Outside) (d d' : Driver) : Type 0 where
  pub memory : d'.memory ≡ d.memory
  pub freed : d'.allocated ≡ false
  pub ready : d'.state.ready ≡ false
  pub timer : d'.state.timer_open ≡ false
  pub bus : d'.bus_configured ≡ false
  pub command :
      (d'.command_writes ≡ d.command_writes)
      ⊎ (let old = y.command d.command_writes in
          d'.command_writes ≡ old ∷ bit_or old command_master ∷ d.command_writes)

-- The block that was taken is given back.
pub taken_back :
    (b b' : Vram.Board) (ring : ℕ)
    → IsValid b
    → b.memory_size % 4096 ≡ 0
    → allocate_private_vram b ring_size ≡ some (ring, b')
    → (if ring == 0 then b' else (free_private_vram b' ring ring_size).1) ≡ b
taken_back b b' ring v page h =
    let t = allocate-Taken b ring_size v h in
    let some_ring : (ring == 0) ≡ false = ground (arith, t.at, t.still.based) in
    if_eq (ring == 0) b' (free_private_vram b' ring ring_size).1 false some_ring
    ∙ ap (λ (x : Bool × Vram.Board). x.1) (free-allocate b ring_size v page h)

module _ (y : Outside) where
  -- The end of a start that has taken the ring.
  pub gave_back :
      (d held : Driver) {d' : Driver}
      → memory_after held ≡ d.memory
      → (let old = y.command d.command_writes in
          (if held.bus_configured
              then held.saved_command ∷ held.command_writes
              else held.command_writes)
            ≡ d.command_writes
          ⊎ ((if held.bus_configured
                then held.saved_command ∷ held.command_writes
                else held.command_writes)
              ≡ old ∷ bit_or old command_master ∷ d.command_writes))
      → IsStopped held d' × (d'.memory ≡ memory_after held)
      → IsGivenBack y d d'
  gave_back d held m c (gone, memory) = record {
    memory = memory ∙ m;
    freed = gone.freed;
    ready = gone.ready;
    timer = gone.timer;
    bus = gone.bus;
    command = elim c [ inl e ↦ inl (gone.command ∙ e) | inr e ↦ inr (gone.command ∙ e) ];
  }

  with_ring-IsGivenBack :
      (d : Driver) (answer : Option (ℕ × Vram.Board)) {d' : Driver}
      → IsValid d.memory
      → d.memory.memory_size % 4096 ≡ 0
      → d.allocated ≡ true
      → d.ring_memory ≡ 0
      → d.bus_configured ≡ false
      → allocate_private_vram d.memory ring_size ≡ answer
      → with_ring y d answer ≡ some (false, d')
      → IsGivenBack y d d'
  unfolding with_ring saving finish_initialize
  with_ring-IsGivenBack d none v page a r c got h =
      gave_back d d (if_eq (d.ring_memory == 0) d.memory _ true (ap (λ (n : ℕ). n == 0) r))
        (inl (if_eq d.bus_configured _ d.command_writes false c)) (give_up-IsStopped y d a h)
  with_ring-IsGivenBack d (some (ring, memory)) v page a r c got h =
      let held = record d { memory = memory; ring_memory = ring } in
      let back = taken_back d.memory memory ring v page got in
      elim (Bool-cases (is_ring_outside held ring)) [
        | inl e ↦
            gave_back d held back (inl (if_eq d.bus_configured _ d.command_writes false c))
              (give_up-IsStopped y held a (rw e at h))
        | inr e ↦
            let placed = saving y (record held {
              state = record d.state {
                ring_gpu_address = d.framebuffer_gpu_base + (ring - memory.memory_base);
              };
            }) in
            let h' = rw e at h in
            elim (Option-cases (master_and_up y placed)) [
              | inl f ↦ absurd (cc (rw f at h'))
              | inr ((true, st), f) ↦ absurd (cc (rw f at h'))
              | inr ((false, st), f) ↦
                  gave_back d (record placed { state = st }) back (inr refl)
                    (give_up-IsStopped y (record placed { state = st }) a (rw f at h'))
            ]
      ]

  again :
      (d fresh : Driver) {d' : Driver}
      → fresh.memory ≡ d.memory
      → fresh.command_writes ≡ d.command_writes
      → IsGivenBack y fresh d'
      → IsGivenBack y d d'
  again d fresh {d'} m c g = record {
    memory = g.memory ∙ m;
    freed = g.freed;
    ready = g.ready;
    timer = g.timer;
    bus = g.bus;
    command =
        subst
          (λ (w : List ℕ).
            (d'.command_writes ≡ w)
            ⊎ (d'.command_writes ≡ y.command w ∷ bit_or (y.command w) command_master ∷ w))
          c g.command;
  }

  -- If `RadeonCpInitialize` returns FALSE on a driver that has its registers, has no state yet and gets
  -- memory for one, on a valid board whose visible memory ends on a page, then the board's memory is as
  -- before, nothing is allocated, the timer is closed and the processor not ready. The command word of
  -- the card was not written, or made the card a master and then was written back as it was read.
  pub initialize-IsGivenBack :
      (d : Driver) {d' : Driver}
      → IsValid d.memory
      → d.memory.memory_size % 4096 ≡ 0
      → d.allocated ≡ false
      → d.has_registers ≡ true
      → y.gives_memory ≡ true
      → initialize y d ≡ some (false, d')
      → IsGivenBack y d d'
  unfolding initialize
  initialize-IsGivenBack d {d'} v page a registers memory h =
      let (timed, st) = open_timer y (cleared d.state) in
      let fresh = record d {
        allocated = true;
        state = st;
        ring_memory = 0;
        saved_bus_cntl = 0;
        saved_command = 0;
        bus_configured = false;
      } in
      elim (Bool-cases (d.allocated || (d.memory.memory_base == 0) || not d.has_registers)) [
        | inl e ↦ absurd (ground (arith, e, a, registers, v.based))
        | inr e ↦ elim (Bool-cases (not y.gives_memory)) [
          | inl f ↦ absurd (ground (arith, f, memory))
          | inr f ↦ elim (Bool-cases (not timed)) [
            | inl g ↦ again d fresh refl refl (
                gave_back fresh fresh refl (inl refl)
                  (give_up-IsStopped y fresh refl (rw (e, f, g) at h)))
            | inr g ↦ again d fresh refl refl (
                with_ring-IsGivenBack fresh (allocate_private_vram d.memory ring_size) v page refl
                  refl refl refl (rw (e, f, g) at h))
          ]
        ]
      ]
