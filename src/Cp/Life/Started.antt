-- ===== src/Cp/Life/Started.antt =====
-- A start that succeeds leaves a ring that is ready for streams.
use mathlib.Core.Path.{subst}
use r200_p96_driver.Base.{
  ℕ, ◌+◌, ◌-◌, ◌%◌, ◌≤◌, ◌≡◌, ◌∙◌, sym, refl, ap, some-inj, Bool, true, false, not, ◌||◌, ◌==◌,
  if◌then◌else◌, Option, none, some, inl, inr, Bool-cases, Option-cases, arith, bit_and,
  bit_and-ones, not32,
}
use r200_p96_driver.Vram
use r200_p96_driver.Vram.{allocate_private_vram}
use r200_p96_driver.Mmio.{Bus, write32}
use r200_p96_driver.Regs.Engine.{bus_cntl, bus_master_dis}
use r200_p96_driver.Cp.{CpState}
use r200_p96_driver.Cp.Stream.Sizes.{IsReady}
use r200_p96_driver.Cp.Launch.{Outside}
use r200_p96_driver.Cp.Launch.Running.{SameFlight, SameFlight-trans, bring_up-IsReady}
use r200_p96_driver.Cp.Life.{
  command_master, Driver, ring_size, saving, master_and_up, shutdown, give_up, open_timer, cleared,
  is_ring_outside, finish_initialize, then_finish, with_ring, initialize, finish_recover, disable,
  recover,
}

-- Nothing is in flight, and the next fence is the first.
pub record IsFresh (st : CpState) : Type 0 where
  pub ready : IsReady st
  pub pending : (st.pending_fence ≡ 0) × (st.pending_unfenced ≡ 0)
  pub counter : st.next_fence ≡ 1

-- The ring is where the state says, on a page of the memory that the card has and shows.
pub record HasRing (d : Driver) : Type 0 where
  pub begins : d.memory.memory_base ≤ d.ring_memory
  pub installed : d.ring_memory + ring_size ≤ d.memory.memory_base + d.installed_vram
  pub visible : d.ring_memory + ring_size ≤ d.memory.memory_base + d.memory.memory_space_size
  pub address :
      d.state.ring_gpu_address + d.memory.memory_base ≡ d.framebuffer_gpu_base + d.ring_memory
  pub page : d.state.ring_gpu_address % 4096 ≡ 0

moved-SameFlight : (st : CpState) (bus : Bus) → SameFlight st (record st { bus = bus })
moved-SameFlight st bus = record { pending = (refl, refl); place = refl }

if_no {ℓ} : {A : Type ℓ} (b : Bool) (x y : A) → b ≡ false → (if b then x else y) ≡ y
if_no true x y h = absurd (cc)
if_no false x y h = refl

module _ (y : Outside) where
  master_and_up-IsReady :
      (d : Driver) {st' : CpState}
      → master_and_up y d ≡ some (true, st')
      → IsReady st' × SameFlight d.state st'
  unfolding master_and_up
  master_and_up-IsReady d {st'} h =
      let (stored, bus) =
        write32 d.state.bus bus_cntl (bit_and d.saved_bus_cntl (not32 bus_master_dis)) in
      elim (Bool-cases (bit_and (y.command d.command_writes) command_master == 0)) [
        | inl e ↦ absurd (cc (rw e at h))
        | inr e ↦ elim (Bool-cases (not stored)) [
          | inl f ↦ absurd (cc (rw (e, f) at h))
          | inr f ↦
              let up = bring_up-IsReady y (record d.state { bus = bus }) (rw (e, f) at h) in
              (up.0, SameFlight-trans (moved-SameFlight d.state bus) up.1)
        ]
      ]

  pub give_up-false : (d : Driver) {d' : Driver} → give_up y d ≡ some (true, d') → ⊥
  unfolding give_up
  give_up-false d h = elim (Option-cases (shutdown y d)) [
    | inl e ↦ absurd (cc (rw e at h))
    | inr (s, e) ↦ absurd (cc (rw e at h))
  ]

  -- The last step of `RadeonCpInitialize`, from a state with nothing in flight.
  finish-IsFresh :
      (d : Driver) {d' : Driver}
      → d.state.pending_fence ≡ 0
      → d.state.pending_unfenced ≡ 0
      → then_finish (finish_initialize y d) (master_and_up y d) ≡ some (true, d')
      → (st' : CpState) × (d' ≡ record d { state = st' })
        × IsFresh st'
        × (st'.ring_gpu_address ≡ d.state.ring_gpu_address)
  unfolding finish_initialize
  finish-IsFresh d {d'} p u h = elim (Option-cases (master_and_up y d)) [
    | inl e ↦ absurd (cc (rw e at h))
    | inr ((false, st), e) ↦ absurd (give_up-false (record d { state = st }) (rw e at h))
    | inr ((true, st), e) ↦
        let up = master_and_up-IsReady d e in
        (
          record st { next_fence = 1 },
          sym (ap (λ (x : Bool × Driver). x.1) (some-inj (rw e at h))),
          record {
            ready = record {
              ready = up.0.ready;
              slot = up.0.slot;
              aligned = up.0.aligned;
              mapped = up.0.mapped;
              window = up.0.window;
            };
            pending = (up.1.pending.0 ∙ p, up.1.pending.1 ∙ u);
            counter = refl;
          },
          up.1.place,
        )
  ]

  ring_inside :
      (d : Driver) (memory : Vram.Board) (ring gpu_address : ℕ)
      → is_ring_outside (record d { memory = memory; ring_memory = ring }) ring ≡ false
      → gpu_address ≡ d.framebuffer_gpu_base + (ring - memory.memory_base)
      → (memory.memory_base ≤ ring)
        × (ring + ring_size ≤ memory.memory_base + d.installed_vram)
        × (ring + ring_size ≤ memory.memory_base + memory.memory_space_size)
        × (gpu_address + memory.memory_base ≡ d.framebuffer_gpu_base + ring)
        × (gpu_address % 4096 ≡ 0)
  unfolding is_ring_outside
  ring_inside d memory ring gpu_address e g =
      ground (arith, bit_and-ones 12 (d.framebuffer_gpu_base + (ring - memory.memory_base)))

  with_ring-IsFresh :
      (d : Driver) (answer : Option (ℕ × Vram.Board)) {d' : Driver}
      → d.state.pending_fence ≡ 0
      → d.state.pending_unfenced ≡ 0
      → with_ring y d answer ≡ some (true, d')
      → IsFresh d'.state × HasRing d' × (d'.allocated ≡ d.allocated)
  unfolding with_ring saving
  with_ring-IsFresh d none p u h = absurd (give_up-false d h)
  with_ring-IsFresh d (some (ring, memory)) {d'} p u h =
      let held = record d { memory = memory; ring_memory = ring } in
      elim (Bool-cases (is_ring_outside held ring)) [
        | inl e ↦ absurd (give_up-false held (rw e at h))
        | inr e ↦
            let placed = saving y (record held {
              state = record d.state {
                ring_gpu_address = d.framebuffer_gpu_base + (ring - memory.memory_base);
              };
            }) in
            let done = finish-IsFresh placed p u (rw e at h) in
            let inside = ring_inside d memory ring done.0.ring_gpu_address e done.3 in
            subst (λ (x : Driver). IsFresh x.state × HasRing x × (x.allocated ≡ d.allocated))
              (sym done.1)
              (
                done.2,
                record {
                  begins = inside.0;
                  installed = inside.1;
                  visible = inside.2;
                  address = inside.3;
                  page = inside.4;
                },
                refl,
              )
      ]

  pub open_timer-pending :
      (st : CpState)
      → ((open_timer y st).1.pending_fence ≡ st.pending_fence)
        × ((open_timer y st).1.pending_unfenced ≡ st.pending_unfenced)
  unfolding open_timer
  open_timer-pending st = elim (Option-cases y.timer) [
    | inl e ↦ rw e (refl, refl)
    | inr (rate, e) ↦ rw e (refl, refl)
  ]

  -- If `RadeonCpInitialize` returns TRUE, the ring lies in the memory that the card has and shows, on a
  -- page of its address space, the state is allocated and ready for streams, with nothing in flight and
  -- the counter of fences at one: whatever the microcode is and the card answers.
  pub initialize-IsFresh :
      (d : Driver) {d' : Driver}
      → initialize y d ≡ some (true, d')
      → IsFresh d'.state × HasRing d' × (d'.allocated ≡ true)
  unfolding initialize
  initialize-IsFresh d {d'} h =
      let (timed, st) = open_timer y (cleared d.state) in
      let fresh = record d {
        allocated = true;
        state = st;
        ring_memory = 0;
        saved_bus_cntl = 0;
        saved_command = 0;
        bus_configured = false;
      } in
      let nothing = open_timer-pending (cleared d.state) in
      elim (Bool-cases (d.allocated || (d.memory.memory_base == 0) || not d.has_registers)) [
        | inl e ↦ absurd (cc (rw e at h))
        | inr e ↦ elim (Bool-cases (not y.gives_memory)) [
          | inl f ↦ absurd (cc (rw (e, f) at h))
          | inr f ↦ elim (Bool-cases (not timed)) [
            | inl g ↦ absurd (give_up-false fresh (rw (e, f, g) at h))
            | inr g ↦
                with_ring-IsFresh fresh (allocate_private_vram d.memory ring_size) nothing.0
                  nothing.1 (rw (e, f, g) at h)
          ]
        ]
      ]

  recovered :
      (d : Driver) {d' : Driver}
      → then_finish (finish_recover y (saving y d)) (master_and_up y (saving y d)) ≡ some (true, d')
      → IsFresh d'.state × (d'.memory ≡ d.memory) × (d'.ring_memory ≡ d.ring_memory)
  unfolding finish_recover saving
  recovered d {d'} h = elim (Option-cases (master_and_up y (saving y d))) [
    | inl e ↦ absurd (cc (rw e at h))
    | inr ((false, st), e) ↦ elim (Option-cases (disable y false st)) [
      | inl f ↦ absurd (cc (rw (e, f) at h))
      | inr (st', f) ↦ absurd (cc (rw (e, f) at h))
    ]
    | inr ((true, st), e) ↦
        let up = master_and_up-IsReady (saving y d) e in
        subst
          (λ (x : Driver).
            IsFresh x.state × (x.memory ≡ d.memory) × (x.ring_memory ≡ d.ring_memory))
          (ap (λ (x : Bool × Driver). x.1) (some-inj (rw e at h)))
          (
            record {
              ready = record {
                ready = up.0.ready;
                slot = up.0.slot;
                aligned = up.0.aligned;
                mapped = up.0.mapped;
                window = up.0.window;
              };
              pending = (refl, refl);
              counter = refl;
            },
            refl,
            refl,
          )
  ]

  -- If `RadeonCpRecover` returns TRUE for a processor that was not ready, the state is ready for streams
  -- again, with nothing in flight and the counter of fences at one.
  pub recover-IsFresh :
      (d : Driver) {d' : Driver}
      → d.state.ready ≡ false
      → recover y d ≡ some (true, d')
      → IsFresh d'.state × (d'.memory ≡ d.memory) × (d'.ring_memory ≡ d.ring_memory)
  unfolding recover
  recover-IsFresh d {d'} stopped h = elim (Bool-cases (not d.allocated)) [
    | inl e ↦ absurd (cc (rw e at h))
    | inr e ↦ recovered d (
        sym (
          if_no d.state.ready (some (true, d))
            (then_finish (finish_recover y (saving y d)) (master_and_up y (saving y d))) stopped)
        ∙ (rw e at h))
  ]
