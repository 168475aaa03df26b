-- ===== src/Cp/Life/Released.antt =====
-- What a start that fails and a shutdown give back.
use mathlib.Core.Option
use mathlib.Core.Path.{subst}
use r200_p96_driver.Base.{
  ◌≡◌, ◌∙◌, sym, refl, ap, some-inj, Bool, true, false, not, ◌&&◌, ◌==◌, if◌then◌else◌, some, ◌∷◌,
  inl, inr, Bool-cases, Option-cases,
}
use r200_p96_driver.Vram
use r200_p96_driver.Vram.{allocate_private_vram, free_private_vram}
use r200_p96_driver.Cp.{CpState}
use r200_p96_driver.Cp.Idle.{wait}
use r200_p96_driver.Cp.Launch.{Outside}
use r200_p96_driver.Cp.Life.{
  Driver, ring_size, restore_bus, disable_now, disable, release, shutdown, give_up,
}

-- The state is freed, the processor stopped, the timer closed, and the card as much a master of the bus
-- as it was: its command word is written back just if it was changed.
pub record IsStopped (d d' : Driver) : Type 0 where
  pub freed : d'.allocated ≡ false
  pub ready : d'.state.ready ≡ false
  pub timer : d'.state.timer_open ≡ false
  pub bus : d'.bus_configured ≡ false
  pub command :
      d'.command_writes
      ≡ (if d.bus_configured then d.saved_command ∷ d.command_writes else d.command_writes)

-- The ring is given back where there is one.
abbrev pub memory_after : Driver → Vram.Board
memory_after d =
    if d.ring_memory == 0 then d.memory else (free_private_vram d.memory d.ring_memory ring_size).1

-- What holds of both values of a conditional.
either {ℓ κ} :
    {A : Type ℓ} {B : Type κ} (f : A → B) (v : B) (b : Bool) (x y : A)
    → (b ≡ true → f x ≡ v)
    → (b ≡ false → f y ≡ v)
    → f (if b then x else y) ≡ v
either f v true x y p q = p refl
either f v false x y p q = q refl

not-true : (b : Bool) → not b ≡ true → b ≡ false
not-true true h = absurd (cc)
not-true false h = refl

not-false : (b : Bool) → not b ≡ false → b ≡ true
not-false true h = refl
not-false false h = absurd (cc)

pub if_eq {ℓ} :
    {A : Type ℓ} (b : Bool) (x y : A) (c : Bool)
    → b ≡ c
    → (if b then x else y) ≡ (if c then x else y)
if_eq b x y c h = λ i. if h i then x else y

record IsRestored (d d' : Driver) : Type 0 where
  same :
      (d'.memory ≡ d.memory) × (d'.ring_memory ≡ d.ring_memory) × (d'.state.ready ≡ d.state.ready)
  bus : d'.bus_configured ≡ false
  command :
      d'.command_writes
      ≡ (if d.bus_configured then d.saved_command ∷ d.command_writes else d.command_writes)

restore_bus-IsRestored : (d : Driver) → IsRestored d (restore_bus d)
unfolding restore_bus
restore_bus-IsRestored d =
    let test = not d.bus_configured in
    record {
      same = (
        either (λ (x : Driver). x.memory) d.memory test d _ (λ e. refl) (λ e. refl),
        either (λ (x : Driver). x.ring_memory) d.ring_memory test d _ (λ e. refl) (λ e. refl),
        either (λ (x : Driver). x.state.ready) d.state.ready test d _ (λ e. refl) (λ e. refl),
      );
      bus =
          either (λ (x : Driver). x.bus_configured) false test d _ (not-true d.bus_configured)
            (λ e. refl);
      command =
          either (λ (x : Driver). x.command_writes)
            (if d.bus_configured then d.saved_command ∷ d.command_writes else d.command_writes) test
            d _ (λ e. sym (if_eq d.bus_configured _ _ false (not-true d.bus_configured e)))
            (λ e. sym (if_eq d.bus_configured _ _ true (not-false d.bus_configured e)));
    }

release-IsStopped :
    (d : Driver) (st : CpState)
    → st.ready ≡ false
    → IsStopped d (release d st) × ((release d st).memory ≡ memory_after d)
unfolding release
release-IsStopped d st r =
    let restored = restore_bus-IsRestored (record d { state = st }) in
    (
      record {
        freed = refl;
        ready = restored.same.2 ∙ r;
        timer = refl;
        bus = restored.bus;
        command = restored.command;
      },
      λ i.
          if restored.same.1 i == 0
          then restored.same.0 i
          else (free_private_vram (restored.same.0 i) (restored.same.1 i) ring_size).1,
    )

module _ (y : Outside) where
  disable-ready :
      (orderly : Bool) (st : CpState) {st' : CpState}
      → disable y orderly st ≡ some st'
      → st'.ready ≡ false
  unfolding disable disable_now
  disable-ready orderly st {st'} h =
      elim (Bool-cases (orderly && st.ready && not (st.pending_fence == 0))) [
        | inr e ↦ ap (λ (x : CpState). x.ready) (sym (some-inj (rw e at h)))
        | inl e ↦ elim (Option-cases (wait y.hw y.clock y.fuel st)) [
          | inl f ↦ absurd (cc (rw (e, f) at h))
          | inr ((idle, s), f) ↦ ap (λ (x : CpState). x.ready) (sym (some-inj (rw (e, f) at h)))
        ]
      ]

  pub shutdown-IsStopped :
      (d : Driver) {d' : Driver}
      → d.allocated ≡ true
      → shutdown y d ≡ some d'
      → IsStopped d d' × (d'.memory ≡ memory_after d)
  unfolding shutdown
  shutdown-IsStopped d {d'} a h = elim (Option-cases (disable y true d.state)) [
    | inl e ↦ absurd (cc (ap (Option.map (release d)) (sym e), kept))
    | inr (st, e) ↦
        subst (λ (x : Driver). IsStopped d x × (x.memory ≡ memory_after d))
          (some-inj (sym (ap (Option.map (release d)) e) ∙ kept))
          (release-IsStopped d st (disable-ready true d.state e))
  ]
    where
      kept : Option.map (release d) (disable y true d.state) ≡ some d'
      kept =
          sym (
            if_eq (not d.allocated) (some d) (Option.map (release d) (disable y true d.state)) false
              (ap not a))
          ∙ h

  pub give_up-IsStopped :
      (d : Driver) {result : Bool} {d' : Driver}
      → d.allocated ≡ true
      → give_up y d ≡ some (result, d')
      → IsStopped d d' × (d'.memory ≡ memory_after d)
  unfolding give_up
  give_up-IsStopped d {result} {d'} a h = elim (Option-cases (shutdown y d)) [
    | inl e ↦ absurd (cc (rw e at h))
    | inr (s, e) ↦
        subst (λ (x : Driver). IsStopped d x × (x.memory ≡ memory_after d))
          (ap (λ (x : Bool × Driver). x.1) (some-inj (rw e at h))) (shutdown-IsStopped d a e)
  ]
