-- ===== src/Accel/Engine/Cached.antt =====
-- The cache hides no write that matters: the registers end up as if every write were made.
use r200_p96_driver.Base.{
  ℕ, ◌≡◌, ◌≢◌, ◌∙◌, Bool, true, false, ◌&&◌, Option, none, some, List, [], ◌∷◌, ◌==◌, if◌then◌else◌,
  inl, inr, refl, sym, ap, arith, Bool-cases, All,
}
use r200_p96_driver.Accel.Engine.Addresses.{equal_numbers, same_index, is_uncached}
use r200_p96_driver.Accel.Engine.{
  EngineRegister, master, write_mask, control, dst_pitch_offset, src_pitch_offset, brush_fg,
  brush_bg, src_fg, src_bg, top_left, bottom_right, engine_index, engine_address, Engine,
  invalidate_engine_state, store_engine_state, set_cached, begin_engine_path, EngineStep, direct,
  state, step, steps, baseline, restore_engine_state,
}

-- The registers of the card, as far as they were written.
abbrev pub RegisterFile : Type 0
RegisterFile = ℕ → Option ℕ

abbrev pub put : RegisterFile → (reg value : ℕ) → RegisterFile
put file reg value = λ r. if r == reg then some value else file r

abbrev pub file_of : List (ℕ × ℕ) → RegisterFile
file_of [] = λ r. none
file_of ((reg, value) ∷ rest) = put (file_of rest) reg value

-- What the steps mean: every one writes its register.
abbrev pub effect : RegisterFile → EngineStep → RegisterFile
effect file (direct reg value) = put file reg value
effect file (state r value) = put file (engine_address r) value

abbrev pub effects : RegisterFile → List EngineStep → RegisterFile
effects file [] = file
effects file (s ∷ rest) = effects (effect file s) rest

-- Every cached value is the one in its register.
abbrev pub IsCoherent : Engine → Type 0
IsCoherent e =
    (r : EngineRegister) (v : ℕ)
    → e.cached (engine_index r) ≡ some v
    → file_of e.bus.written (engine_address r) ≡ some v

-- A direct write that meets no cached register.
abbrev pub IsUncached : EngineStep → Type 0
IsUncached (direct reg value) = (r : EngineRegister) → engine_address r ≢ reg
IsUncached (state r value) = Unit

abbrev pub Agrees : RegisterFile → RegisterFile → Type 0
Agrees f g = (reg : ℕ) → f reg ≡ g reg

put-Agrees :
    (f g : RegisterFile) (reg value : ℕ) → Agrees f g → Agrees (put f reg value) (put g reg value)
put-Agrees f g reg value h r = elim (Bool-cases (r == reg)) [
  | inl e ↦ rw e refl
  | inr e ↦ rw e (h r)
]

effects-Agrees :
    (f g : RegisterFile) (todo : List EngineStep)
    → Agrees f g
    → Agrees (effects f todo) (effects g todo)
effects-Agrees f g [] h = h
effects-Agrees f g (direct reg value ∷ rest) h =
    effects-Agrees (put f reg value) (put g reg value) rest (put-Agrees f g reg value h)
effects-Agrees f g (state r value ∷ rest) h =
    effects-Agrees (put f (engine_address r) value) (put g (engine_address r) value) rest
      (put-Agrees f g (engine_address r) value h)

-- Writing what is there already changes no register.
put-same :
    (file : RegisterFile) (reg value : ℕ) → file reg ≡ some value → Agrees file (put file reg value)
put-same file reg value h r = elim (Bool-cases (r == reg)) [
  | inl e ↦ rw e (ap file (equal_numbers r reg e) ∙ h)
  | inr e ↦ rw e refl
]

-- What a step does to a coherent engine.
record Refines (e e' : Engine) (s : EngineStep) : Type 0 where
  coherent : IsCoherent e'
  written : Agrees (file_of e'.bus.written) (effect (file_of e.bus.written) s)

store-Refines :
    (e : Engine) (r : EngineRegister) (value : ℕ)
    → IsCoherent e
    → Refines e (store_engine_state e r value) (state r value)
store-Refines e r value h = record {
  coherent = λ q w c. elim (Bool-cases (engine_index q == engine_index r)) [
    | inl k ↦ rw (sym (same_index q r), k) (rw k at c)
    | inr k ↦ rw (sym (same_index q r), k) (h q w (rw k at c))
  ];
  written = λ reg. refl;
}

set_cached-Refines :
    (e : Engine) (r : EngineRegister) (value : ℕ) (old : Option ℕ)
    → IsCoherent e
    → e.cached (engine_index r) ≡ old
    → Refines e (set_cached e r value old) (state r value)
set_cached-Refines e r value none h c = store-Refines e r value h
set_cached-Refines e r value (some old) h c = elim (Bool-cases (old == value)) [
  | inr k ↦ rw k (store-Refines e r value h)
  | inl k ↦ rw k record {
    coherent = h;
    written =
        put-same (file_of e.bus.written) (engine_address r) value
          (h r value (c ∙ ap some (equal_numbers old value k)));
  }
]

step-Refines : (e : Engine) (s : EngineStep) → IsCoherent e → IsUncached s → Refines e (step e s) s
unfolding step
step-Refines e (state r value) h u = set_cached-Refines e r value (e.cached (engine_index r)) h refl
step-Refines e (direct reg value) h u = record {
  coherent = λ q w c. elim (Bool-cases (engine_address q == reg)) [
    | inl k ↦ absurd (u q (equal_numbers (engine_address q) reg k))
    | inr k ↦ rw k (h q w c)
  ];
  written = λ r. refl;
}

-- If every cached value is the one in its register and the direct writes meet no cached register, then
-- every sequence of settings and writes through `SetEngineState` and `AccelWrite32` leaves each register
-- as if every one of them had written it, and the cache true to the registers.
pub steps-effects :
    (e : Engine) (todo : List EngineStep) (reg : ℕ)
    → IsCoherent e
    → All IsUncached todo
    → (file_of (steps e todo).bus.written reg ≡ effects (file_of e.bus.written) todo reg)
      × IsCoherent (steps e todo)
unfolding steps
steps-effects e [] reg h u = (refl, h)
steps-effects e (s ∷ rest) reg h u =
    let one = step-Refines e s h u.0 in
    let more = steps-effects (step e s) rest reg one.coherent u.1 in
    (
      more.0
          ∙ effects-Agrees (file_of (step e s).bus.written) (effect (file_of e.bus.written) s) rest
              one.written reg,
      more.1,
    )

is_uncached-IsUncached : (reg value : ℕ) → is_uncached reg ≡ true → IsUncached (direct reg value)
is_uncached-IsUncached reg value h master = λ e. ground (arith, h, e)
is_uncached-IsUncached reg value h write_mask = λ e. ground (arith, h, e)
is_uncached-IsUncached reg value h control = λ e. ground (arith, h, e)
is_uncached-IsUncached reg value h dst_pitch_offset = λ e. ground (arith, h, e)
is_uncached-IsUncached reg value h src_pitch_offset = λ e. ground (arith, h, e)
is_uncached-IsUncached reg value h brush_fg = λ e. ground (arith, h, e)
is_uncached-IsUncached reg value h brush_bg = λ e. ground (arith, h, e)
is_uncached-IsUncached reg value h src_fg = λ e. ground (arith, h, e)
is_uncached-IsUncached reg value h src_bg = λ e. ground (arith, h, e)
is_uncached-IsUncached reg value h top_left = λ e. ground (arith, h, e)
is_uncached-IsUncached reg value h bottom_right = λ e. ground (arith, h, e)

-- The same of a sequence of steps.
abbrev pub are_uncached : List EngineStep → Bool
are_uncached [] = true
are_uncached (direct reg value ∷ rest) = is_uncached reg && are_uncached rest
are_uncached (state r value ∷ rest) = are_uncached rest

pub are_uncached-All : (todo : List EngineStep) → are_uncached todo ≡ true → All IsUncached todo
are_uncached-All [] h = tt
are_uncached-All (direct reg value ∷ rest) h = (
  is_uncached-IsUncached reg value (both (is_uncached reg) (are_uncached rest) h).0,
  are_uncached-All rest (both (is_uncached reg) (are_uncached rest) h).1,
)
  where
    both : (p q : Bool) → (p && q) ≡ true → (p ≡ true) × (q ≡ true)
    both true q h = (refl, h)
    both false q h = absurd (cc)
are_uncached-All (state r value ∷ rest) h = (tt, are_uncached-All rest h)

-- Whatever the cache held before, `RestoreEngineState` leaves each register as if every write of the
-- baseline had been made, and a cache that is true to the registers.
restore_engine_state_lem :
    (e : Engine) (reg : ℕ)
    → (file_of (restore_engine_state e).bus.written reg
        ≡ effects (file_of e.bus.written) baseline reg)
      × IsCoherent (restore_engine_state e)
unfolding restore_engine_state begin_engine_path
restore_engine_state_lem e reg =
    steps-effects (begin_engine_path (invalidate_engine_state e) false) baseline reg
      (λ r v c. absurd (cc)) (are_uncached-All baseline refl)
