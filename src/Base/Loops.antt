-- ===== src/Base/Loops.antt =====
-- A loop whose body ends it with a result or goes on with a new state, with fuel.
use Prim.Native.Nat.{ℕ, zero, suc, ◌<◌}
use mathlib.Core.Path.{◌≡◌, refl, ap, ◌∙◌, sym}
use mathlib.Core.Logic.{◌⊎◌, inl, inr}
use mathlib.Core.Option.{Option, none, some}
use native.Mathlib.Omega.{arith}

module _ {ℓ} {S R : Type ℓ} where
  -- `none`: the fuel ran out.
  unfoldable pub repeat : ℕ → (S → R ⊎ S) → S → Option R
  repeat zero body s = none
  repeat (suc fuel) body s = elim (body s) [ inl r ↦ some r | inr s' ↦ repeat fuel body s' ]

  -- The result or the next state of a body, with the equation.
  pub sum_cases : (x : R ⊎ S) → ((r : R) × (x ≡ inl r)) ⊎ ((s : S) × (x ≡ inr s))
  sum_cases (inl r) = inl (r, refl)
  sum_cases (inr s) = inr (s, refl)

  pub repeat-inl :
      (fuel : ℕ) (body : S → R ⊎ S) (s : S) {r : R}
      → body s ≡ inl r
      → repeat (suc fuel) body s ≡ some r
  unfolding repeat
  repeat-inl fuel body s e = rw (e, repeat)

  pub repeat-inr :
      (fuel : ℕ) (body : S → R ⊎ S) (s : S) {s' : S}
      → body s ≡ inr s'
      → repeat (suc fuel) body s ≡ repeat fuel body s'
  unfolding repeat
  repeat-inr fuel body s e = rw (e, repeat)

  -- An invariant and a measure below the fuel: the loop ends, and its last state kept the invariant.
  pub repeat_ends {κ} :
      (P : S → Type κ) (measure : S → ℕ) (body : S → R ⊎ S)
      → ((s t : S) → P s → body s ≡ inr t → P t × (measure t < measure s))
      → (fuel : ℕ) (s : S) → measure s < fuel
      → P s
      → (r : R) × (repeat fuel body s ≡ some r)
  repeat_ends P measure body keep zero s m p = absurd (omega arith)
  repeat_ends P measure body keep (suc fuel) s m p = elim (sum_cases (body s)) [
    | inl (r, e) ↦ (r, repeat-inl fuel body s e)
    | inr (t, e) ↦
        let next = keep s t p e in
        let rest = repeat_ends P measure body keep fuel t (omega (arith, next.1)) next.0 in
        (rest.0, repeat-inr fuel body s e ∙ rest.1)
  ]

  -- What holds of every result that the body can give from a state of the invariant.
  pub repeat_returns {κ μ} :
      (P : S → Type κ) (Q : R → Type μ) (body : S → R ⊎ S)
      → ((s t : S) → P s → body s ≡ inr t → P t)
      → ((s : S) (r : R) → P s → body s ≡ inl r → Q r)
      → (fuel : ℕ) (s : S) {r : R} → P s
      → repeat fuel body s ≡ some r
      → Q r
  unfolding repeat
  repeat_returns P Q body keep ends zero s p e = absurd (cc)
  repeat_returns P Q body keep ends (suc fuel) s {r} p e = elim (sum_cases (body s)) [
    | inl (r', f) ↦ ends s r p (f ∙ ap inl (some_inj (sym (repeat-inl fuel body s f) ∙ e)))
    | inr (t, f) ↦
        repeat_returns P Q body keep ends fuel t (keep s t p f) (sym (repeat-inr fuel body s f) ∙ e)
  ]
    where
      some_inj : {a b : R} → some a ≡ some b → a ≡ b
      some_inj h = cc
