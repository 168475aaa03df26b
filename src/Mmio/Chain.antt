-- ===== src/Mmio/Chain.antt =====
-- Chains of register accesses, `RadeonWrite32(...) && RadeonMask32(...) && ...` in the source: each
-- access is made only where all those before it succeeded.
use r200_p96_driver.Base.{ℕ, inl, inr, Bool, true, false, List, [], ◌∷◌, Bool-cases}
use r200_p96_driver.Mmio.Window.{
  Extends, Extends-refl, Extends-trans, write32-Extends, mask32-Extends, write_pll-Extends,
  mask_pll-Extends,
}
use r200_p96_driver.Mmio.{Bus, write32, mask32, write_pll, mask_pll}

-- One access.
pub data Access : Type 0 where
  put : ℕ → ℕ → Access
  change : ℕ → ℕ → ℕ → Access
  put_pll : ℕ → ℕ → Access
  change_pll : ℕ → ℕ → ℕ → Access

module _ (hw : ℕ → ℕ → ℕ) where
  unfoldable pub perform : Bus → Access → Bool × Bus
  perform b (put reg value) = write32 b reg value
  perform b (change reg clear flags) = mask32 hw b reg clear flags
  perform b (put_pll index value) = write_pll b index value
  perform b (change_pll index and_mask or_mask) = mask_pll hw b index and_mask or_mask

  unfoldable pub perform_all : Bus → List Access → Bool × Bus
  unfolding perform
  perform_all b [] = (true, b)
  perform_all b (a ∷ rest) =
      let (done, b') = perform b a in elim done [ true ↦ perform_all b' rest | false ↦ (false, b') ]

  perform-Extends : (b : Bus) (a : Access) → Extends b (perform b a).1
  unfolding perform
  perform-Extends b (put reg value) = write32-Extends b reg value
  perform-Extends b (change reg clear flags) = mask32-Extends hw b reg clear flags
  perform-Extends b (put_pll index value) = write_pll-Extends b index value
  perform-Extends b (change_pll index and_mask or_mask) =
      mask_pll-Extends hw b index and_mask or_mask

  -- A chain of accesses keeps all register writes inside the window.
  pub perform_all-Extends : (b : Bus) (chain : List Access) → Extends b (perform_all b chain).1
  unfolding perform_all
  perform_all-Extends b [] = Extends-refl b
  perform_all-Extends b (a ∷ rest) = elim (Bool-cases (perform b a).0) [
    | inl e ↦
        rw (e, perform_all)
          (Extends-trans (perform-Extends b a) (perform_all-Extends (perform b a).1 rest))
    | inr e ↦ rw (e, perform_all) (perform-Extends b a)
  ]
