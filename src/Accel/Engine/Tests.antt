-- ===== src/Accel/Engine/Tests.antt =====
-- The theorems on the cache at a concrete engine.
use r200_p96_driver.Base.{◌≡◌, true, false, none, List, [], ◌∷◌, refl}
use r200_p96_driver.Accel.Engine.{Engine, EngineStep, state, brush_fg, control, steps}
use r200_p96_driver.Accel.Engine.Cached.{
  IsCoherent, file_of, effects, are_uncached-All, steps-effects,
}

-- Nothing is cached yet.
abbrev fresh : Engine
fresh = record {
  bus = record { mapped = true; mmio_size = 0x10000; now = 0; written = (0x16c0, 3) ∷ [] };
  owned = true;
  host_template_ready = false;
  cached = λ index. none;
}

-- The second write of the same pen is left out.
abbrev two_fills : List EngineStep
two_fills = state brush_fg 7 ∷ state control 3 ∷ state brush_fg 7 ∷ state brush_fg 9 ∷ []

steps-effects_example :
    (file_of (steps fresh two_fills).bus.written 0x147c
      ≡ effects (file_of fresh.bus.written) two_fills 0x147c)
    × IsCoherent (steps fresh two_fills)
steps-effects_example =
    steps-effects fresh two_fills 0x147c (λ r v c. absurd (cc)) (are_uncached-All two_fills refl)
