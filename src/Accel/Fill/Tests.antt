-- ===== src/Accel/Fill/Tests.antt =====
-- The theorem on a solid fill at a concrete engine, whose cache spares the pen.
use r200_p96_driver.Base.{true, none, [], ◌∷◌}
use r200_p96_driver.Accel.{AccelSurface}
use r200_p96_driver.Accel.Surface.{Rectangle}
use r200_p96_driver.Accel.Engine.{Engine, state, brush_fg, steps}

abbrev blank : Engine
blank = record {
  bus = record { mapped = true; mmio_size = 0x10000; now = 0; written = [] };
  owned = true;
  host_template_ready = true;
  cached = λ index. none;
}

-- The pen 7 is in the cache.
abbrev inked : Engine
inked = steps blank (state brush_fg 7 ∷ [])

abbrev screen : AccelSurface
screen = record {
  pitch_offset = 0x2800000;
  start_offset = 0;
  end_offset = 307200;
  surface_offset = 0;
  memory_limit = 0x4000000;
  pitch = 640;
  bytes_per_pixel = 1;
  x_bias = 0;
  y_bias = 0;
}

abbrev box : Rectangle
box = record { left = 10; top = 20; width = 100; height = 50 }
