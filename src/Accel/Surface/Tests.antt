-- ===== src/Accel/Surface/Tests.antt =====
-- The theorem on surfaces at a concrete one: 100 by 50 pixels of 16 bits at an odd place in memory.
use r200_p96_driver.Base.{◌+◌, ◌*◌, pos, refl, arith}
use r200_p96_driver.Display.{r5g6b5pc}
use r200_p96_driver.Accel.{Aperture, RenderInfo, AccelSurface}
use r200_p96_driver.Accel.Surface.{validate_surface, place_surface, bias_surface, Rectangle}
use r200_p96_driver.Accel.Surface.Addressed.{IsAddressed, validate_surface-IsAddressed}

abbrev card : Aperture
card = record {
  memory = record {
    memory_base = 0x40000000;
    memory_size = 0x4000000;
    memory_space_size = 0x4000000;
  };
  installed_vram = 0x4000000;
  framebuffer_gpu_base = 0xd0000000;
}

abbrev bitmap : RenderInfo
bitmap = record { memory = 0x40010040; bytes_per_row = pos 1280 }

abbrev box : Rectangle
box = record { left = 10; top = 20; width = 100; height = 50 }

abbrev drawn : AccelSurface
drawn = record {
  pitch_offset = 0x5340040;
  start_offset = 0x10040 + 20 * 1280 + 10 * 2;
  end_offset = 0x10040 + 69 * 1280 + 110 * 2;
  surface_offset = 0x10040;
  memory_limit = 0x4000000;
  pitch = 1280;
  bytes_per_pixel = 2;
  x_bias = 32;
  y_bias = 0;
}

validate_surface-IsAddressed_example : IsAddressed card 0x40010040 1280 2 box 49 99 drawn
unfolding validate_surface place_surface bias_surface
validate_surface-IsAddressed_example =
    validate_surface-IsAddressed card bitmap (pos 10) (pos 20) (pos 100) (pos 50) r5g6b5pc drawn box
      49 99 (omega arith) refl refl (omega arith) (omega arith)
