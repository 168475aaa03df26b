-- ===== src/Service/Batch/Tests.antt =====
-- The theorem on accepted batches at a concrete one: three vertices on a surface of 640 by 480.
use r200_p96_driver.Base.{ℕ, ◌≤◌, ◌<◌, ◌≡◌, ◌⊎◌, refl, List, [], ◌∷◌, ◌++◌, All, arith, length}
use r200_p96_driver.Cp.{packet0, packet2, max_batch_dwords}
use r200_p96_driver.Service.Batch.{
  Surface, packet3, state_registers, blend_registers, re_width_height, rb3d_coloroffset,
  rb3d_colorpitch, draw_control, width_height, validate_batch,
}
use r200_p96_driver.Service.Batch.Published.{IsTriangleList}
use r200_p96_driver.Service.Batch.Sound.{validate_batch_lem}

abbrev screen : Surface
screen = record {
  handle = 7;
  bit_map = 0x1000;
  cpu_address = 0x40000000;
  gpu_address = 0x100000;
  pitch = 1280;
  width = 640;
  height = 480;
  format = 1;
  pool_offset = 0;
  pool_bytes = 0;
}

abbrev flat : List (ℕ × ℕ) → List ℕ
flat [] = []
flat ((reg, value) ∷ rest) = packet0 reg 0 ∷ value ∷ flat rest

-- The vertices (0, 0), (100, 0) and (0, 100).
abbrev triangle : List ℕ
triangle =
    flat state_registers
    ++ flat ((re_width_height, width_height screen) ∷ blend_registers)
    ++ flat ((rb3d_coloroffset, 0x100000) ∷ (rb3d_colorpitch, 640) ∷ [])
    ++ packet3 0x3500 9
      ∷ draw_control 3
      ∷ 0
      ∷ 0
      ∷ 0xff
      ∷ 0x42c80000
      ∷ 0
      ∷ 0xff
      ∷ 0
      ∷ 0x42c80000
      ∷ 0xff
      ∷ []

validate_batch_lem_example :
    (0 < length triangle)
    × (length triangle ≤ max_batch_dwords)
    × (All (λ c. c ≡ packet2) triangle ⊎ IsTriangleList (screen ∷ []) triangle)
unfolding validate_batch
validate_batch_lem_example =
    validate_batch_lem (screen ∷ []) triangle ((omega arith, omega arith), tt) refl
