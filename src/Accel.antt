-- ===== src/Accel.antt =====
-- 2D acceleration (src/radeon_accel.c): what the validation of surfaces looks at.
pub mod Surface
pub mod Engine
pub mod Fill
use r200_p96_driver.Base.{ℕ, ℤ}
use r200_p96_driver.Vram

-- The fields of `struct BoardInfo` and `struct RadeonBoardData` that the validation reads.
pub record Aperture : Type 0 where
  pub memory : Vram.Board
  pub installed_vram : ℕ
  pub framebuffer_gpu_base : ℕ

-- `struct RenderInfo`
pub record RenderInfo : Type 0 where
  pub memory : ℕ
  pub bytes_per_row : ℤ

-- `struct AccelSurface`
pub record AccelSurface : Type 0 where
  pub pitch_offset : ℕ
  pub start_offset : ℕ
  pub end_offset : ℕ
  pub surface_offset : ℕ
  pub memory_limit : ℕ
  pub pitch : ℕ
  pub bytes_per_pixel : ℕ
  pub x_bias : ℕ
  pub y_bias : ℕ

-- `enum SurfaceResult`, with the surface that is stored through the pointer.
pub data SurfaceResult : Type 0 where
  reject software_onboard software_offboard : SurfaceResult
  hardware : AccelSurface → SurfaceResult
