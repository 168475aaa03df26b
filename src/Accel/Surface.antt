-- ===== src/Accel/Surface.antt =====
-- Whether the engine may draw a rectangle (src/radeon_accel.c: IsOffboardMemory,
-- SoftwareSurfaceResult, ValidateSurface, ValidateSameSurfaceRectangle). The products of a row and a
-- pitch stay below 2 ^ 32 where they are used, by the guards on the coordinates and the pitch.
pub mod Addressed
pub mod Reachable
mod Tests
use r200_p96_driver.Base.{
  ℕ, ◌+◌, ◌-◌, ◌*◌, ◌/◌, ◌%◌, ◌^◌, ℤ, pos, negsuc, Bool, true, false, not, ◌&&◌, ◌||◌, Option, none,
  some, ltb, leb, ◌==◌, if◌then◌else◌, bit_and, bit_or, not32,
}
use r200_p96_driver.Vram
use r200_p96_driver.Display.{PixelFormat, clut, r5g6b5pc, b8g8r8a8, unsupported}
use r200_p96_driver.Accel.{
  Aperture, RenderInfo, AccelSurface, SurfaceResult, reject, software_onboard, software_offboard,
  hardware,
}

abbrev pub accel_max_pitch : ℕ
accel_max_pitch = 0x3fc0

abbrev pub accel_max_coord : ℕ
accel_max_coord = 0x1fff

-- The bytes of a pixel that `HardwareDatatype` stores; zero for a format that the engine has not.
abbrev pub hardware_bytes : PixelFormat → ℕ
hardware_bytes clut = 1
hardware_bytes r5g6b5pc = 2
hardware_bytes b8g8r8a8 = 4
hardware_bytes unsupported = 0

pub is_offboard_memory : Aperture → ℕ → Bool
is_offboard_memory a memory =
    not (a.memory.memory_base == 0)
    && not (a.memory.memory_space_size == 0)
    && not (memory == 0)
    && (ltb memory a.memory.memory_base
        || leb a.memory.memory_space_size (memory - a.memory.memory_base))

-- `SoftwareSurfaceResult`
unfoldable pub software_surface_result : Aperture → RenderInfo → SurfaceResult
unfolding is_offboard_memory
software_surface_result a r =
    if is_offboard_memory a r.memory then software_offboard else software_onboard

-- `memoryLimit`
abbrev pub lesser : ℕ → ℕ → ℕ
lesser m n = if ltb n m then n else m

abbrev pub memory_limit : Aperture → ℕ
memory_limit a = lesser (lesser a.memory.memory_size a.installed_vram) a.memory.memory_space_size

-- A rectangle of a surface, with positive sizes.
pub record Rectangle : Type 0 where
  pub left : ℕ
  pub top : ℕ
  pub width : ℕ
  pub height : ℕ

abbrev pub gpu_address : Aperture → ℕ → ℕ
gpu_address a offset = a.framebuffer_gpu_base + offset

-- `alignedGpuAddress`
abbrev pub aligned_gpu_address : Aperture → ℕ → ℕ
aligned_gpu_address a offset = bit_and (gpu_address a offset) (not32 1023)

-- `xBias`, `yBias` and what a pixel is too short for.
abbrev pub address_bias : Aperture → ℕ → ℕ
address_bias a offset = gpu_address a offset - aligned_gpu_address a offset

abbrev pub row_bias : Aperture → (offset pitch : ℕ) → ℕ
row_bias a offset pitch = address_bias a offset - address_bias a offset / pitch * pitch

abbrev pub surface_for : Aperture → (offset pitch bytes : ℕ) → Rectangle → AccelSurface
surface_for a offset pitch bytes q = record {
  pitch_offset = bit_or (pitch / 2 ^ 6 * 2 ^ 22) (aligned_gpu_address a offset / 2 ^ 10);
  start_offset = offset + q.top * pitch + q.left * bytes;
  end_offset = offset + (q.top + q.height - 1) * pitch + (q.left + q.width) * bytes;
  surface_offset = offset;
  memory_limit = memory_limit a;
  pitch = pitch;
  bytes_per_pixel = bytes;
  x_bias = row_bias a offset pitch / bytes;
  y_bias = address_bias a offset / pitch;
}

-- Whether the last pixel, moved by the biases, is beyond the engine's coordinates.
abbrev pub is_far : AccelSurface → Rectangle → Bool
is_far s q =
    ltb accel_max_coord (s.x_bias + q.left + q.width - 1)
    || ltb accel_max_coord (s.y_bias + q.top + q.height - 1)

-- The end of `ValidateSurface`, from the test of the GPU address on.
unfoldable pub bias_surface : Aperture → (offset pitch bytes : ℕ) → Rectangle → SurfaceResult
bias_surface a offset pitch bytes q =
    if ltb (0xffffffff - offset) a.framebuffer_gpu_base
    then reject
    else if ltb 0xfffffc00 (aligned_gpu_address a offset)
        || not (row_bias a offset pitch % bytes == 0)
        || is_far (surface_for a offset pitch bytes q) q
    then software_onboard
    else hardware (surface_for a offset pitch bytes q)

-- Whether a rectangle leaves its rows or the memory.
abbrev pub is_outside : (pitch bytes remaining : ℕ) → Rectangle → Bool
is_outside pitch bytes remaining q =
    let line_end = (q.left + q.width) * bytes in
    ltb pitch line_end
    || ltb remaining line_end
    || ltb (remaining - line_end) ((q.top + q.height - 1) * pitch)

-- `ValidateSurface` for sizes that are positive and coordinates that are not negative.
unfoldable pub place_surface : Aperture → (memory pitch bytes : ℕ) → Rectangle → SurfaceResult
place_surface a memory pitch bytes q =
    let offset = memory - a.memory.memory_base in
    if ltb memory a.memory.memory_base || leb a.memory.memory_space_size offset
    then software_offboard
    else if leb (memory_limit a) offset
    then reject
    else if not (bit_and pitch 63 == 0)
        || ltb accel_max_pitch pitch
        || ltb accel_max_coord (q.left + q.width - 1)
        || ltb accel_max_coord (q.top + q.height - 1)
    then software_onboard
    else if is_outside pitch bytes (memory_limit a - offset) q
    then reject
    else bias_surface a offset pitch bytes q

-- The rectangle of four `WORD`s: `none` for a size that is not positive, and `some none` for a
-- negative coordinate.
abbrev pub rectangle : (x y width height : ℤ) → Option (Option Rectangle)
rectangle x y (negsuc w) height = none
rectangle x y (pos w) (negsuc h) = none
rectangle (negsuc x) y (pos w) (pos h) = if (w == 0) || (h == 0) then none else some none
rectangle (pos x) (negsuc y) (pos w) (pos h) = if (w == 0) || (h == 0) then none else some none
rectangle (pos x) (pos y) (pos w) (pos h) =
    if (w == 0) || (h == 0)
    then none
    else some (some (record { left = x; top = y; width = w; height = h }))

-- The surface's row, if it is positive.
abbrev pub row_bytes : ℤ → ℕ
row_bytes (negsuc n) = 0
row_bytes (pos n) = n

-- `ValidateSurface`; a render of `none` is NULL.
unfoldable pub validate_surface :
    Aperture → Option RenderInfo → (x y width height : ℤ) → PixelFormat → SurfaceResult
validate_surface a none x y width height format = software_onboard
validate_surface a (some r) x y width height format =
    if (r.memory == 0) || (hardware_bytes format == 0) || (row_bytes r.bytes_per_row == 0)
    then software_surface_result a r
    else elim (rectangle x y width height) [
      | none ↦ reject
      | some none ↦ software_surface_result a r
      | some (some q) ↦
          place_surface a r.memory (row_bytes r.bytes_per_row) (hardware_bytes format) q
    ]
