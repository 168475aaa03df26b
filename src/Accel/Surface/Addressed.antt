-- ===== src/Accel/Surface/Addressed.antt =====
-- The engine reaches just the pixels of the rectangle, in the card's memory.
use native.Mathlib.Nat.{mul-le-mul_right, add-mul, div-mul-le_self, mod-eq-sub-div-mul}
use mathlib.Core.Path.{subst}
use r200_p96_driver.Base.{
  ℕ, ◌+◌, ◌-◌, ◌*◌, ◌/◌, ◌%◌, ◌^◌, ◌≤◌, ◌<◌, ◌≡◌, ◌∙◌, ℤ, some, arith, sym, bit_and-field,
  bit_or-fields,
}
use r200_p96_driver.Display.{PixelFormat}
use r200_p96_driver.Accel.{Aperture, RenderInfo, AccelSurface, hardware}
use r200_p96_driver.Accel.Surface.{
  hardware_bytes, memory_limit, Rectangle, aligned_gpu_address, address_bias, surface_for,
  rectangle, row_bytes, validate_surface,
}
use r200_p96_driver.Accel.Surface.Reachable.{
  rectangle-inj, IsReachable, place_surface-IsReachable, validate_surface-parts,
}

-- What the engine reaches through a surface: the pixel in column `j` of row `i` of the rectangle.
pub record IsAddressed (a : Aperture) (memory pitch bytes : ℕ) (q : Rectangle) (i j : ℕ)
    (s : AccelSurface) : Type 0 where
  -- the base and the pitch of the engine, as they are packed
  pub packed :
      (s.pitch_offset / 2 ^ 22 * 64 ≡ pitch)
      × (s.pitch_offset % 2 ^ 22 * 1024 ≡ aligned_gpu_address a (memory - a.memory.memory_base))
  -- the address that the engine computes is that of the pixel
  pub same_pixel :
      aligned_gpu_address a (memory - a.memory.memory_base)
        + (s.y_bias + (q.top + i)) * pitch
        + (s.x_bias + (q.left + j)) * bytes
      ≡ a.framebuffer_gpu_base
        + (memory - a.memory.memory_base)
        + (q.top + i) * pitch
        + (q.left + j) * bytes
  -- the coordinates are ones that the engine has
  pub near : (s.x_bias + (q.left + j) < 8192) × (s.y_bias + (q.top + i) < 8192)
  -- the pixel lies in the memory
  pub inside :
      memory - a.memory.memory_base + (q.top + i) * pitch + (q.left + j) * bytes + bytes
      ≤ memory_limit a

aligned_gpu_address_lem :
    (a : Aperture) (offset : ℕ)
    → a.framebuffer_gpu_base + offset < 2 ^ 32
    → aligned_gpu_address a offset ≡ (a.framebuffer_gpu_base + offset) / 1024 * 1024
aligned_gpu_address_lem a offset h =
    omega (arith, bit_and-field 22 10 (a.framebuffer_gpu_base + offset))

-- Whole rows and whole pixels of a bias, added to a row and a column.
bias_lem :
    (aligned bias pitch bytes x y : ℕ)
    → (bias - bias / pitch * pitch) % bytes ≡ 0
    → aligned + (bias / pitch + y) * pitch + ((bias - bias / pitch * pitch) / bytes + x) * bytes
      ≡ aligned + bias + y * pitch + x * bytes
bias_lem aligned bias pitch bytes x y h =
    let rest = bias - bias / pitch * pitch in
    omega (
      arith,
      add-mul (bias / pitch) y pitch,
      add-mul (rest / bytes) x bytes,
      div-mul-le_self bias pitch,
      div-mul-le_self rest bytes,
      mod-eq-sub-div-mul rest bytes,
    )

IsReachable-IsAddressed :
    (a : Aperture) (memory pitch bytes : ℕ) (q : Rectangle) (i j : ℕ)
    → i < q.height
    → j < q.width
    → IsReachable a memory pitch bytes q
    → IsAddressed a memory pitch bytes q i j
        (surface_for a (memory - a.memory.memory_base) pitch bytes q)
IsReachable-IsAddressed a memory pitch bytes q i j row column r =
    let offset = memory - a.memory.memory_base in
    let aligned = aligned_gpu_address_lem a offset r.addressed in
    let high = aligned_gpu_address a offset / 2 ^ 10 in
    let pixel =
      bias_lem (aligned_gpu_address a offset) (address_bias a offset) pitch bytes (q.left + j)
        (q.top + i) r.pixels in
    let rows : (q.top + i) * pitch ≤ (q.top + q.height - 1) * pitch =
      mul-le-mul_right pitch (omega (arith, row)) in
    let columns : (q.left + j + 1) * bytes ≤ (q.left + q.width) * bytes =
      mul-le-mul_right bytes (omega (arith, column)) in
    record {
      packed = omega (arith, aligned, r.addressed, r.rows, bit_or-fields (pitch / 2 ^ 6) 22 high);
      same_pixel = omega (arith, pixel, aligned);
      near = omega (arith, r.near, row, column);
      inside = omega (arith, r.ends, rows, columns, add-mul (q.left + j) 1 bytes);
    }

-- If `ValidateSurface` gives a rectangle at a 32-bit address to the engine, then every pixel of it
-- lies in the memory of the surface, and the engine, with the base, the pitch and the biases that are
-- stored, computes just the address of that pixel, from coordinates below 8192.
pub validate_surface-IsAddressed :
    (a : Aperture) (r : RenderInfo) (x y width height : ℤ) (format : PixelFormat) (s : AccelSurface)
    (q : Rectangle) (i j : ℕ)
    → r.memory < 2 ^ 32
    → validate_surface a (some r) x y width height format ≡ hardware s
    → rectangle x y width height ≡ some (some q)
    → i < q.height
    → j < q.width
    → IsAddressed a r.memory (row_bytes r.bytes_per_row) (hardware_bytes format) q i j s
validate_surface-IsAddressed a r x y width height format s q i j w h shape row column =
    let (q', shape', bytes, pitch, placed) =
      validate_surface-parts a r x y width height format s h in
    let same_shape : q' ≡ q = rectangle-inj (sym shape' ∙ shape) in
    let (same, reachable) =
      place_surface-IsReachable a r.memory (row_bytes r.bytes_per_row) (hardware_bytes format) q s w
        (rw same_shape at placed) in
    subst (IsAddressed a r.memory (row_bytes r.bytes_per_row) (hardware_bytes format) q i j)
      (sym same)
      (IsReachable-IsAddressed a r.memory (row_bytes r.bytes_per_row) (hardware_bytes format) q i j
        row column reachable)
