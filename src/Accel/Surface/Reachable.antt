-- ===== src/Accel/Surface/Reachable.antt =====
-- What the checks of `ValidateSurface` leave, as plain facts.
use r200_p96_driver.Base.{
  ℕ, ◌+◌, ◌-◌, ◌*◌, ◌%◌, ◌^◌, ◌≤◌, ◌<◌, ◌≡◌, ℤ, false, not, ◌||◌, none, some, ltb, leb, ◌==◌,
  bit_and, inl, inr, arith, sym, Bool-cases, Option-cases, bit_and-ones,
}
use r200_p96_driver.Display.{PixelFormat}
use r200_p96_driver.Accel.{Aperture, RenderInfo, AccelSurface, hardware}
use r200_p96_driver.Accel.Surface.{
  accel_max_pitch, accel_max_coord, hardware_bytes, is_offboard_memory, software_surface_result,
  memory_limit, Rectangle, aligned_gpu_address, row_bias, surface_for, is_far, bias_surface,
  is_outside, place_surface, rectangle, row_bytes, validate_surface,
}

hardware-inj : {s t : AccelSurface} → hardware s ≡ hardware t → s ≡ t
hardware-inj h = cc

pub rectangle-inj : {p q : Rectangle} → some (some p) ≡ some (some q) → p ≡ q
rectangle-inj h = cc

-- What the checks leave for an offset, a pitch and a rectangle.
pub record IsReachable (a : Aperture) (memory pitch bytes : ℕ) (q : Rectangle) : Type 0 where
  pub based : a.memory.memory_base ≤ memory
  pub rows : (pitch % 64 ≡ 0) × (pitch ≤ accel_max_pitch)
  pub fits : (q.left + q.width) * bytes ≤ pitch
  pub ends :
      memory - a.memory.memory_base + (q.top + q.height - 1) * pitch + (q.left + q.width) * bytes
      ≤ memory_limit a
  pub addressed : a.framebuffer_gpu_base + (memory - a.memory.memory_base) < 2 ^ 32
  pub pixels : row_bias a (memory - a.memory.memory_base) pitch % bytes ≡ 0
  pub near :
      let s = surface_for a (memory - a.memory.memory_base) pitch bytes q in
      (s.x_bias + q.left + q.width ≤ 8192) × (s.y_bias + q.top + q.height ≤ 8192)

-- `is_outside` on plain numbers.
inside_facts :
    (pitch line_end remaining last : ℕ)
    → (ltb pitch line_end || ltb remaining line_end || ltb (remaining - line_end) last) ≡ false
    → (line_end ≤ pitch) × (last + line_end ≤ remaining)
inside_facts pitch line_end remaining last h = (ground (arith, h), ground (arith, h))

below : (m n : ℕ) → leb m n ≡ false → n < m
below m n h = ground (arith, h)

within : (m n : ℕ) → ltb m n ≡ false → n ≤ m
within m n h = ground (arith, h)

pub place_surface-IsReachable :
    (a : Aperture) (memory pitch bytes : ℕ) (q : Rectangle) (s : AccelSurface)
    → memory < 2 ^ 32
    → place_surface a memory pitch bytes q ≡ hardware s
    → (s ≡ surface_for a (memory - a.memory.memory_base) pitch bytes q)
      × IsReachable a memory pitch bytes q
unfolding place_surface bias_surface
place_surface-IsReachable a memory pitch bytes q s w h =
    let offset = memory - a.memory.memory_base in
    let limit = memory_limit a in
    let t = surface_for a offset pitch bytes q in
    let off = ltb memory a.memory.memory_base || leb a.memory.memory_space_size offset in
    let odd =
      not (bit_and pitch 63 == 0)
      || ltb accel_max_pitch pitch
      || ltb accel_max_coord (q.left + q.width - 1)
      || ltb accel_max_coord (q.top + q.height - 1) in
    let far =
      ltb 0xfffffc00 (aligned_gpu_address a offset)
      || not (row_bias a offset pitch % bytes == 0)
      || is_far t q in
    elim (Bool-cases off) [
      | inl e ↦ absurd (cc (rw e at h))
      | inr e ↦ elim (Bool-cases (leb limit offset)) [
        | inl f ↦ absurd (cc (rw (e, f) at h))
        | inr f ↦ elim (Bool-cases odd) [
          | inl g ↦ absurd (cc (rw (e, f, g) at h))
          | inr g ↦ elim (Bool-cases (is_outside pitch bytes (limit - offset) q)) [
            | inl k ↦ absurd (cc (rw (e, f, g, k) at h))
            | inr k ↦ elim (Bool-cases (ltb (0xffffffff - offset) a.framebuffer_gpu_base)) [
              | inl l ↦ absurd (cc (rw (e, f, g, k, l) at h))
              | inr l ↦ elim (Bool-cases far) [
                | inl n ↦ absurd (cc (rw (e, f, g, k, l, n) at h))
                | inr n ↦
                    let facts =
                      inside_facts pitch ((q.left + q.width) * bytes) (limit - offset)
                        ((q.top + q.height - 1) * pitch) k in
                    (
                      sym (hardware-inj (rw (e, f, g, k, l, n) at h)),
                      record {
                        based = ground (arith, e);
                        rows = ground (arith, g, bit_and-ones 6 pitch);
                        fits = facts.0;
                        ends = omega (arith, below limit offset f, facts);
                        addressed =
                            omega (arith, within (0xffffffff - offset) a.framebuffer_gpu_base l, w);
                        pixels = ground (arith, n);
                        near = ground (arith, n);
                      },
                    )
              ]
            ]
          ]
        ]
      ]
    ]

-- The parts of a rectangle that the engine may draw.
pub validate_surface-parts :
    (a : Aperture) (r : RenderInfo) (x y width height : ℤ) (format : PixelFormat) (s : AccelSurface)
    → validate_surface a (some r) x y width height format ≡ hardware s
    → (q : Rectangle) × (rectangle x y width height ≡ some (some q))
      × (1 ≤ hardware_bytes format)
      × (1 ≤ row_bytes r.bytes_per_row)
      × (place_surface a r.memory (row_bytes r.bytes_per_row) (hardware_bytes format) q
          ≡ hardware s)
unfolding validate_surface software_surface_result
validate_surface-parts a r x y width height format s h =
    elim (Bool-cases
      ((r.memory == 0) || (hardware_bytes format == 0) || (row_bytes r.bytes_per_row == 0))) [
        | inl e ↦ absurd (soft a r s (rw (e, validate_surface) at h))
        | inr e ↦ elim (Option-cases (rectangle x y width height)) [
          | inl f ↦ absurd (cc (rw (e, f, validate_surface) at h))
          | inr (none, f) ↦ absurd (soft a r s (rw (e, f, validate_surface) at h))
          | inr (some q, f) ↦
              (q, f, ground (arith, e), ground (arith, e), rw (e, f, validate_surface) at h)
        ]
      ]
  where
    soft :
        (a : Aperture) (r : RenderInfo) (s : AccelSurface)
        → software_surface_result a r ≡ hardware s
        → ⊥
    soft a r s h = elim (Bool-cases (is_offboard_memory a r.memory)) [
      | inl e ↦ cc (rw (e, software_surface_result) at h)
      | inr e ↦ cc (rw (e, software_surface_result) at h)
    ]
