-- ===== src/Service/Batch/Published.antt =====
-- The one stream of a triangle list that is published, in numbers (include/radeon3d.h): what the
-- validation should accept, without a look at how it does so.
use r200_p96_driver.Base.{
  ℕ, ◌+◌, ◌-◌, ◌*◌, ◌/◌, ◌%◌, ◌^◌, ◌≤◌, ◌<◌, ◌≡◌, refl, true, List, [], ◌∷◌, ◌++◌, get_or, length,
  arith, Any, bit_and, bit_or-fields, bit_or-shifted_at, bit_and-ones, bit_and-low, not32, sub32,
}
use r200_p96_driver.Service.Batch.{
  Surface, packet3, colorpitch_mask, is_target, width_height, draw_control,
}
use r200_p96_driver.Service.Batch.Floats.{IsFloatUpTo}
use r200_p96_driver.Service.Batch.Matching.{At, preamble}

-- A surface that triangles can be drawn into: 16-bit pixels, the address in units of 16 bytes, and the
-- pitch in units of eight pixels.
pub record IsTarget (t : Surface) : Type 0 where
  pub format : t.format ≡ 1
  pub size : (t.width ≤ 2 ^ 16) × (t.height ≤ 2 ^ 16)
  pub address : t.gpu_address % 16 ≡ 0
  pub pitch : (t.pitch / 2 % 8 ≡ 0) × (t.pitch / 2 ≤ 0x1ff8)

-- Register and value: the vertex format (position and colour), flat registers of the setup, one stage
-- that passes the colour on, no scissors.
abbrev pub published_state : List (ℕ × ℕ)
published_state =
    (0x2140, 0)
    ∷ (0x2080, 0x0025_0000)
    ∷ (0x2180, 0)
    ∷ (0x20b0, 0)
    ∷ (0x2088, 0x800)
    ∷ (0x208c, 0)
    ∷ (0x1c4c, 0x9800_021e)
    ∷ (0x1c38, 0x1000)
    ∷ (0x2f00, 0x1000)
    ∷ (0x2f04, 0x1_1000)
    ∷ (0x2f08, 0x1000)
    ∷ (0x2f0c, 0x1_1000)
    ∷ (0x2cc4, 0)
    ∷ (0x26f0, 0)
    ∷ (0x1c50, 0)
    ∷ (0x26c0, 0)
    ∷ []

-- The clip rectangle is the target; all planes, no blending, RGB565; then the target itself.
abbrev pub published_target : Surface → List (ℕ × ℕ)
published_target t =
    (0x1c44, (t.height - 1) * 2 ^ 16 + (t.width - 1))
    ∷ (0x1d84, 0xffff_ffff)
    ∷ (0x1c20, 0x2021_0000)
    ∷ (0x1c3c, 0x1000)
    ∷ (0x1c40, t.gpu_address)
    ∷ (0x1c48, t.pitch / 2)
    ∷ []

-- A write of one register: a packet of type zero with the register's number, then the value.
abbrev pub register_writes : List (ℕ × ℕ) → List ℕ
register_writes [] = []
register_writes ((reg, value) ∷ rest) = reg / 4 ∷ value ∷ register_writes rest

-- All of the stream but the vertices; it ends with a packet of type three, which draws them.
abbrev pub published : Surface → (vertices : ℕ) → List ℕ
published t vertices =
    register_writes published_state
    ++ (register_writes (published_target t)
        ++ (0xc000_3500 + vertices * 3 * 2 ^ 16) ∷ (vertices * 2 ^ 16 + 0x34) ∷ [])

-- A batch that draws triangles into a surface of the session: the published stream, then vertices of
-- two coordinates and a colour, each a float inside the target.
pub record IsTriangleList (surfaces : List Surface) (commands : List ℕ) : Type 0 where
  pub target : Surface
  pub vertices : ℕ
  pub owned : Any (λ s. s ≡ target) surfaces
  pub fits : IsTarget target
  pub counted : (3 ≤ vertices) × (vertices ≤ 255) × (vertices % 3 ≡ 0)
  pub size : length commands ≡ 46 + vertices * 3
  pub opening : At commands 0 (published target vertices)
  pub inside :
      (k : ℕ)
      → k < vertices
      → IsFloatUpTo target.width (get_or commands (46 + k * 3) 0)
        × IsFloatUpTo target.height (get_or commands (46 + k * 3 + 1) 0)

pub is_target-IsTarget : (t : Surface) → is_target t t.gpu_address ≡ true → IsTarget t
unfolding is_target
is_target-IsTarget t h =
    let pitch = t.pitch / 2 in
    let low : bit_and pitch (not32 colorpitch_mask) ≡ 0 = ground (arith, h) in
    record {
      format = ground (arith, h);
      size = (ground (arith, h), ground (arith, h));
      address = ground (arith, h, bit_and-ones 4 t.gpu_address);
      pitch = (
        omega (
          arith,
          low,
          bit_and-low pitch 0xffff_e007,
          bit_and-low (pitch / 2) 0x7fff_f003,
          bit_and-low (pitch / 2 / 2) 0x3fff_f801,
        ),
        ground (arith, h),
      );
    }

-- What the validation compares with is the published stream, for a target of one pixel at least.
pub preamble-published :
    (t : Surface) (vertices : ℕ)
    → IsTarget t
    → (1 ≤ t.width) × (1 ≤ t.height)
    → vertices ≤ 255
    → preamble t vertices ≡ published t vertices
preamble-published t vertices fits pixels few =
    let rows : sub32 t.height 1 * 2 ^ 16 % 2 ^ 32 ≡ (t.height - 1) * 2 ^ 16 =
      omega (arith, fits.size, pixels) in
    let columns : sub32 t.width 1 ≡ t.width - 1 = omega (arith, fits.size, pixels) in
    let size : width_height t ≡ (t.height - 1) * 2 ^ 16 + (t.width - 1) =
      rw (rows, columns)
        (bit_or-fields (t.height - 1) 16 (t.width - 1) (omega (arith, fits.size))) in
    let draw : packet3 0x3500 (vertices * 3) ≡ 0xc000_3500 + vertices * 3 * 2 ^ 16 = omega (
      arith,
      few,
      bit_or-shifted_at 0xc000 (vertices * 3) 16 0x3500,
      bit_or-fields 3 14 (vertices * 3),
    ) in
    let regroup : vertices * 2 ^ 16 + 0x30 ≡ (vertices * 2 ^ 12 + 3) * 2 ^ 4 = omega arith in
    let control : draw_control vertices ≡ vertices * 2 ^ 16 + 0x34 =
      rw (bit_or-fields vertices 16 0x30 (omega arith), regroup)
        (omega (arith, bit_or-fields (vertices * 2 ^ 12 + 3) 4 4)) in
    rw (size, draw, control) refl
