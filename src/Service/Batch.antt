-- ===== src/Service/Batch.antt =====
-- Validation of a submitted batch (src/radeon3d_service.c: MatchRegister, FindTriangleTarget,
-- ValidateTriangleBatch, ValidateBatch; include/radeon3d_emit.h: UnsignedFloatBits,
-- ValidScreenCoordinate). A batch is the list of its dwords, so `commandCount` is its length.
pub mod Floats
pub mod Sound
pub mod Matching
pub mod Published
mod Tests
use mathlib.Core.Option
use r200_p96_driver.Base.{
  ℕ, zero, suc, ◌+◌, ◌-◌, ◌*◌, ◌/◌, ◌%◌, ◌^◌, Bool, true, false, not, ◌&&◌, ◌||◌, List, [], ◌∷◌,
  ◌++◌, Option, none, some, ltb, leb, ◌==◌, if◌then◌else◌, bit_and, bit_or, sub32, not32, get_or,
  length,
}
use r200_p96_driver.Cp.{packet0, packet2, max_batch_dwords}

-- `struct Radeon3DSurfaceHandle`, without its node and back pointer.
pub record Surface : Type 0 where
  pub handle : ℕ
  pub bit_map : ℕ
  pub cpu_address : ℕ
  pub gpu_address : ℕ
  pub pitch : ℕ
  pub width : ℕ
  pub height : ℕ
  pub format : ℕ
  pub pool_offset : ℕ
  pub pool_bytes : ℕ

abbrev pub vertex_dwords : ℕ
vertex_dwords = 3

abbrev pub max_vertices : ℕ
max_vertices = 255

abbrev pub format_r5g6b5pc : ℕ
format_r5g6b5pc = 1

abbrev pub coloroffset_mask : ℕ
coloroffset_mask = 0xfffffff0

abbrev pub colorpitch_mask : ℕ
colorpitch_mask = 0x1ff8

-- RADEON_CP_PACKET3(packet, count)
abbrev pub packet3 : ℕ → ℕ → ℕ
packet3 packet count = bit_or (bit_or 0xc0000000 packet) (count * 2 ^ 16)

-- `while (scan >>= 1) ++top;` A word has at most 32 rounds.
unfoldable pub top_bit : ℕ → ℕ → ℕ
top_bit zero scan = 0
top_bit (suc fuel) scan =
    let rest = top_bit fuel (scan / 2) in if scan / 2 == 0 then 0 else rest + 1

-- `UnsignedFloatBits`, for values below 2 ^ 24; above, the C shift has a negative distance.
unfoldable pub unsigned_float_bits : ℕ → ℕ
unfolding top_bit
unsigned_float_bits value =
    if value == 0
    then 0
    else let top = top_bit 32 value in
      bit_or ((127 + top) * 2 ^ 23) (bit_and (value * 2 ^ (23 - top)) 0x007fffff)

-- `ValidScreenCoordinate`
pub valid_screen_coordinate : ℕ → ℕ → Bool
unfolding unsigned_float_bits
valid_screen_coordinate bits limit =
    (bit_and bits 0x80000000 == 0)
    && not (bit_and bits 0x7f800000 == 0x7f800000)
    && leb bits (unsigned_float_bits limit)

-- The condition of `FindTriangleTarget` on one surface.
pub is_target : Surface → ℕ → Bool
is_target s gpu_address =
    (s.gpu_address == gpu_address)
    && (bit_and s.gpu_address (not32 coloroffset_mask) == 0)
    && leb s.width 65536
    && leb s.height 65536
    && (s.format == format_r5g6b5pc)
    && leb (s.pitch / 2) colorpitch_mask
    && (bit_and (s.pitch / 2) (not32 colorpitch_mask) == 0)

-- `FindTriangleTarget`: the first of the session's surfaces that fits.
pub find_triangle_target : List Surface → ℕ → Option Surface
unfolding is_target
find_triangle_target [] gpu_address = none
find_triangle_target (s ∷ ss) gpu_address =
    if is_target s gpu_address then some s else find_triangle_target ss gpu_address

-- `MatchRegister`: the index behind the two dwords, if they are there.
pub match_register : List ℕ → ℕ → ℕ → ℕ → Option ℕ
match_register commands index reg value =
    if ltb (sub32 (length commands) 2) index
      || not (get_or commands index 0 == packet0 reg 0)
      || not (get_or commands (index + 1) 0 == value)
    then none
    else some (index + 2)

-- A chain `!MatchRegister(...) || !MatchRegister(...) || ...`
pub match_registers : List ℕ → ℕ → List (ℕ × ℕ) → Option ℕ
unfolding match_register
match_registers commands index [] = some index
match_registers commands index ((reg, value) ∷ rest) =
    elim (match_register commands index reg value) [
      | none ↦ none
      | some next ↦ match_registers commands next rest
    ]

-- `seControl`
abbrev pub se_control : ℕ
se_control =
    bit_or (bit_or (bit_or (bit_or (bit_or (3 * 2 ^ 1) (3 * 2 ^ 3)) (2 * 2 ^ 8)) (2 ^ 27)) (2 ^ 28))
      (2 * 2 ^ 30)

-- The registers before R200_RE_WIDTH_HEIGHT.
abbrev pub state_registers : List (ℕ × ℕ)
state_registers =
    (0x2140, 0)
    ∷ (0x2080, bit_or 0x10000 (9 * 2 ^ 18))
    ∷ (0x2180, 0)
    ∷ (0x20b0, 0)
    ∷ (0x2088, 1 * 2 ^ 11)
    ∷ (0x208c, 0)
    ∷ (0x1c4c, se_control)
    ∷ (0x1c38, 0x1000)
    ∷ (0x2f00, 4 * 2 ^ 10)
    ∷ (0x2f04, bit_or (2 ^ 12) (2 ^ 16))
    ∷ (0x2f08, 4 * 2 ^ 10)
    ∷ (0x2f0c, bit_or (2 ^ 12) (2 ^ 16))
    ∷ (0x2cc4, 0)
    ∷ (0x26f0, 0)
    ∷ (0x1c50, 0)
    ∷ (0x26c0, 0)
    ∷ []

-- The registers between R200_RE_WIDTH_HEIGHT and R200_RB3D_COLOROFFSET.
abbrev pub blend_registers : List (ℕ × ℕ)
blend_registers =
    (0x1d84, 0xffffffff) ∷ (0x1c20, bit_or (33 * 2 ^ 16) (32 * 2 ^ 24)) ∷ (0x1c3c, 4 * 2 ^ 10) ∷ []

abbrev pub re_width_height : ℕ
re_width_height = 0x1c44

abbrev pub rb3d_coloroffset : ℕ
rb3d_coloroffset = 0x1c40

abbrev pub rb3d_colorpitch : ℕ
rb3d_colorpitch = 0x1c48

-- R200_CP_VC_CNTL_PRIM_WALK_RING | R200_CP_VC_CNTL_PRIM_TYPE_TRI_LIST with the vertex count
abbrev pub draw_control : ℕ → ℕ
draw_control vertices = bit_or (bit_or (vertices * 2 ^ 16) 0x30) 4

-- `widthHeight` of a target
abbrev pub width_height : Surface → ℕ
width_height t = bit_or (sub32 t.height 1 * 2 ^ 16 % 2 ^ 32) (sub32 t.width 1)

-- The loop over the vertices, with those left: the index behind them.
pub match_vertices : List ℕ → Surface → ℕ → ℕ → Option ℕ
unfolding valid_screen_coordinate
match_vertices commands target index zero = some index
match_vertices commands target index (suc vertices) =
    if not (valid_screen_coordinate (get_or commands index 0) target.width)
      || not (valid_screen_coordinate (get_or commands (index + 1) 0) target.height)
    then none
    else match_vertices commands target (index + vertex_dwords) vertices

-- From R200_RB3D_COLORPITCH on.
pub match_draw : List ℕ → Surface → ℕ → ℕ → Bool
unfolding match_register match_vertices
match_draw commands target index vertices =
    elim (match_register commands index rb3d_colorpitch (target.pitch / 2)) [
      | none ↦ false
      | some next ↦
          if ltb (sub32 (length commands) 11) next
            || not (get_or commands next 0 == packet3 0x3500 (vertices * vertex_dwords))
            || not (get_or commands (next + 1) 0 == draw_control vertices)
          then false
          else elim (match_vertices commands target (next + 2) vertices) [
            | none ↦ false
            | some end ↦ end == length commands
          ]
    ]

-- From R200_RB3D_COLOROFFSET on; the target must have the size that was set.
pub match_target : List Surface → List ℕ → ℕ → ℕ → ℕ → Bool
unfolding find_triangle_target match_draw
match_target surfaces commands size index vertices =
    if ltb (sub32 (length commands) 4) index
      || not (get_or commands index 0 == packet0 rb3d_coloroffset 0)
    then false
    else elim (find_triangle_target surfaces (get_or commands (index + 1) 0)) [
      | none ↦ false
      | some target ↦
          if not (size == width_height target)
          then false
          else match_draw commands target (index + 2) vertices
    ]

-- The register writes, the counts being right.
pub match_batch : List Surface → List ℕ → ℕ → Bool
unfolding match_registers match_target
match_batch surfaces commands vertices = elim (match_registers commands 0 state_registers) [
  | none ↦ false
  | some index ↦
      if ltb (sub32 (length commands) 2) index
        || not (get_or commands index 0 == packet0 re_width_height 0)
      then false
      else elim (match_registers commands (index + 2) blend_registers) [
        | none ↦ false
        | some next ↦ match_target surfaces commands (get_or commands (index + 1) 0) next vertices
      ]
]

-- `ValidateTriangleBatch`
pub validate_triangle_batch : List Surface → List ℕ → Bool
unfolding match_batch
validate_triangle_batch surfaces commands =
    let count = length commands in
    let dwords = count - 46 in
    let vertices = dwords / vertex_dwords in
    if ltb count 46
      || not (dwords % vertex_dwords == 0)
      || ltb vertices 3
      || ltb max_vertices vertices
      || not (vertices % 3 == 0)
    then false
    else match_batch surfaces commands vertices

-- The loop of `ValidateBatch` over the leading no-ops: whether all are no-ops.
pub all_packet2 : List ℕ → Bool
all_packet2 [] = true
all_packet2 (c ∷ cs) = (c == packet2) && all_packet2 cs

-- `ValidateBatch`
pub validate_batch : List Surface → List ℕ → Bool
unfolding all_packet2 validate_triangle_batch
validate_batch surfaces commands =
    if (length commands == 0) || ltb max_batch_dwords (length commands)
    then false
    else if all_packet2 commands
    then true
    else validate_triangle_batch surfaces commands
