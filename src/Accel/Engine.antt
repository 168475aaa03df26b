-- ===== src/Accel/Engine.antt =====
-- The engine's registers and the cache of what was written to them (src/radeon_accel.c:
-- InvalidateEngineState, AccelWrite32, SetEngineState, BeginEnginePath, RestoreEngineState,
-- HardwarePen). A write always succeeds: AccelWrite32 has no guard.
pub mod Addresses
pub mod Cached
mod Tests
use r200_p96_driver.Base.{
  ℕ, ◌+◌, ◌-◌, ◌*◌, ◌/◌, ◌%◌, ◌^◌, Bool, true, false, not, ◌&&◌, ◌||◌, Option, none, some, List, [],
  ◌∷◌, ◌++◌, ltb, leb, ◌==◌, if◌then◌else◌, bit_and, bit_or,
}
use r200_p96_driver.Regs.Engine.{
  rb3d_cntl, rb2d_dstcache_mode, dp_datatype, host_big_endian_en, default_pitch_offset,
  default_sc_bottom_right, scissor_max, sc_top_left, sc_bottom_right, dp_brush_frgd_clr,
  dp_brush_bkgd_clr, dp_src_frgd_clr, dp_src_bkgd_clr, dp_write_mask, dp_cntl, dst_x_left_to_right,
  dst_y_top_to_bottom,
}
use r200_p96_driver.Cp.Fence.{host_path_cntl}
use r200_p96_driver.Mmio.{Bus}
use r200_p96_driver.Display.{PixelFormat, clut, r5g6b5pc, b8g8r8a8, unsupported}
use r200_p96_driver.Accel.{AccelSurface}

-- `enum EngineStateIndex`
pub data EngineRegister : Type 0 where
  master write_mask control dst_pitch_offset src_pitch_offset brush_fg : EngineRegister
  brush_bg src_fg src_bg top_left bottom_right : EngineRegister

abbrev pub engine_index : EngineRegister → ℕ
engine_index master = 0
engine_index write_mask = 1
engine_index control = 2
engine_index dst_pitch_offset = 3
engine_index src_pitch_offset = 4
engine_index brush_fg = 5
engine_index brush_bg = 6
engine_index src_fg = 7
engine_index src_bg = 8
engine_index top_left = 9
engine_index bottom_right = 10

abbrev pub dp_gui_master_cntl : ℕ
dp_gui_master_cntl = 0x146c

abbrev pub dst_pitch_offset_reg : ℕ
dst_pitch_offset_reg = 0x142c

abbrev pub src_pitch_offset_reg : ℕ
src_pitch_offset_reg = 0x1428

-- The register that every call of `SetEngineState` names with an index.
abbrev pub engine_address : EngineRegister → ℕ
engine_address master = dp_gui_master_cntl
engine_address write_mask = dp_write_mask
engine_address control = dp_cntl
engine_address dst_pitch_offset = dst_pitch_offset_reg
engine_address src_pitch_offset = src_pitch_offset_reg
engine_address brush_fg = dp_brush_frgd_clr
engine_address brush_bg = dp_brush_bkgd_clr
engine_address src_fg = dp_src_frgd_clr
engine_address src_bg = dp_src_bkgd_clr
engine_address top_left = sc_top_left
engine_address bottom_right = sc_bottom_right

-- `struct EngineStateCache`, with the bus. `owned` is whether `Board` is this board, and `cached` is
-- `Value` where `ValidMask` has the bit.
pub record Engine : Type 0 where
  pub bus : Bus
  pub owned : Bool
  pub host_template_ready : Bool
  pub cached : ℕ → Option ℕ

abbrev pub invalidate_engine_state : Engine → Engine
invalidate_engine_state e = record e {
  owned = false;
  host_template_ready = false;
  cached = λ index. none;
}

-- `AccelWrite32`
abbrev pub accel_write32 : Engine → ℕ → ℕ → Engine
accel_write32 e reg value = record e {
  bus = record e.bus { now = e.bus.now + 1; written = (reg, value) ∷ e.bus.written };
}

-- The write of `SetEngineState`, and the value in the cache.
abbrev pub store_engine_state : Engine → EngineRegister → ℕ → Engine
store_engine_state e r value = record (accel_write32 e (engine_address r) value) {
  cached = λ index. if index == engine_index r then some value else e.cached index;
}

abbrev pub set_cached : Engine → EngineRegister → ℕ → Option ℕ → Engine
set_cached e r value none = store_engine_state e r value
set_cached e r value (some old) = if old == value then e else store_engine_state e r value

-- `SetEngineState`
abbrev pub set_engine_state : Engine → EngineRegister → ℕ → Engine
set_engine_state e r value = set_cached e r value (e.cached (engine_index r))

-- `BeginEnginePath`
unfoldable pub begin_engine_path : Engine → (host_template : Bool) → Engine
begin_engine_path e host_template =
    let e' = if e.owned then e else record (invalidate_engine_state e) { owned = true } in
    record e' { host_template_ready = host_template && e'.host_template_ready }

-- A step of a path through the engine: a write past the cache or through it.
pub data EngineStep : Type 0 where
  direct : (reg value : ℕ) → EngineStep
  state : EngineRegister → (value : ℕ) → EngineStep

pub step : Engine → EngineStep → Engine
step e (direct reg value) = accel_write32 e reg value
step e (state r value) = set_engine_state e r value

unfoldable pub steps : Engine → List EngineStep → Engine
steps e [] = e
steps e (s ∷ rest) = steps (step e s) rest

abbrev pub to_right_and_down : ℕ
to_right_and_down = bit_or dst_x_left_to_right dst_y_top_to_bottom

abbrev pub baseline : List EngineStep
baseline =
    direct host_path_cntl 0
    ∷ direct rb3d_cntl 0
    ∷ direct rb2d_dstcache_mode 0
    ∷ direct dp_datatype host_big_endian_en
    ∷ direct default_pitch_offset 0
    ∷ direct default_sc_bottom_right scissor_max
    ∷ state top_left 0
    ∷ state bottom_right scissor_max
    ∷ state brush_fg 0xffffffff
    ∷ state brush_bg 0
    ∷ state src_fg 0xffffffff
    ∷ state src_bg 0
    ∷ state write_mask 0xffffffff
    ∷ state control to_right_and_down
    ∷ []

-- `RestoreEngineState`
unfoldable pub restore_engine_state : Engine → Engine
restore_engine_state e = steps (begin_engine_path (invalidate_engine_state e) false) baseline

-- `HardwarePen`
unfoldable pub hardware_pen : ℕ → PixelFormat → ℕ
hardware_pen pen clut = bit_and pen 0xff
hardware_pen pen r5g6b5pc = bit_or (bit_and pen 0xff * 2 ^ 8) (bit_and pen 0xff00 / 2 ^ 8)
hardware_pen pen b8g8r8a8 =
    bit_or
      (bit_or (bit_or (bit_and pen 0xff * 2 ^ 24) (bit_and pen 0xff00 * 2 ^ 8))
        (bit_and pen 0xff0000 / 2 ^ 8))
      (bit_and pen 0xff000000 / 2 ^ 24)
hardware_pen pen unsupported = pen
