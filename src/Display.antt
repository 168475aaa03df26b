-- ===== src/Display.antt =====
-- The display (src/radeon_mode.c, src/radeon_cursor.c): the parts of `struct BoardInfo`, `struct
-- RadeonBoardData` and `struct RadeonCursorState` that modes, clocks, palette and cursor work on.
pub mod Format
pub mod Pll
pub mod Timing
pub mod Ladder
pub mod Cursor
pub mod Output
pub mod Program
pub mod Panning
pub mod Blank
pub mod Callbacks
pub mod Tests
use r200_p96_driver.Base.{ℕ, Bool, Option, List, ℤ}
use r200_p96_driver.Mmio.{Bus}
use r200_p96_driver.Vram

-- RGBFTYPE, as far as the driver tells its values apart.
pub data PixelFormat : Type 0 where
  clut r5g6b5pc b8g8r8a8 unsupported : PixelFormat

-- The DPMS levels.
pub data Dpms : Type 0 where
  on standby suspend off : Dpms

-- `struct ModeInfo`. The flags are those that the driver tests; `numerator` and `denominator` are
-- `pll1` and `pll2`.
pub record ModeInfo : Type 0 where
  pub width : ℕ
  pub height : ℕ
  pub depth : ℕ
  pub h_polarity : Bool
  pub v_polarity : Bool
  pub double_scan : Bool
  pub unsupported_flags : Bool
  pub hor_total : ℕ
  pub hor_sync_start : ℕ
  pub hor_sync_size : ℕ
  pub ver_total : ℕ
  pub ver_sync_start : ℕ
  pub ver_sync_size : ℕ
  pub pixel_clock : ℕ
  pub numerator : ℕ
  pub denominator : ℕ

-- `struct RadeonTmdsPll`
pub record TmdsPll : Type 0 where
  pub limit_10khz : ℕ
  pub value : ℕ

-- The clock fields of the board data. `dvi` is the list of `DviInfo`, if DVI is requested and there.
pub record Clocks : Type 0 where
  pub ref_clock_khz : ℕ
  pub ref_divider : ℕ
  pub min_pll_khz : ℕ
  pub max_pll_khz : ℕ
  pub dvi : Option (List TmdsPll)

-- `struct RadeonCursorState`. `image` is the private memory, by rows and columns.
pub record CursorState : Type 0 where
  pub offset : ℕ
  pub color0 : ℕ
  pub color1 : ℕ
  pub color2 : ℕ
  pub visible : Bool
  pub image : ℕ → ℕ → ℕ

-- The sprite that Picasso96 supplies: the words behind `MouseImage`, and BIF_HIRESSPRITE and
-- BIF_BIGSPRITE.
pub record Sprite : Type 0 where
  pub source : Option (ℕ → ℕ)
  pub width : ℕ
  pub height : ℕ
  pub hires : Bool
  pub big : Bool

-- An entry of `bi->CLUT`.
pub record Color : Type 0 where
  pub red : ℕ
  pub green : ℕ
  pub blue : ℕ

pub record Board : Type 0 where
  pub bus : Bus
  pub clocks : Clocks
  pub memory : Vram.Board
  pub installed_vram : ℕ
  pub mode_valid : Bool
  pub display_enabled : Bool
  pub dvi_timing_ready : Bool
  pub dvi_format_ready : Bool
  pub dpms_level : Dpms
  pub mode_info : Option ModeInfo
  pub depth : ℕ
  pub border : Bool
  pub rgb_format : PixelFormat
  pub palette : ℕ → Color
  pub x_offset : ℤ
  pub y_offset : ℤ
  pub mouse_x : ℤ
  pub mouse_y : ℤ
  pub sprite : Sprite
  pub soft_sprite_flags : ℕ
  pub cursor : Option CursorState
