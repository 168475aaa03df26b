-- ===== src/Display/Timing.antt =====
-- The timing of a mode (src/radeon_mode.c: RadeonHSyncSize, ValidateMode, and the values that
-- ProgramTiming computes for the CRTC). The fields of a mode are `UWORD`s, so that no sum of them
-- wraps in a `ULONG`.
pub mod Fields
use r200_p96_driver.Base.{
  ℕ, ◌+◌, ◌-◌, ◌*◌, ◌/◌, ◌^◌, Bool, true, false, not, ◌&&◌, ◌||◌, ltb, leb, ◌==◌, if◌then◌else◌,
  bit_and, bit_or, not32,
}
use r200_p96_driver.Regs.Display.{crtc_h_sync_pol, crtc_v_sync_pol}
use r200_p96_driver.Display.{ModeInfo}

-- `RadeonHSyncSize`
abbrev pub h_sync_size : ℕ → ℕ
h_sync_size size = bit_and (size + 4) (not32 7)

-- A number of rows of the mode, as rows of the raster.
abbrev pub rows : ModeInfo → ℕ → ℕ
rows m n = if m.double_scan then n * 2 else n

-- `hsyncStart`, and `vsyncStart` behind the display.
abbrev pub h_sync_start : ModeInfo → ℕ
h_sync_start m = m.width + m.hor_sync_start

abbrev pub v_sync_start : ModeInfo → ℕ
v_sync_start m = rows m m.ver_sync_start + rows m m.height

-- The first guard of `ValidateMode`, without its last line.
abbrev pub in_limits : ModeInfo → Bool
in_limits m =
    leb 8 m.width
    && leb m.width 4096
    && (bit_and m.width 7 == 0)
    && ltb m.width m.hor_total
    && leb m.hor_total 8192
    && (bit_and m.hor_total 7 == 0)
    && leb 4 m.hor_sync_size
    && leb m.hor_sync_size 504
    && not (m.height == 0)
    && leb m.height 2048
    && ltb m.height m.ver_total
    && leb m.ver_total 2048
    && not (m.ver_sync_size == 0)
    && leb m.ver_sync_size 31
    && not m.unsupported_flags

-- The guard on a line-doubled mode.
abbrev pub doubles : ModeInfo → Bool
doubles m = not m.double_scan || (leb m.height 1024 && leb m.ver_total 1024)

unfoldable pub validate_mode : ModeInfo → Bool
validate_mode m =
    in_limits m
    && doubles m
    && leb (rows m m.ver_sync_size) 31
    && leb m.width (h_sync_start m)
    && leb 8 (h_sync_start m)
    && leb (h_sync_start m) 0x2007
    && leb (h_sync_start m + h_sync_size m.hor_sync_size) m.hor_total
    && leb (rows m m.height) (v_sync_start m)
    && leb (v_sync_start m + rows m m.ver_sync_size) (rows m m.ver_total)

-- The flag `flag` where a sync polarity asks for it.
abbrev pub polarity : Bool → ℕ → ℕ → ℕ
polarity asked flag value = if asked then bit_or value flag else value

-- `hTotalDisplay`
unfoldable pub h_total_display : ModeInfo → ℕ
h_total_display m = bit_or (m.hor_total / 8 - 1) ((m.width / 8 - 1) * 2 ^ 16)

-- `hSync`
unfoldable pub h_sync : ModeInfo → ℕ
h_sync m =
    polarity m.h_polarity crtc_h_sync_pol
      (bit_or (h_sync_start m - 8) (h_sync_size m.hor_sync_size / 8 * 2 ^ 16))

-- `vTotalDisplay`
unfoldable pub v_total_display : ModeInfo → ℕ
v_total_display m = bit_or (rows m m.ver_total - 1) ((rows m m.height - 1) * 2 ^ 16)

-- `vSync`
unfoldable pub v_sync : ModeInfo → ℕ
v_sync m =
    polarity m.v_polarity crtc_v_sync_pol
      (bit_or (v_sync_start m - 1) (rows m m.ver_sync_size * 2 ^ 16))
