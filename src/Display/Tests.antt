-- ===== src/Display/Tests.antt =====
-- The theorems on the display at concrete inputs: a card with a 27 MHz reference, 64 MB and the mode
-- 640 by 480.
use r200_p96_driver.Base.{◌≤◌, ◌<◌, ◌≡◌, refl, true, false, none, some, arith}
use r200_p96_driver.Display.{Clocks, ModeInfo, clut}
use r200_p96_driver.Display.Pll.{
  calculate_pll, find_divider, finish_pll, distance, clock_minimum, clock_maximum, clock_count,
}
use r200_p96_driver.Display.Pll.Decode.{IsClocked, calculate_pll-IsClocked}
use r200_p96_driver.Display.Timing.{validate_mode}
use r200_p96_driver.Display.Timing.Fields.{IsProgrammed, validate_mode-IsProgrammed}
use r200_p96_driver.Display.Ladder.{
  resolve_pixel_clock, get_pixel_clock, nearest_index, resolve_pixel_clock_lem,
}

abbrev pub clocks : Clocks
clocks = record {
  ref_clock_khz = 27000;
  ref_divider = 12;
  min_pll_khz = 125000;
  max_pll_khz = 400000;
  dvi = none;
}

abbrev pub vga : ModeInfo
vga = record {
  width = 640;
  height = 480;
  depth = 8;
  h_polarity = true;
  v_polarity = true;
  double_scan = false;
  unsupported_flags = false;
  hor_total = 800;
  hor_sync_start = 16;
  hor_sync_size = 96;
  ver_total = 525;
  ver_sync_start = 10;
  ver_sync_size = 2;
  pixel_clock = 25175000;
  numerator = 0;
  denominator = 0;
}

-- The mode with the dividers for 25.175 MHz: feedback 134, post divider 12.
abbrev clocked_vga : ModeInfo
clocked_vga = record vga { numerator = 134; denominator = 56; pixel_clock = 25125000 }

calculate_pll-IsClocked_example : IsClocked clocks 25175000 false clocked_vga
unfolding calculate_pll find_divider finish_pll
calculate_pll-IsClocked_example = calculate_pll-IsClocked clocks vga clocked_vga 25175000 false refl

validate_mode-IsProgrammed_example : IsProgrammed vga
unfolding validate_mode
validate_mode-IsProgrammed_example = validate_mode-IsProgrammed vga refl

-- 31.5 MHz is entry 94 of the ladder, which begins at 8 MHz.
abbrev faster_vga : ModeInfo
faster_vga = record vga { numerator = 168; denominator = 56; pixel_clock = 31500000 }

resolve_pixel_clock_lem_example :
    (94 < clock_count clocks)
    × (calculate_pll clocks vga (get_pixel_clock clocks 94 clut) true ≡ some faster_vga)
    × (distance (get_pixel_clock clocks 94 clut) 31500000
        ≤ distance (get_pixel_clock clocks 3 clut) 31500000)
unfolding resolve_pixel_clock nearest_index validate_mode calculate_pll find_divider finish_pll
    clock_count clock_minimum clock_maximum
resolve_pixel_clock_lem_example =
    resolve_pixel_clock_lem clocks vga faster_vga 31500000 94 3 clut (omega arith) (omega arith)
      (omega arith) refl
