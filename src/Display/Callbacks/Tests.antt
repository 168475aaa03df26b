-- ===== src/Display/Callbacks/Tests.antt =====
-- The theorems on the cursor, the panning and the callbacks at a concrete board.
use r200_p96_driver.Base.{
  ℕ, ◌+◌, ◌*◌, ◌≡◌, pos, negsuc, refl, inr, true, false, none, some, List, [], ◌∷◌, arith,
}
use r200_p96_driver.Mmio.Window.{IsContained}
use r200_p96_driver.Vram.{allocate_private_vram}
use r200_p96_driver.Vram.Stack.{IsValid}
use r200_p96_driver.Regs.Display.{cur_offset, cur_horz_vert_posn, cur_horz_vert_off}
use r200_p96_driver.Display.{Board, CursorState, clut, on}
use r200_p96_driver.Display.Tests.{clocks, vga}
use r200_p96_driver.Display.Format.{get_format_info, calculate_pitch, pitch_of}
use r200_p96_driver.Display.Timing.{validate_mode}
use r200_p96_driver.Display.Cursor.{
  cursor_origin, cursor_position, cursor_start, update_cursor_position, initialize_cursor,
}
use r200_p96_driver.Display.Cursor.Place.{IsShown, update_cursor_position_lem}
use r200_p96_driver.Display.Cursor.Memory.{IsPrivate, initialize_cursor-IsPrivate}
use r200_p96_driver.Display.Panning.{Scanout, find_scanout, place_scanout}
use r200_p96_driver.Display.Panning.Scanning.{IsScanned, find_scanout-IsScanned}
use r200_p96_driver.Display.Callbacks.{
  Call, gc, dac, clock, display, panning, sprite, sprite_color, calls,
}
use r200_p96_driver.Display.Callbacks.Contained.{calls-IsContained}
use r200_p96_driver.Display.Callbacks.Invariant.{IsTimed, IsConsistent, calls-IsConsistent}

abbrev constant_card : ℕ → ℕ → ℕ
constant_card t reg = 0

abbrev same_bytes : ℕ → ℕ
same_bytes w = w

abbrev arrow : CursorState
arrow = record {
  offset = 0x3ffc000;
  color0 = 1;
  color1 = 2;
  color2 = 3;
  visible = true;
  image = λ y x. 0;
}

-- 64 MB at 0x40000000, with the mode programmed and the mouse 5 pixels left of the display.
abbrev running : Board
running = record {
  bus = record { mapped = true; mmio_size = 0x10000; now = 0; written = [] };
  clocks = clocks;
  memory = record {
    memory_base = 0x40000000;
    memory_size = 0x4000000;
    memory_space_size = 0x4000000;
  };
  installed_vram = 0x4000000;
  mode_valid = true;
  display_enabled = true;
  dvi_timing_ready = false;
  dvi_format_ready = false;
  dpms_level = on;
  mode_info = some vga;
  depth = 8;
  border = false;
  rgb_format = clut;
  palette = λ i. record { red = i; green = i; blue = i };
  x_offset = pos 0;
  y_offset = pos 0;
  mouse_x = negsuc 4;
  mouse_y = pos 7;
  sprite = record { source = none; width = 16; height = 16; hires = false; big = false };
  soft_sprite_flags = 0;
  cursor = none;
}

abbrev pointing : Board
pointing = record running { cursor = some arrow }

update_cursor_position_lem_example :
    (update_cursor_position pointing ≡ record pointing {
      bus = record {
        mapped = true;
        mmio_size = 0x10000;
        now = 3;
        written =
            (cur_offset, cursor_start pointing arrow)
            ∷ (cur_horz_vert_posn, cursor_position pointing)
            ∷ (cur_horz_vert_off, cursor_origin pointing)
            ∷ [];
      };
    })
    × IsShown pointing arrow
        (cursor_origin pointing)
        (cursor_position pointing)
        (cursor_start pointing arrow)
update_cursor_position_lem_example =
    update_cursor_position_lem pointing arrow refl refl (omega arith) (omega arith) tt (omega arith)

-- The board of `RadeonInitializeCursor`.
abbrev initialized : Board
initialized = (initialize_cursor constant_card same_bytes running true).1

IsValid-memory : IsValid running.memory
IsValid-memory = record { based = omega arith; visible = omega arith; inside = omega arith }

initialize_cursor-IsPrivate_example :
    (c : CursorState) × (initialized.cursor ≡ some c) × IsPrivate initialized c
unfolding initialize_cursor allocate_private_vram
initialize_cursor-IsPrivate_example =
    initialize_cursor-IsPrivate constant_card same_bytes running initialized true IsValid-memory
      refl

-- A mode change, a pan and a coloured cursor.
abbrev session : List Call
session =
    gc (some vga) false
    ∷ dac clut
    ∷ clock
    ∷ display true
    ∷ panning 0x40000000 640 (pos 0) (pos 0) clut
    ∷ sprite true
    ∷ sprite_color 1 255 0 0
    ∷ []

calls-IsContained_example : IsContained (calls constant_card same_bytes pointing session).bus
calls-IsContained_example = calls-IsContained constant_card same_bytes pointing session tt

timed : IsTimed running vga
unfolding validate_mode
timed = record { current = refl; valid = refl; deep = refl }

calls-IsConsistent_example : IsConsistent (calls constant_card same_bytes running session)
calls-IsConsistent_example =
    calls-IsConsistent constant_card same_bytes running session (inr (vga, timed))

-- 13 pixels into a bitmap of 1024 by 480 at 1 MB.
abbrev panned : Scanout
panned = record {
  actual_x = 8;
  offset = 0x100008;
  last = 0x100000 + 8 + 479 * 1024 + 640;
  crtc = 128;
}

find_scanout-IsScanned_example :
    (bytes : ℕ) × (pixel_width : ℕ) × (get_format_info clut ≡ some (bytes, pixel_width))
    × (pitch : ℕ) × (crtc : ℕ) × (calculate_pitch 1024 clut ≡ some (pitch, crtc))
    × IsScanned running vga 0x40100000 13 0 bytes pitch 479 panned
unfolding find_scanout place_scanout calculate_pitch pitch_of
find_scanout-IsScanned_example =
    find_scanout-IsScanned running vga 0x40100000 1024 13 0 479 clut panned timed (omega arith)
      (omega arith) refl
