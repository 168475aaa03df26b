-- ===== src/Display/Cursor.antt =====
-- The hardware cursor (src/radeon_cursor.c). The image is 64 rows of 64 longwords in private video
-- memory.
pub mod Place
pub mod Memory
use r200_p96_driver.Base.{
  ℕ, ◌+◌, ◌-◌, ◌*◌, ◌/◌, ◌^◌, ◌%◌, ℤ, pos, negsuc, ◌-ℤ◌, Bool, true, false, not, ◌&&◌, ◌||◌, Option,
  none, some, ltb, leb, ◌==◌, if◌then◌else◌, bit_and, bit_or, add32, sub32, min,
}
use r200_p96_driver.Regs.Display.{
  crtc_gen_cntl, crtc_cur_en, crtc_cur_mode_mask, crtc_cur_mode_24bpp, cur_offset,
  cur_horz_vert_posn, cur_horz_vert_off, cur_lock,
}
use r200_p96_driver.Mmio.{write32, mask32}
use r200_p96_driver.Vram.{allocate_private_vram, free_private_vram}
use r200_p96_driver.Display.{Board, CursorState, Sprite}

abbrev pub cursor_width : ℕ
cursor_width = 64

abbrev pub cursor_height : ℕ
cursor_height = 64

abbrev pub cursor_stride : ℕ
cursor_stride = 64 * 4

abbrev pub cursor_size : ℕ
cursor_size = cursor_stride * cursor_height

-- `sourceHeight` and `sourceWidth`, and the zoom that halves them.
abbrev pub zoom : Sprite → Bool
zoom s = not s.hires && s.big

abbrev pub halved : Sprite → ℕ → ℕ
halved s n = if zoom s then (n + 1) / 2 else n

abbrev pub source_width : Sprite → ℕ
source_width s = min (halved s (min s.width cursor_width)) (if s.hires then 32 else 16)

-- `sourceY` and `sourceX`
abbrev pub source_place : Sprite → ℕ → ℕ
source_place s n = if zoom s then n / 2 else n

-- `plane0` and `plane1` of a row of the image.
unfoldable pub planes : Sprite → ℕ → ℕ × ℕ
planes s y = elim s.source [
  | none ↦ (0, 0)
  | some word ↦
      let height = min s.height cursor_height in
      let row = if s.hires then 4 + source_place s y * 4 else 2 + source_place s y * 2 in
      if ltb y height && ltb (source_place s y) (halved s height)
      then (if s.hires
          then (
            bit_or (word row * 2 ^ 16) (word (row + 1)),
            bit_or (word (row + 2) * 2 ^ 16) (word (row + 3)),
          )
          else (word row * 2 ^ 16, word (row + 1) * 2 ^ 16))
      else (0, 0)
]

-- `cursor->Colors[value - 1U]`, and zero for the value zero.
abbrev pub cursor_color : CursorState → ℕ → ℕ
cursor_color c value =
    if value == 0
    then 0
    else if value == 1
    then c.color0
    else if value == 2
    then c.color1
    else c.color2

-- `pixel`
unfoldable pub cursor_pixel : CursorState → Sprite → ℕ → ℕ → ℕ
unfolding planes
cursor_pixel c s y x =
    let (plane0, plane1) = planes s y in
    let place = source_place s x in
    let bit = if ltb place (source_width s) then 2 ^ (31 - place) else 0 in
    let value =
      (if bit_and plane0 bit == 0 then 0 else 1) + (if bit_and plane1 bit == 0 then 0 else 2) in
    if ltb x (min s.width cursor_width) then cursor_color c value else 0

-- A coordinate on the display and the part of the cursor that is cut off before it.
abbrev pub clip : ℤ → ℕ × ℕ
clip (pos n) = (n, 0)
clip (negsuc n) = (0, if leb 64 (n + 1) then 63 else n + 1)

-- The three values that `UpdateCursorPosition` writes.
abbrev pub double_scan_mode : Board → Bool
double_scan_mode b = elim b.mode_info [ none ↦ false | some m ↦ m.double_scan ]

abbrev pub cursor_origin : Board → ℕ
cursor_origin b =
    bit_or (bit_or cur_lock ((clip (b.mouse_x -ℤ b.x_offset)).1 * 2 ^ 16))
      (clip (b.mouse_y -ℤ b.y_offset)).1

abbrev pub cursor_position : Board → ℕ
cursor_position b =
    let y = (clip (b.mouse_y -ℤ b.y_offset)).0 in
    bit_or (bit_or cur_lock ((clip (b.mouse_x -ℤ b.x_offset)).0 * 2 ^ 16 % 2 ^ 32))
      (if double_scan_mode b then y * 2 else y)

abbrev pub cursor_start : Board → CursorState → ℕ
cursor_start b c = add32 c.offset ((clip (b.mouse_y -ℤ b.y_offset)).1 * cursor_stride)

-- `UpdateCursorPosition`, which `RadeonRefreshCursorPosition` calls. The results of the writes are not
-- looked at.
unfoldable pub update_cursor_position : Board → Board
update_cursor_position b = elim b.cursor [
  | none ↦ b
  | some c ↦
      let b1 = (write32 b.bus cur_horz_vert_off (cursor_origin b)).1 in
      let b2 = (write32 b1 cur_horz_vert_posn (cursor_position b)).1 in
      record b { bus = (write32 b2 cur_offset (cursor_start b c)).1 }
]

-- A state with one of its colours set.
abbrev pub with_color : CursorState → (index color : ℕ) → CursorState
with_color c index color =
    if index == 0
    then record c { color0 = color }
    else if index == 1
    then record c { color1 = color }
    else record c { color2 = color }

-- `swap` is SWAPLONG of <hardware/byteswap.h>.
module _ (swap : ℕ → ℕ) where
  -- `UploadCursor`, without the last read that flushes the aperture.
  unfoldable pub upload_cursor : Board → Board
  unfolding cursor_pixel
  upload_cursor b = elim b.cursor [
    | none ↦ b
    | some c ↦ record b {
      cursor = some (record c {
        image = λ y x.
            if ltb y cursor_height && ltb x cursor_width
            then swap (cursor_pixel c b.sprite y x)
            else c.image y x;
      });
    }
  ]

  unfoldable pub set_sprite_image : Board → Board
  set_sprite_image b = update_cursor_position (upload_cursor b)

  -- `RadeonSetSpriteColor`, with the state that the board holds.
  unfoldable pub store_color : Board → Option CursorState → (index color : ℕ) → Board
  store_color b none index color = b
  store_color b (some c) index color =
      if leb 3 index
      then b
      else upload_cursor (record b { cursor = some (with_color c index color) })

  -- `red`, `green` and `blue` are bytes.
  abbrev pub set_sprite_color : Board → (index red green blue : ℕ) → Board
  set_sprite_color b index red green blue =
      store_color b b.cursor index
        (bit_or (bit_or (bit_or 0xff000000 (red * 2 ^ 16)) (green * 2 ^ 8)) blue)

-- `RadeonSetSpritePosition`
abbrev pub set_sprite_position : Board → Board
set_sprite_position b = update_cursor_position b

-- `RadeonEnableSoftSprite`
abbrev pub enable_soft_sprite : Board → ℕ → Bool
enable_soft_sprite b format_flags = elim b.cursor [
  | none ↦ true
  | some c ↦ not (bit_and format_flags b.soft_sprite_flags == 0)
]

module _ (hw : ℕ → ℕ → ℕ) where
  -- A read-modify-write whose result is passed on with the board.
  abbrev pub mask_board : Board → ℕ → ℕ → ℕ → Bool × Board
  mask_board b reg clear flags =
      let (done, bus') = mask32 hw b.bus reg clear flags in (done, record b { bus = bus' })

  -- The end of `RadeonSetSprite`.
  unfoldable pub switch_sprite : Board → Bool → Bool × Board
  switch_sprite b true =
      mask_board (update_cursor_position b) crtc_gen_cntl (bit_or crtc_cur_en crtc_cur_mode_mask)
        (bit_or crtc_cur_en crtc_cur_mode_24bpp)
  switch_sprite b false = mask_board b crtc_gen_cntl crtc_cur_en 0

  unfoldable pub set_sprite : Board → Bool → Bool × Board
  set_sprite b active = elim b.cursor [
    | none ↦ (false, b)
    | some c ↦ switch_sprite (record b { cursor = some (record c { visible = active }) }) active
  ]

  -- The state that `RadeonInitializeCursor` stores for an image at an address.
  abbrev pub fresh_cursor : Board → ℕ → CursorState
  fresh_cursor b address = record {
    offset = address - b.memory.memory_base;
    color0 = 0xff000000;
    color1 = 0xffffffff;
    color2 = 0xff808080;
    visible = false;
    image = λ y x. 0;
  }

  -- The end of `RadeonInitializeCursor`, for an image at an address.
  unfoldable pub begin_cursor : (swap : ℕ → ℕ) → Board → ℕ → Board
  begin_cursor swap b address =
      let b2 = record b { cursor = some (fresh_cursor b address) } in
      let b3 = update_cursor_position (upload_cursor swap b2) in
      (mask_board b3 crtc_gen_cntl (bit_or crtc_cur_en crtc_cur_mode_mask) 0).1

  -- `RadeonInitializeCursor`. `state` is whether AllocMem gives the memory of the state.
  unfoldable pub initialize_cursor : (swap : ℕ → ℕ) → Board → (state : Bool) → Bool × Board
  initialize_cursor swap b state = elim b.cursor [
    | some c ↦ (false, b)
    | none ↦ if not state then (false, b) else elim (allocate_private_vram b.memory cursor_size) [
      | none ↦ (false, b)
      | some (address, memory') ↦
          let space = memory'.memory_space_size in
          if ltb space cursor_size
            || ltb address memory'.memory_base
            || ltb (space - cursor_size) (address - memory'.memory_base)
          then (false, record b { memory = (free_private_vram memory' address cursor_size).1 })
          else (true, begin_cursor swap (record b { memory = memory' }) address)
    ]
  ]

  -- `RadeonShutdownCursor`
  unfoldable pub shutdown_cursor : Board → Board
  shutdown_cursor b = elim b.cursor [
    | none ↦ b
    | some c ↦
        let b1 = (mask_board b crtc_gen_cntl (bit_or crtc_cur_en crtc_cur_mode_mask) 0).1 in
        record b1 {
          memory = (free_private_vram b1.memory (b.memory.memory_base + c.offset) cursor_size).1;
          cursor = none;
        }
  ]
