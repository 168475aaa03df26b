-- ===== src/Display/Cursor/Place.antt =====
-- Where the cursor is shown, and which of its rows are.
use mathlib.Core.Path.{subst, sym}
use r200_p96_driver.Base.{
  ◌/◌, ◌%◌, refl, bit_or, bit_or-fields, Option, none, Option-cases, false, if◌then◌else◌, ℕ, ◌+◌,
  ◌*◌, ◌^◌, ◌≤◌, ◌<◌, ◌≡◌, ℤ, pos, negsuc, ◌-ℤ◌, true, some, leb, arith, ◌∷◌, inl, inr, ◌⊎◌,
  Bool-cases,
}
use r200_p96_driver.Regs.Display.{cur_lock, cur_offset, cur_horz_vert_posn, cur_horz_vert_off}
use r200_p96_driver.Mmio.{write32}
use r200_p96_driver.Display.{Board, CursorState, ModeInfo}
use r200_p96_driver.Display.Cursor.{
  double_scan_mode, clip, cursor_origin, cursor_position, cursor_start, cursor_size,
  update_cursor_position,
}

-- How a coordinate of the cursor on the display splits into a place and the part that is cut off: on
-- the display nothing is cut off. Before it the place is zero and what sticks out is cut off, and of a
-- cursor that is not seen at all all but one column or row.
abbrev pub Splits : ℤ → (place cut : ℕ) → Type 0
Splits (pos n) place cut = (place ≡ n) × (cut ≡ 0)
Splits (negsuc n) place cut = (place ≡ 0) × (((n < 63) × (cut ≡ n + 1)) ⊎ ((63 ≤ n) × (cut ≡ 63)))

-- Less than 32768 columns or rows behind the origin of the display.
abbrev pub IsNear : ℤ → Type 0
IsNear (pos n) = n < 2 ^ 15
IsNear (negsuc n) = Unit

-- The row of the scan, which a mode with double scan counts twice.
abbrev pub IsRowOf : Option ModeInfo → (row scan : ℕ) → Type 0
IsRowOf none row scan = scan ≡ row
IsRowOf (some m) row scan =
    ((m.double_scan ≡ true) × (scan ≡ row + row)) ⊎ ((m.double_scan ≡ false) × (scan ≡ row))

-- What the card reads in the three registers: in origin and position the lock in bit 31, the columns
-- from bit 16 on and the rows in the low half, and the start of the image behind the rows that are cut
-- off.
pub record IsShown (b : Board) (c : CursorState) (origin position start : ℕ) : Type 0 where
  pub locked : (origin / 2 ^ 31 ≡ 1) × (position / 2 ^ 31 ≡ 1)
  pub across :
      Splits (b.mouse_x -ℤ b.x_offset) (position / 2 ^ 16 % 2 ^ 15) (origin / 2 ^ 16 % 2 ^ 15)
  pub row : ℕ
  pub down : Splits (b.mouse_y -ℤ b.y_offset) row (origin % 2 ^ 16)
  pub scan : IsRowOf b.mode_info row (position % 2 ^ 16)
  pub begins : start ≡ c.offset + origin % 2 ^ 16 * 256
  pub inside : start + 256 ≤ c.offset + 64 * 256

clip-Splits : (z : ℤ) → Splits z (clip z).0 (clip z).1
clip-Splits (pos n) = (refl, refl)
clip-Splits (negsuc n) = elim (Bool-cases (leb 64 (n + 1))) [
  | inl e ↦ rw e (refl, inr (ground (arith, e), refl))
  | inr e ↦ rw e (refl, inl (ground (arith, e), refl))
]

clip_bounds : (z : ℤ) → IsNear z → ((clip z).0 < 2 ^ 15) × ((clip z).1 < 64)
clip_bounds (pos n) h = (h, omega arith)
clip_bounds (negsuc n) h = (omega arith, ground arith)

scan_row : Board → ℕ → ℕ
scan_row b y = if double_scan_mode b then y * 2 else y

scan_row-IsRowOf :
    (b : Board) (y : ℕ)
    → y < 2 ^ 15
    → IsRowOf b.mode_info y (scan_row b y) × (scan_row b y < 2 ^ 16)
unfolding scan_row
scan_row-IsRowOf b y h = elim (Option-cases b.mode_info) [
  | inl e ↦ rw e (refl, omega arith)
  | inr (m, e) ↦ elim (Bool-cases m.double_scan) [
    | inl d ↦ rw (e, d) (inl (refl, omega arith), omega arith)
    | inr d ↦ rw (e, d) (inr (refl, refl), omega arith)
  ]
]

-- The fields of a word that is put together as the two registers are.
packed_fields :
    (high low : ℕ)
    → high < 2 ^ 15
    → low < 2 ^ 16
    → let word = bit_or (bit_or cur_lock (high * 2 ^ 16 % 2 ^ 32)) low in
      (word / 2 ^ 31 ≡ 1) × (word / 2 ^ 16 % 2 ^ 15 ≡ high) × (word % 2 ^ 16 ≡ low)
packed_fields high low h l =
    let lock : bit_or cur_lock (high * 2 ^ 16 % 2 ^ 32) ≡ (2 ^ 15 + high) * 2 ^ 16 =
      omega (arith, bit_or-fields 1 31 (high * 2 ^ 16 % 2 ^ 32)) in
    rw lock (omega (arith, bit_or-fields (2 ^ 15 + high) 16 low))

origin_fields :
    (b : Board)
    → IsNear (b.mouse_x -ℤ b.x_offset)
    → IsNear (b.mouse_y -ℤ b.y_offset)
    → (cursor_origin b / 2 ^ 31 ≡ 1)
      × (cursor_origin b / 2 ^ 16 % 2 ^ 15 ≡ (clip (b.mouse_x -ℤ b.x_offset)).1)
      × (cursor_origin b % 2 ^ 16 ≡ (clip (b.mouse_y -ℤ b.y_offset)).1)
origin_fields b near_x near_y =
    let cut_x = (clip (b.mouse_x -ℤ b.x_offset)).1 in
    let cut_y = (clip (b.mouse_y -ℤ b.y_offset)).1 in
    let small_x = (clip_bounds (b.mouse_x -ℤ b.x_offset) near_x).1 in
    let small_y = (clip_bounds (b.mouse_y -ℤ b.y_offset) near_y).1 in
    let whole : cut_x * 2 ^ 16 % 2 ^ 32 ≡ cut_x * 2 ^ 16 = omega (arith, small_x) in
    rw whole at (packed_fields cut_x cut_y (omega (arith, small_x)) (omega (arith, small_y)))

position_fields :
    (b : Board)
    → IsNear (b.mouse_x -ℤ b.x_offset)
    → IsNear (b.mouse_y -ℤ b.y_offset)
    → let row = (clip (b.mouse_y -ℤ b.y_offset)).0 in
      (cursor_position b / 2 ^ 31 ≡ 1)
      × (cursor_position b / 2 ^ 16 % 2 ^ 15 ≡ (clip (b.mouse_x -ℤ b.x_offset)).0)
      × (cursor_position b % 2 ^ 16 ≡ scan_row b row)
unfolding scan_row
position_fields b near_x near_y =
    let row = (clip (b.mouse_y -ℤ b.y_offset)).0 in
    packed_fields (clip (b.mouse_x -ℤ b.x_offset)).0 (scan_row b row)
      (clip_bounds (b.mouse_x -ℤ b.x_offset) near_x).0
      (scan_row-IsRowOf b row (clip_bounds (b.mouse_y -ℤ b.y_offset) near_y).0).1

cursor-IsShown :
    (b : Board) (c : CursorState)
    → IsNear (b.mouse_x -ℤ b.x_offset)
    → IsNear (b.mouse_y -ℤ b.y_offset)
    → c.offset + cursor_size ≤ 2 ^ 32
    → IsShown b c (cursor_origin b) (cursor_position b) (cursor_start b c)
cursor-IsShown b c near_x near_y g =
    let x = b.mouse_x -ℤ b.x_offset in
    let y = b.mouse_y -ℤ b.y_offset in
    let o = origin_fields b near_x near_y in
    let p = position_fields b near_x near_y in
    let cut = (clip_bounds y near_y).1 in
    record {
      locked = (o.0, p.0);
      across =
          subst (Splits x (cursor_position b / 2 ^ 16 % 2 ^ 15)) (sym o.1)
            (subst (λ place. Splits x place (clip x).1) (sym p.1) (clip-Splits x));
      row = (clip y).0;
      down = subst (Splits y (clip y).0) (sym o.2) (clip-Splits y);
      scan =
          subst (IsRowOf b.mode_info (clip y).0) (sym p.2)
            (scan_row-IsRowOf b (clip y).0 (clip_bounds y near_y).0).0;
      begins = omega (arith, g, cut, o.2);
      inside = omega (arith, g, cut);
    }

-- With a window that holds the cursor registers, an image that does not wrap around the address space,
-- and a mouse less than 32768 columns and rows behind the origin of the display, `UpdateCursorPosition`
-- writes the origin, the position and the start, in that order and nothing else. The fields of the
-- position are the mouse's place on the display, with the row counted twice in a mode with double scan,
-- or zero where the cursor sticks out before the display; the fields of the origin are what is cut off
-- there, at most 63. Both have the lock set, and the image starts at the first row that is not cut off,
-- which lies in it.
pub update_cursor_position_lem :
    (b : Board) (c : CursorState)
    → b.cursor ≡ some c
    → b.bus.mapped ≡ true
    → 0x26c ≤ b.bus.mmio_size
    → c.offset + cursor_size ≤ 2 ^ 32
    → IsNear (b.mouse_x -ℤ b.x_offset)
    → IsNear (b.mouse_y -ℤ b.y_offset)
    → (update_cursor_position b ≡ record b {
      bus = record {
        mapped = true;
        mmio_size = b.bus.mmio_size;
        now = b.bus.now + 3;
        written =
            (cur_offset, cursor_start b c)
            ∷ (cur_horz_vert_posn, cursor_position b)
            ∷ (cur_horz_vert_off, cursor_origin b)
            ∷ b.bus.written;
      };
    })
      × IsShown b c (cursor_origin b) (cursor_position b) (cursor_start b c)
unfolding update_cursor_position write32
update_cursor_position_lem b c e m h g near_x near_y =
    (rw (e, m) (ground (arith, h)), cursor-IsShown b c near_x near_y g)
