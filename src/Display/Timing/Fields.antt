-- ===== src/Display/Timing/Fields.antt =====
-- The CRTC's timing registers hold the timing of a validated mode.
use r200_p96_driver.Base.{
  ℕ, ◌+◌, ◌-◌, ◌*◌, ◌/◌, ◌^◌, ◌%◌, ◌≤◌, ◌<◌, ◌≡◌, Bool, true, false, if◌then◌else◌, bit_or, arith,
  bit_and-ones, bit_and-field, bit_or-low_first,
}
use r200_p96_driver.Display.{ModeInfo}
use r200_p96_driver.Display.Timing.{
  h_sync_size, rows, h_sync_start, v_sync_start, validate_mode, polarity, h_total_display, h_sync,
  v_total_display, v_sync,
}

h_sync_size-rounded : (size : ℕ) → size ≤ 504 → h_sync_size size ≡ (size + 4) / 8 * 8
h_sync_size-rounded size h = omega (arith, bit_and-field 29 3 (size + 4))

-- What a validated mode satisfies, as plain inequalities.
record Limits (m : ModeInfo) : Type 0 where
  width : (8 ≤ m.width) × (m.width ≤ 4096) × (m.width % 8 ≡ 0)
  total : (m.hor_total ≤ 8192) × (m.hor_total % 8 ≡ 0)
  sync :
      (8 ≤ h_sync_size m.hor_sync_size)
      × (h_sync_size m.hor_sync_size ≤ 504)
      × (h_sync_size m.hor_sync_size % 8 ≡ 0)
  start : h_sync_start m ≤ 8199
  h_end : h_sync_start m + h_sync_size m.hor_sync_size ≤ m.hor_total
  height : (1 ≤ rows m m.height) × (rows m m.ver_total ≤ 2048)
  v_size : (1 ≤ rows m m.ver_sync_size) × (rows m m.ver_sync_size ≤ 31)
  v_end : v_sync_start m + rows m m.ver_sync_size ≤ rows m m.ver_total

validate_mode-Limits : (m : ModeInfo) → validate_mode m ≡ true → Limits m
unfolding validate_mode
validate_mode-Limits m h = record {
  width = ground (arith, h, bit_and-ones 3 m.width);
  total = ground (arith, h, bit_and-ones 3 m.hor_total);
  sync = ground (arith, h, h_sync_size-rounded m.hor_sync_size);
  start = ground (arith, h);
  h_end = ground (arith, h);
  height = ground (arith, h);
  v_size = ground (arith, h);
  v_end = ground (arith, h);
}

-- A start, a size and a polarity, read from a sync register.
abbrev pub IsSync : ℕ → ℕ → ℕ → Bool → Type 0
IsSync value start size asked =
    (value % 2 ^ 16 ≡ start)
    × (value / 2 ^ 16 % 2 ^ 7 ≡ size)
    × (value / 2 ^ 23 ≡ (if asked then 1 else 0))

polarity-IsSync :
    (asked : Bool) (start size : ℕ)
    → start < 2 ^ 16
    → size < 2 ^ 7
    → IsSync (polarity asked (2 ^ 23) (bit_or start (size * 2 ^ 16))) start size asked
polarity-IsSync false start size h g = ground (arith, bit_or-low_first size 16 start)
polarity-IsSync true start size h g =
    ground (arith, bit_or-low_first size 16 start, bit_or-low_first 1 23 (size * 2 ^ 16 + start))

-- The four registers of a mode: totals and display sizes less one, in units of eight pixels across,
-- in the widths that the card has for them, and the sync pulses with their ends inside the totals.
pub record IsProgrammed (m : ModeInfo) : Type 0 where
  pub across :
      ((h_total_display m % 2 ^ 16 + 1) * 8 ≡ m.hor_total)
      × ((h_total_display m / 2 ^ 16 + 1) * 8 ≡ m.width)
  pub across_fits : (h_total_display m % 2 ^ 16 < 2 ^ 10) × (h_total_display m / 2 ^ 16 < 2 ^ 9)
  pub down :
      (v_total_display m % 2 ^ 16 + 1 ≡ rows m m.ver_total)
      × (v_total_display m / 2 ^ 16 + 1 ≡ rows m m.height)
  pub down_fits : (v_total_display m % 2 ^ 16 < 2 ^ 11) × (v_total_display m / 2 ^ 16 < 2 ^ 11)
  pub h_pulse :
      IsSync (h_sync m) (h_sync_start m - 8) (h_sync_size m.hor_sync_size / 8) m.h_polarity
  pub h_pulse_fits :
      (h_sync_start m - 8 < 2 ^ 13)
      × (1 ≤ h_sync_size m.hor_sync_size / 8)
      × (h_sync_size m.hor_sync_size / 8 < 2 ^ 6)
  pub v_pulse : IsSync (v_sync m) (v_sync_start m - 1) (rows m m.ver_sync_size) m.v_polarity
  pub v_pulse_fits :
      (v_sync_start m - 1 < 2 ^ 11)
      × (1 ≤ rows m m.ver_sync_size)
      × (rows m m.ver_sync_size < 2 ^ 5)
  pub h_end : h_sync_start m + h_sync_size m.hor_sync_size ≤ m.hor_total
  pub v_end : v_sync_start m + rows m m.ver_sync_size ≤ rows m m.ver_total

-- Two fields, read from a register of which the low one comes first.
two_fields :
    (low high : ℕ)
    → low < 2 ^ 16
    → (let value = bit_or low (high * 2 ^ 16) in (value % 2 ^ 16 ≡ low) × (value / 2 ^ 16 ≡ high))
two_fields low high h = ground (arith, bit_or-low_first high 16 low)

-- For a mode that `ValidateMode` accepts, the four timing registers hold its totals, sizes, sync
-- starts, sync sizes and polarities in the widths that the card has for them, and both sync
-- pulses end inside the totals.
pub validate_mode-IsProgrammed : (m : ModeInfo) → validate_mode m ≡ true → IsProgrammed m
unfolding h_total_display h_sync v_total_display v_sync
validate_mode-IsProgrammed m h =
    let l = validate_mode-Limits m h in
    let across = two_fields (m.hor_total / 8 - 1) (m.width / 8 - 1) (omega (arith, l.total)) in
    let down =
      two_fields (rows m m.ver_total - 1) (rows m m.height - 1) (omega (arith, l.height)) in
    record {
      across = omega (arith, across, l.width, l.total, l.h_end, l.sync);
      across_fits = omega (arith, across, l.width, l.total);
      down = omega (arith, down, l.height, l.v_end, l.v_size);
      down_fits = omega (arith, down, l.height, l.v_end, l.v_size);
      h_pulse = polarity-IsSync m.h_polarity _ _ (omega (arith, l.start)) (omega (arith, l.sync));
      h_pulse_fits = omega (arith, l.start, l.sync);
      v_pulse =
          polarity-IsSync m.v_polarity _ _ (omega (arith, l.v_end, l.height))
            (omega (arith, l.v_size));
      v_pulse_fits = omega (arith, l.v_end, l.height, l.v_size);
      h_end = l.h_end;
      v_end = l.v_end;
    }
