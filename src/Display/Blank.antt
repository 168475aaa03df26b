-- ===== src/Display/Blank.antt =====
-- The vertical blank (src/radeon_mode.c: RadeonGetVBeamPos, InVerticalBlank, RadeonWaitVerticalSync,
-- RadeonGetVSyncState).
use r200_p96_driver.Base.{ℕ, zero, suc, ◌+◌, ◌/◌, ◌^◌, Bool, leb, if◌then◌else◌, bit_and}
use r200_p96_driver.Regs.Display.{crtc_v_total_disp, crtc_vline_crnt_vline, crtc_crnt_vline_mask}
use r200_p96_driver.Mmio.{Bus, read32}

module _ (hw : ℕ → ℕ → ℕ) where
  -- `RadeonGetVBeamPos`
  unfoldable pub get_v_beam_pos : Bus → ℕ × Bus
  get_v_beam_pos b =
      let (value, b') = read32 hw b crtc_vline_crnt_vline in
      (bit_and value crtc_crnt_vline_mask / 2 ^ 16, b')

  -- `InVerticalBlank`, which `RadeonGetVSyncState` returns.
  unfoldable pub in_vertical_blank : Bus → Bool × Bus
  unfolding get_v_beam_pos
  in_vertical_blank b =
      let (value, b1) = read32 hw b crtc_v_total_disp in
      let (line, b2) = get_v_beam_pos b1 in (leb (bit_and (value / 2 ^ 16) 0x7ff + 1) line, b2)

  -- The loop of `RadeonWaitVerticalSync`, with the rounds left.
  unfoldable pub wait_blank : (rounds : ℕ) → Bus → (end : Bool) → Bus
  wait_blank zero b end = b
  wait_blank (suc rounds) b end =
      let (blank, b') = in_vertical_blank b in
      let rest = wait_blank rounds b' end in
      if end then (if blank then rest else b') else (if blank then b' else rest)

  -- `RadeonWaitVerticalSync`
  abbrev pub wait_vertical_sync : Bus → (end : Bool) → Bus
  wait_vertical_sync b end = wait_blank 100000 b end
