-- ===== src/Mmio.antt =====
-- Register access (src/radeon9200.c): the bounded MMIO window, read-modify-write, the indexed
-- registers and the PLL registers behind an index and a data register.
pub mod Window
pub mod Chain
use r200_p96_driver.Base.{
  ℕ, ◌+◌, ◌-◌, Bool, true, false, not, ◌&&◌, ◌||◌, List, [], ◌∷◌, ltb, ◌==◌, if◌then◌else◌, bit_and,
  bit_or, not32,
}

-- What the accesses depend on and change: the window of `struct RadeonBoardData`, the number of
-- hardware accesses so far, and the register writes, the latest first.
pub record Bus : Type 0 where
  pub mapped : Bool
  pub mmio_size : ℕ
  pub now : ℕ
  pub written : List (ℕ × ℕ)

abbrev pub mm_index : ℕ
mm_index = 0x0000

abbrev pub mm_data : ℕ
mm_data = 0x0004

abbrev pub clock_cntl_index : ℕ
clock_cntl_index = 0x0008

abbrev pub clock_cntl_data : ℕ
clock_cntl_data = 0x000c

-- The guard that `RadeonRead32` and `RadeonWrite32` begin with.
abbrev pub is_refused : Bus → ℕ → Bool
is_refused b reg =
    not b.mapped || ltb b.mmio_size 4 || not (bit_and reg 3 == 0) || ltb (b.mmio_size - 4) reg

unfoldable pub write32 : Bus → ℕ → ℕ → Bool × Bus
write32 b reg value =
    if is_refused b reg
    then (false, b)
    else (true, record b { now = b.now + 1; written = (reg, value) ∷ b.written })

-- `hw t reg` is what the card answers to the access number `t`, a read of `reg`.
module _ (hw : ℕ → ℕ → ℕ) where
  unfoldable pub read32 : Bus → ℕ → ℕ × Bus
  read32 b reg = if is_refused b reg then (0, b) else (hw b.now reg, record b { now = b.now + 1 })

  pub mask32 : Bus → ℕ → ℕ → ℕ → Bool × Bus
  mask32 b reg clear flags =
      if is_refused b reg
      then (false, b)
      else let (value, b') = read32 b reg in
        write32 b' reg (bit_or (bit_and value (not32 clear)) flags)

  pub read_indexed : Bus → ℕ → ℕ × Bus
  read_indexed b index =
      let (done, b') = write32 b mm_index index in if done then read32 b' mm_data else (0, b')

  pub read_pll : Bus → ℕ → ℕ × Bus
  read_pll b index =
      let (done, b') = write32 b clock_cntl_index (bit_and index 0x3f) in
      if done then read32 b' clock_cntl_data else (0, b')

pub write_indexed : Bus → ℕ → ℕ → Bool × Bus
write_indexed b index value =
    let (done, b') = write32 b mm_index index in
    if done then write32 b' mm_data value else (false, b')

pub write_pll : Bus → ℕ → ℕ → Bool × Bus
write_pll b index value =
    let (selected, b1) = write32 b clock_cntl_index (bit_or (bit_and index 0x3f) 0x80) in
    let (stored, b2) = write32 b1 clock_cntl_data value in
    if selected
    then (if stored then write32 b2 clock_cntl_index 0 else (false, b2))
    else (false, b1)

module _ (hw : ℕ → ℕ → ℕ) where
  pub mask_indexed : Bus → ℕ → ℕ → ℕ → Bool × Bus
  mask_indexed b index and_mask or_mask =
      let (value, b') = read_indexed hw b index in
      write_indexed b' index (bit_or (bit_and value and_mask) or_mask)

  pub mask_pll : Bus → ℕ → ℕ → ℕ → Bool × Bus
  mask_pll b index and_mask or_mask =
      let (value, b') = read_pll hw b index in
      write_pll b' index (bit_or (bit_and value and_mask) or_mask)
