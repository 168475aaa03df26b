-- ===== src/Bios/Tables.antt =====
-- The tables that start the card (src/radeon_bios.c: WaitPll, WaitMemoryReady, LoadInitTable,
-- LoadPllTable, FindRamResetTable, ResetSdram). An offset into the image is less than its size when it
-- grows, so that no sum wraps. Delays take no step.
pub mod Commands
use r200_p96_driver.Base.{
  ℕ, zero, suc, ◌+◌, ◌*◌, ◌/◌, ◌^◌, ◌%◌, ◌-◌, Bool, true, false, not, ◌&&◌, ◌||◌, leb, ltb, ◌==◌,
  if◌then◌else◌, bit_and, bit_or, not32,
}
use r200_p96_driver.Regs.Post.{
  clk_pwrmgt_cntl, mem_str_cntl, mem_pwrup_complete, mc_busy, dll_ready, clk_pwrmgt_cntl24,
  mclk_cntl, set_all_srcs_to_pci, mem_sdram_mode_reg, sdram_mode_mask, b3mem_reset_mask,
}
use r200_p96_driver.Mmio.{
  Bus, write32, mask32, read_indexed, write_indexed, mask_indexed, read_pll, write_pll, mask_pll,
}
use r200_p96_driver.Bios.{Bios, bios_has, bios8, bios16, bios32}

-- `entries++ < 4096`
abbrev pub max_entries : ℕ
max_entries = 4096

abbrev pub same : Bool → Bool → Bool
same true q = q
same false q = not q

-- Whether an entry was obeyed, where the next one begins, and the bus.
abbrev pub Obeyed : Type 0
Obeyed = Bool × ℕ × Bus

abbrev pub obeyed : Bool × Bus → (offset : ℕ) → Obeyed
obeyed (done, bus) offset = (done, offset, bus)

-- The loop that the three tables share, with the entries that are left. A table is read by `present` and
-- `read`, an entry begins with `width` bytes, and `last` ends the table.
pub record Reader : Type 0 where
  pub present : ℕ → Bool
  pub read : ℕ → ℕ
  pub last : ℕ
  pub width : ℕ

unfoldable pub entries :
    Reader → (entry : (value offset : ℕ) → Bus → Obeyed) → (left offset : ℕ) → Bus → Bool × Bus
entries r entry zero offset bus = (false, bus)
entries r entry (suc left) offset bus = elim (r.present offset) [
  | false ↦ (false, bus)
  | true ↦ elim (r.read offset == r.last) [
    | true ↦ (true, bus)
    | false ↦
        let (done, next, bus') = entry (r.read offset) (offset + r.width) bus in
        elim done [ false ↦ (false, bus') | true ↦ entries r entry left next bus' ]
  ]
]

abbrev pub init_reader : Bios → Reader
init_reader b = record {
  present = λ offset. bios_has b offset 2;
  read = bios16 b;
  last = 0;
  width = 2;
}

abbrev pub pll_reader : Bios → Reader
pll_reader b = record {
  present = λ offset. bios_has b offset 1;
  read = bios8 b;
  last = 0;
  width = 1;
}

abbrev pub sdram_reader : Bios → Reader
sdram_reader b = record {
  present = λ offset. bios_has b offset 1;
  read = bios8 b;
  last = 0xff;
  width = 1;
}

-- `FindRamResetTable`, with as much fuel as the image has bytes.
unfoldable pub skip_bytes : Bios → (fuel offset : ℕ) → ℕ
skip_bytes b zero offset = offset
skip_bytes b (suc fuel) offset =
    let rest = skip_bytes b fuel (offset + 1) in
    if bios_has b offset 1 && not (bios8 b offset == 0) then rest else offset

unfoldable pub find_ram_reset_table : Bios → (memory : ℕ) → ℕ
unfolding skip_bytes
find_ram_reset_table b memory =
    let offset = skip_bytes b (b.image_size + 1) memory in
    if memory == 0
    then 0
    else if not (bios_has b offset 3)
    then 0
    else if leb (offset + 3) 0xffff
    then offset + 3
    else 0

module _ (hw : ℕ → ℕ → ℕ) where
  -- `WaitPll`
  pub wait_pll : Bus → (mask : ℕ) → (wanted : Bool) → (count : ℕ) → Bool × Bus
  wait_pll bus mask wanted zero = (false, bus)
  wait_pll bus mask wanted (suc count) =
      let (value, bus') = read_pll hw bus clk_pwrmgt_cntl in
      elim (same (not (bit_and value mask == 0)) wanted) [
        | true ↦ (true, bus')
        | false ↦ wait_pll bus' mask wanted count
      ]

  -- `WaitMemoryReady`
  pub wait_memory_ready : Bus → (count : ℕ) → Bool × Bus
  wait_memory_ready bus zero = (false, bus)
  wait_memory_ready bus (suc count) =
      let (value, bus') = read_indexed hw bus mem_str_cntl in
      elim (bit_and value mem_pwrup_complete == mem_pwrup_complete) [
        | true ↦ (true, bus')
        | false ↦ wait_memory_ready bus' count
      ]

  -- The case `TABLE_SPECIAL`.
  pub init_special : (value count : ℕ) → Bus → Bool × Bus
  init_special value count bus =
      if bit_and value 0xff == 3
      then wait_pll bus mc_busy false count
      else if bit_and value 0xff == 8
      then wait_memory_ready bus count
      else (false, bus)

  -- The `switch` of `LoadInitTable`, for an entry whose operands stand at `offset`.
  pub init_entry : Bios → (value offset : ℕ) → Bus → Obeyed
  init_entry b value offset bus =
      let flag = bit_and value 0xe000 in
      let index = bit_and value 0x1fff in
      let failed : Obeyed = (false, offset, bus) in
      if flag == 0
      then (if bios_has b offset 4
          then obeyed (write_indexed bus index (bios32 b offset)) (offset + 4)
          else failed)
      else if flag == 0x2000
      then (if bios_has b offset 4
          then obeyed (write32 bus index (bios32 b offset)) (offset + 4)
          else failed)
      else if flag == 0x4000
      then (if bios_has b offset 8
          then obeyed (mask_indexed hw bus index (bios32 b offset) (bios32 b (offset + 4)))
              (offset + 8)
          else failed)
      else if flag == 0x6000
      then (if bios_has b offset 8
          then obeyed (mask32 hw bus index (not32 (bios32 b offset)) (bios32 b (offset + 4)))
              (offset + 8)
          else failed)
      else if flag == 0x8000
      then (if bios_has b offset 2 then (true, offset + 2, bus) else failed)
      else if flag == 0xa000
      then (if bios_has b offset 2
          then obeyed (init_special value (bios16 b offset) bus) (offset + 2)
          else failed)
      else failed

  -- `LoadInitTable`
  pub load_init_table : Bios → (table : ℕ) → Bus → Bool × Bus
  load_init_table b table bus =
      if table == 0
      then (true, bus)
      else entries (init_reader b) (init_entry b) max_entries table bus

  -- The case `PLL_MASK_BYTE`, with the byte for the lane at `offset`.
  pub pll_mask_byte : Bios → (index offset : ℕ) → Bus → Obeyed
  pll_mask_byte b index offset bus =
      let lane = bios8 b offset in
      let shift = lane * 8 in
      let and_mask =
        bit_or (not32 (0xff * 2 ^ shift % 2 ^ 32)) (bios8 b (offset + 1) * 2 ^ shift % 2 ^ 32) in
      let or_mask = bios8 b (offset + 2) * 2 ^ shift % 2 ^ 32 in
      if not (bios_has b offset 3)
      then (false, offset, bus)
      else if ltb 3 lane
      then (false, offset + 1, bus)
      else obeyed (mask_pll hw bus index and_mask or_mask) (offset + 3)

  -- The case `PLL_WAIT_POWER_BIT`.
  pub pll_power_bit : Bus → Bool × Bus
  pll_power_bit bus =
      let (power, b1) = read_pll hw bus clk_pwrmgt_cntl in
      let (masked, b2) = mask_pll hw b1 mclk_cntl 0xffff0000 set_all_srcs_to_pci in
      if bit_and power clk_pwrmgt_cntl24 == 0
      then (true, b1)
      else if not masked
      then (false, b2)
      else write_pll b2 clk_pwrmgt_cntl (bit_and power (not32 clk_pwrmgt_cntl24))

  -- The case `PLL_WAIT`.
  pub pll_wait : (index : ℕ) → Bus → Bool × Bus
  unfolding pll_power_bit
  pll_wait index bus =
      if (index == 1) || (index == 2)
      then (true, bus)
      else if index == 3
      then wait_pll bus mc_busy false 1000
      else if index == 4
      then wait_pll bus dll_ready true 1000
      else if index == 5
      then pll_power_bit bus
      else (false, bus)

  -- The `switch` of `LoadPllTable`, for an entry whose operands stand at `offset`.
  pub pll_entry : Bios → (value offset : ℕ) → Bus → Obeyed
  unfolding pll_mask_byte pll_wait
  pll_entry b value offset bus =
      let flag = bit_and value 0xc0 in
      let index = bit_and value 0x3f in
      if flag == 0
      then (if bios_has b offset 4
          then obeyed (write_pll bus index (bios32 b offset)) (offset + 4)
          else (false, offset, bus))
      else if flag == 0x40
      then pll_mask_byte b index offset bus
      else if flag == 0x80
      then obeyed (pll_wait index bus) offset
      else (false, offset, bus)

  -- `LoadPllTable`
  pub load_pll_table : Bios → (table : ℕ) → Bus → Bool × Bus
  load_pll_table b table bus =
      if table == 0 then (true, bus) else entries (pll_reader b) (pll_entry b) max_entries table bus

  -- An entry of the table for the SDRAM: `index` and, behind it, the mode.
  pub sdram_entry : Bios → (index offset : ℕ) → Bus → Obeyed
  sdram_entry b index offset bus =
      let (moded, b1) = mask_indexed hw bus mem_sdram_mode_reg sdram_mode_mask (bios16 b offset) in
      if index == 0x0f
      then obeyed (wait_memory_ready bus 20000) offset
      else if not (bios_has b offset 2)
      then (false, offset, bus)
      else if not moded
      then (false, offset + 2, b1)
      else obeyed (mask_indexed hw b1 mem_sdram_mode_reg b3mem_reset_mask (index * 2 ^ 24))
          (offset + 2)

  -- `ResetSdram`
  pub reset_sdram : Bios → (table : ℕ) → Bus → Bool × Bus
  reset_sdram b table bus =
      if table == 0
      then (true, bus)
      else entries (sdram_reader b) (sdram_entry b) max_entries table bus
