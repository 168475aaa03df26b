-- ===== src/Bios/Header.antt =====
-- The header of the COMBIOS and its directory (src/radeon_bios.c: ParseHeader, TableOffset,
-- MiscTableOffset, BiosMemorySize).
pub mod Sound
use r200_p96_driver.Base.{
  ℕ, ◌+◌, ◌*◌, ◌^◌, ◌-◌, Bool, true, false, not, ◌&&◌, ◌||◌, leb, ltb, ◌==◌, if◌then◌else◌,
}
use r200_p96_driver.Bios.{Rom, Bios, bios_has, bios_min_table, bios_header_pointer, bios8, bios16}

-- The fields of the directory.
abbrev pub combios_asic_init_1 : ℕ
combios_asic_init_1 = 0x0c

abbrev pub combios_pll_info : ℕ
combios_pll_info = 0x30

abbrev pub combios_dfp_info : ℕ
combios_dfp_info = 0x34

abbrev pub combios_pll_init : ℕ
combios_pll_init = 0x46

abbrev pub combios_mem_config : ℕ
combios_mem_config = 0x48

abbrev pub combios_asic_init_2 : ℕ
combios_asic_init_2 = 0x4e

abbrev pub combios_connector_info : ℕ
combios_connector_info = 0x50

abbrev pub combios_dyn_clock : ℕ
combios_dyn_clock = 0x52

abbrev pub combios_ext_tmds_info : ℕ
combios_ext_tmds_info = 0x58

abbrev pub combios_misc_info : ℕ
combios_misc_info = 0x5e

-- The four bytes that mark an ATOMBIOS, in either order.
abbrev pub spells : Rom → (offset a b c d : ℕ) → Bool
spells image offset a b c d =
    image offset == a
    && image (offset + 1) == b
    && image (offset + 2) == c
    && image (offset + 3) == d

abbrev pub is_atom : Rom → ℕ → Bool
is_atom image offset =
    spells image offset b'A' b'T' b'O' b'M' || spells image offset b'M' b'O' b'T' b'A'

-- `ParseHeader`, behind the search for the header.
abbrev pub parsed : Bios → ℕ → Bios
parsed b header = record b {
  header = header;
  revision = bios8 b header;
  directory_size = bios8 b (header + 6);
}

-- `ParseHeader`
unfoldable pub parse_header : Bios → Bool × Bios
parse_header b =
    let header = bios16 b bios_header_pointer in
    if not (bios_has b bios_header_pointer 2)
    then (false, b)
    else if ltb header bios_min_table || not (bios_has b header 8)
    then (false, b)
    else if is_atom b.image (header + 4)
    then (false, b)
    else (
      leb (parsed b header).revision 0x10
          && leb 0x32 (parsed b header).directory_size
          && bios_has b header (parsed b header).directory_size,
      parsed b header,
    )

-- The end of both functions for offsets.
unfoldable pub checked_offset : Bios → ℕ → ℕ
checked_offset b offset =
    if ltb offset bios_min_table || not (bios_has b offset 1) then 0 else offset

-- `TableOffset`
unfoldable pub table_offset : Bios → ℕ → ℕ
unfolding checked_offset
table_offset b field =
    if leb b.directory_size (field + 1) then 0 else checked_offset b (bios16 b (b.header + field))

-- `MiscTableOffset`
unfoldable pub misc_table_offset : Bios → ℕ → ℕ
misc_table_offset b field =
    let misc = table_offset b combios_misc_info in
    if (misc == 0) || (bios8 b misc == 0) || not (bios_has b (misc + field) 2)
    then 0
    else checked_offset b (bios16 b (misc + field))

-- What the table of the detected memory says, in megabytes.
abbrev pub detected_megabytes : Bios → ℕ → ℕ
detected_megabytes b detected =
    if not (detected == 0) && bios_has b detected 7 && ltb (bios8 b detected) 3
    then bios16 b (detected + 5)
    else 0

-- What the table of the memory configuration says.
abbrev pub configured_megabytes : Bios → ℕ → ℕ
configured_megabytes b memory =
    if not (memory == 0) && bios_has b (memory - 1) 2
    then (if leb 1 (bios8 b (memory - 1)) then bios8 b memory * 2 else bios8 b memory)
    else 0

-- `megabytes`
abbrev pub bios_megabytes : Bios → ℕ
bios_megabytes b =
    let detected = detected_megabytes b (misc_table_offset b 7) in
    if detected == 0 then configured_megabytes b (table_offset b combios_mem_config) else detected

-- `BiosMemorySize`
unfoldable pub bios_memory_size : Bios → ℕ
bios_memory_size b =
    if ltb (bios_megabytes b) 4 || ltb 512 (bios_megabytes b)
    then 0
    else bios_megabytes b * 1024 * 1024
