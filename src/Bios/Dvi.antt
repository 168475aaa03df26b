-- ===== src/Bios/Dvi.antt =====
-- The tables for DVI (src/radeon_bios.c: LoadDviInfo).
pub mod Rows
pub mod Selecting
use r200_p96_driver.Base.{
  ℕ, zero, suc, ◌+◌, ◌*◌, ◌/◌, ◌^◌, ◌%◌, ◌-◌, Bool, true, false, not, ◌&&◌, ◌||◌, leb, ltb, ◌==◌,
  if◌then◌else◌, bit_and, Option, none, some, List, [], ◌∷◌,
}
use r200_p96_driver.Display.{TmdsPll}
use r200_p96_driver.Bios.{Bios, bios_has, bios8, bios16, bios32}
use r200_p96_driver.Bios.Header.{
  table_offset, combios_ext_tmds_info, combios_connector_info, combios_dfp_info,
}

-- `struct RadeonDviInfo`, with the rows that `PllCount` counts.
pub record DviInfo : Type 0 where
  pub pll : List TmdsPll
  pub connector_type : ℕ
  pub ddc_type : ℕ

-- The loop over the connectors, with the rounds left: `none` is a `return` from within, and the pair
-- is the type of the connector and its DDC line, zeros where no connector is a DVI one.
unfoldable pub find_connector : Bios → (entry rounds : ℕ) → Option (ℕ × ℕ)
find_connector b entry zero = some (0, 0)
find_connector b entry (suc rounds) =
    let rest = find_connector b (entry + 2) rounds in
    let value = bios16 b entry in
    let type = bit_and (value / 2 ^ 12) 0x0f in
    if not (bios_has b entry 2)
    then none
    else if value == 0
    then some (0, 0)
    else if (type == 3) || (type == 4)
    then some (type, bit_and (value / 2 ^ 8) 0x0f)
    else rest

-- The loop over the rows of the PLL, with the rounds left. `first` is whether `index` is zero.
unfoldable pub pll_rows : Bios → (revision row previous : ℕ) → (first : Bool) → ℕ → List TmdsPll
pll_rows b revision row previous first zero = []
pll_rows b revision row previous first (suc rounds) =
    let value = bios32 b (row + 8) in
    let limit = bios16 b (row + 0x10) in
    let step = if (revision == 3) || first then 10 else 6 in
    let rest = pll_rows b revision ((row + step) % 2 ^ 16) limit false rounds in
    if not (bios_has b (row + 8) 10)
    then []
    else if (value == 0) || (limit == 0) || leb limit previous
    then []
    else (record { limit_10khz = limit; value = value }) ∷ rest

-- The end of the function: an empty table is given back.
abbrev pub dvi_info : List TmdsPll → ℕ × ℕ → Option DviInfo
dvi_info [] found = none
dvi_info (p ∷ rest) (type, ddc) =
    some (record { pll = p ∷ rest; connector_type = type; ddc_type = ddc })

-- The second half, behind the loop over the connectors.
unfoldable pub load_rows : Bios → (dfp : ℕ) → (allocated : Bool) → ℕ × ℕ → Option DviInfo
load_rows b dfp allocated (type, ddc) =
    let revision = bios8 b dfp in
    let count = (bios8 b (dfp + 5) + 1) % 2 ^ 8 in
    if (type == 0) || (not (revision == 3) && not (revision == 4)) || (count == 0)
    then none
    else if not allocated
    then none
    else dvi_info (pll_rows b revision dfp 0 true (if ltb 4 count then 4 else count)) (type, ddc)

abbrev pub load_found : Bios → (dfp : ℕ) → (allocated : Bool) → Option (ℕ × ℕ) → Option DviInfo
load_found b dfp allocated none = none
load_found b dfp allocated (some found) = load_rows b dfp allocated found

-- `LoadDviInfo`: the new `data->DviInfo`, or `none` where it is left alone. `requested` is whether the
-- user asked for DVI, `allocated` whether the system gives the memory.
unfoldable pub load_dvi_info : Bios → (requested allocated : Bool) → Option DviInfo
unfolding find_connector load_rows
load_dvi_info b requested allocated =
    let connector = table_offset b combios_connector_info in
    let dfp = table_offset b combios_dfp_info in
    if not requested || not (table_offset b combios_ext_tmds_info == 0)
    then none
    else if (connector == 0)
        || (dfp == 0)
        || not (bios_has b (connector + 2) 2)
        || not (bios_has b dfp 6)
    then none
    else load_found b dfp allocated (find_connector b (connector + 2) 4)
