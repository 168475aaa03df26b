-- ===== src/Bios/Start.antt =====
-- Bringing the card up (src/radeon_bios.c: RomSize, LoadRom, RadeonInitializeHardware).
pub mod Started
use r200_p96_driver.Base.{
  ℕ, ◌+◌, ◌-◌, ◌*◌, ◌^◌, Bool, true, false, not, ◌&&◌, ◌||◌, leb, ltb, ◌==◌, if◌then◌else◌, bit_and,
  bit_or, Option, none, some, List, [], ◌∷◌,
}
use r200_p96_driver.Regs.Post.{config_memsize, config_aper_size}
use r200_p96_driver.Mmio.{Bus, read32, write32}
use r200_p96_driver.Display.{Clocks}
use r200_p96_driver.Bios.{Rom, Bios, bios_max_size, rom_signature_valid}
use r200_p96_driver.Bios.Image.{Roms, select_x86_image}
use r200_p96_driver.Bios.Header.{parse_header, bios_memory_size}
use r200_p96_driver.Bios.Clock.{load_clock_info}
use r200_p96_driver.Bios.Dvi.{DviInfo, load_dvi_info}
use r200_p96_driver.Bios.Post.{is_posted, post_card}
use r200_p96_driver.Bios.Location.{copy_disabled_rom, set_framebuffer_location}

abbrev pub framebuffer_min_size : ℕ
framebuffer_min_size = 0x0040_0000

abbrev pub rom_enable : ℕ
rom_enable = 1

abbrev pub rom_mask : ℕ
rom_mask = 0xffff_f800

-- What is outside the driver: the card, the bus and the system. `config` is the ROM address register
-- as it is first read, `rom` what the window of the ROM shows behind accesses and writes of that
-- register, `physical` PromPhysicalAddress, with zero for NULL.
pub record System : Type 0 where
  pub hw : ℕ → ℕ → ℕ
  pub config : ℕ
  pub rom : Bus → List ℕ → Rom
  pub physical : ℕ → ℕ
  pub gives_memory : Bool
  pub gives_dvi_memory : Bool

-- The fields of `struct PrometheusRadeonHandoff` and of the board that stay as they are. `rom_size` is
-- none where the magic number is missing.
pub record Slot : Type 0 where
  pub rom_base : ℕ
  pub rom_size : Option ℕ
  pub device_id : ℕ
  pub memory_space_base : ℕ
  pub dvi_requested : Bool

-- The state: the registers, the writes of the ROM address register, the latest first, whether the copy
-- of the ROM is allocated, and the fields that the function fills.
pub record Start : Type 0 where
  pub bus : Bus
  pub config_writes : List ℕ
  pub rom_held : Bool
  pub clocks : Clocks
  pub memory_clock : ℕ
  pub dvi_info : Option DviInfo
  pub installed_vram : ℕ
  pub framebuffer_gpu_base : ℕ
  pub memory_size : ℕ
  pub memory_space_size : ℕ
  pub board_memory_clock : ℕ

-- `RomSize`
unfoldable pub rom_size : Option ℕ → ℕ
rom_size none = 0
rom_size (some size) =
    if ltb size 512 || ltb bios_max_size size || not (bit_and size (size - 1) == 0) then 0 else size

-- The size of the aperture, from what the card says and from the size of the mapping.
pub choose_aperture : (said mapped : ℕ) → ℕ
choose_aperture said mapped =
    let aperture =
      if ltb said framebuffer_min_size || not (bit_and said (said - 1) == 0) || ltb mapped said
      then mapped
      else said in
    if ltb 0x0400_0000 aperture then 0x0400_0000 else aperture

abbrev pub no_rom : Rom
no_rom offset = 0

-- `SelectX86Image(&bios, data->DeviceId) && ParseHeader(&bios)`
abbrev pub checked_header : Bool × Bios → Option Bios
checked_header (valid, b) = if valid then some b else none

pub read_header : Rom → Option (Option (ℕ × ℕ)) → Option Bios
read_header rom none = none
read_header rom (some none) = none
read_header rom (some (some (offset, size))) = checked_header (
    parse_header (record {
      image = λ i. rom (offset + i);
      image_size = size;
      header = 0;
      revision = 0;
      directory_size = 0;
    }))

-- The image, if there is one for the card.
pub find_bios : Slot → Bool × Rom → Option Bios
unfolding read_header
find_bios p (valid, rom) =
    let size = rom_size p.rom_size in
    if not valid
    then none
    else read_header rom (
        select_x86_image (size + 1)
          (record { rom = rom; allocation_size = size; device_id = p.device_id }))

abbrev pub bios_memory : Option Bios → ℕ
bios_memory none = 0
bios_memory (some b) = bios_memory_size b

-- `FreeMem` of the copy.
abbrev pub release_rom : Start → Start
release_rom s = record s { rom_held = false }

module _ (y : System) where
  -- `enabledRom`
  pub enabled_rom : Slot → Option ℕ
  enabled_rom p =
      let enabled = bit_or y.config rom_enable in
      if not (bit_and enabled rom_mask == 0)
      then some enabled
      else if y.physical p.rom_base == 0
      then none
      else some (bit_or (bit_and (y.physical p.rom_base) rom_mask) rom_enable)

  -- The copy of the ROM, from where the ROM is switched on to where it is as it was.
  pub copy_rom : (size enabled : ℕ) → Start → (Bool × Rom) × Start
  copy_rom size enabled s =
      let shown = y.rom s.bus (enabled ∷ s.config_writes) in
      let (valid, copy, bus) =
        if rom_signature_valid shown 0 size
        then (true, shown, s.bus)
        else copy_disabled_rom y.hw (λ b. y.rom b (enabled ∷ s.config_writes)) size s.bus in
      ((valid, copy), record s { bus = bus; config_writes = y.config ∷ enabled ∷ s.config_writes })

  pub copy_enabled : (size : ℕ) → Option ℕ → Start → (Bool × Rom) × Start
  unfolding copy_rom
  copy_enabled size none s = ((false, no_rom), s)
  copy_enabled size (some enabled) s = copy_rom size enabled (record s { rom_held = true })

  -- `LoadRom`
  pub load_rom : Slot → Start → (Bool × Rom) × Start
  unfolding copy_enabled enabled_rom
  load_rom p s =
      if p.rom_base == 0
      then ((false, no_rom), s)
      else if (rom_size p.rom_size == 0) || not y.gives_memory
      then ((false, no_rom), s)
      else copy_enabled (rom_size p.rom_size) (enabled_rom p) s

  -- The call of `LoadDviInfo`.
  abbrev pub with_dvi : Slot → Option Bios → Start → Start
  with_dvi p none s = s
  with_dvi p (some b) s = elim (load_dvi_info b p.dvi_requested y.gives_dvi_memory) [
    | none ↦ s
    | some info ↦ record s { dvi_info = some info }
  ]

  -- The start of a card that is not posted.
  pub start_cold : (posted : Bool) → Option Bios → Start → Bool × Start
  start_cold true image s = (true, s)
  start_cold false none s = (false, s)
  start_cold false (some b) s =
      let (done, bus) = post_card y.hw b (bios_memory_size b) s.bus in
      (done, record s { bus = bus })

  -- The size of the memory, which is stored where the card does not say it itself.
  pub choose_memory : (posted : Bool) → (from_bios : ℕ) → Bus → ℕ × Bus
  choose_memory posted from_bios bus =
      let (memory, b1) = read32 y.hw bus config_memsize in
      if not posted && not (from_bios == 0)
      then (from_bios, (write32 b1 config_memsize from_bios).1)
      else if ltb memory framebuffer_min_size
          || not (bit_and memory 0x000f_ffff == 0)
          || ltb 0x2000_0000 memory
      then (from_bios, if from_bios == 0 then b1 else (write32 b1 config_memsize from_bios).1)
      else (memory, b1)

  -- The end of the function: the memory goes into the aperture, and the card places it.
  pub place_usable : Slot → (aperture usable : ℕ) → Start → Bool × Start
  place_usable p aperture usable s =
      let (done, bus) =
        set_framebuffer_location y.hw y.physical p.memory_space_base aperture s.bus in
      if not done then (false, record s { bus = bus; installed_vram = usable }) else (
        true,
        record s {
          bus = bus;
          installed_vram = usable;
          framebuffer_gpu_base = y.physical p.memory_space_base;
          memory_size = usable;
          memory_space_size = aperture;
          board_memory_clock = s.memory_clock;
        },
      )

  pub place_memory : Slot → (memory : ℕ) → Start → Bool × Start
  place_memory p memory s =
      let (said, bus) = read32 y.hw s.bus config_aper_size in
      let aperture = choose_aperture said s.memory_space_size in
      if ltb memory framebuffer_min_size
      then (false, s)
      else place_usable p aperture (if ltb aperture memory then aperture else memory)
          (record s { bus = bus })

  -- What follows the start of a cold card.
  pub finish_start : Slot → (posted : Bool) → Option Bios → Start → Bool × Start
  finish_start p posted image s =
      let (clocks, memory_clock, b1) = load_clock_info y.hw s.bus image s.clocks s.memory_clock in
      let (memory, b2) = choose_memory posted (bios_memory image) b1 in
      place_memory p memory
        (release_rom (record s { bus = b2; clocks = clocks; memory_clock = memory_clock }))

  pub start_with : Slot → (posted : Bool) → Option Bios → Start → Bool × Start
  start_with p posted image s =
      let (done, s') = start_cold posted image (with_dvi p image s) in
      if done then finish_start p posted image s' else (false, release_rom s')

  -- `RadeonInitializeHardware`
  pub initialize_hardware : Slot → Start → Bool × Start
  initialize_hardware p s =
      let (posted, bus) = is_posted y.hw s.bus in
      let (copied, s') = load_rom p (record s { bus = bus }) in
      start_with p posted (find_bios p copied) s'
