-- ===== src/Bios/Start/Started.antt =====
-- What a successful start leaves, and what every start gives back.
use r200_p96_driver.Base.{
  ℕ, ◌+◌, ◌-◌, ◌^◌, ◌%◌, ◌≤◌, ◌≡◌, ◌∙◌, refl, Bool, true, false, not, ◌==◌, ltb, ◌||◌,
  if◌then◌else◌, Option, none, some, arith, inl, inr, Bool-cases, Option-cases,
}
use mathlib.Core.Path.{subst}
use r200_p96_driver.Mmio.{Bus, read32}
use r200_p96_driver.Regs.Post.{config_aper_size}
use r200_p96_driver.Bios.{Bios}
use r200_p96_driver.Bios.Dvi.{load_dvi_info}
use r200_p96_driver.Bios.Clock.{load_clock_info}
use r200_p96_driver.Bios.Clock.Usable.{IsUsable, load_clock_info-IsUsable}
use r200_p96_driver.Bios.Location.{is_locatable, set_framebuffer_location}
use r200_p96_driver.Bios.Location.Covered.{locatable}
use r200_p96_driver.Bios.Post.{is_posted}
use r200_p96_driver.Bios.Start.{
  System, Slot, Start, load_rom, copy_enabled, copy_rom, rom_size, find_bios, with_dvi, start_cold,
  release_rom, choose_memory, choose_aperture, place_usable, place_memory, finish_start, start_with,
  initialize_hardware, bios_memory, framebuffer_min_size,
}

-- The memory lies in the aperture, the aperture in the mapping and on whole pages of the 4 GB, and
-- both are at most 64 MB.
pub record IsPlacedMemory (y : System) (p : Slot) (mapped : ℕ) (s : Start) : Type 0 where
  pub installed : s.installed_vram ≡ s.memory_size
  pub inside : s.memory_size ≤ s.memory_space_size
  pub limits : (s.memory_space_size ≤ 2 ^ 26) × (s.memory_space_size ≤ mapped)
  pub enough : 2 ^ 22 ≤ mapped → 2 ^ 22 ≤ s.memory_size
  pub base : s.framebuffer_gpu_base ≡ y.physical p.memory_space_base
  pub pages :
      (s.framebuffer_gpu_base % 2 ^ 16 ≡ 0)
      × (s.framebuffer_gpu_base + s.memory_space_size ≤ 2 ^ 32 - 2 ^ 16)

-- What every end of the function gives back, and what a successful one leaves.
pub record IsEnd (y : System) (p : Slot) (mapped : ℕ) (end : Bool × Start) : Type 0 where
  pub released : end.1.rom_held ≡ false
  pub clocks : end.0 ≡ true → IsUsable end.1.clocks
  pub placed : end.0 ≡ true → IsPlacedMemory y p mapped end.1

aperture_limits :
    (said mapped : ℕ)
    → (choose_aperture said mapped ≤ 2 ^ 26)
      × (choose_aperture said mapped ≤ mapped)
      × (2 ^ 22 ≤ mapped → 2 ^ 22 ≤ choose_aperture said mapped)
unfolding choose_aperture
aperture_limits said mapped = (ground arith, ground arith, λ h. ground arith)

module _ (y : System) (p : Slot) where
  was_locatable :
      (base aperture : ℕ) (bus : Bus)
      → (set_framebuffer_location y.hw y.physical base aperture bus).0 ≡ true
      → is_locatable y.physical base aperture ≡ true
  unfolding set_framebuffer_location
  was_locatable base aperture bus e = ground arith

  place_usable-IsPlacedMemory :
      (mapped aperture usable : ℕ) (s : Start)
      → usable ≤ aperture
      → (aperture ≤ 2 ^ 26) × (aperture ≤ mapped)
      → (2 ^ 22 ≤ mapped → 2 ^ 22 ≤ usable)
      → (place_usable y p aperture usable s).0 ≡ true
      → IsPlacedMemory y p mapped (place_usable y p aperture usable s).1
  unfolding place_usable
  place_usable-IsPlacedMemory mapped aperture usable s u l m e =
      elim (Bool-cases
        (set_framebuffer_location y.hw y.physical p.memory_space_base aperture s.bus).0) [
          | inr d ↦ absurd (cc (rw d at e))
          | inl d ↦
              let place =
                locatable y.physical p.memory_space_base aperture
                  (was_locatable p.memory_space_base aperture s.bus d) in
              rw d record {
                installed = refl;
                inside = u;
                limits = l;
                enough = m;
                base = refl;
                pages = (place.0, omega (arith, place.1, place.2));
              }
        ]

  place_memory-IsPlacedMemory :
      (memory : ℕ) (s : Start)
      → (place_memory y p memory s).0 ≡ true
      → IsPlacedMemory y p s.memory_space_size (place_memory y p memory s).1
  unfolding place_memory
  place_memory-IsPlacedMemory memory s e = elim (Bool-cases (ltb memory framebuffer_min_size)) [
    | inl f ↦ absurd (cc (rw f at e))
    | inr f ↦
        let said = read32 y.hw s.bus config_aper_size in
        let aperture = choose_aperture said.0 s.memory_space_size in
        let fits = aperture_limits said.0 s.memory_space_size in
        let usable = if ltb aperture memory then aperture else memory in
        rw f (
          place_usable-IsPlacedMemory s.memory_space_size aperture usable
            (record s { bus = said.1 }) (ground arith) (fits.0, fits.1)
            (λ h. ground (arith, f, fits.2 h)) (rw f at e))
  ]

  place_usable-kept :
      (aperture usable : ℕ) (s : Start)
      → ((place_usable y p aperture usable s).1.clocks ≡ s.clocks)
        × ((place_usable y p aperture usable s).1.rom_held ≡ s.rom_held)
  unfolding place_usable
  place_usable-kept aperture usable s =
      elim (Bool-cases
        (not (set_framebuffer_location y.hw y.physical p.memory_space_base aperture s.bus).0)) [
          | inl e ↦ rw e (refl, refl)
          | inr e ↦ rw e (refl, refl)
        ]

  place_memory-kept :
      (memory : ℕ) (s : Start)
      → ((place_memory y p memory s).1.clocks ≡ s.clocks)
        × ((place_memory y p memory s).1.rom_held ≡ s.rom_held)
  unfolding place_memory
  place_memory-kept memory s = elim (Bool-cases (ltb memory framebuffer_min_size)) [
    | inl e ↦ rw e (refl, refl)
    | inr e ↦ rw e (place_usable-kept _ _ _)
  ]

  finish_start-IsEnd :
      (posted : Bool) (image : Option Bios) (s : Start)
      → IsEnd y p s.memory_space_size (finish_start y p posted image s)
  unfolding finish_start
  finish_start-IsEnd posted image s =
      let loaded = load_clock_info y.hw s.bus image s.clocks s.memory_clock in
      let chosen = choose_memory y posted (bios_memory image) loaded.2 in
      let ready =
        release_rom (record s { bus = chosen.1; clocks = loaded.0; memory_clock = loaded.1 }) in
      let kept = place_memory-kept chosen.0 ready in
      record {
        released = kept.1;
        clocks = λ e. rw kept.0 (load_clock_info-IsUsable y.hw s.bus image s.clocks s.memory_clock);
        placed = place_memory-IsPlacedMemory chosen.0 ready;
      }

  with_dvi-size :
      (image : Option Bios) (s : Start)
      → (with_dvi y p image s).memory_space_size ≡ s.memory_space_size
  with_dvi-size none s = refl
  with_dvi-size (some b) s =
      elim (Option-cases (load_dvi_info b p.dvi_requested y.gives_dvi_memory)) [
        | inl e ↦ rw (e, with_dvi) refl
        | inr (info, e) ↦ rw (e, with_dvi) refl
      ]

  start_cold-size :
      (posted : Bool) (image : Option Bios) (s : Start)
      → (start_cold y posted image s).1.memory_space_size ≡ s.memory_space_size
  unfolding start_cold
  start_cold-size true image s = refl
  start_cold-size false none s = refl
  start_cold-size false (some b) s = refl

  start_with-IsEnd :
      (posted : Bool) (image : Option Bios) (s : Start)
      → IsEnd y p s.memory_space_size (start_with y p posted image s)
  unfolding start_with
  start_with-IsEnd posted image s =
      let started = start_cold y posted image (with_dvi y p image s) in
      let size = start_cold-size posted image (with_dvi y p image s) ∙ with_dvi-size image s in
      elim (Bool-cases started.0) [
        | inl e ↦ rw e (
            subst (λ m. IsEnd y p m (finish_start y p posted image started.1)) size
              (finish_start-IsEnd posted image started.1))
        | inr e ↦
            rw e record { released = refl; clocks = λ f. absurd (cc); placed = λ f. absurd (cc) }
      ]

  copy_enabled-size :
      (size : ℕ) (enabled : Option ℕ) (s : Start)
      → (copy_enabled y size enabled s).1.memory_space_size ≡ s.memory_space_size
  unfolding copy_enabled copy_rom
  copy_enabled-size size none s = refl
  copy_enabled-size size (some enabled) s = refl

  load_rom-size : (s : Start) → (load_rom y p s).1.memory_space_size ≡ s.memory_space_size
  unfolding load_rom
  load_rom-size s = elim (Bool-cases (p.rom_base == 0)) [
    | inl e ↦ rw e refl
    | inr e ↦ elim (Bool-cases ((rom_size p.rom_size == 0) || not y.gives_memory)) [
      | inl f ↦ rw (e, f) refl
      | inr f ↦ rw (e, f) (copy_enabled-size (rom_size p.rom_size) _ s)
    ]
  ]

  -- However `RadeonInitializeHardware` ends, and whatever the ROM holds and the card answers, the copy of
  -- the ROM is given back. Where it succeeds, the clocks are usable, and the memory lies in the aperture,
  -- the aperture in the mapping and at the physical address of it, on whole pages below the end of the
  -- 4 GB, with at most 64 MB, and at least 4 MB of memory where the mapping has as much.
  pub initialize_hardware-IsEnd :
      (s : Start) → IsEnd y p s.memory_space_size (initialize_hardware y p s)
  unfolding initialize_hardware
  initialize_hardware-IsEnd s =
      let posted = is_posted y.hw s.bus in
      let loaded = load_rom y p (record s { bus = posted.1 }) in
      subst (λ m. IsEnd y p m (start_with y p posted.0 (find_bios p loaded.0) loaded.1))
        (load_rom-size (record s { bus = posted.1 }))
        (start_with-IsEnd posted.0 (find_bios p loaded.0) loaded.1)
