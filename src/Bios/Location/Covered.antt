-- ===== src/Bios/Location/Covered.antt =====
-- What `SetFramebufferLocation` leaves in the registers.
use r200_p96_driver.Base.{
  ℕ, ◌+◌, ◌*◌, ◌/◌, ◌%◌, ◌^◌, ◌≤◌, ◌<◌, ◌≡◌, refl, Bool, true, false, ◌==◌, bit_and, bit_and-ones,
  bit_or-low_first, bit_or-fields, some, arith, inl, inr, Bool-cases, List,
}
use r200_p96_driver.Mmio.{Bus}
use r200_p96_driver.Regs.Display.{crtc_gen_cntl, crtc2_gen_cntl, crtc_ext_cntl}
use r200_p96_driver.Regs.Post.{
  mc_agp_location, mc_fb_location, display_base_addr, display2_base_addr, ov0_base_addr,
}
use r200_p96_driver.Cp.Fence.{host_path_cntl}
use r200_p96_driver.Accel.Engine.Cached.{RegisterFile, file_of}
use r200_p96_driver.Bios.Location.{
  is_locatable, end_page, location, new_agp, Saved, blanking, putting_back, locating, save,
  set_framebuffer_location,
}
use r200_p96_driver.Bios.Location.Located.{HasRegisters, prepend, set_framebuffer_location-made}

-- The display registers as they were read.
pub record ShowsAsBefore (s : Saved) (file : RegisterFile) : Type 0 where
  pub crtc : file crtc_gen_cntl ≡ some s.crtc
  pub crtc2 : file crtc2_gen_cntl ≡ some s.crtc2
  pub ext : file crtc_ext_cntl ≡ some s.ext

-- A range of pages that begins with `start` and covers the aperture, the AGP range right behind it.
pub record Covers (start aperture fb agp : ℕ) : Type 0 where
  pub begins : fb % 2 ^ 16 * 2 ^ 16 ≡ start
  pub ends : start + aperture ≤ (fb / 2 ^ 16 + 1) * 2 ^ 16
  pub behind : agp % 2 ^ 16 ≡ fb / 2 ^ 16 + 1

pub record IsPlaced (s : Saved) (start aperture : ℕ) (file : RegisterFile) : Type 0 where
  pub fb : ℕ
  pub agp : ℕ
  pub located : (file mc_fb_location ≡ some fb) × (file mc_agp_location ≡ some agp)
  pub covers : Covers start aperture fb agp
  pub bases :
      (file display_base_addr ≡ some start)
      × (file display2_base_addr ≡ some start)
      × (file ov0_base_addr ≡ some start)
  pub display : ShowsAsBefore s file

pub record IsRestored (s : Saved) (file : RegisterFile) : Type 0 where
  pub host : file host_path_cntl ≡ some s.host
  pub agp : file mc_agp_location ≡ some s.agp
  pub display : ShowsAsBefore s file

pub locatable :
    (physical : ℕ → ℕ) (base aperture : ℕ)
    → is_locatable physical base aperture ≡ true
    → (physical base % 2 ^ 16 ≡ 0) × (1 ≤ aperture) × (end_page (physical base) aperture < 0xffff)
unfolding is_locatable
locatable physical base aperture e = ground (arith, bit_and-ones 16 (physical base))

new_agp-behind : (agp page : ℕ) → page < 0xffff → new_agp agp page % 2 ^ 16 ≡ page + 1
new_agp-behind agp page h = elim (Bool-cases (bit_and agp 0xffff == page + 1)) [
  | inl e ↦ rw e (ground (arith, e, bit_and-ones 16 agp))
  | inr e ↦ rw e (ground (arith, bit_or-fields page 16 (page + 1)))
]

location-Covers :
    (start aperture agp : ℕ)
    → start % 2 ^ 16 ≡ 0
    → 1 ≤ aperture
    → end_page start aperture < 0xffff
    → Covers start aperture (location start aperture) (new_agp agp (end_page start aperture))
location-Covers start aperture agp page one last =
    let joined = bit_or-low_first (end_page start aperture) 16 (start / 2 ^ 16) (omega arith) in
    let agp_page = new_agp-behind agp (end_page start aperture) last in
    rw joined record { begins = omega arith; ends = omega arith; behind = omega (arith, agp_page) }

file_located :
    (s : Saved) (start aperture : ℕ) (old : List (ℕ × ℕ))
    → (start % 2 ^ 16 ≡ 0) × (1 ≤ aperture) × (end_page start aperture < 0xffff)
    → IsPlaced s start aperture (file_of (prepend (locating s start aperture) old))
file_located s start aperture old h = record {
  fb = location start aperture;
  agp = new_agp s.agp (end_page start aperture);
  located = (refl, refl);
  covers = location-Covers start aperture s.agp h.0 h.1 h.2;
  bases = (refl, refl, refl);
  display = record { crtc = refl; crtc2 = refl; ext = refl };
}

file-IsRestored :
    (s : Saved) (old : List (ℕ × ℕ)) → IsRestored s (file_of (prepend (putting_back s) old))
file-IsRestored s old = record {
  host = refl;
  agp = refl;
  display = record { crtc = refl; crtc2 = refl; ext = refl };
}

-- What the function leaves, by its result and by whether it got past its guards.
abbrev pub Placed :
    (s : Saved) (start aperture : ℕ) → (before after : Bus) → (known done : Bool) → Type 0
Placed s start aperture before after false done = (done ≡ false) × (after ≡ before)
Placed s start aperture before after true true = IsPlaced s start aperture (file_of after.written)
Placed s start aperture before after true false = IsRestored s (file_of after.written)

-- With a window that holds the registers, and whatever the card answers: where the guards of
-- `SetFramebufferLocation` refuse the aperture, it fails and makes no access. Where it succeeds, the
-- memory of the card is placed on whole pages from the physical address of the aperture to its end, the
-- AGP range begins on the page behind, the three display bases hold the address, and the display
-- registers what was read from them at first. Where it gives up the wait for the memory controller, the
-- host path, the AGP range and the display registers hold what was read from them at first.
pub set_framebuffer_location-Placed :
    (hw : ℕ → ℕ → ℕ) (physical : ℕ → ℕ) (base aperture : ℕ) (bus : Bus)
    → HasRegisters bus
    → let (done, bus') = set_framebuffer_location hw physical base aperture bus in
      Placed
        (save hw bus)
        (physical base)
        aperture
        bus
        bus'
        (is_locatable physical base aperture)
        done
set_framebuffer_location-Placed hw physical base aperture bus h =
    elim (Bool-cases (is_locatable physical base aperture)) [
      | inr e ↦ unfold set_framebuffer_location in rw e (refl, refl)
      | inl e ↦
          let s = save hw bus in
          let made = set_framebuffer_location-made hw physical base aperture bus h e in
          elim (Bool-cases (set_framebuffer_location hw physical base aperture bus).0) [
            | inl d ↦
                rw (e, d, made, d)
                  (file_located s (physical base) aperture (prepend (blanking s) bus.written)
                    (locatable physical base aperture e))
            | inr d ↦ rw (e, d, made, d) (file-IsRestored s (prepend (blanking s) bus.written))
          ]
    ]
