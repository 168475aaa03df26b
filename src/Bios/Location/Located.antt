-- ===== src/Bios/Location/Located.antt =====
-- The registers behind the function that places the memory.
use r200_p96_driver.Base.{
  ℕ, zero, suc, ◌+◌, ◌≤◌, ◌≡◌, ◌∙◌, ap, sym, refl, Bool, true, false, ◌&&◌, ◌==◌, ltb,
  if◌then◌else◌, bit_and, List, [], ◌∷◌, arith, inl, inr, Bool-cases,
}
use mathlib.Core.Path.{subst}
use r200_p96_driver.Mmio.{Bus, read32, write32}
use r200_p96_driver.Regs.Display.{crtc_gen_cntl, crtc2_gen_cntl, crtc_ext_cntl}
use r200_p96_driver.Regs.Post.{mc_agp_location, mem_str_cntl, mc_idle}
use r200_p96_driver.Cp.Fence.{host_path_cntl}
use r200_p96_driver.Bios.Location.{
  store_all, is_locatable, Saved, blanking, putting_back, locating, save, settle,
  wait_controller_idle, idle_polls, set_framebuffer_location,
}

-- The window holds the registers below 0x1000.
pub record HasRegisters (b : Bus) : Type 0 where
  pub mapped : b.mapped ≡ true
  pub large : 0x1000 ≤ b.mmio_size

abbrev pub is_register : ℕ → Bool
is_register reg = bit_and reg 3 == 0 && ltb reg 0xffd

abbrev pub are_registers : List (ℕ × ℕ) → Bool
are_registers [] = true
are_registers (w ∷ rest) = is_register w.0 && are_registers rest

-- The list of writes behind these, the latest first.
abbrev pub prepend : List (ℕ × ℕ) → List (ℕ × ℕ) → List (ℕ × ℕ)
prepend [] old = old
prepend (w ∷ rest) old = prepend rest (w ∷ old)

-- A bus that saw the same writes through the same window.
pub record Same (b c : Bus) : Type 0 where
  pub mapped : c.mapped ≡ b.mapped
  pub size : c.mmio_size ≡ b.mmio_size
  pub written : c.written ≡ b.written

write-made :
    (b : Bus) (reg value : ℕ)
    → HasRegisters b
    → is_register reg ≡ true
    → (write32 b reg value).1 ≡ record b { now = b.now + 1; written = (reg, value) ∷ b.written }
unfolding write32
write-made b reg value h r = ground arith

pub store_all-made :
    (b : Bus) (todo : List (ℕ × ℕ))
    → HasRegisters b
    → are_registers todo ≡ true
    → ((store_all b todo).written ≡ prepend todo b.written) × HasRegisters (store_all b todo)
store_all-made b [] h r = (refl, h)
store_all-made b ((reg, value) ∷ rest) h r =
    let here = write-made b reg value h (ground arith) in
    let more =
      store_all-made (record b { now = b.now + 1; written = (reg, value) ∷ b.written }) rest
        (record { mapped = h.mapped; large = h.large }) (ground arith) in
    subst
      (λ (c : Bus).
        ((store_all c rest).written ≡ prepend rest ((reg, value) ∷ b.written))
        × HasRegisters (store_all c rest))
      (sym here) more

Same-trans : {a b c : Bus} → Same a b → Same b c → Same a c
Same-trans p q = record {
  mapped = q.mapped ∙ p.mapped;
  size = q.size ∙ p.size;
  written = q.written ∙ p.written;
}

-- The writes behind the wait.
settle-made :
    (s : Saved) (start aperture : ℕ) (waited : Bool × Bus)
    → HasRegisters waited.1
    → let end = settle s start aperture waited in
      end.1.written
      ≡ prepend (if end.0 then locating s start aperture else putting_back s) waited.1.written
unfolding settle
settle-made s start aperture (true, b) h = (store_all-made b (locating s start aperture) h refl).0
settle-made s start aperture (false, b) h = (store_all-made b (putting_back s) h refl).0

Same-HasRegisters : {a b : Bus} → Same a b → HasRegisters a → HasRegisters b
Same-HasRegisters p h = record { mapped = p.mapped ∙ h.mapped; large = rw p.size h.large }

module _ (hw : ℕ → ℕ → ℕ) where
  read32-Same : (b : Bus) (reg : ℕ) → Same b (read32 hw b reg).1
  unfolding read32
  read32-Same b reg = record { mapped = ground arith; size = ground arith; written = ground arith }

  pub read-made :
      (b : Bus) (reg : ℕ)
      → HasRegisters b
      → is_register reg ≡ true
      → read32 hw b reg ≡ (hw b.now reg, record b { now = b.now + 1 })
  unfolding read32
  read-made b reg h r = ground arith

  wait_controller_idle-Same : (count : ℕ) (b : Bus) → Same b (wait_controller_idle hw count b).1
  unfolding wait_controller_idle
  wait_controller_idle-Same zero b = record { mapped = refl; size = refl; written = refl }
  wait_controller_idle-Same (suc count) b =
      let here = read32-Same b mem_str_cntl in
      elim (Bool-cases (bit_and (read32 hw b mem_str_cntl).0 mc_idle == 0)) [
        | inr e ↦ rw (e, wait_controller_idle) here
        | inl e ↦
            rw (e, wait_controller_idle)
              (Same-trans here (wait_controller_idle-Same count (read32 hw b mem_str_cntl).1))
      ]

  save-Same : (b : Bus) → Same b (save hw b).bus
  unfolding save
  save-Same b = Same-trans (read32-Same b crtc_gen_cntl) (
      Same-trans (read32-Same _ crtc2_gen_cntl) (
        Same-trans (read32-Same _ crtc_ext_cntl)
          (Same-trans (read32-Same _ host_path_cntl) (read32-Same _ mc_agp_location))))

  pub set_framebuffer_location-made :
      (physical : ℕ → ℕ) (base aperture : ℕ) (b : Bus)
      → HasRegisters b
      → is_locatable physical base aperture ≡ true
      → let s = save hw b in
        let end = set_framebuffer_location hw physical base aperture b in
        end.1.written
        ≡ prepend
            (if end.0 then locating s (physical base) aperture else putting_back s)
            (prepend (blanking s) b.written)
  unfolding set_framebuffer_location
  set_framebuffer_location-made physical base aperture b h e =
      let s = save hw b in
      let saved = save-Same b in
      let blanked = store_all-made s.bus (blanking s) (Same-HasRegisters saved h) refl in
      let waited = wait_controller_idle-Same idle_polls (store_all s.bus (blanking s)) in
      let waiting = wait_controller_idle hw idle_polls (store_all s.bus (blanking s)) in
      let end = settle s (physical base) aperture waiting in
      let quiet = waited.written ∙ blanked.0 ∙ ap (prepend (blanking s)) saved.written in
      rw e (
        settle-made s (physical base) aperture waiting (Same-HasRegisters waited blanked.1)
        ∙ ap (prepend (if end.0 then locating s (physical base) aperture else putting_back s))
            quiet)
