-- ===== src/Bios/Tables/Commands.antt =====
-- A table for `LoadInitTable` as a list of commands, and what the commands do.
use r200_p96_driver.Base.{
  ℕ, zero, suc, ◌+◌, ◌*◌, ◌≤◌, ◌<◌, ◌≡◌, ◌∙◌, ap, Bool, true, false, ◌==◌, bit_and, bit_and-ones,
  bit_and-field, not32, List, [], ◌∷◌, length, arith, inl, inr, Bool-cases, refl,
}
use r200_p96_driver.Regs.Post.{mc_busy}
use r200_p96_driver.Mmio.{Bus, write32, mask32, write_indexed, mask_indexed}
use r200_p96_driver.Bios.{Bios, bios_has, bios16, bios32, word16, word32}
use r200_p96_driver.Bios.Tables.{
  Obeyed, obeyed, max_entries, Reader, entries, init_reader, wait_pll, wait_memory_ready,
  init_special, init_entry, load_init_table,
}

pub data InitCommand : Type 0 where
  store_indexed store_direct : (reg value : ℕ) → InitCommand
  mask_indexed_by mask_direct_by : (reg and_mask or_mask : ℕ) → InitCommand
  delay wait_controller wait_memory : (count : ℕ) → InitCommand

-- The word that a command begins with, and its size with its operands.
abbrev pub opcode : InitCommand → ℕ
opcode (store_indexed reg value) = reg
opcode (store_direct reg value) = 0x2000 + reg
opcode (mask_indexed_by reg and_mask or_mask) = 0x4000 + reg
opcode (mask_direct_by reg and_mask or_mask) = 0x6000 + reg
opcode (delay count) = 0x8000
opcode (wait_controller count) = 0xa003
opcode (wait_memory count) = 0xa008

abbrev pub size : InitCommand → ℕ
size (store_indexed reg value) = 6
size (store_direct reg value) = 6
size (mask_indexed_by reg and_mask or_mask) = 10
size (mask_direct_by reg and_mask or_mask) = 10
size (delay count) = 4
size (wait_controller count) = 4
size (wait_memory count) = 4

-- The operands stand behind the word, and registers are in their range. The word of a store to the
-- indexed register zero would end the table.
abbrev pub HoldsOperands : Bios → (offset : ℕ) → InitCommand → Type 0
HoldsOperands b offset (store_indexed reg value) =
    (1 ≤ reg) × (reg < 0x2000) × (word32 b.image offset ≡ value)
HoldsOperands b offset (store_direct reg value) = (reg < 0x2000) × (word32 b.image offset ≡ value)
HoldsOperands b offset (mask_indexed_by reg and_mask or_mask) =
    (reg < 0x2000) × (word32 b.image offset ≡ and_mask) × (word32 b.image (offset + 4) ≡ or_mask)
HoldsOperands b offset (mask_direct_by reg and_mask or_mask) =
    (reg < 0x2000) × (word32 b.image offset ≡ and_mask) × (word32 b.image (offset + 4) ≡ or_mask)
HoldsOperands b offset (delay count) = word16 b.image offset ≡ count
HoldsOperands b offset (wait_controller count) = word16 b.image offset ≡ count
HoldsOperands b offset (wait_memory count) = word16 b.image offset ≡ count

-- The image holds the commands one behind the other from `offset` on, and then a zero word.
abbrev pub Holds : Bios → (offset : ℕ) → List InitCommand → Type 0
Holds b offset [] = (word16 b.image offset ≡ 0) × (offset + 2 ≤ b.image_size)
Holds b offset (c ∷ rest) =
    (word16 b.image offset ≡ opcode c)
    × HoldsOperands b (offset + 2) c
    × (offset + size c ≤ b.image_size)
    × Holds b (offset + size c) rest

-- The loop goes on behind an entry that succeeds, and ends with one that fails.
module _ (r : Reader) (entry : (value offset : ℕ) → Bus → Obeyed) (left offset : ℕ) (bus : Bus)
    (has : r.present offset ≡ true) (looks : (r.read offset == r.last) ≡ false) {next : ℕ}
    {bus' : Bus} where
  entries-goes_on :
      entry (r.read offset) (offset + r.width) bus ≡ (true, next, bus')
      → entries r entry (suc left) offset bus ≡ entries r entry left next bus'
  unfolding entries
  entries-goes_on e =
      rw (has, looks, ap (λ (o : Obeyed). o.0) e, entries)
        (ap (λ (o : Obeyed). entries r entry left o.1 o.2) e)

  entries-fails :
      entry (r.read offset) (offset + r.width) bus ≡ (false, next, bus')
      → entries r entry (suc left) offset bus ≡ (false, bus')
  unfolding entries
  entries-fails e =
      rw (has, looks, ap (λ (o : Obeyed). o.0) e, entries) (ap (λ (o : Obeyed). (false, o.2)) e)

module _ (hw : ℕ → ℕ → ℕ) where
  -- What a command does, and whether it succeeds.
  pub obey : Bus → InitCommand → Bool × Bus
  obey bus (store_indexed reg value) = write_indexed bus reg value
  obey bus (store_direct reg value) = write32 bus reg value
  obey bus (mask_indexed_by reg and_mask or_mask) = mask_indexed hw bus reg and_mask or_mask
  obey bus (mask_direct_by reg and_mask or_mask) = mask32 hw bus reg (not32 and_mask) or_mask
  obey bus (delay count) = (true, bus)
  obey bus (wait_controller count) = wait_pll hw bus mc_busy false count
  obey bus (wait_memory count) = wait_memory_ready hw bus count

  -- One command after the other, up to the first that fails.
  pub obey_all : Bus → List InitCommand → Bool × Bus
  obey_all bus [] = (true, bus)
  obey_all bus (c ∷ rest) =
      let (done, bus') = obey bus c in
      elim done [ true ↦ obey_all bus' rest | false ↦ (false, bus') ]

  -- The flag and the index of a word.
  fields :
      (flag index : ℕ)
      → index < 0x2000
      → flag < 8
      → (bit_and (flag * 0x2000 + index) 0xe000 ≡ flag * 0x2000)
        × (bit_and (flag * 0x2000 + index) 0x1fff ≡ index)
  fields flag index h k =
      ground
        (arith, bit_and-field 3 13 (flag * 0x2000 + index), bit_and-ones 13 (flag * 0x2000 + index))

  entry-obey :
      (b : Bios) (offset : ℕ) (bus : Bus) (c : InitCommand)
      → HoldsOperands b (offset + 2) c
      → offset + size c ≤ b.image_size
      → init_entry hw b (opcode c) (offset + 2) bus ≡ obeyed (obey bus c) (offset + size c)
  unfolding init_entry obey bios32 bios16
  entry-obey b offset bus (store_indexed reg value) h k = ground (arith, fields 0 reg)
  entry-obey b offset bus (store_direct reg value) h k = ground (arith, fields 1 reg)
  entry-obey b offset bus (mask_indexed_by reg and_mask or_mask) h k = ground (arith, fields 2 reg)
  entry-obey b offset bus (mask_direct_by reg and_mask or_mask) h k = ground (arith, fields 3 reg)
  entry-obey b offset bus (delay count) h k = ground arith
  entry-obey b offset bus (wait_controller count) h k = unfold init_special in ground arith
  entry-obey b offset bus (wait_memory count) h k = unfold init_special in ground arith

  opcode-nonzero :
      (b : Bios) (offset : ℕ) (c : InitCommand)
      → HoldsOperands b (offset + 2) c
      → (opcode c == 0) ≡ false
  opcode-nonzero b offset (store_indexed reg value) h = ground arith
  opcode-nonzero b offset (store_direct reg value) h = ground arith
  opcode-nonzero b offset (mask_indexed_by reg and_mask or_mask) h = ground arith
  opcode-nonzero b offset (mask_direct_by reg and_mask or_mask) h = ground arith
  opcode-nonzero b offset (delay count) h = refl
  opcode-nonzero b offset (wait_controller count) h = refl
  opcode-nonzero b offset (wait_memory count) h = refl

  two_bytes : (c : InitCommand) → 4 ≤ size c
  two_bytes (store_indexed reg value) = omega arith
  two_bytes (store_direct reg value) = omega arith
  two_bytes (mask_indexed_by reg and_mask or_mask) = omega arith
  two_bytes (mask_direct_by reg and_mask or_mask) = omega arith
  two_bytes (delay count) = omega arith
  two_bytes (wait_controller count) = omega arith
  two_bytes (wait_memory count) = omega arith

  -- The word at a place inside the image.
  word_read :
      (b : Bios) (offset : ℕ)
      → offset + 2 ≤ b.image_size
      → (bios_has b offset 2 ≡ true) × (bios16 b offset ≡ word16 b.image offset)
  unfolding bios16
  word_read b offset h = ground arith

  entries-obey_all :
      (b : Bios) (left offset : ℕ) (bus : Bus) (commands : List InitCommand)
      → Holds b offset commands
      → length commands < left
      → entries (init_reader b) (init_entry hw b) left offset bus ≡ obey_all bus commands
  unfolding entries obey_all
  entries-obey_all b zero offset bus commands h l = absurd (omega arith)
  entries-obey_all b (suc left) offset bus [] h l =
      let (has, word) = word_read b offset h.1 in rw (has, word, h.0, entries) refl
  entries-obey_all b (suc left) offset bus (c ∷ rest) h l =
      let (has, word) = word_read b offset (omega (arith, two_bytes c)) in
      let code = opcode-nonzero b offset c h.1 in
      let begins = word ∙ h.0 in
      let step =
        ap (λ w. init_entry hw b w (offset + 2) bus) begins ∙ entry-obey b offset bus c h.1 h.2 in
      let looks = ap (λ w. w == 0) begins ∙ code in
      elim (Bool-cases (obey bus c).0) [
        | inr g ↦
            entries-fails (init_reader b) (init_entry hw b) left offset bus has looks
              (step ∙ ap (λ done. (done, offset + size c, (obey bus c).1)) g)
            ∙ rw (g, obey_all) refl
        | inl g ↦
            entries-goes_on (init_reader b) (init_entry hw b) left offset bus has looks
              (step ∙ ap (λ done. (done, offset + size c, (obey bus c).1)) g)
            ∙ rw (g, obey_all)
                (entries-obey_all b left (offset + size c) (obey bus c).1 rest h.3 (omega arith))
      ]

  -- Where the image holds a list of at most 4095 commands at a table, `LoadInitTable` obeys them one
  -- after the other up to the first that fails, and succeeds just if all of them do.
  pub load_init_table-obey_all :
      (b : Bios) (table : ℕ) (bus : Bus) (commands : List InitCommand)
      → 1 ≤ table
      → Holds b table commands
      → length commands < 4096
      → load_init_table hw b table bus ≡ obey_all bus commands
  unfolding load_init_table
  load_init_table-obey_all b table bus commands t h l =
      let set : (table == 0) ≡ false = ground arith in
      rw set (entries-obey_all b max_entries table bus commands h l)
