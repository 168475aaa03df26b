-- ===== src/Cp/Life.antt =====
-- From a stopped command processor to a running one and back (src/radeon_cp.c: CpDisable, CpRestoreBus,
-- RadeonCpInitialize, RadeonCpRecover, RadeonCpAbort, RadeonCpShutdown).
pub mod Released
pub mod Returned
pub mod Held
pub mod Ends
pub mod Started
mod Tests
use mathlib.Core.Option
use r200_p96_driver.Base.{
  ℕ, ◌+◌, ◌-◌, ◌*◌, ◌^◌, Bool, true, false, not, ◌&&◌, ◌||◌, List, [], ◌∷◌, Option, none, some, ltb,
  ◌==◌, if◌then◌else◌, bit_and, bit_or, not32,
}
use r200_p96_driver.Regs.Engine.{cp_csq_cntl, cp_csq_mode, bus_cntl, bus_master_dis}
use r200_p96_driver.Vram
use r200_p96_driver.Vram.{allocate_private_vram, free_private_vram}
use r200_p96_driver.Mmio.{Bus, read32, write32}
use r200_p96_driver.Cp.{CpState}
use r200_p96_driver.Cp.Idle.{wait}
use r200_p96_driver.Cp.Launch.{Outside, wait_command_stream_idle, cp_reset, bring_up}

abbrev pub ring_size : ℕ
ring_size = 1024 * 1024

abbrev pub command_master : ℕ
command_master = 4

-- The fields of the board and of `struct RadeonCpState` that starting and stopping look at. `allocated`
-- is whether `data->CpState` is not NULL; the bus of the board is the one in `state`. A ring at zero is
-- NULL.
pub record Driver : Type 0 where
  pub memory : Vram.Board
  pub installed_vram : ℕ
  pub framebuffer_gpu_base : ℕ
  pub has_registers : Bool
  pub command_writes : List ℕ
  pub allocated : Bool
  pub state : CpState
  pub ring_memory : ℕ
  pub saved_bus_cntl : ℕ
  pub saved_command : ℕ
  pub bus_configured : Bool

-- What `CpDisable` and the starts forget of what is in flight.
abbrev pub stopped : CpState → CpState
stopped st = record st { ready = false; pending_fence = 0 }

-- `CpRestoreBus`
pub restore_bus : Driver → Driver
restore_bus d = if not d.bus_configured then d else record d {
  state = record d.state { bus = (write32 d.state.bus bus_cntl d.saved_bus_cntl).1 };
  command_writes = d.saved_command ∷ d.command_writes;
  bus_configured = false;
}

-- `RadeonCpShutdown`, behind `CpDisable`.
pub release : Driver → CpState → Driver
release d st =
    let restored = restore_bus (record d { state = st }) in
    record restored {
      memory =
          if restored.ring_memory == 0
          then restored.memory
          else (free_private_vram restored.memory restored.ring_memory ring_size).1;
      state = record restored.state { timer_open = false };
      allocated = false;
    }

abbrev pub cleared : CpState → CpState
cleared st = record st {
  ring_gpu_address = 0;
  write_pointer = 0;
  pending_fence = 0;
  pending_unfenced = 0;
  next_fence = 0;
  eclock_rate = 0;
  ready = false;
  timer_open = false;
}

-- The guards on the place of the ring.
pub is_ring_outside : Driver → (ring : ℕ) → Bool
is_ring_outside d ring =
    let offset = ring - d.memory.memory_base in
    ltb ring d.memory.memory_base
    || ltb d.installed_vram offset
    || ltb (d.installed_vram - offset) ring_size
    || ltb d.memory.memory_space_size offset
    || ltb (d.memory.memory_space_size - offset) ring_size
    || ltb (0xffffffff - offset) d.framebuffer_gpu_base
    || not (bit_and (d.framebuffer_gpu_base + offset) 4095 == 0)

abbrev pub then_finish :
    (Bool × CpState → Option (Bool × Driver)) → Option (Bool × CpState) → Option (Bool × Driver)
then_finish next none = none
then_finish next (some r) = next r

module _ (y : Outside) where
  -- The card becomes a master of the bus, and its command word and its bus register are kept.
  pub saving : Driver → Driver
  saving d =
      let command = y.command d.command_writes in
      let (value, bus) = read32 y.hw d.state.bus bus_cntl in
      record d {
        saved_command = command;
        saved_bus_cntl = value;
        bus_configured = true;
        command_writes = bit_or command command_master ∷ d.command_writes;
        state = record d.state { bus = bus };
      }

  -- The conditions of both starts behind that.
  pub master_and_up : Driver → Option (Bool × CpState)
  master_and_up d =
      let (stored, bus) =
        write32 d.state.bus bus_cntl (bit_and d.saved_bus_cntl (not32 bus_master_dis)) in
      if bit_and (y.command d.command_writes) command_master == 0
      then some (false, d.state)
      else if not stored
      then some (false, record d.state { bus = bus })
      else bring_up y (record d.state { bus = bus })

  -- `CpDisable`, behind the wait: `idle` is whether it was idle.
  pub disable_now : (idle : Bool) → CpState → CpState
  disable_now idle st =
      let b1 = (write32 st.bus cp_csq_mode 0).1 in
      let b2 = (write32 b1 cp_csq_cntl 0).1 in
      let (value, b3) = read32 y.hw b2 cp_csq_cntl in
      let (quiet, b4) = wait_command_stream_idle y.hw b3 in
      let b5 = if idle && quiet then b4 else (cp_reset y.hw b4).1 in
      record (stopped st) { bus = b5 }

  abbrev pub disable_after : Bool × CpState → CpState
  disable_after (idle, st) = disable_now idle st

  -- `CpDisable`
  pub disable : (orderly : Bool) → CpState → Option CpState
  disable orderly st =
      if orderly && st.ready && not (st.pending_fence == 0)
      then Option.map disable_after (wait y.hw y.clock y.fuel st)
      else some (disable_now true st)

  -- `RadeonCpShutdown`
  pub shutdown : Driver → Option Driver
  shutdown d = if not d.allocated then some d else Option.map (release d) (disable true d.state)

  -- `RadeonCpAbort`, behind the call of `Radeon3DInvalidateService`.
  pub abort : Driver → Option Driver
  abort d =
      if not d.allocated
      then some d
      else Option.map (λ st. restore_bus (record d { state = st })) (disable false d.state)

  -- The `fail` label of `RadeonCpInitialize`.
  pub give_up : Driver → Option (Bool × Driver)
  give_up d = Option.map (λ d'. (false, d')) (shutdown d)

  -- The cleared state with its timer: `CpOpenTimer`, and whether it succeeds.
  pub open_timer : CpState → Bool × CpState
  open_timer st = elim y.timer [
    | none ↦ (false, st)
    | some rate ↦ (not (rate == 0), record st { timer_open = true; eclock_rate = rate })
  ]

  -- What `master_and_up` gives, at the end of `RadeonCpInitialize`.
  pub finish_initialize : Driver → Bool × CpState → Option (Bool × Driver)
  finish_initialize d (false, st) = give_up (record d { state = st })
  finish_initialize d (true, st) = some (true, record d { state = record st { next_fence = 1 } })

  -- From the ring's memory on.
  pub with_ring : Driver → Option (ℕ × Vram.Board) → Option (Bool × Driver)
  with_ring d none = give_up d
  with_ring d (some (ring, memory)) =
      let held = record d { memory = memory; ring_memory = ring } in
      let placed = saving (record held {
        state = record d.state {
          ring_gpu_address = d.framebuffer_gpu_base + (ring - memory.memory_base);
        };
      }) in
      if is_ring_outside held ring
      then give_up held
      else then_finish (finish_initialize placed) (master_and_up placed)

  -- `RadeonCpInitialize`
  pub initialize : Driver → Option (Bool × Driver)
  initialize d =
      let (timed, st) = open_timer (cleared d.state) in
      let fresh = record d {
        allocated = true;
        state = st;
        ring_memory = 0;
        saved_bus_cntl = 0;
        saved_command = 0;
        bus_configured = false;
      } in
      if d.allocated || (d.memory.memory_base == 0) || not d.has_registers
      then some (false, d)
      else if not y.gives_memory
      then some (false, d)
      else if not timed
      then give_up fresh
      else with_ring fresh (allocate_private_vram d.memory ring_size)

  -- What `master_and_up` gives, at the end of `RadeonCpRecover`.
  pub finish_recover : Driver → Bool × CpState → Option (Bool × Driver)
  finish_recover d (false, st) =
      Option.map (λ st'. (false, restore_bus (record d { state = st' }))) (disable false st)
  finish_recover d (true, st) = some (
    true,
    record d { state = record st { pending_fence = 0; pending_unfenced = 0; next_fence = 1 } },
  )

  -- `RadeonCpRecover`
  pub recover : Driver → Option (Bool × Driver)
  recover d =
      let saved = saving d in
      if not d.allocated
      then some (false, d)
      else if d.state.ready
      then some (true, d)
      else then_finish (finish_recover saved) (master_and_up saved)
