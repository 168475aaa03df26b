-- ===== src/Cp/Life/Tests.antt =====
-- The theorems on starting and stopping at concrete inputs: a card that is idle and passes the test of
-- the ring, and one system that does not give a timer.
use r200_p96_driver.Base.{
  ℕ, ◌+◌, ◌*◌, ◌/◌, ◌%◌, ◌^◌, ◌≡◌, refl, true, false, List, [], ◌∷◌, none, some, ◌==◌,
  if◌then◌else◌, arith, repeat,
}
use r200_p96_driver.Vram.{allocate_private_vram}
use r200_p96_driver.Vram.Stack.{IsValid}
use r200_p96_driver.Mmio.{read32, write32}
use r200_p96_driver.Cp.{CpState, scratch_reg0, read_clock, wait_ticks}
use r200_p96_driver.Cp.Fence.{rbbm_status, poll_status, wait_gui_idle}
use r200_p96_driver.Cp.Launch.{
  Outside, test_after, bring_up, configure_ring, cp_reset, load_microcode, open_queue, poll_scratch,
  pulse_reset, ring_test, wait_command_stream_idle,
}
use r200_p96_driver.Cp.Launch.Ends.{Ends}
use r200_p96_driver.Cp.Life.{
  Driver, initialize, shutdown, recover, disable, disable_now, finish_initialize, finish_recover,
  give_up, is_ring_outside, master_and_up, open_timer, release, restore_bus, saving, with_ring,
}
use r200_p96_driver.Cp.Life.Returned.{IsGivenBack, initialize-IsGivenBack}
use r200_p96_driver.Cp.Life.Held.{shutdown-initialize}
use r200_p96_driver.Cp.Life.Ends.{initialize-Ends}
use r200_p96_driver.Cp.Life.Started.{IsFresh, HasRing, initialize-IsFresh, recover-IsFresh}
use r200_p96_driver.Cp.Commit.{commit, commit_staged, copy_staged}
use r200_p96_driver.Cp.Reserve.{poll_at, poll_ring, reserve, reserve_start}
use r200_p96_driver.Cp.Stream.{fill, hand_over}
use r200_p96_driver.Mmio.Chain.{perform, perform_all}

abbrev byte_reverse : ℕ → ℕ
byte_reverse x =
    x % 2 ^ 8 * 2 ^ 24 + x / 2 ^ 8 % 2 ^ 8 * 2 ^ 16 + x / 2 ^ 16 % 2 ^ 8 * 2 ^ 8 + x / 2 ^ 24

-- The queue of the engine is free, and the scratch register holds what the test writes into it.
abbrev good_card : ℕ → ℕ → ℕ
good_card t reg = if reg == scratch_reg0 then test_after else if reg == rbbm_status then 64 else 0

-- The command word is what was last written to it.
abbrev last_written : List ℕ → ℕ
last_written [] = 2
last_written (word ∷ rest) = word

abbrev good : Outside
good = record {
  hw = good_card;
  clock = λ t. t;
  swap_long = byte_reverse;
  fuel = 20003;
  command = last_written;
  microcode = (1, 2) ∷ [];
  gives_memory = true;
  timer = some 709379;
}

abbrev no_timer : Outside
no_timer = record good { timer = none }

abbrev fresh : CpState
fresh = record {
  bus = record { mapped = true; mmio_size = 0x10000; now = 0; written = [] };
  ring = λ i. 0;
  ring_gpu_address = 0;
  write_pointer = 0;
  pending_fence = 0;
  pending_unfenced = 0;
  next_fence = 0;
  eclock_rate = 0;
  ready = false;
  timer_open = false;
}

-- 16 MB of memory, all of it visible.
abbrev new_board : Driver
new_board = record {
  memory = record {
    memory_base = 0x4000_0000;
    memory_size = 16 * 1024 * 1024;
    memory_space_size = 16 * 1024 * 1024;
  };
  installed_vram = 16 * 1024 * 1024;
  framebuffer_gpu_base = 0x1000_0000;
  has_registers = true;
  command_writes = [];
  allocated = false;
  state = fresh;
  ring_memory = 0;
  saved_bus_cntl = 0;
  saved_command = 0;
  bus_configured = false;
}

new_board-IsValid : IsValid new_board.memory
new_board-IsValid = record { based = omega arith; visible = omega arith; inside = omega arith }

initialize-Ends_example : Ends (initialize good new_board)
initialize-Ends_example = initialize-Ends good 0 0 (λ t h. refl) (omega arith) new_board

abbrev not_started : (d : Driver) × (initialize no_timer new_board ≡ some (false, d))
unfolding initialize open_timer give_up shutdown disable
not_started = (_, refl)

initialize-IsGivenBack_example : IsGivenBack no_timer new_board not_started.0
initialize-IsGivenBack_example =
    initialize-IsGivenBack no_timer new_board new_board-IsValid refl refl refl refl not_started.1

abbrev started : (d : Driver) × (initialize good new_board ≡ some (true, d))
unfolding initialize open_timer with_ring allocate_private_vram is_ring_outside finish_initialize
    master_and_up saving write32 read32 bring_up cp_reset perform_all poll_status load_microcode
    wait_gui_idle configure_ring open_queue commit reserve repeat poll_ring reserve_start read_clock
    hand_over copy_staged fill ring_test commit_staged poll_scratch pulse_reset poll_at wait_ticks
    perform
started = (_, refl)

initialize-IsFresh_example :
    IsFresh started.0.state × HasRing started.0 × (started.0.allocated ≡ true)
initialize-IsFresh_example = initialize-IsFresh good new_board started.1

-- The state that the shutdown finds.
abbrev released : (d : Driver) × (shutdown good (record started.0 { state = fresh }) ≡ some d)
unfolding initialize open_timer with_ring allocate_private_vram is_ring_outside finish_initialize
    master_and_up saving write32 read32 bring_up cp_reset perform_all poll_status load_microcode
    wait_gui_idle configure_ring open_queue commit reserve repeat poll_ring reserve_start read_clock
    hand_over copy_staged fill ring_test commit_staged poll_scratch pulse_reset poll_at wait_ticks
    perform shutdown disable disable_now wait_command_stream_idle release restore_bus
released = (_, refl)

shutdown-initialize_example : IsGivenBack good new_board released.0
shutdown-initialize_example =
    shutdown-initialize good new_board fresh new_board-IsValid refl started.1 released.1

-- A driver whose command processor was stopped by an abort.
abbrev aborted : Driver
aborted = record new_board {
  allocated = true;
  state = record fresh { pending_fence = 5; timer_open = true; eclock_rate = 709379 };
  ring_memory = 0x4000_0000 + 15 * 1024 * 1024;
}

abbrev recovered : (d : Driver) × (recover good aborted ≡ some (true, d))
unfolding recover finish_recover master_and_up saving write32 read32 bring_up cp_reset perform_all
    poll_status load_microcode wait_gui_idle configure_ring open_queue commit reserve repeat
    poll_ring reserve_start read_clock hand_over copy_staged fill ring_test commit_staged
    poll_scratch pulse_reset poll_at wait_ticks perform
recovered = (_, refl)

recover-IsFresh_example :
    IsFresh recovered.0.state
    × (recovered.0.memory ≡ aborted.memory)
    × (recovered.0.ring_memory ≡ aborted.ring_memory)
recover-IsFresh_example = recover-IsFresh good aborted refl recovered.1
