-- ===== src/Cp/Idle/Tests.antt =====
-- The theorems on `RadeonCpWait` at concrete inputs.
use r200_p96_driver.Base.{ℕ, ◌≡◌, refl, Bool, true, some, [], ◌∷◌, bit_or, arith, repeat}
use r200_p96_driver.Mmio.{read32, write32}
use r200_p96_driver.Cp.{CpState, scratch_reg0, wait_ticks, read_clock}
use r200_p96_driver.Cp.Tests.{card, ticks, sixteen_from_end, sixteen_from_end-IsReady}
use r200_p96_driver.Cp.Fence.{
  invalidate_host_read_buffer, host_path_cntl, hdp_read_buffer_invalidate,
}
use r200_p96_driver.Cp.Idle.{watch, watch_scratch, watch_start, settle_wait, wait}
use r200_p96_driver.Cp.Idle.Ends.{wait_ends, wait-retired}

-- The card's scratch register holds fence 7, which is pending.
abbrev idle : CpState
idle = record sixteen_from_end {
  bus = record sixteen_from_end.bus {
    now = 8;
    written = (host_path_cntl, 7) ∷ (host_path_cntl, bit_or 7 hdp_read_buffer_invalidate) ∷ [];
  };
  pending_fence = 0;
  pending_unfenced = 0;
}

wait_returns_idle : wait card ticks 1 sixteen_from_end ≡ some (true, idle)
unfolding wait watch watch_scratch watch_start settle_wait invalidate_host_read_buffer read32
    write32 repeat read_clock wait_ticks
wait_returns_idle = refl

wait-retired_example :
    ((t : ℕ) × (card t scratch_reg0 ≡ 7)) × (idle.pending_fence ≡ 0) × (idle.pending_unfenced ≡ 0)
wait-retired_example =
    wait-retired card ticks 1 sixteen_from_end sixteen_from_end-IsReady (omega arith)
      wait_returns_idle

wait_ends_example : (r : Bool × CpState) × (wait card ticks 20049 sixteen_from_end ≡ some r)
wait_ends_example =
    wait_ends card ticks 20049 sixteen_from_end 0 262128 sixteen_from_end-IsReady (λ t h. refl)
      (omega arith)
