-- ===== src/Cp/Fence/Tests.antt =====
-- The theorems on fences at concrete inputs.
use r200_p96_driver.Base.{
  ℕ, ◌-◌, ◌^◌, ◌<◌, ◌≡◌, ◌≢◌, ◌⊎◌, refl, true, false, [], some, arith, leb, repeat,
}
use r200_p96_driver.Mmio.{read32, write32}
use r200_p96_driver.Cp.{ring_dwords, scratch_reg0, fence_reached, wait_ticks, read_clock}
use r200_p96_driver.Cp.Tests.{card, ticks, sixteen_from_end, sixteen_from_end-IsReady}
use r200_p96_driver.Cp.Fence.{
  invalidate_host_read_buffer, retire, test_fence, poll_fence, fence_deadline, wait_fence,
  adopt_fence,
}
use r200_p96_driver.Base.{bit_and}
use r200_p96_driver.Cp.Fence.Drained.{wait_drained-idle}
use r200_p96_driver.Cp.Fence.{rbbm_status, rbbm_active, poll_status, wait_gui_idle, wait_drained}
use r200_p96_driver.Cp.Fence.Serial.{issued, fence_reached-issued}
use r200_p96_driver.Cp.Fence.Testing.{Retired, test_fence_lem}
use r200_p96_driver.Cp.Fence.Waiting.{WasReached, wait_fence-reached, adopt_fence_lem}

-- Fence 0 is the last before the wrap, fence 2 comes after it.
fence_reached-issued_example :
    fence_reached (issued (2 ^ 32 - 1) 2) (issued (2 ^ 32 - 1) 0) ≡ leb 0 2
fence_reached-issued_example =
    fence_reached-issued (2 ^ 32 - 1) 0 2 (omega arith) (omega arith) (omega arith)

test_fence_lem_example :
    (((test_fence card sixteen_from_end 5).0 ≡ true)
      × (true ≡ true)
      × Retired card sixteen_from_end 5 (test_fence card sixteen_from_end 5).1)
    ⊎ (((test_fence card sixteen_from_end 5).0 ≡ false)
        × ((true ≡ false) ⊎ (fence_reached (card 0 scratch_reg0) 5 ≡ false))
        × ((test_fence card sixteen_from_end 5).1.bus.written ≡ [])
        × ((test_fence card sixteen_from_end 5).1.pending_fence ≡ 7))
test_fence_lem_example = test_fence_lem card sixteen_from_end 5 (refl, omega arith)

wait_returns :
    wait_fence card ticks 3 sixteen_from_end 5 100
    ≡ some (true, (test_fence card (fence_deadline card ticks sixteen_from_end 100).1 5).1)
unfolding wait_fence poll_fence test_fence retire invalidate_host_read_buffer fence_reached
    wait_ticks read_clock repeat read32 write32
wait_returns = refl

wait_fence-reached_example : WasReached card ticks 5
wait_fence-reached_example =
    wait_fence-reached card ticks 3 sixteen_from_end 5 100 sixteen_from_end-IsReady wait_returns

adopt_fence_lem_example :
    let st' = adopt_fence card sixteen_from_end (2 ^ 32 - 1) in
    (st'.pending_fence ≡ 0)
    × (st'.pending_unfenced ≡ 0)
    × (st'.bus.written ≡ [])
    × (((2 ^ 32 - 1 ≡ 0) × (st'.next_fence ≡ 2 ^ 32 - 1) × (st'.write_pointer ≡ 262128))
        ⊎ ((2 ^ 32 - 1 ≢ 0)
            × (issued st'.next_fence 0 ≡ issued (2 ^ 32 - 1) 1)
            × (st'.write_pointer < ring_dwords)))
adopt_fence_lem_example = adopt_fence_lem card sixteen_from_end (2 ^ 32 - 1) (omega arith)

-- Every register reads 64: the queue has room for 64 entries, and nothing is active.
abbrev idle_card : ℕ → ℕ → ℕ
idle_card t reg = 64

drains : (wait_drained idle_card sixteen_from_end).0 ≡ true
unfolding wait_drained wait_gui_idle poll_status read32
drains = refl

wait_drained-idle_example :
    ((wait_drained idle_card sixteen_from_end).1.pending_unfenced ≡ 0)
    × ((t : ℕ) × (bit_and (idle_card t rbbm_status) rbbm_active ≡ 0))
wait_drained-idle_example =
    wait_drained-idle idle_card sixteen_from_end sixteen_from_end-IsReady (omega arith) drains
