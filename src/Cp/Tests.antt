-- ===== src/Cp/Tests.antt =====
-- The theorems on the command processor at concrete inputs: a ring whose write pointer is near the
-- end, a counter near its wrap, and a card that is idle.
use r200_p96_driver.Base.{
  ℕ, ◌+◌, ◌-◌, ◌*◌, ◌/◌, ◌%◌, ◌^◌, ◌≤◌, ◌≡◌, ◌⊎◌, refl, true, false, List, [], ◌∷◌, some, ◌==◌,
  if◌then◌else◌, arith, bit_and, get_or, ltb,
}
use r200_p96_driver.Cp.{CpState, ring_mask, cp_rb_rptr, free_dwords}
use r200_p96_driver.Cp.Copy.{burst_copy}
use r200_p96_driver.Cp.Copy.Placed.{Reverses, overlay, burst_copy-overlay}
use r200_p96_driver.Cp.Stream.{stream_dword, write_ring}
use r200_p96_driver.Cp.Stream.Layout.{stream_dword-Carries, write_ring_lem}
use r200_p96_driver.Cp.Stream.Sizes.{IsReady, stream_size}
use r200_p96_driver.Cp.Submit.{Submission, submit_stream}
use r200_p96_driver.Cp.Submit.Settle.{IsStream, Delivered, Refused}
use r200_p96_driver.Cp.Submit.Submitted.{
  submit_stream-outcome, submit_stream-room, submit_stream_ends,
}

abbrev byte_reverse : ℕ → ℕ
byte_reverse x =
    x % 2 ^ 8 * 2 ^ 24 + x / 2 ^ 8 % 2 ^ 8 * 2 ^ 16 + x / 2 ^ 16 % 2 ^ 8 * 2 ^ 8 + x / 2 ^ 24

byte_reverse-Reverses : Reverses byte_reverse
byte_reverse-Reverses x h = refl

-- The read pointer stands at the write pointer, the scratch register at fence 7.
abbrev pub card : ℕ → ℕ → ℕ
card t reg = if reg == cp_rb_rptr then 262128 else 7

abbrev pub ticks : ℕ → ℕ
ticks t = t

abbrev pub sixteen_from_end : CpState
sixteen_from_end = record {
  bus = record { mapped = true; mmio_size = 0x10000; now = 0; written = [] };
  ring = λ i. 0;
  ring_gpu_address = 0;
  write_pointer = 262128;
  pending_fence = 7;
  pending_unfenced = 3;
  next_fence = 2 ^ 32 - 1;
  eclock_rate = 709379;
  ready = true;
  timer_open = true;
}

pub sixteen_from_end-IsReady : IsReady sixteen_from_end
sixteen_from_end-IsReady = record {
  ready = refl;
  slot = omega arith;
  aligned = refl;
  mapped = refl;
  window = omega arith;
}

-- Eighteen dwords with the fence, and so two ring slots, on both sides of the wrap.
abbrev twelve_dwords : List ℕ
twelve_dwords = 0x0100_05c7 ∷ 0x1122_3344 ∷ 3 ∷ 4 ∷ 5 ∷ 6 ∷ 7 ∷ 8 ∷ 9 ∷ 10 ∷ 11 ∷ 0xffff_ffff ∷ []

twelve_dwords-IsStream : IsStream twelve_dwords
twelve_dwords-IsStream = record {
  some_dwords = omega arith;
  few = omega arith;
  words = omega arith;
}

card_room :
    (t : ℕ)
    → stream_size twelve_dwords true ≤ free_dwords (bit_and (card t cp_rb_rptr) ring_mask) 262128
card_room t = omega arith

abbrev submission :
    (sub : Submission) × (submit_stream byte_reverse card ticks 20003 sixteen_from_end twelve_dwords
        true
      ≡ some sub)
    × (sub.done ≡ true)
submission =
    submit_stream-room byte_reverse byte_reverse-Reverses card ticks 20003 sixteen_from_end
      sixteen_from_end-IsReady (omega arith) twelve_dwords twelve_dwords-IsStream true (omega arith)
      card_room

submit_stream-outcome_example :
    ((submission.0.done ≡ true)
      × Delivered byte_reverse card sixteen_from_end twelve_dwords true submission.0)
    ⊎ ((submission.0.done ≡ false) × Refused sixteen_from_end submission.0)
submit_stream-outcome_example =
    submit_stream-outcome byte_reverse byte_reverse-Reverses card ticks 20003 sixteen_from_end
      sixteen_from_end-IsReady (omega arith) twelve_dwords twelve_dwords-IsStream true (omega arith)
      submission.1

submit_stream-room_example :
    (sub : Submission) × (submit_stream byte_reverse card ticks 20003 sixteen_from_end twelve_dwords
        true
      ≡ some sub)
    × (sub.done ≡ true)
submit_stream-room_example =
    submit_stream-room byte_reverse byte_reverse-Reverses card ticks 20003 sixteen_from_end
      sixteen_from_end-IsReady (omega arith) twelve_dwords twelve_dwords-IsStream true (omega arith)
      card_room

submit_stream_ends_example :
    (sub : Submission) × (submit_stream byte_reverse card ticks 20003 sixteen_from_end twelve_dwords
        true
      ≡ some sub)
submit_stream_ends_example =
    submit_stream_ends byte_reverse byte_reverse-Reverses card ticks 20003 sixteen_from_end
      sixteen_from_end-IsReady (omega arith) twelve_dwords twelve_dwords-IsStream true 0 262128
      (λ t h. refl) (omega arith)

write_ring_lem_example :
    write_ring byte_reverse twelve_dwords (stream_dword twelve_dwords true 7) (λ i. 0) 262128 32 3
    ≡ (if ltb 19 32 then byte_reverse (stream_dword twelve_dwords true 7 19) else 0)
write_ring_lem_example =
    write_ring_lem byte_reverse byte_reverse-Reverses twelve_dwords
      (stream_dword twelve_dwords true 7) (stream_dword-Carries twelve_dwords true 7) (omega arith)
      (λ i. 0) 262128 32 3 (omega arith) (omega arith) (omega arith)

burst_copy-overlay_example :
    burst_copy byte_reverse 12 (λ i. 0) 100 twelve_dwords 12 109
    ≡ overlay (λ i. 0) 100 12 (λ k. byte_reverse (get_or twelve_dwords k 0)) 109
burst_copy-overlay_example =
    burst_copy-overlay byte_reverse byte_reverse-Reverses 12 12 (λ i. 0) 100 twelve_dwords 109
      (omega arith)
