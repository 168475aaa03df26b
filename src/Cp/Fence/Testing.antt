-- ===== src/Cp/Fence/Testing.antt =====
-- What `RadeonCpTestFence` answers, and what it leaves behind.
use r200_p96_driver.Base.{
  ℕ, ◌+◌, ◌≤◌, ◌≡◌, ◌∙◌, sym, refl, ◌⊎◌, inl, inr, true, false, ◌==◌, arith, ◌∷◌, bit_or,
  Bool-cases,
}
use r200_p96_driver.Mmio.{Bus, is_refused, read32, write32}
use r200_p96_driver.Cp.{CpState, scratch_reg0, fence_reached}
use r200_p96_driver.Cp.Stream.Sizes.{IsReady}
use r200_p96_driver.Cp.Fence.{
  host_path_cntl, hdp_read_buffer_invalidate, retire, invalidate_host_read_buffer, test_fence,
}

-- The window holds the registers of this file.
abbrev pub Holds : Bus → Type 0
Holds b = (b.mapped ≡ true) × (scratch_reg0 + 4 ≤ b.mmio_size)

scratch_reg0-open : (b : Bus) → Holds b → is_refused b scratch_reg0 ≡ false
scratch_reg0-open b h = ground arith

fence_reached-nonzero :
    (current fence : ℕ) → fence_reached current fence ≡ true → (fence == 0) ≡ false
unfolding fence_reached
fence_reached-nonzero current fence h = ground arith

module _ (hw : ℕ → ℕ → ℕ) where
  pub read_scratch :
      (b : Bus)
      → Holds b
      → read32 hw b scratch_reg0 ≡ (hw b.now scratch_reg0, record b { now = b.now + 1 })
  unfolding read32
  read_scratch b h = rw (scratch_reg0-open b h) refl

  invalidated_bus : Bus → Bus
  invalidated_bus b =
      let host = hw b.now host_path_cntl in
      record b {
        now = b.now + 1 + 1 + 1 + 1 + 1;
        written =
            (host_path_cntl, host)
            ∷ (host_path_cntl, bit_or host hdp_read_buffer_invalidate)
            ∷ b.written;
      }

  host_read :
      (b : Bus)
      → Holds b
      → read32 hw b host_path_cntl ≡ (hw b.now host_path_cntl, record b { now = b.now + 1 })
  unfolding read32
  host_read b h =
      let open_window : is_refused b host_path_cntl ≡ false = ground (arith, h.1) in
      rw open_window refl

  host_write :
      (b : Bus) (value : ℕ)
      → Holds b
      → write32 b host_path_cntl value
        ≡ (true, record b { now = b.now + 1; written = (host_path_cntl, value) ∷ b.written })
  unfolding write32
  host_write b value h =
      let open_window : is_refused b host_path_cntl ≡ false = ground (arith, h.1) in
      rw open_window refl

  invalidate_host_read_buffer_lem :
      (b : Bus) → Holds b → invalidate_host_read_buffer hw b ≡ (true, invalidated_bus b)
  unfolding invalidate_host_read_buffer invalidated_bus
  invalidate_host_read_buffer_lem b h =
      let host = hw b.now host_path_cntl in
      let b1 = record b { now = b.now + 1 } in
      let value = bit_or host hdp_read_buffer_invalidate in
      let b2 = record b1 { now = b1.now + 1; written = (host_path_cntl, value) ∷ b1.written } in
      let b3 = record b2 { now = b2.now + 1 } in
      let b4 = record b3 { now = b3.now + 1; written = (host_path_cntl, host) ∷ b3.written } in
      rw
        (host_read b h, host_write b1 value h, host_read b2 h, host_write b3 host h, host_read b4 h)
        refl

  -- What the CPU has done when a fence test says TRUE.
  pub record Retired (st : CpState) (fence : ℕ) (st' : CpState) : Type 0 where
    pub reached : fence_reached (hw st.bus.now scratch_reg0) fence ≡ true
    pub invalidated :
        let host = hw (st.bus.now + 1) host_path_cntl in
        st'.bus.written
        ≡ (host_path_cntl, host)
          ∷ (host_path_cntl, bit_or host hdp_read_buffer_invalidate)
          ∷ st.bus.written
    pub pending :
        ((st'.pending_fence ≡ st.pending_fence)
          × (fence_reached (hw st.bus.now scratch_reg0) st.pending_fence ≡ false))
        ⊎ ((st'.pending_fence ≡ 0)
            × (fence_reached (hw st.bus.now scratch_reg0) st.pending_fence ≡ true))
    pub frame : st' ≡ record st { bus = st'.bus; pending_fence = st'.pending_fence }

  test_fence-reached :
      (st : CpState) (fence : ℕ)
      → st.ready ≡ true
      → Holds st.bus
      → fence_reached (hw st.bus.now scratch_reg0) fence ≡ true
      → test_fence hw st fence
        ≡ retire hw st
            (hw st.bus.now scratch_reg0)
            (true, invalidated_bus (record st.bus { now = st.bus.now + 1 }))
  unfolding test_fence
  test_fence-reached st fence v w r =
      let b = record st.bus { now = st.bus.now + 1 } in
      let some_fence : (fence == 0) ≡ false =
        fence_reached-nonzero (hw st.bus.now scratch_reg0) fence r in
      rw (v, some_fence, read_scratch st.bus w, r, invalidate_host_read_buffer_lem b w) refl

  pub test_fence-unreached :
      (st : CpState) (fence : ℕ)
      → st.ready ≡ true
      → Holds st.bus
      → fence_reached (hw st.bus.now scratch_reg0) fence ≡ false
      → (now : ℕ) × (st.bus.now ≤ now)
        × (test_fence hw st fence ≡ (false, record st { bus = record st.bus { now = now } }))
  unfolding test_fence
  test_fence-unreached st fence v w r = elim (Bool-cases (fence == 0)) [
    | inl e ↦ (st.bus.now, omega arith, rw (v, e) refl)
    | inr e ↦ (st.bus.now + 1, omega arith, rw (v, e, read_scratch st.bus w, r) refl)
  ]

  retire-Retired :
      (st : CpState) (fence : ℕ)
      → fence_reached (hw st.bus.now scratch_reg0) fence ≡ true
      → let r =
          retire hw st
            (hw st.bus.now scratch_reg0)
            (true, invalidated_bus (record st.bus { now = st.bus.now + 1 })) in
        (r.0 ≡ true) × Retired st fence r.1
  unfolding retire invalidated_bus
  retire-Retired st fence r =
      elim (Bool-cases (fence_reached (hw st.bus.now scratch_reg0) st.pending_fence)) [
        | inl e ↦
            let pending = fence_reached-nonzero (hw st.bus.now scratch_reg0) st.pending_fence e in
            rw (e, pending)
              (
                refl,
                record { reached = r; invalidated = refl; pending = inr (refl, e); frame = refl },
              )
        | inr e ↦ elim (Bool-cases (st.pending_fence == 0)) [
          | inl z ↦
              rw (e, z)
                (
                  refl,
                  record { reached = r; invalidated = refl; pending = inl (refl, e); frame = refl },
                )
          | inr z ↦
              rw (e, z)
                (
                  refl,
                  record { reached = r; invalidated = refl; pending = inl (refl, e); frame = refl },
                )
        ]
      ]

  -- With a window that holds the registers, a test says TRUE just if the ring is ready and the scratch
  -- register has reached the fence. Then the host read buffer was invalidated, and the pending fence is
  -- forgotten just if it was reached too. Otherwise nothing was written and the pending fence stays.
  pub test_fence_lem :
      (st : CpState) (fence : ℕ)
      → Holds st.bus
      → (((test_fence hw st fence).0 ≡ true)
          × (st.ready ≡ true)
          × Retired st fence (test_fence hw st fence).1)
        ⊎ (((test_fence hw st fence).0 ≡ false)
            × ((st.ready ≡ false) ⊎ (fence_reached (hw st.bus.now scratch_reg0) fence ≡ false))
            × ((test_fence hw st fence).1.bus.written ≡ st.bus.written)
            × ((test_fence hw st fence).1.pending_fence ≡ st.pending_fence))
  test_fence_lem st fence w = elim (Bool-cases st.ready) [
    | inr off ↦ inr (unfold test_fence in rw off (refl, inl refl, refl, refl))
    | inl v ↦ elim (Bool-cases (fence_reached (hw st.bus.now scratch_reg0) fence)) [
      | inl r ↦
          let t = retire-Retired st fence r in
          inl (rw (test_fence-reached st fence v w r) (t.0, v, t.1))
      | inr r ↦ inr (rw (test_fence-unreached st fence v w r).2 (refl, inr r, refl, refl))
    ]
  ]

  pub test_fence-says :
      (st : CpState) (fence : ℕ)
      → IsReady st
      → (test_fence hw st fence).0 ≡ fence_reached (hw st.bus.now scratch_reg0) fence
  test_fence-says st fence v = elim (test_fence_lem st fence (v.mapped, v.window)) [
    | inl t ↦ t.0 ∙ sym t.2.reached
    | inr t ↦ elim t.1 [ inl off ↦ absurd (cc (v.ready, off)) | inr r ↦ t.0 ∙ sym r ]
  ]
