-- ===== src/Cp/Submit/Submitted.antt =====
-- What a submission promises.
use mathlib.Core.Option
use mathlib.Core.Path.{subst}
use r200_p96_driver.Base.{
  some-inj, ℕ, ◌+◌, ◌^◌, ◌≤◌, ◌<◌, ◌≡◌, ◌∙◌, ap, sym, ◌⊎◌, inl, inr, refl, Bool, true, false, List,
  Option, some, ltb, leb, ◌==◌, length, arith, bit_and, Option-cases,
}
use r200_p96_driver.Mmio.{Bus}
use r200_p96_driver.Cp.{CpState, ring_dwords, max_batch_dwords, free_dwords, cp_rb_rptr, ring_mask}
use r200_p96_driver.Cp.Reserve.{reserve}
use r200_p96_driver.Cp.Reserve.Bounded.{
  Reserved, reserve-Reserved, reserve_ends, reserve-room_always,
}
use r200_p96_driver.Cp.Copy.Placed.{Reverses}
use r200_p96_driver.Cp.Stream.{stream_dword, commit_reserved, commit_stream}
use r200_p96_driver.Cp.Stream.Layout.{Carries, stream_dword-Carries}
use r200_p96_driver.Cp.Stream.Sizes.{
  IsReady, IsReady-IsOpen, stream_size, stream_size_lem, stream_dword-lt,
}
use r200_p96_driver.Cp.Stream.Commit.{
  Committed, Unsent, SameCounters, commit_reserved-true, commit_reserved-false,
  commit_reserved-granted,
}
use r200_p96_driver.Cp.Submit.Settle.{
  IsStream, next_sequence-lt, settle_fence_state, settle_fence_lem, settle_fence_done, Delivered,
  Refused,
}
use r200_p96_driver.Cp.Submit.{Submission, settle_fence, next_sequence, submit_stream}

module _ (swap_long : ℕ → ℕ) (rev : Reverses swap_long) (hw : ℕ → ℕ → ℕ) (clock : ℕ → ℕ) (fuel : ℕ)
    (st : CpState) (v : IsReady st) (counter : st.next_fence < 2 ^ 32) (commands : List ℕ)
    (s : IsStream commands) (add_fence : Bool) where
  abbrev sequence : ℕ
  sequence = (next_sequence add_fence st.next_fence).0

  -- The state that is committed from.
  abbrev started : CpState
  started = record st { next_fence = (next_sequence add_fence st.next_fence).1 }

  started-IsReady : IsReady started
  started-IsReady = record {
    ready = v.ready;
    slot = v.slot;
    aligned = v.aligned;
    mapped = v.mapped;
    window = v.window;
  }

  abbrev total : ℕ
  total = stream_size commands add_fence

  positive : 0 < total
  positive = omega (arith, (stream_size_lem commands add_fence s.few).0, s.some_dwords)

  small : total < ring_dwords
  small = omega (arith, (stream_size_lem commands add_fence s.few).2)

  committed : Bool × Bus → Bool × CpState
  committed =
      commit_reserved swap_long hw started commands (stream_dword commands add_fence sequence) total

  -- The guards of both functions are passed.
  submit_stream-commits :
      submit_stream swap_long hw clock fuel st commands add_fence
      ≡ Option.map
          (settle_fence add_fence sequence)
          (Option.map committed (reserve hw clock fuel started total))
  unfolding submit_stream commit_stream committed
  submit_stream-commits =
      let a : (length commands == 0) ≡ false = ground (arith, s.some_dwords) in
      let b : ltb max_batch_dwords (length commands) ≡ false = ground (arith, s.few) in
      let c : (total == 0) ≡ false = ground (arith, positive) in
      let d : leb ring_dwords total ≡ false = ground (arith, small) in rw (v.ready, a, b, c, d) refl

  started-Carries : Carries commands (stream_dword commands add_fence sequence)
  started-Carries = stream_dword-Carries commands add_fence sequence

  started-longs : (k : ℕ) → stream_dword commands add_fence sequence k < 2 ^ 32
  started-longs k =
      stream_dword-lt commands add_fence sequence k s.words
        (next_sequence-lt add_fence st.next_fence counter)

  started-Committed :
      {st' after : CpState} {pending_fence pending_unfenced : ℕ}
      → Committed swap_long hw started total (stream_dword commands add_fence sequence) st'
      → after ≡ record st' { pending_fence = pending_fence; pending_unfenced = pending_unfenced }
      → Committed swap_long hw st total (stream_dword commands add_fence sequence) after
  started-Committed c e =
      subst (Committed swap_long hw st total (stream_dword commands add_fence sequence)) (sym e)
        (record {
          pointer = c.pointer;
          kicked = c.kicked;
          stream = c.stream;
          window = c.window;
          read_at = c.read_at;
          unread = c.unread;
        })

  delivered :
      (st' : CpState)
      → st.pending_unfenced < 2 ^ 32
      → Committed swap_long hw started total (stream_dword commands add_fence sequence) st'
      → SameCounters swap_long hw started st'
      → Delivered swap_long hw st commands add_fence (settle_fence add_fence sequence (true, st'))
  delivered st' u c same =
      let frame = settle_fence_state add_fence sequence st' in
      let counted = ap (λ (x : CpState). x.pending_unfenced) same in
      let facts =
        settle_fence_lem add_fence st.next_fence st' counter (omega (arith, counted, u)) in
      record {
        committed = started-Committed c frame;
        still_ready = subst IsReady (sym frame) (record {
          ready = ap (λ (x : CpState). x.ready) same ∙ v.ready;
          slot = omega (arith, c.pointer);
          aligned =
              omega (arith, c.pointer, v.aligned, (stream_size_lem commands add_fence s.few).1);
          mapped = c.window.0 ∙ v.mapped;
          window = omega (arith, c.window.1, v.window);
        });
        fence_out = facts.0;
        next_fence =
            ap (λ (x : CpState). x.next_fence)
              (frame
                ∙ ap
                    (λ (x : CpState). record x {
                      pending_fence =
                          (settle_fence add_fence sequence (true, st')).state.pending_fence;
                      pending_unfenced =
                          (settle_fence add_fence sequence (true, st')).state.pending_unfenced;
                    })
                    same);
        pending = elim facts.1 [
          | inl e ↦ inl e
          | inr e ↦ inr (
            e.0,
            e.1 ∙ ap (λ (x : CpState). x.pending_fence) same,
            e.2,
            omega (arith, e.3, counted),
            e.4,
          )
        ];
      }

  settled-Refused :
      (st' : CpState)
      → Unsent swap_long hw started st'
      → Refused st (settle_fence add_fence sequence (false, st'))
  unfolding settle_fence
  settled-Refused st' u = record {
    fence_out = refl;
    still_ready = record {
      ready = ap (λ (x : CpState). x.ready) u.frame ∙ v.ready;
      slot = omega (arith, ap (λ (x : CpState). x.write_pointer) u.frame, v.slot);
      aligned = omega (arith, ap (λ (x : CpState). x.write_pointer) u.frame, v.aligned);
      mapped = u.window.0 ∙ v.mapped;
      window = omega (arith, u.window.1, v.window);
    };
    written = u.silent;
    write_pointer = ap (λ (x : CpState). x.write_pointer) u.frame;
    pending_fence = ap (λ (x : CpState). x.pending_fence) u.frame;
    pending_unfenced = ap (λ (x : CpState). x.pending_unfenced) u.frame;
  }

  settled :
      (r : Bool × CpState)
      → st.pending_unfenced < 2 ^ 32
      → (answer : Bool × Bus) → Reserved hw started total answer
      → committed answer ≡ r
      → let sub = settle_fence add_fence sequence r in
        ((sub.done ≡ true) × Delivered swap_long hw st commands add_fence sub)
        ⊎ ((sub.done ≡ false) × Refused st sub)
  unfolding committed settle_fence
  settled (true, st') u answer res e =
      let both =
        commit_reserved-true swap_long rev hw started started-IsReady commands s.words
          (stream_dword commands add_fence sequence) total small started-Carries started-longs
          answer res e in
      inl (settle_fence_done add_fence sequence st', delivered st' u both.0 both.1)
  settled (false, st') u answer res e = inr (
    refl,
    settled-Refused st' (
        commit_reserved-false swap_long rev hw started started-IsReady commands s.words
          (stream_dword commands add_fence sequence) total small started-Carries started-longs
          answer res e),
  )

  -- On a ring in use, a submission that returns TRUE has put the whole stream, with its fence and
  -- padding, into slots that the command processor had consumed at some read of the read pointer,
  -- has written no register but the write pointer, and names its fence as pending; a submission
  -- that returns FALSE has written no register and counted nothing as in flight. The ring stays in
  -- use in both cases.
  pub submit_stream-outcome :
      {sub : Submission}
      → st.pending_unfenced < 2 ^ 32
      → submit_stream swap_long hw clock fuel st commands add_fence ≡ some sub
      → ((sub.done ≡ true) × Delivered swap_long hw st commands add_fence sub)
        ⊎ ((sub.done ≡ false) × Refused st sub)
  submit_stream-outcome {sub} u h = elim (Option-cases (reserve hw clock fuel started total)) [
    | inl e ↦ absurd (cc (sym submit_stream-commits ∙ h, e))
    | inr (answer, e) ↦
        let run = submit_stream-commits ∙ rw e refl in
        subst
          (λ x.
            ((x.done ≡ true) × Delivered swap_long hw st commands add_fence x)
            ⊎ ((x.done ≡ false) × Refused st x))
          (some-inj (sym run ∙ h))
          (settled (committed answer) u answer
            (reserve-Reserved hw clock fuel started total (IsReady-IsOpen started-IsReady) e) refl)
  ]

  -- A submission returns on a ring in use, even if the command processor stops for good: where its
  -- read pointer is at rest from the access number `settled` on, `settled + 20003` rounds of
  -- polling are enough.
  pub submit_stream_ends :
      (settled v : ℕ)
      → ((t : ℕ) → settled ≤ t → bit_and (hw t cp_rb_rptr) ring_mask ≡ v)
      → settled + 20003 ≤ fuel
      → (sub : Submission) × (submit_stream swap_long hw clock fuel st commands add_fence
          ≡ some sub)
  submit_stream_ends settled v rest enough =
      let r =
        reserve_ends hw clock fuel started total settled v (IsReady-IsOpen started-IsReady) rest
          enough in
      (
        _,
        submit_stream-commits
            ∙ ap
                (λ (o : Option (Bool × Bus)).
                  Option.map (settle_fence add_fence sequence) (Option.map committed o))
                r.1,
      )

  -- Where the read pointer always leaves room for the stream, a submission returns TRUE at once.
  pub submit_stream-room :
      0 < fuel
      → ((t : ℕ) → total ≤ free_dwords (bit_and (hw t cp_rb_rptr) ring_mask) st.write_pointer)
      → (sub : Submission) × (submit_stream swap_long hw clock fuel st commands add_fence
          ≡ some sub)
        × (sub.done ≡ true)
  unfolding committed
  submit_stream-room pos room =
      let o = IsReady-IsOpen started-IsReady in
      let r = reserve-room_always hw clock fuel started total pos o room in
      let done =
        commit_reserved-granted swap_long rev hw started started-IsReady commands s.words
          (stream_dword commands add_fence sequence) total small started-Carries started-longs r.0
          positive (reserve-Reserved hw clock fuel started total o r.1) in
      (
        settle_fence add_fence sequence (true, done.0),
        submit_stream-commits ∙ rw (r.1, done.1) refl,
        settle_fence_done add_fence sequence done.0,
      )
