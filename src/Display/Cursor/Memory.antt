-- ===== src/Display/Cursor/Memory.antt =====
-- The cursor's image in private video memory.
use r200_p96_driver.Base.{
  ℕ, ◌+◌, ◌-◌, ◌%◌, ◌≤◌, ◌≡◌, Bool, true, false, not, ◌||◌, none, some, ltb, arith, refl, sym, ap,
  ◌∙◌, inl, inr, Bool-cases, Option-cases,
}
use r200_p96_driver.Vram
use r200_p96_driver.Vram.{allocate_private_vram, free_private_vram}
use r200_p96_driver.Vram.Stack.{IsValid, allocate-Taken, free-allocate}
use r200_p96_driver.Display.{Board, CursorState}
use r200_p96_driver.Display.Cursor.{
  cursor_size, initialize_cursor, shutdown_cursor, update_cursor_position, upload_cursor,
  begin_cursor,
}

-- A cursor whose image is private: above the visible memory and inside the card's.
pub record IsPrivate (b : Board) (c : CursorState) : Type 0 where
  pub above : b.memory.memory_size ≤ c.offset
  pub inside : c.offset + cursor_size ≤ b.memory.memory_space_size
  pub hidden : c.visible ≡ false

module _ (hw : ℕ → ℕ → ℕ) (swap : ℕ → ℕ) where
  -- The end of the initialisation keeps the memory and leaves a hidden cursor at the address.
  begin_cursor_lem :
      (b : Board) (address : ℕ)
      → ((begin_cursor hw swap b address).memory ≡ b.memory)
        × (c : CursorState) × ((begin_cursor hw swap b address).cursor ≡ some c)
        × (c.offset ≡ address - b.memory.memory_base)
        × (c.visible ≡ false)
  unfolding begin_cursor upload_cursor update_cursor_position
  begin_cursor_lem b address = (refl, _, refl, refl, refl)

  -- A cursor is initialised in a block that the private memory hands out.
  initialize_parts :
      (b b' : Board) (state : Bool)
      → initialize_cursor hw swap b state ≡ (true, b')
      → (a : ℕ × Vram.Board) × (allocate_private_vram b.memory cursor_size ≡ some a)
        × (begin_cursor hw swap (record b { memory = a.1 }) a.0 ≡ b')
  unfolding initialize_cursor begin_cursor
  initialize_parts b b' state h = elim (Option-cases b.cursor) [
    | inr (c, e) ↦ absurd (cc (rw e at h))
    | inl e ↦ elim (Bool-cases (not state)) [
      | inl f ↦ absurd (cc (rw (e, f) at h))
      | inr f ↦ elim (Option-cases (allocate_private_vram b.memory cursor_size)) [
        | inl g ↦ absurd (cc (rw (e, f, g) at h))
        | inr ((address, memory'), g) ↦
            let placed =
              ltb memory'.memory_space_size cursor_size
              || ltb address memory'.memory_base
              || ltb (memory'.memory_space_size - cursor_size) (address - memory'.memory_base) in
            elim (Bool-cases placed) [
              | inl k ↦ absurd (cc (rw (e, f, g, k) at h))
              | inr k ↦ ((address, memory'), g, ap (λ p. p.1) (rw (e, f, g, k) at h))
            ]
      ]
    ]
  ]

  -- The board behind a successful initialisation.
  initialize_state :
      (b b' : Board) (state : Bool)
      → IsValid b.memory
      → initialize_cursor hw swap b state ≡ (true, b')
      → (c : CursorState) × (b'.cursor ≡ some c)
        × (c.visible ≡ false)
        × (allocate_private_vram b.memory cursor_size
            ≡ some (b'.memory.memory_base + c.offset, b'.memory))
        × (c.offset ≡ b'.memory.memory_size)
  initialize_state b b' state v h =
      let ((address, memory'), granted, begun) = initialize_parts b b' state h in
      let t = allocate-Taken b.memory cursor_size v granted in
      let (kept, c, stored, offset, hidden) =
        begin_cursor_lem (record b { memory = memory' }) address in
      let size : c.offset ≡ memory'.memory_size = omega (arith, offset, t.at) in
      let memory_is : b'.memory ≡ memory' = sym (ap (λ (x : Board). x.memory) begun) ∙ kept in
      (
        c,
        sym (ap (λ (x : Board). x.cursor) begun) ∙ stored,
        hidden,
        rw (memory_is, size, sym t.at) granted,
        rw memory_is size,
      )

  -- On a valid board, a cursor that was initialised is hidden and its image is private.
  pub initialize_cursor-IsPrivate :
      (b b' : Board) (state : Bool)
      → IsValid b.memory
      → initialize_cursor hw swap b state ≡ (true, b')
      → (c : CursorState) × (b'.cursor ≡ some c) × IsPrivate b' c
  initialize_cursor-IsPrivate b b' state v h =
      let (c, stored, hidden, granted, offset) = initialize_state b b' state v h in
      let t = allocate-Taken b.memory cursor_size v granted in
      (
        c,
        stored,
        record {
          above = omega (arith, offset);
          inside = omega (arith, offset, t.room, t.same_space, v.visible);
          hidden = hidden;
        },
      )

  -- Where the visible memory of a valid board ends on a page, shutting the cursor down gives back the
  -- memory that its initialisation took, and leaves no cursor.
  shutdown-initialize :
      (b b' : Board) (state : Bool)
      → IsValid b.memory
      → b.memory.memory_size % 4096 ≡ 0
      → initialize_cursor hw swap b state ≡ (true, b')
      → ((shutdown_cursor hw b').memory ≡ b.memory) × ((shutdown_cursor hw b').cursor ≡ none)
  unfolding shutdown_cursor
  shutdown-initialize b b' state v page h =
      let (c, stored, hidden, granted, offset) = initialize_state b b' state v h in
      let freed = free-allocate b.memory cursor_size v page granted in
      rw stored (ap (λ p. p.1) freed, refl)
