-- ===== src/Service/Batch/Sound.antt =====
-- What a batch that passes the validation is: the one published stream of an immediate triangle list
-- into a surface of the session.
use mathlib.Core.Path.{subst}
use r200_p96_driver.Base.{
  ℕ, ◌+◌, ◌-◌, ◌*◌, ◌/◌, ◌%◌, ◌≤◌, ◌<◌, ◌≡◌, ◌⊎◌, inl, inr, Bool, true, false, not, ◌||◌, List, [],
  ◌∷◌, ◌++◌, ltb, ◌==◌, get_or, length, arith, All, Any, Bool-cases,
}
use r200_p96_driver.Cp.{packet2, max_batch_dwords}
use r200_p96_driver.Service.Batch.{
  Surface, vertex_dwords, max_vertices, is_target, state_registers, match_batch,
  validate_triangle_batch, all_packet2, validate_batch,
}
use r200_p96_driver.Service.Batch.Matching.{
  At, writes, size_and_blend, target_and_draw, find_triangle_target-owned, At-append, match_draw-At,
  match_target-At, match_batch-At,
}
use r200_p96_driver.Service.Batch.Floats.{valid_screen_coordinate-IsFloatUpTo}
use r200_p96_driver.Service.Batch.Published.{IsTriangleList, is_target-IsTarget, preamble-published}

-- The first tests of `ValidateTriangleBatch`, on the number of dwords.
abbrev bad_count : ℕ → Bool
bad_count count =
    let dwords = count - 46 in
    let vertices = dwords / vertex_dwords in
    ltb count 46
    || not (dwords % vertex_dwords == 0)
    || ltb vertices 3
    || ltb max_vertices vertices
    || not (vertices % 3 == 0)

good_count :
    (count : ℕ)
    → bad_count count ≡ false
    → let vertices = (count - 46) / vertex_dwords in
      (count ≡ 46 + vertices * vertex_dwords)
      × (3 ≤ vertices)
      × (vertices ≤ max_vertices)
      × (vertices % 3 ≡ 0)
good_count count h = ground arith

triangle_batch_guards :
    (surfaces : List Surface) (commands : List ℕ)
    → validate_triangle_batch surfaces commands ≡ true
    → (bad_count (length commands) ≡ false)
      × (match_batch surfaces commands ((length commands - 46) / vertex_dwords) ≡ true)
unfolding validate_triangle_batch
triangle_batch_guards surfaces commands h = elim (Bool-cases (bad_count (length commands))) [
  | inl e ↦ absurd (cc (rw e at h))
  | inr e ↦ (e, rw e at h)
]

all_packet2-All : (cs : List ℕ) → all_packet2 cs ≡ true → All (λ c. c ≡ packet2) cs
unfolding all_packet2
all_packet2-All [] h = tt
all_packet2-All (c ∷ cs) h = elim (Bool-cases (c == packet2)) [
  | inl e ↦ (ground (arith, e), all_packet2-All cs (rw (e, all_packet2) at h))
  | inr e ↦ absurd (cc (rw (e, all_packet2) at h))
]

-- No surface of a session is empty: neither of the two calls that make one accepts a width or a height
-- of zero.
abbrev pub HasPixels : Surface → Type 0
HasPixels s = (1 ≤ s.width) × (1 ≤ s.height)

owned-HasPixels :
    (surfaces : List Surface) (t : Surface)
    → All HasPixels surfaces
    → Any (λ s. s ≡ t) surfaces
    → HasPixels t
owned-HasPixels [] t all none = elim none [ ]
owned-HasPixels (s ∷ ss) t all (inl same) = rw (← same) all.0
owned-HasPixels (s ∷ ss) t all (inr later) = owned-HasPixels ss t all.1 later

validate_triangle_batch-IsTriangleList :
    (surfaces : List Surface) (commands : List ℕ)
    → All HasPixels surfaces
    → validate_triangle_batch surfaces commands ≡ true
    → IsTriangleList surfaces commands
unfolding is_target
validate_triangle_batch-IsTriangleList surfaces commands pixels h =
    let vertices = (length commands - 46) / vertex_dwords in
    let (count, all) = triangle_batch_guards surfaces commands h in
    let counts = good_count (length commands) count in
    let b = match_batch-At surfaces commands vertices all in
    let (t, found, size, offset, draw) =
      match_target-At surfaces commands (get_or commands 33 0) 40 vertices b.3 in
    let d = match_draw-At commands t 42 vertices draw in
    let owned = find_triangle_target-owned surfaces (get_or commands 41 0) found in
    let address : get_or commands 41 0 ≡ t.gpu_address = ground (arith, owned.1) in
    let fits = is_target-IsTarget t (rw address at owned.1) in
    let opening =
      At-append commands 0 (writes state_registers) (size_and_blend t ++ target_and_draw t vertices)
        b.0
        (At-append commands 32 (size_and_blend t) (target_and_draw t vertices) (b.1, (size, b.2))
          (offset, (address, d.0))) in
    record {
      target = t;
      vertices = vertices;
      owned = owned.0;
      fits = fits;
      counted = (counts.1, counts.2, counts.3);
      size = counts.0;
      opening =
          subst (At commands 0)
            (preamble-published t vertices fits (owned-HasPixels surfaces t pixels owned.0)
              counts.2)
            opening;
      inside = λ k l. (
        valid_screen_coordinate-IsFloatUpTo _ t.width fits.size.0 (d.2 k l).0,
        valid_screen_coordinate-IsFloatUpTo _ t.height fits.size.1 (d.2 k l).1,
      );
    }

-- Where no surface of the session is empty, a batch that `ValidateBatch` accepts has 1 to 8192 dwords,
-- and consists of no-ops alone or is a triangle list: just the published stream, in numbers, for a
-- surface of the session that can be drawn into, with 3 to 255 vertices in threes, whose coordinates are
-- floats from zero to the width and to the height of the surface, and no other dword.
pub validate_batch_lem :
    (surfaces : List Surface) (commands : List ℕ)
    → All HasPixels surfaces
    → validate_batch surfaces commands ≡ true
    → (0 < length commands)
      × (length commands ≤ max_batch_dwords)
      × (All (λ c. c ≡ packet2) commands ⊎ IsTriangleList surfaces commands)
unfolding validate_batch
validate_batch_lem surfaces commands pixels h = elim (Bool-cases (all_packet2 commands)) [
  | inl e ↦
      let h' = rw (e, validate_batch) at h in
      (ground (arith, h'), ground (arith, h'), inl (all_packet2-All commands e))
  | inr e ↦
      let h' = rw (e, validate_batch) at h in
      (
        ground (arith, h'),
        ground (arith, h'),
        inr (validate_triangle_batch-IsTriangleList surfaces commands pixels (ground (arith, h'))),
      )
]
