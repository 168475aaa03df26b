-- ===== src/Service/Batch/Matching.antt =====
-- What the matching functions of the validation accept.
use mathlib.Core.Path.{subst}
use r200_p96_driver.Base.{
  ℕ, zero, suc, ◌+◌, ◌*◌, ◌/◌, ◌<◌, ◌≡◌, inl, inr, true, List, [], ◌∷◌, ◌++◌, some, get_or, length,
  arith, Any, Bool-cases, Option-cases, some-inj,
}
use r200_p96_driver.Cp.{packet0}
use r200_p96_driver.Service.Batch.{
  Surface, vertex_dwords, packet3, valid_screen_coordinate, is_target, find_triangle_target,
  match_register, match_registers, state_registers, blend_registers, re_width_height,
  rb3d_coloroffset, rb3d_colorpitch, draw_control, width_height, match_vertices, match_draw,
  match_target, match_batch,
}

-- The dwords `xs` stand in the batch from `index` on.
abbrev pub At : List ℕ → ℕ → List ℕ → Type 0
At commands index [] = Unit
At commands index (x ∷ xs) = (get_or commands index 0 ≡ x) × At commands (index + 1) xs

-- The register writes of a list of settings.
abbrev pub writes : List (ℕ × ℕ) → List ℕ
writes [] = []
writes ((reg, value) ∷ rest) = packet0 reg 0 ∷ value ∷ writes rest

abbrev pub size_and_blend : Surface → List ℕ
size_and_blend target = packet0 re_width_height 0 ∷ width_height target ∷ writes blend_registers

abbrev pub target_and_draw : Surface → ℕ → List ℕ
target_and_draw target vertices =
    packet0 rb3d_coloroffset 0
    ∷ target.gpu_address
    ∷ packet0 rb3d_colorpitch 0
    ∷ target.pitch / 2
    ∷ packet3 0x3500 (vertices * vertex_dwords)
    ∷ draw_control vertices
    ∷ []

-- The part of the stream before the vertices.
abbrev pub preamble : Surface → ℕ → List ℕ
preamble target vertices =
    writes state_registers ++ (size_and_blend target ++ target_and_draw target vertices)

-- The two coordinates of a vertex pass the test.
abbrev pub InsideTarget : List ℕ → Surface → ℕ → Type 0
InsideTarget commands target at =
    (valid_screen_coordinate (get_or commands at 0) target.width ≡ true)
    × (valid_screen_coordinate (get_or commands (at + 1) 0) target.height ≡ true)

match_register-At :
    (commands : List ℕ) (index reg value : ℕ) {next : ℕ}
    → match_register commands index reg value ≡ some next
    → (next ≡ index + 2)
      × (get_or commands index 0 ≡ packet0 reg 0)
      × (get_or commands (index + 1) 0 ≡ value)
unfolding match_register
match_register-At commands index reg value h = ground arith

match_registers-At :
    (commands : List ℕ) (index : ℕ) (regs : List (ℕ × ℕ)) {next : ℕ}
    → match_registers commands index regs ≡ some next
    → (next ≡ index + length (writes regs)) × At commands index (writes regs)
unfolding match_registers
match_registers-At commands index [] h = (omega (arith, some-inj h), tt)
match_registers-At commands index ((reg, value) ∷ rest) h =
    elim (Option-cases (match_register commands index reg value)) [
      | inl e ↦ absurd (cc (rw (e, match_registers) at h))
      | inr (mid, e) ↦
          let here = match_register-At commands index reg value e in
          let later = match_registers-At commands mid rest (rw (e, match_registers) at h) in
          (
            omega (arith, later.0, here.0),
            (
              here.1,
              (here.2, subst (λ i. At commands i (writes rest)) (omega (arith, here.0)) later.1),
            ),
          )
    ]

match_vertices-first :
    (commands : List ℕ) (target : Surface) (index vertices : ℕ) {next : ℕ}
    → match_vertices commands target index (suc vertices) ≡ some next
    → InsideTarget commands target index
      × (match_vertices commands target (index + vertex_dwords) vertices ≡ some next)
unfolding match_vertices
match_vertices-first commands target index vertices h =
    elim (Bool-cases (valid_screen_coordinate (get_or commands index 0) target.width)) [
      | inl x ↦
          elim (Bool-cases
            (valid_screen_coordinate (get_or commands (index + 1) 0) target.height)) [
              | inl y ↦ ((x, y), rw (x, y, match_vertices) at h)
              | inr y ↦ absurd (cc (rw (x, y, match_vertices) at h))
            ]
      | inr x ↦ absurd (cc (rw (x, match_vertices) at h))
    ]

match_vertices-Inside :
    (commands : List ℕ) (target : Surface) (index vertices : ℕ) {next : ℕ}
    → match_vertices commands target index vertices ≡ some next
    → (next ≡ index + vertices * vertex_dwords)
      × ((k : ℕ) → k < vertices → InsideTarget commands target (index + k * vertex_dwords))
unfolding match_vertices
match_vertices-Inside commands target index zero h =
    (omega (arith, some-inj h), λ k l. absurd (omega arith))
match_vertices-Inside commands target index (suc vertices) {next} h =
    let first = match_vertices-first commands target index vertices h in
    let rest = match_vertices-Inside commands target (index + vertex_dwords) vertices first.1 in
    (omega (arith, rest.0), λ k l. vertex k l first.0 rest.1)
  where
    vertex :
        (k : ℕ)
        → k < suc vertices
        → InsideTarget commands target index
        → ((j : ℕ)
            → j < vertices
            → InsideTarget commands target (index + vertex_dwords + j * vertex_dwords))
        → InsideTarget commands target (index + k * vertex_dwords)
    vertex zero l here later = subst (InsideTarget commands target) (omega arith) here
    vertex (suc j) l here later =
        subst (InsideTarget commands target) (omega arith) (later j (omega arith))

pub find_triangle_target-owned :
    (surfaces : List Surface) (gpu_address : ℕ) {t : Surface}
    → find_triangle_target surfaces gpu_address ≡ some t
    → Any (λ s. s ≡ t) surfaces × (is_target t gpu_address ≡ true)
unfolding find_triangle_target
find_triangle_target-owned [] gpu_address h = absurd (cc)
find_triangle_target-owned (s ∷ ss) gpu_address h = elim (Bool-cases (is_target s gpu_address)) [
  | inl e ↦ let same = some-inj (rw e at h) in (inl same, rw same at e)
  | inr e ↦ let rest = find_triangle_target-owned ss gpu_address (rw e at h) in (inr rest.0, rest.1)
]

pub At-append :
    (commands : List ℕ) (index : ℕ) (xs ys : List ℕ)
    → At commands index xs
    → At commands (index + length xs) ys
    → At commands index (xs ++ ys)
At-append commands index [] ys h k = subst (λ i. At commands i ys) (omega arith) k
At-append commands index (x ∷ xs) ys h k =
    (h.0, At-append commands (index + 1) xs ys h.1 (subst (λ i. At commands i ys) (omega arith) k))

-- What follows the target's address.
pub match_draw-At :
    (commands : List ℕ) (target : Surface) (index vertices : ℕ)
    → match_draw commands target index vertices ≡ true
    → At commands index (
        packet0 rb3d_colorpitch 0
        ∷ target.pitch / 2
        ∷ packet3 0x3500 (vertices * vertex_dwords)
        ∷ draw_control vertices
        ∷ [])
      × (length commands ≡ index + 4 + vertices * vertex_dwords)
      × ((k : ℕ) → k < vertices → InsideTarget commands target (index + 4 + k * vertex_dwords))
unfolding match_draw
match_draw-At commands target index vertices h =
    elim (Option-cases (match_register commands index rb3d_colorpitch (target.pitch / 2))) [
      | inl e ↦ absurd (cc (rw (e, match_draw) at h))
      | inr (next, e) ↦
          let here = match_register-At commands index rb3d_colorpitch (target.pitch / 2) e in
          let h' = rw (e, match_draw) at h in
          elim (Option-cases (match_vertices commands target (next + 2) vertices)) [
            | inl f ↦ absurd (ground (arith, rw (f, match_draw) at h'))
            | inr (end, f) ↦
                let rest = match_vertices-Inside commands target (next + 2) vertices f in
                let ends = rw (f, match_draw) at h' in
                let next_is : next ≡ index + 1 + 1 = omega (arith, here.0) in
                let header : (get_or commands next 0 ≡ packet3 0x3500 (vertices * vertex_dwords))
                    × (get_or commands (next + 1) 0 ≡ draw_control vertices) =
                  ground (arith, ends) in
                (
                  (
                    here.1,
                    (
                      here.2,
                      subst
                          (λ i. At commands i (
                            packet3 0x3500 (vertices * vertex_dwords) ∷ draw_control vertices ∷ []))
                          next_is (header.0, (header.1, tt)),
                    ),
                  ),
                  ground (arith, ends, rest.0, here.0),
                  λ k l. subst (InsideTarget commands target) (omega (arith, here.0)) (rest.1 k l),
                )
          ]
    ]

pub match_target-At :
    (surfaces : List Surface) (commands : List ℕ) (size index vertices : ℕ)
    → match_target surfaces commands size index vertices ≡ true
    → (t : Surface) × (find_triangle_target surfaces (get_or commands (index + 1) 0) ≡ some t)
      × (size ≡ width_height t)
      × (get_or commands index 0 ≡ packet0 rb3d_coloroffset 0)
      × (match_draw commands t (index + 2) vertices ≡ true)
unfolding match_target
match_target-At surfaces commands size index vertices h =
    elim (Option-cases (find_triangle_target surfaces (get_or commands (index + 1) 0))) [
      | inl e ↦ absurd (ground (arith, rw (e, match_target) at h))
      | inr (t, e) ↦
          let h' = rw (e, match_target) at h in
          (t, e, ground (arith, h'), ground (arith, h'), ground (arith, h'))
    ]

pub match_batch-At :
    (surfaces : List Surface) (commands : List ℕ) (vertices : ℕ)
    → match_batch surfaces commands vertices ≡ true
    → At commands 0 (writes state_registers)
      × (get_or commands 32 0 ≡ packet0 re_width_height 0)
      × At commands 34 (writes blend_registers)
      × (match_target surfaces commands (get_or commands 33 0) 40 vertices ≡ true)
unfolding match_batch
match_batch-At surfaces commands vertices h =
    elim (Option-cases (match_registers commands 0 state_registers)) [
      | inl e ↦ absurd (cc (rw (e, match_batch) at h))
      | inr (index, e) ↦
          let state = match_registers-At commands 0 state_registers e in
          let h' = rw (e, match_batch) at h in
          elim (Option-cases (match_registers commands (index + 2) blend_registers)) [
            | inl f ↦ absurd (ground (arith, rw (f, match_batch) at h'))
            | inr (next, f) ↦
                let blend = match_registers-At commands (index + 2) blend_registers f in
                let h'' = rw (f, match_batch) at h' in
                let index_is : index ≡ 32 = omega (arith, state.0) in
                let next_is : next ≡ 40 = omega (arith, blend.0, index_is) in
                let size : get_or commands index 0 ≡ packet0 re_width_height 0 =
                  ground (arith, h'') in
                let target : match_target surfaces commands (get_or commands (index + 1) 0) next
                      vertices
                    ≡ true =
                  ground (arith, h'') in
                (
                  state.1,
                  subst (λ i. get_or commands i 0 ≡ packet0 re_width_height 0) index_is size,
                  subst (λ i. At commands (i + 2) (writes blend_registers)) index_is blend.1,
                  subst
                      (λ i. match_target surfaces commands (get_or commands 33 0) i vertices ≡ true)
                      next_is
                      (subst
                        (λ i.
                          match_target surfaces commands (get_or commands (i + 1) 0) next vertices
                          ≡ true)
                        index_is target),
                )
          ]
    ]
