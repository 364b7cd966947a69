-- ===== src/Video/Safe.antt =====
-- The steps of the other threads keep every pointer to an output valid.
use flutter_libnx.Prelude.{
  ℕ, ◌≡◌, ◌≢◌, refl, sym, ap, ◌∙◌, inl, inr, Bool, false, not, ◌||◌, some, List, arith, if-both,
  Bool-cases, ◌==◌,
}
use flutter_libnx.Video.Outputs.{
  VideoOutput, Gl, Answers, has_no_context, create_render_context, allocate_buffer, output_at,
  put_output,
}
use flutter_libnx.Video.Pointers.{output_at-id, output_at-put_self, output_at-put_ne}
use flutter_libnx.Video.Owned.{
  Holds, Knows, Keeps, Keeps-trans, same-Keeping, KeepsAll, create-Keeps, allocate-Keeps,
}
use flutter_libnx.Video.Frame.{
  needs_resize, prepare_buffer, prepare, Framed, frame_prepared, frame_output,
}

-- The frame callback on one output.
prepare_buffer-Keeps :
    (a : Answers) (resize : Bool) (o : VideoOutput) (g : Gl)
    → Knows o g
    → KeepsAll o g (prepare_buffer a resize o g)
unfolding prepare_buffer
prepare_buffer-Keeps a resize o g k =
    let (ok, o', g') = allocate_buffer a o.pending_width o.pending_height o g in
    let buffer = allocate-Keeps a o.pending_width o.pending_height o g k in
    if-both (KeepsAll o g) (not a.load) _ _ (same-Keeping k refl refl refl) (
      if-both (KeepsAll o g) resize _ _ (if-both (KeepsAll o g) ok _ _ buffer buffer)
        (same-Keeping k refl refl refl))

prepare-Keeps :
    (a : Answers) (create resize : Bool) (o : VideoOutput) (g : Gl)
    → Knows o g
    → KeepsAll o g (prepare a create resize o g)
unfolding prepare
prepare-Keeps a create resize o g k =
    let (ok, o', g') = create_render_context a o g in
    let first = create-Keeps a o g k in
    let (ok', o'', g'') = prepare_buffer a resize o' g' in
    if-both (KeepsAll o g) create _ _
      (if-both (KeepsAll o g) ok _ _
        (Keeps-trans o o' o'' g g' g'' first (prepare_buffer-Keeps a resize o' g' first.1)) first)
      (prepare_buffer-Keeps a resize o g k)

abbrev KeepsFramed : VideoOutput → Gl → Framed → Type 0
KeepsFramed o g f = Keeps o g f.output f.gl

frame_prepared-Keeps :
    (a : Answers) (o : VideoOutput) (g : Gl) (r : Bool × VideoOutput × Gl)
    → KeepsAll o g r
    → KeepsFramed o g (frame_prepared a r)
unfolding frame_prepared
frame_prepared-Keeps a o g (ok, o', g') k = if-both (KeepsFramed o g) ok _ _ k k

pub frame_output-Keeps :
    (a : Answers) (o : VideoOutput) (g : Gl) → Knows o g → KeepsFramed o g (frame_output a o g)
unfolding frame_output
frame_output-Keeps a o g k =
    let create = has_no_context o.render_context in
    let taken : VideoOutput = record o { frame_pending = false } in
    if-both (KeepsFramed o g) (create || (needs_resize o || o.frame_pending)) _ _
      (frame_prepared-Keeps a taken g (prepare a create (needs_resize o) taken g)
        (prepare-Keeps a create (needs_resize o) taken g k))
      (same-Keeping k refl refl refl)

-- There is an output at the pointer.
abbrev pub Present : ℕ → List VideoOutput → Type 0
Present id os = (o : VideoOutput) × (output_at id os ≡ some o)

-- Every context that lives is the one of the output to which it calls back.
abbrev pub Owns : List VideoOutput → List (ℕ × ℕ) → Type 0
Owns os cs =
    (c j : ℕ)
    → Holds c j cs
    → (o : VideoOutput) × (output_at j os ≡ some o) × (o.render_context ≡ some c)

pub Owns-Knows :
    (os : List VideoOutput) (g : Gl) (id : ℕ) (o : VideoOutput)
    → Owns os g.contexts
    → output_at id os ≡ some o
    → Knows o g
Owns-Knows os g id o owns at c h =
    let (p, e, rc) = owns c o.texture_id h in
    let same : output_at o.texture_id os ≡ some o =
      ap (λ (n : ℕ). output_at n os) (output_at-id id os o at) ∙ at in
    let q : p ≡ o = cc in ap (λ (x : VideoOutput). x.render_context) (sym q) ∙ rc

pub put-Present :
    (os : List VideoOutput) (id j : ℕ) (o o' : VideoOutput)
    → output_at id os ≡ some o
    → o'.texture_id ≡ id
    → Present j os
    → Present j (put_output id o' os)
put-Present os id j o o' at e (p, there) = elim (Bool-cases (j == id)) [
  | inl same ↦ let q : j ≡ id = ground arith in (o', rw q (output_at-put_self id os o o' at e))
  | inr other ↦ let ne : j ≢ id = λ q. ground arith in (p, output_at-put_ne id j os o' e ne ∙ there)
]

pub put-Owns :
    (os : List VideoOutput) (g g' : Gl) (id : ℕ) (o o' : VideoOutput)
    → Owns os g.contexts
    → output_at id os ≡ some o
    → Keeps o g o' g'
    → Owns (put_output id o' os) g'.contexts
put-Owns os g g' id o o' owns at (same, only, before) c j h =
    let here : o.texture_id ≡ id = output_at-id id os o at in
    elim (Bool-cases (j == id)) [
      | inl e ↦
          let q : j ≡ id = ground arith in
          (
            o',
            rw q (output_at-put_self id os o o' at (same ∙ here)),
            only c (rw (same ∙ here, ← q) h),
          )
      | inr e ↦
          let ne : j ≢ id = λ q. ground arith in
          let (p, there, rc) = owns c j (before c j h (λ q. ne (q ∙ here))) in
          (p, output_at-put_ne id j os o' (same ∙ here) ne ∙ there, rc)
    ]
