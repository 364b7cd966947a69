-- ===== src/Video/Filled.antt =====
-- Outputs with a width and their textures: the operations on one output.
use flutter_libnx.Prelude.{
  ℕ, ◌+◌, ◌<◌, ◌≡◌, ◌≢◌, refl, inl, inr, Bool, true, false, not, ◌&&◌, ◌||◌, Option, none, some,
  List, [], ◌∷◌, arith, if◌then◌else◌, if-both, Bool-cases, ◌==◌, ℤ, All,
}
use flutter_libnx.Video.Outputs.{
  VideoOutput, Gl, Answers, has_no_context, drop_context, new_render_context, create_render_context,
  delete_buffer, allocate_buffer, free_context, free_buffer, destroy_output_gl, output_at,
  put_output, erase_output,
}
use flutter_libnx.Video.Frame.{
  is_positive, needs_resize, prepare_buffer, prepare, Framed, frame_prepared, frame_output,
}

abbrev pub IsFilled : VideoOutput → Type 0
IsFilled o = o.dispose_requested ≡ false → is_positive o.width ≡ true → o.texture ≢ 0

-- With names of GL that are not 0.
abbrev pub Named : VideoOutput → Gl → Type 0
Named o g = (0 < g.next) × IsFilled o

abbrev NamedAll : Bool × VideoOutput × Gl → Type 0
NamedAll (ok, o, g) = Named o g

new-Named :
    (a : Answers) (o : VideoOutput) (g : Gl) → Named o g → NamedAll (new_render_context a o g)
unfolding new_render_context
new-Named a o g (used, held) =
    let later : 0 < g.next + 1 = ground arith in
    if-both NamedAll (not a.make_current) _ _ (used, held)
      (if-both NamedAll (not a.load) _ _ (used, held)
        (if-both NamedAll (not a.context_created) _ _ (used, held) (later, held)))

create_case-Named :
    (a : Answers) (o : VideoOutput) (g : Gl) (rc : Option ℕ)
    → Named o g
    → NamedAll (elim rc [ some c ↦ (true, o, g) | none ↦ new_render_context a o g ])
create_case-Named a o g (some c) h = h
create_case-Named a o g none h = new-Named a o g h

pub create-Named :
    (a : Answers) (o : VideoOutput) (g : Gl) → Named o g → NamedAll (create_render_context a o g)
unfolding create_render_context
create-Named a o g h = create_case-Named a o g o.render_context h

next-delete_buffer :
    (b : Bool) (o : VideoOutput) (g : Gl) → (if b then delete_buffer o g else g).next ≡ g.next
unfolding delete_buffer
next-delete_buffer true o g = refl
next-delete_buffer false o g = refl

-- The names that are generated are the next ones.
allocate-Named :
    (a : Answers) (w h : ℤ) (o : VideoOutput) (g : Gl)
    → 0 < g.next
    → NamedAll (allocate_buffer a w h o g)
unfolding allocate_buffer
allocate-Named a w h o g used =
    let g' = if not (o.texture == 0) then delete_buffer o g else g in
    let e : g'.next ≡ g.next = next-delete_buffer (not (o.texture == 0)) o g in
    let named : 0 < g'.next = rw e used in
    let later : 0 < g'.next + 2 = ground arith in
    let held : g'.next ≢ 0 = λ q. ground arith in
    if-both NamedAll a.complete _ _ (later, λ stays wide. held) (later, λ stays wide. held)

prepare_buffer-Named :
    (a : Answers) (resize : Bool) (o : VideoOutput) (g : Gl)
    → Named o g
    → NamedAll (prepare_buffer a resize o g)
unfolding prepare_buffer
prepare_buffer-Named a resize o g h =
    let (ok, o', g') = allocate_buffer a o.pending_width o.pending_height o g in
    let buffer = allocate-Named a o.pending_width o.pending_height o g h.0 in
    if-both NamedAll (not a.load) _ _ h
      (if-both NamedAll resize _ _ (if-both NamedAll ok _ _ buffer buffer) h)

prepare-Named :
    (a : Answers) (create resize : Bool) (o : VideoOutput) (g : Gl)
    → Named o g
    → NamedAll (prepare a create resize o g)
unfolding prepare
prepare-Named a create resize o g h =
    let (ok, o', g') = create_render_context a o g in
    let first = create-Named a o g h in
    if-both NamedAll create _ _
      (if-both NamedAll ok _ _ (prepare_buffer-Named a resize o' g' first) first)
      (prepare_buffer-Named a resize o g h)

abbrev NamedFramed : Framed → Type 0
NamedFramed f = Named f.output f.gl

frame_prepared-Named :
    (a : Answers) (r : Bool × VideoOutput × Gl) → NamedAll r → NamedFramed (frame_prepared a r)
unfolding frame_prepared
frame_prepared-Named a (ok, o, g) h = if-both NamedFramed ok _ _ h h

pub frame_output-Named :
    (a : Answers) (o : VideoOutput) (g : Gl) → Named o g → NamedFramed (frame_output a o g)
unfolding frame_output
frame_output-Named a o g h =
    let create = has_no_context o.render_context in
    let taken : VideoOutput = record o { frame_pending = false } in
    if-both NamedFramed (create || (needs_resize o || o.frame_pending)) _ _
      (frame_prepared-Named a (prepare a create (needs_resize o) taken g)
        (prepare-Named a create (needs_resize o) taken g h))
      h

abbrev NamedTwo : VideoOutput × Gl → Type 0
NamedTwo (o, g) = 0 < g.next

free_case-Named :
    (o : VideoOutput) (g : Gl) (rc : Option ℕ)
    → 0 < g.next
    → NamedTwo (elim rc [
      | none ↦ (o, g)
      | some c ↦
          (record o { render_context = none }, record g { contexts = drop_context c g.contexts })
    ])
free_case-Named o g none h = h
free_case-Named o g (some c) h = h

free_context-Named : (o : VideoOutput) (g : Gl) → 0 < g.next → NamedTwo (free_context o g)
unfolding free_context
free_context-Named o g h = free_case-Named o g o.render_context h

free_buffer-Named : (o : VideoOutput) (g : Gl) → 0 < g.next → NamedTwo (free_buffer o g)
unfolding free_buffer delete_buffer
free_buffer-Named o g h = if-both NamedTwo (not (o.texture == 0)) _ _ h h

pub destroy-Named :
    (binds : Bool) (o : VideoOutput) (g : Gl) → 0 < g.next → NamedTwo (destroy_output_gl binds o g)
unfolding destroy_output_gl
destroy-Named binds o g h =
    let (o', g') = free_context o g in
    if-both NamedTwo (has_no_context o.render_context && o.texture == 0) _ _ h
      (if-both NamedTwo (not binds) _ _ h (free_buffer-Named o' g' (free_context-Named o g h)))

-- In the list of the outputs.
pub put-IsFilled :
    (id : ℕ) (new : VideoOutput) (os : List VideoOutput)
    → IsFilled new
    → All IsFilled os
    → All IsFilled (put_output id new os)
unfolding put_output
put-IsFilled id new [] h hs = tt
put-IsFilled id new (o ∷ os) h (first, rest) =
    if-both (All IsFilled) (o.texture_id == id) _ _ (h, rest) (first, put-IsFilled id new os h rest)

pub erase-IsFilled :
    (id : ℕ) (os : List VideoOutput) → All IsFilled os → All IsFilled (erase_output id os)
unfolding erase_output
erase-IsFilled id [] hs = tt
erase-IsFilled id (o ∷ os) (first, rest) =
    if-both (All IsFilled) (o.texture_id == id) _ _ rest (first, erase-IsFilled id os rest)

pub output_at-IsFilled :
    (id : ℕ) (os : List VideoOutput) (o : VideoOutput)
    → All IsFilled os
    → output_at id os ≡ some o
    → IsFilled o
unfolding output_at
output_at-IsFilled id [] o hs at = cc
output_at-IsFilled id (p ∷ os) o (first, rest) at = elim (Bool-cases (p.texture_id == id)) [
  | inl here ↦ let e : some p ≡ some o = rw here at at in let same : p ≡ o = cc in rw same at first
  | inr there ↦ output_at-IsFilled id os o rest (rw there at at)
]
