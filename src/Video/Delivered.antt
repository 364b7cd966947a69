-- ===== src/Video/Delivered.antt =====
-- The frame callback delivers a texture of the size that was asked for.
use flutter_libnx.Prelude.{
  ℕ, ◌+◌, ◌<◌, ◌≡◌, ◌≢◌, refl, sym, ap, ◌∙◌, inl, inr, Bool, true, false, not, ◌||◌, Option, none,
  some, ◌∷◌, arith, if◌then◌else◌, Bool-cases, ◌==◌, ℤ, pos, negsuc,
}
use flutter_libnx.Video.Outputs.{
  VideoOutput, Gl, Answers, has_no_context, new_render_context, create_render_context,
  delete_buffer, allocate_buffer,
}
use flutter_libnx.Video.Frame.{
  Texture, is_positive, int_eq, needs_resize, prepare_buffer, prepare, deliver, frame_prepared,
  frame_output,
}

int_eq→≡ : (a b : ℤ) → int_eq a b ≡ true → a ≡ b
unfolding int_eq
int_eq→≡ (pos a) (pos b) h = (let e : a ≡ b = ground arith in ap pos e)
int_eq→≡ (pos a) (negsuc b) h = cc
int_eq→≡ (negsuc a) (pos b) h = cc
int_eq→≡ (negsuc a) (negsuc b) h = (let e : a ≡ b = ground arith in ap negsuc e)

both_equal : (a b c d : ℤ) → (not (int_eq a b) || not (int_eq c d)) ≡ false → (a ≡ b) × (c ≡ d)
both_equal a b c d h = elim (Bool-cases (int_eq a b)) [
  | inl e ↦ elim (Bool-cases (int_eq c d)) [
    | inl e' ↦ (int_eq→≡ a b e, int_eq→≡ c d e')
    | inr e' ↦ (let z = rw (e, e') at h in cc)
  ]
  | inr e ↦ (let z = rw e at h in cc)
]

-- Every call succeeds.
abbrev pub Succeeds : Answers → Type 0
Succeeds a =
    (a.make_current ≡ true) × (a.load ≡ true) × (a.context_created ≡ true) × (a.complete ≡ true)

-- The callback goes on with an output of this size.
abbrev HasSize : ℤ → ℤ → Bool × VideoOutput × Gl → Type 0
HasSize w h (ok, o, g) = (ok ≡ true) × (o.width ≡ w) × (o.height ≡ h) × (o.texture ≢ 0)

-- A texture of this size.
abbrev pub Shows : ℤ → ℤ → Option Texture → Type 0
Shows w h result = (n : ℕ) × (n ≢ 0) × (result ≡ some (record { name = n; width = w; height = h }))

-- It has this size already, where no other is asked for.
abbrev Fits : Bool → VideoOutput → Type 0
Fits resize o =
    resize ≡ false → (o.width ≡ o.pending_width) × (o.height ≡ o.pending_height) × (o.texture ≢ 0)

needs_resize-Fits :
    (o : VideoOutput)
    → is_positive o.pending_width ≡ true
    → is_positive o.pending_height ≡ true
    → (is_positive o.width ≡ true → o.texture ≢ 0)
    → Fits (needs_resize o) o
unfolding needs_resize
needs_resize-Fits o wide high held same =
    let both : (not (int_eq o.pending_width o.width) || not (int_eq o.pending_height o.height))
        ≡ false =
      (rw (wide, high) at same) in
    let (ew, eh) = both_equal o.pending_width o.width o.pending_height o.height both in
    (sym ew, sym eh, held (ap is_positive (sym ew) ∙ wide))

next-delete_buffer :
    (b : Bool) (o : VideoOutput) (g : Gl) → (if b then delete_buffer o g else g).next ≡ g.next
unfolding delete_buffer
next-delete_buffer true o g = refl
next-delete_buffer false o g = refl

allocate-HasSize :
    (a : Answers) (w h : ℤ) (o : VideoOutput) (g : Gl)
    → a.complete ≡ true
    → 0 < g.next
    → HasSize w h (allocate_buffer a w h o g)
unfolding allocate_buffer
allocate-HasSize a w h o g complete used =
    let e = next-delete_buffer (not (o.texture == 0)) o g in
    rw complete (refl, refl, refl, λ z. ground arith)

prepare_buffer-HasSize :
    (a : Answers) (resize : Bool) (o : VideoOutput) (g : Gl)
    → Succeeds a
    → 0 < g.next
    → Fits resize o
    → HasSize o.pending_width o.pending_height (prepare_buffer a resize o g)
unfolding prepare_buffer
prepare_buffer-HasSize a false o g (_, load, _, _) used fits =
    let (w, h, t) = fits refl in rw (load, prepare_buffer) (refl, w, h, t)
prepare_buffer-HasSize a true o g (_, load, _, complete) used fits =
    let (ok, w, h, t) = allocate-HasSize a o.pending_width o.pending_height o g complete used in
    rw (load, prepare_buffer, ok) (refl, w, h, t)

context-created :
    (a : Answers) (o : VideoOutput) (g : Gl)
    → o.render_context ≡ none
    → Succeeds a
    → create_render_context a o g ≡ (
      true,
      record o { render_context = some g.next },
      record g { contexts = (g.next, o.texture_id) ∷ g.contexts; next = g.next + 1 },
    )
unfolding create_render_context new_render_context
context-created a o g e (binds, load, creates, _) =
    ap (λ (rc : Option ℕ). elim rc [ some c ↦ (true, o, g) | none ↦ new_render_context a o g ]) e
    ∙ (rw (binds, load, creates) refl)

prepare-HasSize :
    (a : Answers) (rc : Option ℕ) (resize : Bool) (o : VideoOutput) (g : Gl)
    → o.render_context ≡ rc
    → Succeeds a
    → 0 < g.next
    → Fits resize o
    → HasSize o.pending_width o.pending_height (prepare a (has_no_context rc) resize o g)
unfolding prepare
prepare-HasSize a (some c) resize o g e all used fits =
    prepare_buffer-HasSize a resize o g all used fits
prepare-HasSize a none resize o g e all used fits =
    let o' : VideoOutput = record o { render_context = some g.next } in
    let g' : Gl = record g { contexts = (g.next, o.texture_id) ∷ g.contexts; next = g.next + 1 } in
    let later : 0 < g'.next = ground arith in
    rw (context-created a o g e all) (prepare_buffer-HasSize a resize o' g' all later fits)

is_positive-delivered :
    (w h : ℤ) (o : VideoOutput)
    → is_positive w ≡ true
    → o.width ≡ w
    → o.height ≡ h
    → o.texture ≢ 0
    → Shows w h (deliver o)
unfolding deliver
is_positive-delivered w h o p ew eh ne =
    let named : (o.texture == 0) ≡ false = ground arith in
    let wide : is_positive o.width ≡ true = ap is_positive ew ∙ p in
    rw (named, wide) (o.texture, ne, rw (ew, eh) refl)

frame_prepared-Shows :
    (a : Answers) (w h : ℤ) (r : Bool × VideoOutput × Gl)
    → is_positive w ≡ true
    → HasSize w h r
    → Shows w h (frame_prepared a r).result
unfolding frame_prepared
frame_prepared-Shows a w h (false, o, g) p (ok, _, _, _) = cc
frame_prepared-Shows a w h (true, o, g) p (ok, ew, eh, ne) = is_positive-delivered w h o p ew eh ne

any_true : (a b c : Bool) → c ≡ true → (a || (b || c)) ≡ true
any_true true b c h = refl
any_true false true c h = refl
any_true false false c h = h

-- On an output that asks for a frame.
pub frame_output-Shows :
    (a : Answers) (o : VideoOutput) (g : Gl)
    → Succeeds a
    → 0 < g.next
    → o.frame_pending ≡ true
    → is_positive o.pending_width ≡ true
    → is_positive o.pending_height ≡ true
    → (is_positive o.width ≡ true → o.texture ≢ 0)
    → Shows o.pending_width o.pending_height (frame_output a o g).result
unfolding frame_output
frame_output-Shows a o g all used asked wide high held =
    let taken : VideoOutput = record o { frame_pending = false } in
    let r = prepare a (has_no_context o.render_context) (needs_resize o) taken g in
    let sized =
      prepare-HasSize a o.render_context (needs_resize o) taken g refl all used
        (needs_resize-Fits o wide high held) in
    let shows = frame_prepared-Shows a o.pending_width o.pending_height r wide sized in
    let runs = any_true (has_no_context o.render_context) (needs_resize o) o.frame_pending asked in
    rw (runs, frame_output) shows
