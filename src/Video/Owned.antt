-- ===== src/Video/Owned.antt =====
-- A render context that lives is the one of the output to which its callback points.
use flutter_libnx.Prelude.{
  ℕ, ◌+◌, ◌≡◌, ◌≢◌, refl, sym, ap, ◌∙◌, ◌⊎◌, inl, inr, Bool, true, false, not, ◌&&◌, Option, none,
  some, List, [], ◌∷◌, arith, if◌then◌else◌, if-both, Bool-cases, ◌==◌, ℤ,
}
use flutter_libnx.Video.Outputs.{
  VideoOutput, Gl, Answers, has_no_context, drop_context, new_render_context, create_render_context,
  delete_buffer, allocate_buffer, free_context, free_buffer, destroy_output_gl,
}

abbrev pub Holds : ℕ → ℕ → List (ℕ × ℕ) → Type 0
Holds c id [] = ⊥
Holds c id ((d, j) ∷ rest) = ((d ≡ c) × (j ≡ id)) ⊎ Holds c id rest

pub Holds-drop_context :
    (c d id : ℕ) (cs : List (ℕ × ℕ)) → Holds c id (drop_context d cs) → Holds c id cs × (c ≢ d)
unfolding drop_context
Holds-drop_context c d id [] h = elim h [ ]
Holds-drop_context c d id ((e, j) ∷ rest) h = elim (Bool-cases (e == d)) [
  | inl dropped ↦
      (let (old, ne) = Holds-drop_context c d id rest (rw dropped at h) in (inr old, ne))
  | inr kept ↦ elim (rw kept at h) [
    | inl (same, at) ↦ (inl (same, at), λ q. ground arith)
    | inr later ↦ (let (old, ne) = Holds-drop_context c d id rest later in (inr old, ne))
  ]
]

-- Every context that calls back for `id` is this one.
abbrev pub Only : ℕ → Option ℕ → List (ℕ × ℕ) → Type 0
Only id rc cs = (c : ℕ) → Holds c id cs → rc ≡ some c

-- From an output with its pointer, its context, and all contexts, to another state of it: it has only
-- its own, and those of the others were there before.
abbrev pub Keeping : ℕ → List (ℕ × ℕ) → ℕ → Option ℕ → List (ℕ × ℕ) → Type 0
Keeping id cs id' rc' cs' =
    (id' ≡ id) × Only id' rc' cs' × ((c j : ℕ) → Holds c j cs' → j ≢ id → Holds c j cs)

abbrev pub Knows : VideoOutput → Gl → Type 0
Knows o g = Only o.texture_id o.render_context g.contexts

abbrev pub Keeps : VideoOutput → Gl → VideoOutput → Gl → Type 0
Keeps o g o' g' = Keeping o.texture_id g.contexts o'.texture_id o'.render_context g'.contexts

pub Keeps-trans :
    (o o' o'' : VideoOutput) (g g' g'' : Gl)
    → Keeps o g o' g'
    → Keeps o' g' o'' g''
    → Keeps o g o'' g''
Keeps-trans o o' o'' g g' g'' (i, k, b) (i', k', b') =
    (i' ∙ i, k', λ c j h ne. b c j (b' c j h (λ e. ne (e ∙ i))) ne)

-- An operation that leaves the contexts alone.
pub same-Keeping :
    {id id' : ℕ} {rc rc' : Option ℕ} {cs cs' : List (ℕ × ℕ)}
    → Only id rc cs
    → id' ≡ id
    → rc' ≡ rc
    → cs' ≡ cs
    → Keeping id cs id' rc' cs'
same-Keeping k i c e = (i, λ d h. c ∙ k d (rw (i, e) at h), λ d j h ne. rw e at h)

-- What an operation with a result gives, and one without.
abbrev pub KeepsAll : VideoOutput → Gl → Bool × VideoOutput × Gl → Type 0
KeepsAll o g (ok, o', g') = Keeps o g o' g'

abbrev pub KeepsTwo : VideoOutput → Gl → VideoOutput × Gl → Type 0
KeepsTwo o g (o', g') = Keeps o g o' g'

-- A new context of an output that had none.
added-Keeps :
    (o : VideoOutput) (g : Gl)
    → Knows o g
    → o.render_context ≡ none
    → Keeps o g
        (record o { render_context = some g.next })
        (record g { contexts = (g.next, o.texture_id) ∷ g.contexts; next = g.next + 1 })
added-Keeps o g k e = (
  refl,
  λ c h. elim h [ inl (same, _) ↦ ap some same | inr old ↦ (let f = k c old in cc) ],
  λ c j h ne. elim h [ inl (_, at) ↦ absurd (ne (sym at)) | inr old ↦ old ],
)

new-Keeps :
    (a : Answers) (o : VideoOutput) (g : Gl)
    → Knows o g
    → o.render_context ≡ none
    → KeepsAll o g (new_render_context a o g)
unfolding new_render_context
new-Keeps a o g k e =
    let Kept = KeepsAll o g in
    if-both Kept (not a.make_current) _ _ (same-Keeping k refl refl refl) (
      if-both Kept (not a.load) _ _ (same-Keeping k refl refl refl) (
        if-both Kept (not a.context_created) _ _ (same-Keeping k refl (sym e) refl)
          (added-Keeps o g k e)))

create_case-Keeps :
    (a : Answers) (o : VideoOutput) (g : Gl) (rc : Option ℕ)
    → Knows o g
    → o.render_context ≡ rc
    → KeepsAll o g (elim rc [ some c ↦ (true, o, g) | none ↦ new_render_context a o g ])
create_case-Keeps a o g (some c) k e = same-Keeping k refl refl refl
create_case-Keeps a o g none k e = new-Keeps a o g k e

pub create-Keeps :
    (a : Answers) (o : VideoOutput) (g : Gl)
    → Knows o g
    → KeepsAll o g (create_render_context a o g)
unfolding create_render_context
create-Keeps a o g k = create_case-Keeps a o g o.render_context k refl

contexts-delete_buffer :
    (b : Bool) (o : VideoOutput) (g : Gl)
    → (if b then delete_buffer o g else g).contexts ≡ g.contexts
unfolding delete_buffer
contexts-delete_buffer true o g = refl
contexts-delete_buffer false o g = refl

pub allocate-Keeps :
    (a : Answers) (w h : ℤ) (o : VideoOutput) (g : Gl)
    → Knows o g
    → KeepsAll o g (allocate_buffer a w h o g)
unfolding allocate_buffer
allocate-Keeps a w h o g k =
    let e = contexts-delete_buffer (not (o.texture == 0)) o g in
    if-both (KeepsAll o g) a.complete _ _ (same-Keeping k refl refl e) (same-Keeping k refl refl e)

free_case-Keeps :
    (o : VideoOutput) (g : Gl) (rc : Option ℕ)
    → Knows o g
    → o.render_context ≡ rc
    → KeepsTwo o g (elim rc [
      | none ↦ (o, g)
      | some c ↦
          (record o { render_context = none }, record g { contexts = drop_context c g.contexts })
    ])
free_case-Keeps o g none k e = same-Keeping k refl refl refl
free_case-Keeps o g (some c) k e = (
  refl,
  λ d h.
      (let (old, ne) = Holds-drop_context d c o.texture_id g.contexts h in
        let f = k d old in absurd (ne cc)),
  λ d j h ne. (Holds-drop_context d c j g.contexts h).0,
)

free_context-Keeps : (o : VideoOutput) (g : Gl) → Knows o g → KeepsTwo o g (free_context o g)
unfolding free_context
free_context-Keeps o g k = free_case-Keeps o g o.render_context k refl

free_buffer-Keeps : (o : VideoOutput) (g : Gl) → Knows o g → KeepsTwo o g (free_buffer o g)
unfolding free_buffer delete_buffer
free_buffer-Keeps o g k =
    if-both (KeepsTwo o g) (not (o.texture == 0)) _ _ (same-Keeping k refl refl refl)
      (same-Keeping k refl refl refl)

pub destroy-Keeps :
    (binds : Bool) (o : VideoOutput) (g : Gl)
    → Knows o g
    → KeepsTwo o g (destroy_output_gl binds o g)
unfolding destroy_output_gl
destroy-Keeps binds o g k =
    let same : Keeps o g o g = same-Keeping k refl refl refl in
    let (o', g') = free_context o g in
    let first = free_context-Keeps o g k in
    if-both (KeepsTwo o g) (has_no_context o.render_context && o.texture == 0) _ _ same (
      if-both (KeepsTwo o g) (not binds) _ _ same (
        Keeps-trans o o' (free_buffer o' g').0 g g' (free_buffer o' g').1 first
          (free_buffer-Keeps o' g' first.1)))
