-- ===== src/Video/Destroyed.antt =====
-- What DestroyOutputGlLocked leaves of an output and of the render contexts.
use flutter_libnx.Prelude.{
  ℕ, ◌≡◌, ◌≢◌, refl, Bool, true, not, ◌&&◌, Option, none, some, if-both, Bool-cases, inl, inr, ◌==◌,
}
use flutter_libnx.Video.Outputs.{
  VideoOutput, Gl, has_no_context, drop_context, delete_buffer, free_context, free_buffer,
  destroy_output_gl,
}
use flutter_libnx.Video.Owned.{Holds, Holds-drop_context}

-- From `o` and `g`: the request stands, and no context comes up.
abbrev pub Falls : VideoOutput → Gl → VideoOutput × Gl → Type 0
Falls o g (o', g') =
    (o'.dispose_requested ≡ o.dispose_requested)
    × (o.render_context ≡ none → o'.render_context ≡ none)
    × ((c j : ℕ) → Holds c j g'.contexts → Holds c j g.contexts)

-- And the output has no context any more.
abbrev pub IsFree : VideoOutput → Gl → VideoOutput × Gl → Type 0
IsFree o g (o', g') =
    Falls o g (o', g')
    × (o'.render_context ≡ none)
    × ((c j : ℕ) → Holds c j g'.contexts → o.render_context ≢ some c)

dropped-IsFree :
    (o : VideoOutput) (g : Gl) (rc : Option ℕ)
    → o.render_context ≡ rc
    → IsFree o g (elim rc [
      | none ↦ (o, g)
      | some c ↦
          (record o { render_context = none }, record g { contexts = drop_context c g.contexts })
    ])
dropped-IsFree o g none e = ((refl, λ b. b, λ c j h. h), e, λ c j h q. cc)
dropped-IsFree o g (some d) e = (
  (refl, λ b. refl, λ c j h. (Holds-drop_context c d j g.contexts h).0),
  refl,
  λ c j h q. (let ne = (Holds-drop_context c d j g.contexts h).1 in ne cc),
)

without_context-IsFree : (o : VideoOutput) (g : Gl) → IsFree o g (free_context o g)
unfolding free_context
without_context-IsFree o g = dropped-IsFree o g o.render_context refl

-- The buffer goes, and nothing else.
without_buffer-IsFree :
    (o o' : VideoOutput) (g g' : Gl) → IsFree o g (o', g') → IsFree o g (free_buffer o' g')
unfolding free_buffer delete_buffer
without_buffer-IsFree o o' g g' h = if-both (IsFree o g) (not (o'.texture == 0)) _ _ h h

has_no_context→none : (rc : Option ℕ) (b : Bool) → (has_no_context rc && b) ≡ true → rc ≡ none
has_no_context→none none b h = refl
has_no_context→none (some c) b h = cc

pub destroy-IsFree : (o : VideoOutput) (g : Gl) → IsFree o g (destroy_output_gl true o g)
unfolding destroy_output_gl
destroy-IsFree o g = elim (Bool-cases (has_no_context o.render_context && o.texture == 0)) [
  | inl bare ↦
      let e = has_no_context→none o.render_context (o.texture == 0) bare in
      rw (bare, destroy_output_gl) ((refl, λ b. b, λ c j h. h), e, λ c j h q. cc)
  | inr held ↦
      let (o', g') = free_context o g in
      rw (held, destroy_output_gl) (without_buffer-IsFree o o' g g' (without_context-IsFree o g))
]

pub destroy-Falls :
    (binds : Bool) (o : VideoOutput) (g : Gl) → Falls o g (destroy_output_gl binds o g)
unfolding destroy_output_gl
destroy-Falls binds o g =
    let (o', g') = free_context o g in
    let same : Falls o g (o, g) = (refl, λ b. b, λ c j h. h) in
    if-both (Falls o g) (has_no_context o.render_context && o.texture == 0) _ _ same (
      if-both (Falls o g) (not binds) _ _ same
        (without_buffer-IsFree o o' g g' (without_context-IsFree o g)).0)
