-- ===== src/Video/Closed.antt =====
-- What the shutdown leaves.
use flutter_libnx.Prelude.{
  ℕ, ◌≡◌, ap, ◌∙◌, ◌⊎◌, inl, inr, true, some, ◌∷◌, [], List, Bool-cases, ◌==◌,
}
use flutter_libnx.Video.Outputs.{VideoOutput, Gl, destroy_output_gl, output_at}
use flutter_libnx.Video.Frame.{Video, destroy_all, shutdown}
use flutter_libnx.Video.Owned.{Holds}
use flutter_libnx.Video.Destroyed.{destroy-IsFree}
use flutter_libnx.Video.Reach.{Turns, no_video, reached-IsSafe}

-- One of the outputs has the context.
abbrev Uses : ℕ → List VideoOutput → Type 0
Uses c [] = ⊥
Uses c (o ∷ os) = (o.render_context ≡ some c) ⊎ Uses c os

output_at-Uses :
    (c id : ℕ) (os : List VideoOutput) (o : VideoOutput)
    → output_at id os ≡ some o
    → o.render_context ≡ some c
    → Uses c os
unfolding output_at
output_at-Uses c id [] o at rc = cc
output_at-Uses c id (p ∷ os) o at rc = elim (Bool-cases (p.texture_id == id)) [
  | inl here ↦
      let e : some p ≡ some o = rw here at at in
      let same : p ≡ o = cc in inl (ap (λ (x : VideoOutput). x.render_context) same ∙ rc)
  | inr there ↦ inr (output_at-Uses c id os o (rw there at at) rc)
]

-- Each teardown takes the context of its output away, and brings none.
destroy_all-frees :
    (os : List VideoOutput) (g : Gl)
    → ((c j : ℕ) → Holds c j g.contexts → Uses c os)
    → (c j : ℕ) → ¬ Holds c j (destroy_all true os g).contexts
unfolding destroy_all
destroy_all-frees [] g h c j held = h c j held
destroy_all-frees (o ∷ os) g h c j held =
    let ((_, _, fewer), _, gone) = destroy-IsFree o g in
    destroy_all-frees os (destroy_output_gl true o g).1
      (λ c j held. elim (h c j (fewer c j held)) [
        | inl own ↦ absurd (gone c j held own)
        | inr later ↦ later
      ])
      c j held

-- In every state that is reached from the start, if the raster thread could bind the context for the
-- tasks that it ran while a Dispose waited, the shutdown, if it can bind the context too, leaves no
-- render context of mpv.
pub shutdown-frees :
    {s : Video} → Turns no_video s → (c j : ℕ) → ¬ Holds c j (shutdown true s).gl.contexts
unfolding shutdown
shutdown-frees {s} h =
    let owns = (reached-IsSafe h).0 in
    destroy_all-frees s.outputs s.gl
      (λ c j held. (let (o, at, rc) = owns c j held in output_at-Uses c j s.outputs o at rc))
