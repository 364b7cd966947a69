-- ===== src/Video/Tasks.antt =====
-- What the tasks of the raster thread do.
use flutter_libnx.Prelude.{
  ℕ, ◌≡◌, refl, ◌∙◌, inl, inr, Bool, true, ◌||◌, Option, none, some, List, Bool-cases, Option-cases,
}
use flutter_libnx.Video.Outputs.{
  VideoOutput, Answers, create_render_context, destroy_output_gl, output_at,
}
use flutter_libnx.Video.Pointers.{output_at-id, output_at-put_self}
use flutter_libnx.Video.Owned.{create-Keeps, destroy-Keeps}
use flutter_libnx.Video.Destroyed.{destroy-IsFree, destroy-Falls}
use flutter_libnx.Video.Frame.{Video, create_at, create_found, destroy_at}
use flutter_libnx.Video.Safe.{Present, Owns-Knows}
use flutter_libnx.Video.Steps.{
  IsSafe, put-Valid, Marked, put-KeepsMark, Quiet, refl-Quiet, false-ne,
}

create_at-Quiet :
    (a : Answers) (id id' : ℕ) (o : VideoOutput) (s : Video)
    → output_at id' s.outputs ≡ some o
    → IsSafe s
    → Quiet id s (create_at a id' o s)
unfolding create_at
create_at-Quiet a id id' o s at h = elim (Bool-cases (o.dispose_requested || o.create_failed)) [
  | inl stopped ↦ rw (stopped, create_at) (refl-Quiet id s h)
  | inr runs ↦
      let (ok, o', g) = create_render_context a o s.gl in
      let k = create-Keeps a o s.gl (Owns-Knows s.outputs s.gl id' o h.0 at) in
      rw (runs, create_at)
        (
          refl,
          refl,
          refl,
          put-Valid s.outputs s.gl g id' s.next_task o o' s.tasks s.done_tasks s.fault at k h,
          put-KeepsMark id id' s.outputs o o' at (k.0 ∙ output_at-id id' s.outputs o at)
              (λ d. false-ne o.dispose_requested o.create_failed runs d),
        )
]

pub create_found-Quiet :
    (a : Answers) (id : ℕ) (found : Option ℕ) (s : Video)
    → IsSafe s
    → Quiet id s (create_found a found s)
unfolding create_found
create_found-Quiet a id none s h = refl-Quiet id s h
create_found-Quiet a id (some id') s h = elim (Option-cases (output_at id' s.outputs)) [
  | inl e ↦ rw (e, create_found) (refl-Quiet id s h)
  | inr (o, e) ↦ rw (e, create_found) (create_at-Quiet a id id' o s e h)
]

pub destroy_at-Quiet :
    (binds : Bool) (id id' : ℕ) (s : Video)
    → Present id' s.outputs
    → IsSafe s
    → Quiet id s (destroy_at binds id' s)
unfolding destroy_at
destroy_at-Quiet binds id id' s (o, at) h =
    let (o', g) = destroy_output_gl binds o s.gl in
    let k = destroy-Keeps binds o s.gl (Owns-Knows s.outputs s.gl id' o h.0 at) in
    let (flag, bare, old) = destroy-Falls binds o s.gl in
    rw (at, destroy_at)
      (
        refl,
        refl,
        refl,
        put-Valid s.outputs s.gl g id' s.next_task o o' s.tasks s.done_tasks s.fault at k h,
        put-KeepsMark id id' s.outputs o o' at (k.0 ∙ output_at-id id' s.outputs o at)
            (λ d. (flag ∙ d, bare)),
      )

-- The output is there, is being disposed of, and has no context.
abbrev pub IsDisposed : ℕ → List VideoOutput → Type 0
IsDisposed id os = (o : VideoOutput) × Marked id os o × (o.render_context ≡ none)

-- The teardown with a bound context.
pub destroy_at-IsDisposed :
    (id : ℕ) (s : Video) (o : VideoOutput)
    → Marked id s.outputs o
    → IsSafe s
    → IsDisposed id (destroy_at true id s).outputs
unfolding destroy_at
destroy_at-IsDisposed id s o (at, flag) h =
    let (o', g) = destroy_output_gl true o s.gl in
    let k = destroy-Keeps true o s.gl (Owns-Knows s.outputs s.gl id o h.0 at) in
    let ((flag', _, _), bare, _) = destroy-IsFree o s.gl in
    rw (at, destroy_at)
      (
        o',
        (
          output_at-put_self id s.outputs o o' at (k.0 ∙ output_at-id id s.outputs o at),
          flag' ∙ flag,
        ),
        bare,
      )
