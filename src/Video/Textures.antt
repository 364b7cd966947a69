-- ===== src/Video/Textures.antt =====
-- Outputs with a width and their textures: the steps of the other threads.
use flutter_libnx.Prelude.{
  ℕ, ◌<◌, ◌≡◌, refl, ◌∙◌, inl, inr, Bool, true, ◌||◌, Option, none, some, List, [], ◌∷◌, Bool-cases,
  Option-cases, All,
}
use flutter_libnx.Video.Outputs.{
  VideoOutput, Answers, create_render_context, destroy_output_gl, output_at, find_by_handle,
}
use flutter_libnx.Video.Frame.{
  Task, create_on_raster, dispose_on_raster, Video, frame_output, frame_found, texture_frame,
  mpv_update, create_at, create_found, destroy_at, run_task, run_next, Step, call_back, next_task,
  frame, callback_of, call_context, step, step_all,
}
use flutter_libnx.Video.Destroyed.{destroy-Falls}
use flutter_libnx.Video.Steps.{IsSafe, Marked, KeepsMark, texture_frame-Quiet, call_back-Quiet}
use flutter_libnx.Video.Tasks.{create_found-Quiet, destroy_at-Quiet}
use flutter_libnx.Video.Reach.{step-IsSafe}
use flutter_libnx.Video.Filled.{
  IsFilled, create-Named, frame_output-Named, destroy-Named, put-IsFilled, output_at-IsFilled,
}

-- The output of a DisposeTask is being disposed of.
abbrev pub TaskIsMarked : List VideoOutput → Task → Type 0
TaskIsMarked os (create_on_raster handle) = Unit
TaskIsMarked os (dispose_on_raster n id) = (o : VideoOutput) × Marked id os o

-- The outputs are as they should be, and a name of GL is not 0.
abbrev pub Holding : Video → Type 0
Holding s = (0 < s.gl.next) × All IsFilled s.outputs

abbrev pub Filled : Video → Type 0
Filled s = Holding s × All (TaskIsMarked s.outputs) s.tasks

pub kept-TaskIsMarked :
    (os os' : List VideoOutput) (ts : List Task)
    → ((id : ℕ) → KeepsMark id os os')
    → All (TaskIsMarked os) ts
    → All (TaskIsMarked os') ts
kept-TaskIsMarked os os' [] keeps hs = tt
kept-TaskIsMarked os os' (create_on_raster handle ∷ ts) keeps (h, hs) =
    (tt, kept-TaskIsMarked os os' ts keeps hs)
kept-TaskIsMarked os os' (dispose_on_raster n id ∷ ts) keeps ((o, mark), hs) =
    let (o', mark', _) = keeps id o mark in ((o', mark'), kept-TaskIsMarked os os' ts keeps hs)

frame_found-Holding :
    (a : Answers) (id : ℕ) (o : VideoOutput) (s : Video)
    → output_at id s.outputs ≡ some o
    → Holding s
    → Holding (frame_found a id o s).1
unfolding frame_found
frame_found-Holding a id o s at (used, held) =
    let (next, filled) =
      frame_output-Named a o s.gl (used, output_at-IsFilled id s.outputs o held at) in
    elim (Bool-cases (o.dispose_requested || o.create_failed)) [
      | inl stopped ↦ rw (stopped, frame_found) (used, held)
      | inr runs ↦
          rw (runs, frame_found)
            (next, put-IsFilled id (frame_output a o s.gl).output s.outputs filled held)
    ]

texture_frame-Holding :
    (a : Answers) (id : ℕ) (s : Video) → Holding s → Holding (texture_frame a id s).1
unfolding texture_frame
texture_frame-Holding a id s h = elim (Option-cases (output_at id s.outputs)) [
  | inl e ↦ rw (e, texture_frame) h
  | inr (o, e) ↦ rw (e, texture_frame) (frame_found-Holding a id o s e h)
]

mpv_update-Holding : (id : ℕ) (s : Video) → Holding s → Holding (mpv_update id s)
unfolding mpv_update
mpv_update-Holding id s (used, held) = elim (Option-cases (output_at id s.outputs)) [
  | inl e ↦ rw (e, mpv_update) (used, held)
  | inr (o, e) ↦
      rw (e, mpv_update)
        (
          used,
          put-IsFilled id (record o { frame_pending = true }) s.outputs
              (output_at-IsFilled id s.outputs o held e) held,
        )
]

call_context-Holding : (found : Option ℕ) (s : Video) → Holding s → Holding (call_context found s)
unfolding call_context
call_context-Holding none s h = h
call_context-Holding (some id) s h = mpv_update-Holding id s h

create_at-Holding :
    (a : Answers) (id : ℕ) (o : VideoOutput) (s : Video)
    → output_at id s.outputs ≡ some o
    → Holding s
    → Holding (create_at a id o s)
unfolding create_at
create_at-Holding a id o s at (used, held) =
    let (ok, o', g) = create_render_context a o s.gl in
    let (next, filled) = create-Named a o s.gl (used, output_at-IsFilled id s.outputs o held at) in
    elim (Bool-cases (o.dispose_requested || o.create_failed)) [
      | inl stopped ↦ rw (stopped, create_at) (used, held)
      | inr runs ↦ rw (runs, create_at) (next, put-IsFilled id o' s.outputs filled held)
    ]

create_found-Holding :
    (a : Answers) (found : Option ℕ) (s : Video) → Holding s → Holding (create_found a found s)
unfolding create_found
create_found-Holding a none s h = h
create_found-Holding a (some id) s h = elim (Option-cases (output_at id s.outputs)) [
  | inl e ↦ rw (e, create_found) h
  | inr (o, e) ↦ rw (e, create_found) (create_at-Holding a id o s e h)
]

-- An output that is being disposed of may lose its texture.
pub destroy_at-Holding :
    (binds : Bool) (id : ℕ) (s : Video) (o : VideoOutput)
    → Marked id s.outputs o
    → Holding s
    → Holding (destroy_at binds id s)
unfolding destroy_at
destroy_at-Holding binds id s o (at, flag) (used, held) =
    let (o', g) = destroy_output_gl binds o s.gl in
    let gone : o'.dispose_requested ≡ true = (destroy-Falls binds o s.gl).0 ∙ flag in
    rw (at, destroy_at)
      (destroy-Named binds o s.gl used, put-IsFilled id o' s.outputs (λ stays wide. cc) held)

run_next-Filled :
    (a : Answers) (ts : List Task) (s : Video)
    → s.tasks ≡ ts
    → IsSafe s
    → Filled s
    → Filled (run_next a ts s)
unfolding run_next run_task
run_next-Filled a [] s e safe h = h
run_next-Filled a (create_on_raster handle ∷ ts) s e (owns, valid, below, fine) (h, marked) =
    let s' : Video = record s { tasks = ts } in
    let found = find_by_handle handle s.outputs in
    let (_, later) = rw e at marked in
    let (_, valid') = rw e at valid in
    let quiet : (id : ℕ) → _ = λ id. create_found-Quiet a id found s' (owns, valid', below, fine) in
    (
      create_found-Holding a found s' h,
      rw (quiet 0).0 (
          kept-TaskIsMarked s.outputs (create_found a found s').outputs ts (λ id. (quiet id).4)
            later),
    )
run_next-Filled a (dispose_on_raster m j ∷ ts) s e (owns, valid, below, fine) (h, marked) =
    let s' : Video = record s { tasks = ts } in
    let ((o, mark), later) = rw e at marked in
    let ((_, here), valid') = rw e at valid in
    let t = destroy_at a.make_current j s' in
    let quiet : (id : ℕ) → _ =
      λ id. destroy_at-Quiet a.make_current id j s' here (owns, valid', below, fine) in
    (
      destroy_at-Holding a.make_current j s' o mark h,
      rw (quiet 0).0 (kept-TaskIsMarked s.outputs t.outputs ts (λ id. (quiet id).4) later),
    )

pub step-Filled : (e : Step) (s : Video) → IsSafe s → Filled s → Filled (step e s)
unfolding step
step-Filled (call_back c) s safe (h, marked) = (
  call_context-Holding (callback_of c s.gl.contexts) s h,
  rw (call_back-Quiet c 0 s safe).0 (
      kept-TaskIsMarked s.outputs (step (call_back c) s).outputs s.tasks
        (λ id. (call_back-Quiet c id s safe).4) marked),
)
step-Filled (next_task a) s safe h = run_next-Filled a s.tasks s refl safe h
step-Filled (frame id a) s safe (h, marked) = (
  texture_frame-Holding a id s h,
  rw (texture_frame-Quiet a 0 id s safe).0 (
      kept-TaskIsMarked s.outputs (step (frame id a) s).outputs s.tasks
        (λ j. (texture_frame-Quiet a j id s safe).4) marked),
)

pub step_all-Filled : (es : List Step) (s : Video) → IsSafe s → Filled s → Filled (step_all es s)
unfolding step_all
step_all-Filled [] s safe h = h
step_all-Filled (e ∷ es) s safe h =
    step_all-Filled es (step e s) (step-IsSafe e s safe) (step-Filled e s safe h)
