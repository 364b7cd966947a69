-- ===== src/Video/Frame.antt =====
-- The frame callback of the raster thread, the tasks that are posted to it, and the pump of the main
-- loop. What the locks guard is done in one step.
use flutter_libnx.Prelude.{
  ℕ, Bool, true, false, not, ◌&&◌, ◌||◌, Option, none, some, List, [], ◌∷◌, ◌++◌, if◌then◌else◌,
  ltb, ◌==◌, ℤ, pos, negsuc, length,
}
use flutter_libnx.Video.Outputs.{
  VideoOutput, Gl, Answers, has_no_context, create_render_context, allocate_buffer,
  destroy_output_gl, output_at, find_by_handle, put_output,
}

-- CreateOnRasterThread with its handle; DisposeOnRasterThread with the number of its DisposeTask and
-- the output.
pub data Task : Type 0 where
  create_on_raster : ℕ → Task
  dispose_on_raster : ℕ → ℕ → Task

-- What the callback delivers: name, width and height.
pub record Texture : Type 0 where
  pub name : ℕ
  pub width : ℤ
  pub height : ℤ

-- The globals, and what is around them: GL, the tasks of the raster thread, which DisposeTasks are
-- done, and what the engine got: textures registered and marked, responses, and messages to Dart.
-- `rendered` are the outputs into which mpv has rendered, and `fault` is whether a pointer to an output
-- that was freed has been used.
pub record Video : Type 0 where
  pub outputs : List VideoOutput
  pub next_texture_id : ℕ
  pub gl : Gl
  pub tasks : List Task
  pub next_task : ℕ
  pub done_tasks : List ℕ
  pub registered : List ℕ
  pub marked : List ℕ
  pub rendered : List ℕ
  pub responses : List (List ℕ)
  pub messages : List (List ℕ)
  pub fault : Bool

abbrev pub is_positive : ℤ → Bool
is_positive (pos n) = ltb 0 n
is_positive (negsuc n) = false

unfoldable pub int_eq : ℤ → ℤ → Bool
int_eq (pos a) (pos b) = a == b
int_eq (negsuc a) (negsuc b) = a == b
int_eq (pos a) (negsuc b) = false
int_eq (negsuc a) (pos b) = false

unfoldable pub needs_resize : VideoOutput → Bool
unfolding int_eq
needs_resize o =
    is_positive o.pending_width
    && (is_positive o.pending_height
        && (not (int_eq o.pending_width o.width) || not (int_eq o.pending_height o.height)))

-- The second step: the buffer, if its size has changed.
unfoldable pub prepare_buffer : Answers → Bool → VideoOutput → Gl → Bool × VideoOutput × Gl
unfolding allocate_buffer
prepare_buffer a resize o g =
    let (ok, o', g') = allocate_buffer a o.pending_width o.pending_height o g in
    if not a.load
    then (false, record o { create_failed = true }, g)
    else if resize
    then (if ok then (true, o', g') else (false, record o' { create_failed = true }, g'))
    else (true, o, g)

-- The render context, then the buffer.
unfoldable pub prepare : Answers → Bool → Bool → VideoOutput → Gl → Bool × VideoOutput × Gl
unfolding create_render_context prepare_buffer
prepare a create resize o g =
    let (ok, o', g') = create_render_context a o g in
    if create
    then (if ok then prepare_buffer a resize o' g' else (false, o', g'))
    else prepare_buffer a resize o g

-- What is handed to the engine.
unfoldable pub deliver : VideoOutput → Option Texture
deliver o =
    if o.texture == 0 || not (is_positive o.width)
    then none
    else some (record { name = o.texture; width = o.width; height = o.height })

-- mpv renders if it has a context, a buffer and a frame.
unfoldable pub is_rendered : Answers → VideoOutput → Bool
is_rendered a o =
    not (has_no_context o.render_context) && (is_positive o.width && (a.has_frame && a.renders))

-- What the callback comes to: its result, the output, GL, and whether mpv rendered.
pub record Framed : Type 0 where
  pub result : Option Texture
  pub output : VideoOutput
  pub gl : Gl
  pub renders : Bool

unfoldable pub frame_prepared : Answers → Bool × VideoOutput × Gl → Framed
unfolding deliver is_rendered
frame_prepared a (ok, o, g) =
    if ok
    then record { result = deliver o; output = o; gl = g; renders = is_rendered a o }
    else record { result = none; output = o; gl = g; renders = false }

-- The callback on the output it has found. `frame_pending.exchange(false)` comes first.
unfoldable pub frame_output : Answers → VideoOutput → Gl → Framed
unfolding frame_prepared prepare needs_resize
frame_output a o g =
    let create = has_no_context o.render_context in
    let resize = needs_resize o in
    let taken = record o { frame_pending = false } in
    if create || (resize || o.frame_pending)
    then frame_prepared a (prepare a create resize taken g)
    else record { result = deliver taken; output = taken; gl = g; renders = false }

unfoldable pub frame_found : Answers → ℕ → VideoOutput → Video → Option Texture × Video
unfolding frame_output put_output
frame_found a id o s =
    let f = frame_output a o s.gl in
    if o.dispose_requested || o.create_failed then (none, s) else (
      f.result,
      record s {
        outputs = put_output id f.output s.outputs;
        gl = f.gl;
        rendered = if f.renders then s.rendered ++ (id ∷ []) else s.rendered;
      },
    )

-- flutter_libnx_media_kit_texture_frame
unfoldable pub texture_frame : Answers → ℕ → Video → Option Texture × Video
unfolding frame_found output_at
texture_frame a texture_id s = elim (output_at texture_id s.outputs) [
  | none ↦ (none, s)
  | some o ↦ frame_found a texture_id o s
]

-- MpvUpdateCallback.
unfoldable pub mpv_update : ℕ → Video → Video
unfolding put_output output_at
mpv_update id s = elim (output_at id s.outputs) [
  | none ↦ record s { fault = true }
  | some o ↦ record s { outputs = put_output id (record o { frame_pending = true }) s.outputs }
]

-- CreateRenderContextLocked on the output at a pointer.
unfoldable pub create_at : Answers → ℕ → VideoOutput → Video → Video
unfolding create_render_context put_output
create_at a id o s =
    let (ok, o', g) = create_render_context a o s.gl in
    if o.dispose_requested || o.create_failed
    then s
    else record s { outputs = put_output id o' s.outputs; gl = g }

unfoldable pub create_found : Answers → Option ℕ → Video → Video
unfolding create_at output_at
create_found a none s = s
create_found a (some id) s = elim (output_at id s.outputs) [
  | none ↦ s
  | some o ↦ create_at a id o s
]

-- DestroyOutputGlLocked on the output at a pointer.
unfoldable pub destroy_at : Bool → ℕ → Video → Video
unfolding destroy_output_gl put_output output_at
destroy_at binds id s = elim (output_at id s.outputs) [
  | none ↦ record s { fault = true }
  | some o ↦
      let (o', g) = destroy_output_gl binds o s.gl in
      record s { outputs = put_output id o' s.outputs; gl = g }
]

unfoldable pub run_task : Answers → Task → Video → Video
unfolding create_found find_by_handle destroy_at
run_task a (create_on_raster handle) s = create_found a (find_by_handle handle s.outputs) s
run_task a (dispose_on_raster n id) s =
    let t = destroy_at a.make_current id s in record t { done_tasks = n ∷ t.done_tasks }

-- The raster thread runs the task that was posted first.
unfoldable pub run_next : Answers → List Task → Video → Video
unfolding run_task
run_next a [] s = s
run_next a (t ∷ ts) s = run_task a t (record s { tasks = ts })

-- A step of another thread than the platform's: a thread of mpv calls back for a render context, or the
-- raster thread runs a task or a frame callback. mpv calls back only for a context that lives.
pub data Step : Type 0 where
  call_back : ℕ → Step
  next_task : Answers → Step
  frame : ℕ → Answers → Step

unfoldable pub callback_of : ℕ → List (ℕ × ℕ) → Option ℕ
callback_of c [] = none
callback_of c ((d, id) ∷ rest) = if d == c then some id else callback_of c rest

unfoldable pub call_context : Option ℕ → Video → Video
unfolding mpv_update
call_context none s = s
call_context (some id) s = mpv_update id s

unfoldable pub step : Step → Video → Video
unfolding call_context callback_of run_next texture_frame
step (call_back c) s = call_context (callback_of c s.gl.contexts) s
step (next_task a) s = run_next a s.tasks s
step (frame id a) s = (texture_frame a id s).1

unfoldable pub step_all : List Step → Video → Video
unfolding step
step_all [] s = s
step_all (e ∷ es) s = step_all es (step e s)

unfoldable pub is_done : ℕ → List ℕ → Bool
is_done n [] = false
is_done n (m ∷ ms) = let later = is_done n ms in m == n || later

-- What the pump marks: at most eight outputs.
unfoldable pub is_ready : VideoOutput → Bool
is_ready o =
    o.frame_pending
    && (is_positive o.pending_width && (not o.dispose_requested && not o.create_failed))

unfoldable pub collect_ready : List VideoOutput → List ℕ → List ℕ
unfolding is_ready
collect_ready [] ready = ready
collect_ready (o ∷ os) ready =
    collect_ready os
      (if is_ready o && ltb (length ready) 8 then ready ++ (o.texture_id ∷ []) else ready)

-- flutter_libnx_media_kit_video_pump, with an engine.
unfoldable pub pump : Video → Video
unfolding collect_ready
pump s = record s { marked = s.marked ++ collect_ready s.outputs [] }

unfoldable pub destroy_all : Bool → List VideoOutput → Gl → Gl
unfolding destroy_output_gl
destroy_all binds [] g = g
destroy_all binds (o ∷ os) g = destroy_all binds os (destroy_output_gl binds o g).1

-- flutter_libnx_media_kit_video_shutdown
unfoldable pub shutdown : Bool → Video → Video
unfolding destroy_all
shutdown binds s = record s { gl = destroy_all binds s.outputs s.gl; outputs = [] }
