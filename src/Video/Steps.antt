-- ===== src/Video/Steps.antt =====
-- What one step of the other threads does to the pointers, the tasks, and an output that is being
-- disposed of.
use flutter_libnx.Prelude.{
  ℕ, ◌<◌, ◌≡◌, ◌≢◌, refl, sym, ap, ◌∙◌, inl, inr, Bool, true, false, ◌||◌, none, some, List, [],
  ◌∷◌, arith, Bool-cases, Option-cases, ◌==◌, All,
}
use flutter_libnx.Video.Outputs.{VideoOutput, Gl, Answers, output_at, put_output}
use flutter_libnx.Video.Pointers.{output_at-id, output_at-put_self, output_at-put_ne}
use flutter_libnx.Video.Owned.{Holds, Keeps, same-Keeping}
use flutter_libnx.Video.Frame.{
  Task, create_on_raster, dispose_on_raster, Video, frame_output, frame_found, texture_frame,
  mpv_update, call_back, callback_of, call_context, step,
}
use flutter_libnx.Video.Safe.{Present, Owns, Owns-Knows, put-Present, put-Owns, frame_output-Keeps}

-- A task is numbered below `next`, and its output is there.
abbrev pub TaskIsValid : List VideoOutput → ℕ → Task → Type 0
TaskIsValid os next (create_on_raster handle) = Unit
TaskIsValid os next (dispose_on_raster n id) = (n < next) × Present id os

abbrev pub Valid : List VideoOutput → List (ℕ × ℕ) → List Task → ℕ → List ℕ → Bool → Type 0
Valid os cs tasks next done fault =
    Owns os cs × All (TaskIsValid os next) tasks × All (λ m. m < next) done × (fault ≡ false)

-- Every pointer that mpv or a task holds is one to an output, and none was used that is not.
abbrev pub IsSafe : Video → Type 0
IsSafe s = Valid s.outputs s.gl.contexts s.tasks s.next_task s.done_tasks s.fault

put-TaskIsValid :
    (os : List VideoOutput) (id next : ℕ) (o o' : VideoOutput) (ts : List Task)
    → output_at id os ≡ some o
    → o'.texture_id ≡ id
    → All (TaskIsValid os next) ts
    → All (TaskIsValid (put_output id o' os) next) ts
put-TaskIsValid os id next o o' [] at e h = tt
put-TaskIsValid os id next o o' (create_on_raster handle ∷ ts) at e (h, hs) =
    (tt, put-TaskIsValid os id next o o' ts at e hs)
put-TaskIsValid os id next o o' (dispose_on_raster n j ∷ ts) at e (h, hs) =
    ((h.0, put-Present os id j o o' at e h.1), put-TaskIsValid os id next o o' ts at e hs)

-- An operation on the output at a pointer.
pub put-Valid :
    (os : List VideoOutput) (g g' : Gl) (id next : ℕ) (o o' : VideoOutput) (ts : List Task)
    (done : List ℕ) (fault : Bool)
    → output_at id os ≡ some o
    → Keeps o g o' g'
    → Valid os g.contexts ts next done fault
    → Valid (put_output id o' os) g'.contexts ts next done fault
put-Valid os g g' id next o o' ts done fault at k (owns, tasks, below, fine) = (
  put-Owns os g g' id o o' owns at k,
  put-TaskIsValid os id next o o' ts at (k.0 ∙ output_at-id id os o at) tasks,
  below,
  fine,
)

-- The tasks stay, and an output that is being disposed of stays so, without a context if it had none.
abbrev pub Marked : ℕ → List VideoOutput → VideoOutput → Type 0
Marked id os o = (output_at id os ≡ some o) × (o.dispose_requested ≡ true)

abbrev pub KeepsMark : ℕ → List VideoOutput → List VideoOutput → Type 0
KeepsMark id os os' =
    (o : VideoOutput)
    → Marked id os o
    → (o' : VideoOutput) × Marked id os' o' × (o.render_context ≡ none → o'.render_context ≡ none)

-- The output at `id'` changes.
pub put-KeepsMark :
    (id id' : ℕ) (os : List VideoOutput) (o o' : VideoOutput)
    → output_at id' os ≡ some o
    → o'.texture_id ≡ id'
    → (o.dispose_requested ≡ true
        → (o'.dispose_requested ≡ true) × (o.render_context ≡ none → o'.render_context ≡ none))
    → KeepsMark id os (put_output id' o' os)
put-KeepsMark id id' os o o' at e keeps p (there, flag) = elim (Bool-cases (id == id')) [
  | inl same ↦
      let q : id ≡ id' = ground arith in
      let x : output_at id' os ≡ some p = ap (λ (n : ℕ). output_at n os) (sym q) ∙ there in
      let r : p ≡ o = cc in
      let (flag', bare) = keeps (ap (λ (x : VideoOutput). x.dispose_requested) (sym r) ∙ flag) in
      (
        o',
        (
          ap (λ (n : ℕ). output_at n (put_output id' o' os)) q
              ∙ output_at-put_self id' os o o' at e,
          flag',
        ),
        λ b. bare (ap (λ (x : VideoOutput). x.render_context) (sym r) ∙ b),
      )
  | inr other ↦
      let ne : id ≢ id' = λ q. ground arith in
      (p, (output_at-put_ne id' id os o' e ne ∙ there, flag), λ b. b)
]

pub refl-KeepsMark : (id : ℕ) (os : List VideoOutput) → KeepsMark id os os
refl-KeepsMark id os o m = (o, m, λ b. b)

-- A step that runs no task.
abbrev pub Quiet : ℕ → Video → Video → Type 0
Quiet id s s' =
    (s'.tasks ≡ s.tasks)
    × (s'.done_tasks ≡ s.done_tasks)
    × (s'.next_task ≡ s.next_task)
    × IsSafe s'
    × KeepsMark id s.outputs s'.outputs

pub refl-Quiet : (id : ℕ) (s : Video) → IsSafe s → Quiet id s s
refl-Quiet id s h = (refl, refl, refl, h, refl-KeepsMark id s.outputs)

pub false-ne : {A : Type 0} (x y : Bool) → (x || y) ≡ false → x ≡ true → A
false-ne true y h e = cc
false-ne false y h e = cc

frame_found-Quiet :
    (a : Answers) (id id' : ℕ) (o : VideoOutput) (s : Video)
    → output_at id' s.outputs ≡ some o
    → IsSafe s
    → Quiet id s (frame_found a id' o s).1
unfolding frame_found
frame_found-Quiet a id id' o s at h = elim (Bool-cases (o.dispose_requested || o.create_failed)) [
  | inl stopped ↦ rw (stopped, frame_found) (refl-Quiet id s h)
  | inr runs ↦
      let f = frame_output a o s.gl in
      let k = frame_output-Keeps a o s.gl (Owns-Knows s.outputs s.gl id' o h.0 at) in
      rw (runs, frame_found)
        (
          refl,
          refl,
          refl,
          put-Valid s.outputs s.gl f.gl id' s.next_task o f.output s.tasks s.done_tasks s.fault at k
              h,
          put-KeepsMark id id' s.outputs o f.output at (k.0 ∙ output_at-id id' s.outputs o at)
              (λ d. false-ne o.dispose_requested o.create_failed runs d),
        )
]

pub texture_frame-Quiet :
    (a : Answers) (id id' : ℕ) (s : Video) → IsSafe s → Quiet id s (texture_frame a id' s).1
unfolding texture_frame
texture_frame-Quiet a id id' s h = elim (Option-cases (output_at id' s.outputs)) [
  | inl e ↦ rw (e, texture_frame) (refl-Quiet id s h)
  | inr (o, e) ↦ rw (e, texture_frame) (frame_found-Quiet a id id' o s e h)
]

mpv_update-Quiet :
    (id id' : ℕ) (s : Video) → Present id' s.outputs → IsSafe s → Quiet id s (mpv_update id' s)
unfolding mpv_update
mpv_update-Quiet id id' s (o, at) h =
    let o' : VideoOutput = record o { frame_pending = true } in
    let k : Keeps o s.gl o' s.gl =
      same-Keeping (Owns-Knows s.outputs s.gl id' o h.0 at) refl refl refl in
    rw (at, mpv_update)
      (
        refl,
        refl,
        refl,
        put-Valid s.outputs s.gl s.gl id' s.next_task o o' s.tasks s.done_tasks s.fault at k h,
        put-KeepsMark id id' s.outputs o o' at (output_at-id id' s.outputs o at) (λ d. (d, λ b. b)),
      )

Holds-callback_of : (c id : ℕ) (cs : List (ℕ × ℕ)) → callback_of c cs ≡ some id → Holds c id cs
unfolding callback_of
Holds-callback_of c id [] h = cc
Holds-callback_of c id ((d, j) ∷ rest) h = elim (Bool-cases (d == c)) [
  | inl here ↦ (let e = rw here at h in inl (ground arith, cc))
  | inr there ↦ inr (Holds-callback_of c id rest (rw there at h))
]

pub call_back-Quiet : (c id : ℕ) (s : Video) → IsSafe s → Quiet id s (step (call_back c) s)
unfolding step call_context
call_back-Quiet c id s h = elim (Option-cases (callback_of c s.gl.contexts)) [
  | inl e ↦ rw (e, call_context) (refl-Quiet id s h)
  | inr (id', e) ↦
      let (o, at, rc) = h.0 c id' (Holds-callback_of c id' s.gl.contexts e) in
      rw (e, call_context) (mpv_update-Quiet id id' s (o, at) h)
]
