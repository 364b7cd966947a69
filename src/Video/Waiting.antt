-- ===== src/Video/Waiting.antt =====
-- The wait for a DisposeTask: what the other threads do during it.
use flutter_libnx.Prelude.{
  ℕ, ◌<◌, ◌≡◌, ◌≢◌, refl, sym, ◌∙◌, ◌⊎◌, inl, inr, Bool, true, false, List, [], ◌∷◌, arith, ◌==◌,
  All,
}
use flutter_libnx.Video.Outputs.{VideoOutput, Answers, find_by_handle}
use flutter_libnx.Video.Frame.{
  Task, create_on_raster, dispose_on_raster, Video, create_found, destroy_at, run_task, run_next,
  Step, call_back, next_task, frame, step, step_all, is_done,
}
use flutter_libnx.Video.Steps.{
  TaskIsValid, IsSafe, Marked, Quiet, texture_frame-Quiet, call_back-Quiet,
}
use flutter_libnx.Video.Tasks.{
  create_found-Quiet, destroy_at-Quiet, destroy_at-IsDisposed, IsDisposed,
}

-- The raster thread can bind the context for its tasks.
abbrev pub Binds : Step → Type 0
Binds (call_back c) = Unit
Binds (next_task a) = a.make_current ≡ true
Binds (frame id a) = Unit

-- The task `n` for the output `id`, if it is there, is the last one.
abbrev pub IsLast : ℕ → ℕ → List Task → Type 0
IsLast n id [] = Unit
IsLast n id (create_on_raster handle ∷ ts) = IsLast n id ts
IsLast n id (dispose_on_raster m j ∷ ts) =
    ((m ≡ n) × (j ≡ id) × (ts ≡ [])) ⊎ ((m ≢ n) × IsLast n id ts)

-- The task has not been done, or it has.
abbrev pub IsWaiting : ℕ → ℕ → Video → Type 0
IsWaiting n id s =
    IsSafe s
    × ((o : VideoOutput) × Marked id s.outputs o)
    × IsLast n id s.tasks
    × All (λ m. m ≢ n) s.done_tasks

abbrev pub IsOver : ℕ → Video → Type 0
IsOver id s = IsSafe s × IsDisposed id s.outputs × (s.tasks ≡ [])

-- A step that runs no task leaves both as they are.
Quiet-IsWaiting : (n id : ℕ) (s s' : Video) → Quiet id s s' → IsWaiting n id s → IsWaiting n id s'
Quiet-IsWaiting n id s s' (tasks, done, _, safe, keeps) (_, (o, mark), last, before) =
    let (o', mark', _) = keeps o mark in (safe, (o', mark'), rw tasks last, rw done before)

Quiet-IsOver : (id : ℕ) (s s' : Video) → Quiet id s s' → IsOver id s → IsOver id s'
Quiet-IsOver id s s' (tasks, _, _, safe, keeps) (_, (o, mark, bare), none_left) =
    let (o', mark', bare') = keeps o mark in (safe, (o', mark', bare' bare), tasks ∙ none_left)

-- The raster thread takes the next task.
popped-IsSafe :
    (t : Task) (ts : List Task) (s : Video)
    → s.tasks ≡ t ∷ ts
    → IsSafe s
    → TaskIsValid s.outputs s.next_task t × IsSafe (record s { tasks = ts })
popped-IsSafe t ts s e (owns, tasks, below, fine) =
    let (h, hs) = rw e at tasks in (h, (owns, hs, below, fine))

-- A DisposeTask that has run, in a state of its own.
done-IsSafe :
    (m j : ℕ) (t : Video)
    → m < t.next_task
    → IsSafe t
    → IsSafe (record t { done_tasks = m ∷ t.done_tasks })
done-IsSafe m j t below (owns, tasks, all, fine) = (owns, tasks, (below, all), fine)

-- The task of the wait is the one that runs.
own_done-IsOver :
    (b : Bool) (n id m j : ℕ) (ts : List Task) (s : Video)
    → b ≡ true
    → s.tasks ≡ dispose_on_raster m j ∷ ts
    → (j ≡ id) × (ts ≡ [])
    → IsWaiting n id s
    → let t = destroy_at b j (record s { tasks = ts }) in
      IsOver id (record t { done_tasks = m ∷ t.done_tasks })
own_done-IsOver false n id m j ts s binds e own w = cc
own_done-IsOver true n id m j ts s binds e (out, none_left) (safe, (o, mark), _, _) =
    let s' : Video = record s { tasks = ts } in
    let (h, safe') = popped-IsSafe (dispose_on_raster m j) ts s e safe in
    let (tasks, _, next, after, _) = destroy_at-Quiet true id j s' h.1 safe' in
    let mark' : Marked j s.outputs o = rw out mark in
    (
      done-IsSafe m j (destroy_at true j s') (rw next h.0) after,
      rw (sym out) (destroy_at-IsDisposed j s' o mark' safe'),
      tasks ∙ none_left,
    )

-- Another DisposeTask runs.
other_task-IsWaiting :
    (a : Answers) (n id m j : ℕ) (ts : List Task) (s : Video)
    → s.tasks ≡ dispose_on_raster m j ∷ ts
    → m ≢ n
    → IsLast n id ts
    → IsWaiting n id s
    → IsWaiting n id (run_task a (dispose_on_raster m j) (record s { tasks = ts }))
unfolding run_task
other_task-IsWaiting a n id m j ts s e ne last (safe, marked, _, before) =
    let s' : Video = record s { tasks = ts } in
    let (h, safe') = popped-IsSafe (dispose_on_raster m j) ts s e safe in
    let t = destroy_at a.make_current j s' in
    let q = destroy_at-Quiet a.make_current id j s' h.1 safe' in
    let (_, _, next, _, _) = q in
    let (after, marked', last', before') =
      Quiet-IsWaiting n id s' t q (safe', marked, last, before) in
    (done-IsSafe m j t (rw next h.0) after, marked', last', (ne, before'))

create_task-IsWaiting :
    (a : Answers) (n id handle : ℕ) (ts : List Task) (s : Video)
    → s.tasks ≡ create_on_raster handle ∷ ts
    → IsLast n id ts
    → IsWaiting n id s
    → IsWaiting n id (run_task a (create_on_raster handle) (record s { tasks = ts }))
unfolding run_task
create_task-IsWaiting a n id handle ts s e last (safe, marked, _, before) =
    let s' : Video = record s { tasks = ts } in
    let (_, safe') = popped-IsSafe (create_on_raster handle) ts s e safe in
    let found = find_by_handle handle s.outputs in
    Quiet-IsWaiting n id s' (create_found a found s') (create_found-Quiet a id found s' safe')
      (safe', marked, last, before)

pub run_next-IsSafe :
    (a : Answers) (ts : List Task) (s : Video) → s.tasks ≡ ts → IsSafe s → IsSafe (run_next a ts s)
unfolding run_next run_task
run_next-IsSafe a [] s e safe = safe
run_next-IsSafe a (create_on_raster handle ∷ ts) s e safe =
    let (_, safe') = popped-IsSafe (create_on_raster handle) ts s e safe in
    let (_, _, _, after, _) =
      create_found-Quiet a 0 (find_by_handle handle s.outputs) (record s { tasks = ts }) safe' in
    after
run_next-IsSafe a (dispose_on_raster m j ∷ ts) s e safe =
    let s' : Video = record s { tasks = ts } in
    let (h, safe') = popped-IsSafe (dispose_on_raster m j) ts s e safe in
    let (_, _, next, after, _) = destroy_at-Quiet a.make_current 0 j s' h.1 safe' in
    done-IsSafe m j (destroy_at a.make_current j s') (rw next h.0) after

abbrev Waits : ℕ → ℕ → Video → Type 0
Waits n id s = IsWaiting n id s ⊎ IsOver id s

run_next-Waits :
    (a : Answers) (n id : ℕ) (ts : List Task) (s : Video)
    → a.make_current ≡ true
    → s.tasks ≡ ts
    → IsWaiting n id s
    → Waits n id (run_next a ts s)
unfolding run_next run_task
run_next-Waits a n id [] s binds e w = inl w
run_next-Waits a n id (create_on_raster handle ∷ ts) s binds e w =
    inl (create_task-IsWaiting a n id handle ts s e (rw e at w.2) w)
run_next-Waits a n id (dispose_on_raster m j ∷ ts) s binds e w =
    let last : IsLast n id (dispose_on_raster m j ∷ ts) = rw e at w.2 in
    elim last [
      | inl (_, out, none_left) ↦
          inr (own_done-IsOver a.make_current n id m j ts s binds e (out, none_left) w)
      | inr (ne, later) ↦ inl (other_task-IsWaiting a n id m j ts s e ne later w)
    ]

idle-Waits :
    (a : Answers) (n id : ℕ) (ts : List Task) (s : Video)
    → ts ≡ []
    → IsOver id s
    → Waits n id (run_next a ts s)
unfolding run_next
idle-Waits a n id [] s e w = inr w
idle-Waits a n id (t ∷ ts) s e w = cc

step-Waits : (e : Step) (n id : ℕ) (s : Video) → Binds e → Waits n id s → Waits n id (step e s)
unfolding step
step-Waits (call_back c) n id s b (inl w) =
    inl (Quiet-IsWaiting n id s (step (call_back c) s) (call_back-Quiet c id s w.0) w)
step-Waits (call_back c) n id s b (inr w) =
    inr (Quiet-IsOver id s (step (call_back c) s) (call_back-Quiet c id s w.0) w)
step-Waits (next_task a) n id s b (inl w) = run_next-Waits a n id s.tasks s b refl w
step-Waits (next_task a) n id s b (inr w) = idle-Waits a n id s.tasks s w.2 w
step-Waits (frame j a) n id s b (inl w) =
    inl (Quiet-IsWaiting n id s (step (frame j a) s) (texture_frame-Quiet a id j s w.0) w)
step-Waits (frame j a) n id s b (inr w) =
    inr (Quiet-IsOver id s (step (frame j a) s) (texture_frame-Quiet a id j s w.0) w)

pub step_all-Waits :
    (es : List Step) (n id : ℕ) (s : Video)
    → All Binds es
    → Waits n id s
    → Waits n id (step_all es s)
unfolding step_all
step_all-Waits [] n id s b w = w
step_all-Waits (e ∷ es) n id s (b, bs) w =
    step_all-Waits es n id (step e s) bs (step-Waits e n id s b w)

not_done : (n : ℕ) (ms : List ℕ) → All (λ m. m ≢ n) ms → is_done n ms ≡ false
unfolding is_done
not_done n [] h = refl
not_done n (m ∷ ms) (ne, h) =
    let other : (m == n) ≡ false = ground arith in rw (other, not_done n ms h) refl

-- A task that is done is not waited for any more.
pub done_step_all-IsOver :
    (es : List Step) (n id : ℕ) (s : Video)
    → All Binds es
    → IsWaiting n id s
    → is_done n (step_all es s).done_tasks ≡ true
    → IsOver id (step_all es s)
done_step_all-IsOver es n id s b w d = elim (step_all-Waits es n id s b (inl w)) [
  | inl still ↦ (let e = not_done n (step_all es s).done_tasks still.3 in cc)
  | inr over ↦ over
]
