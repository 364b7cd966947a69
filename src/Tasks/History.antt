-- ===== src/Tasks/History.antt =====
-- A run of the program as a list of events on the task runner: nothing is lost, nothing runs twice,
-- and nothing runs before its time.
use flutter_libnx.Prelude.{
  ℕ, ◌≤◌, ◌≡◌, refl, sym, ◌∙◌, ap, true, List, [], ◌∷◌, ◌++◌, arith, leb, Bool-cases, inl, inr,
  append-nil, append_assoc, All, All-append,
}
use mathlib.Core.List.{Perm, perm_middle}
use mathlib.Core.List.Perm
use flutter_libnx.Tasks.Runner.{
  Entry, TaskRunner, Engine, new_runner, enqueue, run_due, run_expired_tasks,
}
use flutter_libnx.Tasks.Expired.{due_entries, late_entries, run_expired_tasks_lem}

-- Splitting the queue neither loses an entry nor doubles one.
due-late-Perm : (now : ℕ) (es : List Entry) → Perm es (due_entries now es ++ late_entries now es)
unfolding due_entries late_entries
due-late-Perm now [] = Perm.rfl
due-late-Perm now (e ∷ es) = elim (Bool-cases (leb e.target_time_nanos now)) [
  | inl due ↦ rw due (Perm.cons e (due-late-Perm now es))
  | inr late ↦ rw late (
      Perm.trans (Perm.cons e (due-late-Perm now es))
        (Perm.symm (perm_middle (due_entries now es) (late_entries now es))))
]

-- An entry with the time at which it was taken to run.
pub record Start : Type 0 where
  pub entry : Entry
  pub time : ℕ

abbrev pub start_at : ℕ → List Entry → List Start
start_at now [] = []
start_at now (e ∷ es) = record { entry = e; time = now } ∷ start_at now es

abbrev pub started : List Start → List Entry
started [] = []
started (s ∷ ss) = s.entry ∷ started ss

started-start_at : (now : ℕ) (es : List Entry) → started (start_at now es) ≡ es
started-start_at now [] = refl
started-start_at now (e ∷ es) = rw (started-start_at now es)

started-append : (xs ys : List Start) → started (xs ++ ys) ≡ started xs ++ started ys
started-append [] ys = refl
started-append (x ∷ xs) ys = rw (started-append xs ys)

abbrev pub IsInTime : Start → Type 0
IsInTime s = s.entry.target_time_nanos ≤ s.time

start_at-IsInTime : (now : ℕ) (es : List Entry) → All IsInTime (start_at now (due_entries now es))
unfolding due_entries
start_at-IsInTime now [] = tt
start_at-IsInTime now (e ∷ es) = elim (Bool-cases (leb e.target_time_nanos now)) [
  | inl due ↦ rw due (ground arith, start_at-IsInTime now es)
  | inr late ↦ rw late (start_at-IsInTime now es)
]

module _ (E : Engine) where
  -- What is posted while the entries run.
  unfoldable pub posted_by : List Entry → E.World → List Entry
  posted_by [] w = []
  posted_by (e ∷ es) w = (E.run_task e.task w).0 ++ posted_by es (E.run_task e.task w).1

  run_due-queue :
      (es : List Entry) (r : TaskRunner) (w : E.World)
      → (run_due E es r w).0.queue ≡ r.queue ++ posted_by es w
  unfolding run_due posted_by
  run_due-queue [] r w = sym (append-nil r.queue)
  run_due-queue (e ∷ es) r w = rw (
    run_due-queue es (record r { queue = r.queue ++ (E.run_task e.task w).0 })
        (E.run_task e.task w).1,
    append_assoc,
  )

  -- The state, and a record of what has been posted and run so far.
  pub record History : Type 0 where
    pub runner : TaskRunner
    pub world : E.World
    pub posted : List Entry
    pub starts : List Start

  -- A thread posts a task; the loop runs the expired tasks; the world changes.
  pub data Event : Type 0 where
    post : Entry → Event
    run : Event
    wait : E.World → Event

  unfoldable pub run_now : History → History
  unfolding posted_by
  run_now h =
      let due = due_entries (E.current_time h.world) h.runner.queue in
      let (result, (runner, world)) = run_expired_tasks E true h.runner h.world in
      record {
        runner = runner;
        world = world;
        posted = h.posted ++ posted_by due h.world;
        starts = h.starts ++ start_at (E.current_time h.world) due;
      }

  unfoldable pub happen : Event → History → History
  unfolding run_now enqueue
  happen (post e) h = record h { runner = enqueue e h.runner; posted = h.posted ++ (e ∷ []) }
  happen run h = run_now h
  happen (wait w) h = record h { world = w }

  unfoldable pub happen_all : List Event → History → History
  unfolding happen
  happen_all [] h = h
  happen_all (e ∷ es) h = happen_all es (happen e h)

  abbrev pub beginning : E.World → History
  beginning w = record { runner = new_runner; world = w; posted = []; starts = [] }

  -- What was posted is, in some order, what has run and what waits; and what has run was in time.
  abbrev pub IsKept : History → Type 0
  IsKept h = Perm h.posted (started h.starts ++ h.runner.queue) × All IsInTime h.starts

  module _ (h : History) where
    abbrev now : ℕ
    now = E.current_time h.world

    abbrev due : List Entry
    due = due_entries now h.runner.queue

    abbrev late : List Entry
    late = late_entries now h.runner.queue

    run_now-queue : (run_now h).runner.queue ≡ late ++ posted_by due h.world
    unfolding run_now
    run_now-queue =
        ap (λ (r : ℕ × (TaskRunner × E.World)). r.1.0.queue)
          (run_expired_tasks_lem E true h.runner h.world)
        ∙ run_due-queue due (record h.runner { queue = late }) h.world

    split-Perm :
        Perm h.posted (started h.starts ++ h.runner.queue)
        → Perm h.posted ((started h.starts ++ due) ++ late)
    split-Perm kept =
        rw (append_assoc (started h.starts) due late)
          (Perm.trans kept (Perm.append_left (started h.starts) (due-late-Perm now h.runner.queue)))

    run_now-IsKept : IsKept h → IsKept (run_now h)
    run_now-IsKept kept = rw (run_now-queue) (
        unfold run_now in
        rw
          (
            started-append h.starts (start_at now due),
            started-start_at now due,
            ← append_assoc (started h.starts ++ due) late (posted_by due h.world),
          )
          (
            Perm.append_right (posted_by due h.world) (split-Perm kept.0),
            All-append IsInTime h.starts (start_at now due) kept.1
                (start_at-IsInTime now h.runner.queue),
          ))

  happen-IsKept : (e : Event) (h : History) → IsKept h → IsKept (happen e h)
  unfolding happen enqueue
  happen-IsKept (post e) h kept = (
    rw (← append_assoc (started h.starts) h.runner.queue (e ∷ []))
        (Perm.append_right (e ∷ []) kept.0),
    kept.1,
  )
  happen-IsKept run h kept = run_now-IsKept h kept
  happen-IsKept (wait w) h kept = kept

  happen_all-IsKept : (es : List Event) (h : History) → IsKept h → IsKept (happen_all es h)
  unfolding happen_all
  happen_all-IsKept [] h kept = kept
  happen_all-IsKept (e ∷ es) h kept = happen_all-IsKept es (happen e h) (happen-IsKept e h kept)

  -- However threads post tasks, time passes and the loop runs, from a new runner on: the posted tasks
  -- are, each once, those that have run and those in the queue, and each ran when its time had come.
  pub reachable-IsKept : (es : List Event) (w : E.World) → IsKept (happen_all es (beginning w))
  reachable-IsKept es w = happen_all-IsKept es (beginning w) (Perm.rfl, tt)
