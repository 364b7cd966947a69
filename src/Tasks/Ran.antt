-- ===== src/Tasks/Ran.antt =====
-- Which tasks RunExpiredTasks runs, in which order, and what becomes of what they post.
use flutter_libnx.Prelude.{
  ◌≡◌, refl, ap, sym, ◌∙◌, List, [], ◌∷◌, ◌++◌, append-nil, append_assoc, true, false,
}
use flutter_libnx.Tasks.Runner.{Entry, TaskRunner, Engine, run_due, run_expired_tasks}
use flutter_libnx.Tasks.Expired.{due_entries, late_entries, earliest, run_expired_tasks_lem}

module _ (E : Engine) where
  -- The engine runs these tasks one after another, each once, which leads from one world to the other;
  -- the second list is what is posted meanwhile, in order.
  pub data Runs : List Entry → List Entry → E.World → E.World → Type 0 where
    no_task : {w : E.World} → Runs [] [] w w
    task_first :
        {e : Entry} {es posted later : List Entry} {w w' w'' : E.World}
        → E.run_task e.task w ≡ (posted, w')
        → Runs es later w' w''
        → Runs (e ∷ es) (posted ++ later) w w''

  -- What the loop leaves of a runner with this queue.
  abbrev Ran : List Entry → TaskRunner → E.World → TaskRunner × E.World → Type 0
  Ran es r w (r', w') =
      (posted : List Entry) × Runs es posted w w' × (r' ≡ record r { queue = r.queue ++ posted })

  run_due-Ran : (es : List Entry) (r : TaskRunner) (w : E.World) → Ran es r w (run_due E es r w)
  unfolding run_due
  run_due-Ran [] r w =
      ([], no_task, ap (λ (q : List Entry). record r { queue = q }) (sym (append-nil r.queue)))
  run_due-Ran (e ∷ es) r w =
      let (posted, w') = E.run_task e.task w in
      let (later, runs, q) = run_due-Ran es (record r { queue = r.queue ++ posted }) w' in
      (
        posted ++ later,
        task_first refl runs,
        q ∙ ap (λ (q : List Entry). record r { queue = q }) (append_assoc r.queue posted later),
      )

  idle : (r : TaskRunner) (w : E.World) → run_expired_tasks E false r w ≡ (0, (r, w))
  unfolding run_expired_tasks
  idle r w = refl

  -- With an engine: the tasks that were due by now are run, each once and in the order in which they were
  -- posted, and no other; the queue then holds those that were not due, followed by what was posted
  -- meanwhile; and the result is the earliest time of those that were not due, or 0 if there are
  -- none, whatever was posted meanwhile. Without an engine nothing happens, and the result is 0.
  pub run_expired_tasks-Runs :
      (r : TaskRunner) (w : E.World)
      → let now = E.current_time w in
        let (time, (r', w')) = run_expired_tasks E true r w in
        (posted : List Entry) × Runs (due_entries now r.queue) posted w w'
        × (r' ≡ record r { queue = late_entries now r.queue ++ posted })
        × (time ≡ earliest (late_entries now r.queue))
        × (run_expired_tasks E false r w ≡ (0, (r, w)))
  run_expired_tasks-Runs r w =
      let now = E.current_time w in
      let late = late_entries now r.queue in
      let (posted, runs, q) = run_due-Ran (due_entries now r.queue) (record r { queue = late }) w in
      rw (run_expired_tasks_lem E true r w) (posted, runs, q, refl, idle r w)
