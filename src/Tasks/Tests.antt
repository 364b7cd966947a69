-- ===== src/Tasks/Tests.antt =====
-- An engine whose world is the time, and the theorems about the task runner at concrete inputs.
use flutter_libnx.Prelude.{false, ℕ, ◌≡◌, true, List, [], ◌∷◌, ◌++◌, refl, if◌then◌else◌, ◌==◌}
use flutter_libnx.Tasks.Runner.{Entry, TaskRunner, Engine, run_expired_tasks}
use flutter_libnx.Tasks.Expired.{due_entries, late_entries, earliest}
use flutter_libnx.Tasks.Ran.{Runs, run_expired_tasks-Runs}
use flutter_libnx.Tasks.History.{
  Event, post, run, wait, IsKept, happen_all, beginning, reachable-IsKept,
}

-- Task 1 posts task 9 for at once.
abbrev clock : Engine
clock = record {
  World = ℕ;
  current_time = λ w. w;
  run_task = λ t w. (if t == 1 then record { task = 9; target_time_nanos = 0 } ∷ [] else [], w);
}

abbrev first : Entry
first = record { task = 1; target_time_nanos = 5 }

abbrev second : Entry
second = record { task = 2; target_time_nanos = 30 }

abbrev busy : TaskRunner
busy = record { queue = second ∷ first ∷ []; thread_id = 7; bound = true }

run_expired_tasks-Runs_example :
    (posted : List Entry) × Runs clock
      (due_entries 10 busy.queue)
      posted
      10
      (run_expired_tasks clock true busy 10).1.1
    × ((run_expired_tasks clock true busy 10).1.0
        ≡ record busy { queue = late_entries 10 busy.queue ++ posted })
    × ((run_expired_tasks clock true busy 10).0 ≡ earliest (late_entries 10 busy.queue))
    × (run_expired_tasks clock false busy 10 ≡ (0, (busy, 10)))
run_expired_tasks-Runs_example = run_expired_tasks-Runs clock busy 10

-- Task 9, which task 1 posts, is due at once, but the result is the time of task 2.
next_time_of_posted : (run_expired_tasks clock true busy 10).0 ≡ 30
unfolding run_expired_tasks
next_time_of_posted = refl

abbrev events : List (Event clock)
events = post second ∷ post first ∷ wait 10 ∷ run ∷ run ∷ []

reachable-IsKept_example : IsKept clock (happen_all clock events (beginning clock 0))
reachable-IsKept_example = reachable-IsKept clock events 0
