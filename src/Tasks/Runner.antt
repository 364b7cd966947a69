-- ===== src/Tasks/Runner.antt =====
-- The operations of TaskRunner. A task is the number of its FlutterTask.
use flutter_libnx.Prelude.{
  ℕ, Bool, true, false, List, [], ◌∷◌, ◌++◌, ◌&&◌, ◌||◌, ◌==◌, ltb, leb, if◌then◌else◌,
}

pub record Entry : Type 0 where
  pub task : ℕ
  pub target_time_nanos : ℕ

pub record TaskRunner : Type 0 where
  pub queue : List Entry
  pub thread_id : ℕ
  pub bound : Bool

-- A runner as the constructor leaves it.
abbrev pub new_runner : TaskRunner
new_runner = record { queue = []; thread_id = 0; bound = false }

-- The engine, which is not part of the repository.
pub record Engine : Type 1 where
  pub World : Type 0
  -- FlutterEngineGetCurrentTime
  pub current_time : World → ℕ
  -- FlutterEngineRunTask, and what the task and other threads post until it returns. The caller only
  -- logs its result.
  pub run_task : ℕ → World → List Entry × World

unfoldable pub bind_to_current_thread : ℕ → TaskRunner → TaskRunner
bind_to_current_thread current r = record r { thread_id = current; bound = true }

unfoldable pub runs_on_current_thread : ℕ → TaskRunner → Bool
runs_on_current_thread current r = r.bound && current == r.thread_id

unfoldable pub enqueue : Entry → TaskRunner → TaskRunner
enqueue e r = record r { queue = r.queue ++ (e ∷ []) }

-- The variables of the loop over the queue.
pub record Split : Type 0 where
  pub due : List Entry
  pub remaining : List Entry
  pub next_time : ℕ

unfoldable pub split_entry : ℕ → Entry → Split → Split
split_entry now e s =
    if leb e.target_time_nanos now then record s { due = s.due ++ (e ∷ []) } else record s {
      remaining = s.remaining ++ (e ∷ []);
      next_time =
          if s.next_time == 0 || ltb e.target_time_nanos s.next_time
          then e.target_time_nanos
          else s.next_time;
    }

unfoldable pub split_queue : ℕ → List Entry → Split → Split
unfolding split_entry
split_queue now [] s = s
split_queue now (e ∷ es) s = split_queue now es (split_entry now e s)

abbrev pub no_entry : Split
no_entry = record { due = []; remaining = []; next_time = 0 }

module _ (E : Engine) where
  -- The loop that runs what was due.
  unfoldable pub run_due : List Entry → TaskRunner → E.World → TaskRunner × E.World
  run_due [] r w = (r, w)
  run_due (e ∷ es) r w =
      let (posted, w') = E.run_task e.task w in
      run_due es (record r { queue = r.queue ++ posted }) w'

  -- RunExpiredTasks; `has_engine` is whether the engine's pointer is not null.
  unfoldable pub run_expired_tasks : Bool → TaskRunner → E.World → ℕ × (TaskRunner × E.World)
  unfolding split_queue run_due
  run_expired_tasks has_engine r w =
      let s = split_queue (E.current_time w) r.queue no_entry in
      if has_engine
      then (s.next_time, run_due s.due (record r { queue = s.remaining }) w)
      else (0, (r, w))
