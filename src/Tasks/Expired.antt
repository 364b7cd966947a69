-- ===== src/Tasks/Expired.antt =====
-- What RunExpiredTasks runs, keeps and returns.
use flutter_libnx.Prelude.{
  ℕ, ◌≤◌, ◌<◌, ◌≡◌, refl, Bool, true, false, List, [], ◌∷◌, ◌++◌, arith, ltb, leb, ◌==◌, ◌||◌,
  if◌then◌else◌, Bool-cases, inl, inr, ◌∙◌, append-nil, append_assoc, ap, min, All,
}
use flutter_libnx.Tasks.Runner.{
  Entry, TaskRunner, Engine, Split, no_entry, split_entry, split_queue, run_due, run_expired_tasks,
}

-- The entries whose time has come, and the others, both in the order of the queue.
unfoldable pub due_entries : ℕ → List Entry → List Entry
due_entries now [] = []
due_entries now (e ∷ es) =
    if leb e.target_time_nanos now then e ∷ due_entries now es else due_entries now es

unfoldable pub late_entries : ℕ → List Entry → List Entry
late_entries now [] = []
late_entries now (e ∷ es) =
    if leb e.target_time_nanos now then late_entries now es else e ∷ late_entries now es

-- The earliest of a time and the times of the entries.
unfoldable pub least : ℕ → List Entry → ℕ
least t [] = t
least t (e ∷ es) = min e.target_time_nanos (least t es)

-- The earliest time of the entries, and 0 for none.
unfoldable pub earliest : List Entry → ℕ
unfolding least
earliest [] = 0
earliest (e ∷ es) = least e.target_time_nanos es

-- `next_time` as it goes through the late entries.
keep_earliest : ℕ → List Entry → ℕ
keep_earliest t [] = t
keep_earliest t (e ∷ es) =
    keep_earliest (if t == 0 || ltb e.target_time_nanos t then e.target_time_nanos else t) es

split_queue_lem :
    (now : ℕ) (es : List Entry) (s : Split)
    → split_queue now es s ≡ record {
      due = s.due ++ due_entries now es;
      remaining = s.remaining ++ late_entries now es;
      next_time = keep_earliest s.next_time (late_entries now es);
    }
unfolding split_queue split_entry due_entries late_entries keep_earliest
split_queue_lem now [] s = rw (append-nil s.due, append-nil s.remaining)
split_queue_lem now (e ∷ es) s = elim (Bool-cases (leb e.target_time_nanos now)) [
  | inl due ↦ rw (due, split_queue_lem now es, append_assoc)
  | inr late ↦ rw (late, split_queue_lem now es, append_assoc)
]

abbrev IsLate : ℕ → Entry → Type 0
IsLate now e = now < e.target_time_nanos

late_entries-IsLate : (now : ℕ) (es : List Entry) → All (IsLate now) (late_entries now es)
unfolding late_entries
late_entries-IsLate now [] = tt
late_entries-IsLate now (e ∷ es) = elim (Bool-cases (leb e.target_time_nanos now)) [
  | inl due ↦ rw due (late_entries-IsLate now es)
  | inr late ↦ rw late (ground arith, late_entries-IsLate now es)
]

least-min : (a b : ℕ) (es : List Entry) → least (min a b) es ≡ min b (least a es)
unfolding least
least-min a b [] = omega arith
least-min a b (e ∷ es) = omega (arith, least-min a b es)

keep_earliest-least :
    (now t : ℕ) (es : List Entry) → 0 < t → All (IsLate now) es → keep_earliest t es ≡ least t es
unfolding keep_earliest least
keep_earliest-least now t [] pos h = refl
keep_earliest-least now t (e ∷ es) pos h =
    let next : (if t == 0 || ltb e.target_time_nanos t then e.target_time_nanos else t)
        ≡ min t e.target_time_nanos =
      ground arith in
    rw next (
      keep_earliest-least now (min t e.target_time_nanos) es (omega (arith, h.0)) h.1
      ∙ least-min t e.target_time_nanos es)

keep_earliest-earliest :
    (now : ℕ) (es : List Entry) → All (IsLate now) es → keep_earliest 0 es ≡ earliest es
unfolding keep_earliest earliest
keep_earliest-earliest now [] h = refl
keep_earliest-earliest now (e ∷ es) h =
    keep_earliest-least now e.target_time_nanos es (omega (arith, h.0)) h.1

module _ (E : Engine) where
  -- RunExpiredTasks is the loop over the entries that are due, from a queue that holds the others, with
  -- the earliest time of those others, or 0 if there is none, as its result. Without an engine it does
  -- nothing and returns 0.
  pub run_expired_tasks_lem :
      (has_engine : Bool) (r : TaskRunner) (w : E.World)
      → let now = E.current_time w in
        run_expired_tasks E has_engine r w ≡ (
          if has_engine
          then (
            earliest (late_entries now r.queue),
            run_due E (due_entries now r.queue) (record r { queue = late_entries now r.queue }) w,
          )
          else (0, (r, w)))
  unfolding run_expired_tasks
  run_expired_tasks_lem false r w = refl
  run_expired_tasks_lem true r w =
      let now = E.current_time w in
      rw (
        split_queue_lem now r.queue no_entry,
        keep_earliest-earliest now (late_entries now r.queue) (late_entries-IsLate now r.queue),
      )

least-late : (now t : ℕ) (es : List Entry) → now < t → All (IsLate now) es → now < least t es
unfolding least
least-late now t [] h late = h
least-late now t (e ∷ es) h late = omega (arith, late.0, least-late now t es h late.1)

least-le : (t : ℕ) (es : List Entry) → least t es ≤ t
unfolding least
least-le t [] = omega arith
least-le t (e ∷ es) = omega (arith, least-le t es)

-- Anything that is not later than the least is not later than any.
least-bounds :
    (n t : ℕ) (es : List Entry) → n ≤ least t es → All (λ (e : Entry). n ≤ e.target_time_nanos) es
unfolding least
least-bounds n t [] h = tt
least-bounds n t (e ∷ es) h = (omega arith, least-bounds n t es (omega arith))

-- What a caller may conclude from the returned time about the entries that stay.
abbrev pub IsNextTime : ℕ → ℕ → List Entry → Type 0
IsNextTime now n [] = n ≡ 0
IsNextTime now n es = (now < n) × All (λ (e : Entry). n ≤ e.target_time_nanos) es

earliest-IsNextTime :
    (now : ℕ) (es : List Entry) → All (IsLate now) es → IsNextTime now (earliest es) es
unfolding earliest
earliest-IsNextTime now [] late = refl
earliest-IsNextTime now (e ∷ es) late = (
  least-late now e.target_time_nanos es late.0 late.1,
  (
    least-le e.target_time_nanos es,
    least-bounds (least e.target_time_nanos es) e.target_time_nanos es (omega arith),
  ),
)

module _ (E : Engine) (r : TaskRunner) (w : E.World) where
  -- The time that RunExpiredTasks returns is 0 if no entry of the queue is left, and otherwise is
  -- later than now and no later than any entry that is left.
  pub run_expired_tasks-IsNextTime :
      let now = E.current_time w in
      IsNextTime now (run_expired_tasks E true r w).0 (late_entries now r.queue)
  run_expired_tasks-IsNextTime =
      let now = E.current_time w in
      rw (ap (λ (x : ℕ × (TaskRunner × E.World)). x.0) (run_expired_tasks_lem E true r w))
        (earliest-IsNextTime now (late_entries now r.queue) (late_entries-IsLate now r.queue))
