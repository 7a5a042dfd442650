-- ===== src/Worker/Lifecycle.antt =====
-- What any sequence of calls of the methods of one `Worker` keeps, refused calls included.
use adaptive_orchestrator.Base.{
  ℕ, ◌+◌, ◌≤◌, ◌≡◌, Bool, true, none, List, [], ◌∷◌, arith, is_some, length, length-append,
}
use adaptive_orchestrator.Base.Int.{ℤ}
use adaptive_orchestrator.Errors.{Result, ok, err}
use adaptive_orchestrator.Worker.{
  idle, busy, retired, Worker, is_idle, is_available, transition_worker, assign_task, same_task,
  count_completed, complete_task, count_failed, fail_task, retire, mark_failed,
}

-- The calls of a worker that change it.
pub data Call : Type 0 where
  assigns : ℕ → ℕ → Call
  completes : ℕ → ℤ → ℕ → Call
  fails : ℕ → ℤ → Bool → ℕ → Call
  retires : ℕ → Call
  marks_failed : ℕ → Call

-- A call that raises before it writes leaves the worker as it is.
unfoldable pub after : Worker → Result Worker → Worker
after w (ok moved) = moved
after w (err e) = w

unfoldable pub run : Worker → Call → Worker
unfolding after
run w (assigns task now) = after w (assign_task w task now)
run w (completes task duration now) = (complete_task w task duration now).0
run w (fails task duration worker_failed now) = (fail_task w task duration worker_failed now).0
run w (retires now) = after w (retire w now)
run w (marks_failed now) = after w (mark_failed w now)

unfoldable pub run_all : Worker → List Call → Worker
unfolding run
run_all w [] = w
run_all w (c ∷ cs) = run_all (run w c) cs

-- An idle worker holds no task and a busy one holds one, each entry of the history has been
-- counted, and no more failures in a row than failures.
pub record IsSteady (w : Worker) : Type 0 where
  pub idle_free : w.state ≡ idle → w.current_task_id ≡ none
  pub busy_holds : w.state ≡ busy → is_some w.current_task_id ≡ true
  pub counted : length w.task_history ≤ w.metrics.tasks_completed + w.metrics.tasks_failed
  pub in_a_row : w.metrics.consecutive_failures ≤ w.metrics.tasks_failed

module _ (w : Worker) (h : IsSteady w) where
  assign_task-IsSteady : (task now : ℕ) → IsSteady (after w (assign_task w task now))
  unfolding after assign_task is_available is_idle transition_worker
  assign_task-IsSteady task now = ground (arith, h.idle_free, h.busy_holds, h.counted, h.in_a_row)

  complete_task-IsSteady :
      (task : ℕ) (duration : ℤ) (now : ℕ) → IsSteady (complete_task w task duration now).0
  unfolding complete_task count_completed transition_worker same_task
  complete_task-IsSteady task duration now = ground (
    arith,
    h.idle_free,
    h.busy_holds,
    h.counted,
    h.in_a_row,
    length-append w.task_history (task ∷ []),
  )

  fail_task-IsSteady :
      (task : ℕ) (duration : ℤ) (worker_failed : Bool) (now : ℕ)
      → IsSteady (fail_task w task duration worker_failed now).0
  unfolding fail_task count_failed transition_worker same_task
  fail_task-IsSteady task duration worker_failed now = ground (
    arith,
    h.idle_free,
    h.busy_holds,
    h.counted,
    h.in_a_row,
    length-append w.task_history (task ∷ []),
  )

  retire-IsSteady : (now : ℕ) → IsSteady (after w (retire w now))
  unfolding after retire transition_worker
  retire-IsSteady now = ground (arith, h.idle_free, h.busy_holds, h.counted, h.in_a_row)

  mark_failed-IsSteady : (now : ℕ) → IsSteady (after w (mark_failed w now))
  unfolding after mark_failed transition_worker
  mark_failed-IsSteady now = ground (arith, h.idle_free, h.busy_holds, h.counted, h.in_a_row)

run-IsSteady : (w : Worker) (c : Call) → IsSteady w → IsSteady (run w c)
unfolding run
run-IsSteady w (assigns task now) h = assign_task-IsSteady w h task now
run-IsSteady w (completes task duration now) h = complete_task-IsSteady w h task duration now
run-IsSteady w (fails task duration worker_failed now) h =
    fail_task-IsSteady w h task duration worker_failed now
run-IsSteady w (retires now) h = retire-IsSteady w h now
run-IsSteady w (marks_failed now) h = mark_failed-IsSteady w h now

-- Any sequence of calls of a worker's methods, those that raise included, keeps it so that an idle
-- worker holds no task, a busy one holds a task, the history is no longer than the two counters
-- together, and the failures in a row are no more than the failures.
pub run_all-IsSteady : (w : Worker) (cs : List Call) → IsSteady w → IsSteady (run_all w cs)
unfolding run_all
run_all-IsSteady w [] h = h
run_all-IsSteady w (c ∷ cs) h = run_all-IsSteady (run w c) cs (run-IsSteady w c h)

run-retired : (w : Worker) (c : Call) → w.state ≡ retired → (run w c).state ≡ retired
unfolding run after assign_task complete_task count_completed count_failed fail_task retire
    mark_failed transition_worker is_available is_idle
run-retired w (assigns task now) e = ground arith
run-retired w (completes task duration now) e = ground arith
run-retired w (fails task duration worker_failed now) e = ground arith
run-retired w (retires now) e = ground arith
run-retired w (marks_failed now) e = ground arith

-- A retired worker stays retired, whatever is called.
pub run_all-retired :
    (w : Worker) (cs : List Call) → w.state ≡ retired → (run_all w cs).state ≡ retired
unfolding run_all
run_all-retired w [] e = e
run_all-retired w (c ∷ cs) e = run_all-retired (run w c) cs (run-retired w c e)
