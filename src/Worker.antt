-- ===== src/Worker.antt =====
-- orchestrator/workers/models.py: `WorkerState`, its transition table, `WorkerMetrics` and `Worker`.
-- DEGRADED and OFFLINE are aliases of FAILED in the source. The native session fields, the model
-- tier and the workspace fields, which only the serialisation uses, are left out. A duration is an
-- integer number of ticks.
pub mod Lifecycle
use adaptive_orchestrator.Base.{
  ℕ, ◌+◌, str_eq, String, Bool, true, false, not, ◌&&◌, ◌||◌, Option, none, some, List, [], ◌∷◌,
  ◌++◌, ◌==◌, if◌then◌else◌, is_some,
}
use adaptive_orchestrator.Base.Int.{ℤ, pos_part}
use adaptive_orchestrator.Errors.{invalid_worker_state, Result, ok, err, ◌>>=◌}

pub data WorkerState : Type 0 where
  idle busy failed retired : WorkerState

pub record WorkerMetrics : Type 0 where
  pub tasks_completed : ℕ
  pub tasks_failed : ℕ
  pub consecutive_failures : ℕ
  pub total_execution_time : ℕ

pub record Worker : Type 0 where
  pub worker_id : ℕ
  pub domain : String
  pub supported_domains : List String
  pub state : WorkerState
  pub current_task_id : Option ℕ
  pub task_history : List ℕ
  pub metrics : WorkerMetrics
  pub last_active_at : ℕ

-- `==` on states.
unfoldable pub same_worker_state : WorkerState → WorkerState → Bool
same_worker_state idle idle = true
same_worker_state busy busy = true
same_worker_state failed failed = true
same_worker_state retired retired = true
same_worker_state _ _ = false

-- VALID_WORKER_TRANSITIONS
unfoldable pub valid_worker_transitions : WorkerState → List WorkerState
valid_worker_transitions idle = busy ∷ failed ∷ retired ∷ []
valid_worker_transitions busy = idle ∷ failed ∷ retired ∷ []
valid_worker_transitions failed = idle ∷ retired ∷ []
valid_worker_transitions retired = []

unfoldable pub in_worker_states : WorkerState → List WorkerState → Bool
unfolding same_worker_state
in_worker_states s [] = false
in_worker_states s (x ∷ xs) = same_worker_state s x || in_worker_states s xs

unfoldable pub is_idle : Worker → Bool
unfolding same_worker_state
is_idle w = same_worker_state w.state idle

unfoldable pub is_busy : Worker → Bool
unfolding same_worker_state
is_busy w = same_worker_state w.state busy

unfoldable pub is_available : Worker → Bool
unfolding is_idle
is_available w = is_idle w && not (is_some w.current_task_id)

-- `domain in domains`
unfoldable pub in_domains : String → List String → Bool
in_domains d [] = false
in_domains d (x ∷ xs) = str_eq d x || in_domains d xs

unfoldable pub supports_domain : Worker → String → Bool
unfolding in_domains
supports_domain w domain =
    if str_eq domain "general" || in_domains "general" w.supported_domains
    then true
    else in_domains domain w.supported_domains || str_eq w.domain domain

unfoldable pub transition_worker : Worker → WorkerState → ℕ → Result Worker
unfolding same_worker_state in_worker_states valid_worker_transitions
transition_worker w target now =
    if same_worker_state target w.state
    then ok w
    else if not (in_worker_states target (valid_worker_transitions w.state))
    then err invalid_worker_state
    else ok (record w { state = target; last_active_at = now })

-- `assign_task`, and its alias `wake`
unfoldable pub assign_task : Worker → ℕ → ℕ → Result Worker
unfolding is_available transition_worker
assign_task w task now = if not (is_available w) then err invalid_worker_state else do
  moved ← transition_worker w busy now
  ok (record moved { current_task_id = some task; last_active_at = now })

-- `a == b` on optional identifiers.
unfoldable pub same_task : Option ℕ → ℕ → Bool
same_task none k = false
same_task (some j) k = j == k

-- The writes of `complete_task` before the change of state.
unfoldable pub count_completed : Worker → ℕ → ℤ → Worker
count_completed w task duration = record w {
  task_history = w.task_history ++ task ∷ [];
  current_task_id = none;
  metrics = record {
    tasks_completed = w.metrics.tasks_completed + 1;
    tasks_failed = w.metrics.tasks_failed;
    consecutive_failures = 0;
    total_execution_time = w.metrics.total_execution_time + pos_part duration;
  };
}

-- The worker as the call leaves it, also where the change of state raises: the counters are written
-- before it.
unfoldable pub complete_task : Worker → ℕ → ℤ → ℕ → Worker × Result (Unit {0})
unfolding same_task count_completed transition_worker
complete_task w task duration now =
    if not (same_task w.current_task_id task)
    then (w, err invalid_worker_state)
    else elim (transition_worker (count_completed w task duration) idle now) [
      | err e ↦ (count_completed w task duration, err e)
      | ok moved ↦ (record moved { last_active_at = now }, ok tt)
    ]

-- The writes of `fail_task` before the change of state.
unfoldable pub count_failed : Worker → ℕ → ℤ → Worker
count_failed w task duration = record w {
  task_history =
      (if is_some w.current_task_id then w.task_history ++ task ∷ [] else w.task_history);
  current_task_id = none;
  metrics = record {
    tasks_completed = w.metrics.tasks_completed;
    tasks_failed = w.metrics.tasks_failed + 1;
    consecutive_failures = w.metrics.consecutive_failures + 1;
    total_execution_time = w.metrics.total_execution_time + pos_part duration;
  };
}

unfoldable pub fail_task : Worker → ℕ → ℤ → Bool → ℕ → Worker × Result (Unit {0})
unfolding same_task count_failed transition_worker
fail_task w task duration worker_failed now =
    if not (same_task w.current_task_id task) && is_some w.current_task_id
    then (w, err invalid_worker_state)
    else elim (transition_worker (count_failed w task duration)
        (if worker_failed then failed else idle) now) [
          | err e ↦ (count_failed w task duration, err e)
          | ok moved ↦ (record moved { last_active_at = now }, ok tt)
        ]

unfoldable pub retire : Worker → ℕ → Result Worker
unfolding transition_worker
retire w now = transition_worker w retired now

unfoldable pub mark_failed : Worker → ℕ → Result Worker
unfolding transition_worker
mark_failed w now = transition_worker w failed now
