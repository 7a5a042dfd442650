-- ===== src/Scenarios/Tasks.antt =====
-- The life of a task.
use adaptive_orchestrator.Base.{ℕ, ◌≡◌, refl, true, none, List, [], ◌∷◌, arith}
use adaptive_orchestrator.Base.Int.{pos}
use adaptive_orchestrator.Task.{
  TaskState, ready, assigned, running, passed, merged, Task, is_terminal, is_success, stamp,
  transition_to,
}
use adaptive_orchestrator.Task.Lifecycle.{IsTimed, Outcome, transition_to-Outcome}
use adaptive_orchestrator.Task.Runs.{request_all, asks, request_all-passed}

abbrev pub sample : ℕ → TaskState → List ℕ → List ℕ → Task
sample task_id status dependencies dependents = record {
  task_id = task_id;
  status = status;
  domain = "general";
  dependencies = dependencies;
  dependents = dependents;
  priority = pos task_id;
  read_set = [];
  write_set = [];
  workspace_mode = "branch";
  assigned_worker_id = none;
  workspace_path = none;
  branch_name = none;
  result = none;
  error = none;
  started_at = none;
  completed_at = none;
  retry_count = 0;
  max_retries = 3;
}

abbrev alone : TaskState → Task
alone status = sample 1 status [] []

abbrev finishing : List (TaskState × ℕ)
finishing = (running, 4) ∷ (passed, 5) ∷ (merged, 6) ∷ []

request_all-passed_example : asks passed finishing ≡ true
unfolding request_all transition_to stamp is_success
request_all-passed_example = request_all-passed (alone assigned) finishing refl refl

fresh-IsTimed : IsTimed (alone assigned)
unfolding is_terminal
fresh-IsTimed = record {
  finished = λ e. ground arith;
  running_started = λ e. ground arith;
  verifying_started = λ e. ground arith;
}

transition_to-Outcome_example :
    Outcome (alone ready) merged 3 (transition_to (alone ready) merged 3)
transition_to-Outcome_example = transition_to-Outcome (alone ready) merged 3
