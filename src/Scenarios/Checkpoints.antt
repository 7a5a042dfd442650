-- ===== src/Scenarios/Checkpoints.antt =====
-- A policy with an interval of ten ticks.
use adaptive_orchestrator.Base.{ℕ, true, none, List, [], ◌∷◌, arith}
use adaptive_orchestrator.Checkpoint.{
  CheckpointTrigger, task_completed, task_failed, merge_result, explicit, CheckpointPolicy,
  new_policy,
}
use adaptive_orchestrator.Checkpoint.Throttle.{granted, IsSpaced, granted-IsSpaced}

abbrev policy : CheckpointPolicy
policy = new_policy true none none 10 none

abbrev requests : List (CheckpointTrigger × ℕ)
requests =
    (task_completed, 12)
    ∷ (task_failed, 15)
    ∷ (explicit, 16)
    ∷ (merge_result, 20)
    ∷ (task_failed, 30)
    ∷ []

granted-IsSpaced_example :
    IsSpaced policy.min_interval policy.last_checkpoint_time (granted policy requests)
unfolding new_policy
granted-IsSpaced_example = granted-IsSpaced policy requests (omega arith)
