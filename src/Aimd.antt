-- ===== src/Aimd.antt =====
-- orchestrator/scheduler/aimd.py: `AIMDConfig` and `AIMDController`. The decrease factor is a
-- fraction, `decrease_num / decrease_den`, and the product with it is exact, where the code has a
-- float. The fields are natural numbers: the guards of the configuration refuse what is below
-- 0.
pub mod Bounds
pub mod Recovery
use adaptive_orchestrator.Base.{
  ℕ, ◌+◌, ◌-◌, ◌*◌, ◌/◌, min, max, Bool, not, ◌&&◌, ltb, leb, if◌then◌else◌,
}
use adaptive_orchestrator.Errors.{value_error, Result, ok, ◌>>◌, raise_if}
use adaptive_orchestrator.Feedback.{
  FeedbackSignalType, task_completed, task_failed, rate_limit_error, worker_failed, FeedbackSignal,
}

pub record AimdConfig : Type 0 where
  pub min_capacity : ℕ
  pub max_capacity : ℕ
  pub initial_capacity : ℕ
  pub increase_step : ℕ
  pub decrease_num : ℕ
  pub decrease_den : ℕ
  pub healthy_threshold : ℕ
  pub cooldown_steps : ℕ

-- `__post_init__`
unfoldable pub validate : AimdConfig → Result (Unit {0})
validate c = do
  raise_if (ltb c.min_capacity 1) value_error
  raise_if (ltb c.max_capacity c.min_capacity) value_error
  raise_if (not (leb c.min_capacity c.initial_capacity && leb c.initial_capacity c.max_capacity))
      value_error
  raise_if (ltb c.increase_step 1) value_error
  raise_if (not (ltb 0 c.decrease_num && ltb c.decrease_num c.decrease_den)) value_error
  raise_if (ltb c.healthy_threshold 1) value_error
  ok tt

pub record AimdController : Type 0 where
  pub config : AimdConfig
  pub capacity : ℕ
  pub consecutive_successes : ℕ
  pub consecutive_failures : ℕ
  pub cooldown_remaining : ℕ
  pub total_increases : ℕ
  pub total_decreases : ℕ

-- `__init__`, and `reset`
unfoldable pub initial : AimdConfig → AimdController
initial c = record {
  config = c;
  capacity = c.initial_capacity;
  consecutive_successes = 0;
  consecutive_failures = 0;
  cooldown_remaining = 0;
  total_increases = 0;
  total_decreases = 0;
}

unfoldable pub reset : AimdController → AimdController
unfolding initial
reset a = initial a.config

unfoldable pub can_dispatch : AimdController → ℕ → Bool
can_dispatch a active_tasks = ltb active_tasks a.capacity

unfoldable pub in_cooldown : AimdController → Bool
in_cooldown a = ltb 0 a.cooldown_remaining

unfoldable pub apply_additive_increase : AimdController → AimdController
apply_additive_increase a =
    let raised = min a.config.max_capacity (a.capacity + a.config.increase_step) in
    if ltb a.capacity a.config.max_capacity
    then record a {
      capacity = raised;
      total_increases =
          (if ltb a.capacity raised then a.total_increases + 1 else a.total_increases);
      consecutive_successes = 0;
    }
    else record a { consecutive_successes = 0 }

unfoldable pub apply_multiplicative_decrease : AimdController → AimdController
apply_multiplicative_decrease a =
    let lowered =
      max a.config.min_capacity (a.capacity * a.config.decrease_num / a.config.decrease_den) in
    record a {
      capacity = lowered;
      total_decreases =
          (if ltb lowered a.capacity then a.total_decreases + 1 else a.total_decreases);
      consecutive_successes = 0;
      consecutive_failures = 0;
      cooldown_remaining = a.config.cooldown_steps;
    }

-- The branch for TASK_COMPLETED.
unfoldable pub on_completed : AimdController → AimdController
unfolding apply_additive_increase
on_completed a =
    let counted = record a {
      consecutive_successes = a.consecutive_successes + 1;
      consecutive_failures = 0;
    } in
    if ltb 0 counted.cooldown_remaining
    then record counted { cooldown_remaining = counted.cooldown_remaining - 1 }
    else if leb a.config.healthy_threshold counted.consecutive_successes
    then apply_additive_increase counted
    else counted

-- The branch for TASK_FAILED and WORKER_FAILED.
unfoldable pub on_failed : AimdController → AimdController
unfolding apply_multiplicative_decrease
on_failed a =
    let counted = record a {
      consecutive_failures = a.consecutive_failures + 1;
      consecutive_successes = 0;
    } in
    if leb a.config.healthy_threshold counted.consecutive_failures
    then apply_multiplicative_decrease counted
    else counted

-- The branches on the kind of the signal.
unfoldable pub on_kind : FeedbackSignalType → AimdController → AimdController
unfolding on_completed on_failed
on_kind rate_limit_error a = apply_multiplicative_decrease a
on_kind task_completed a = on_completed a
on_kind task_failed a = on_failed a
on_kind worker_failed a = on_failed a
on_kind _ a = a

unfoldable pub process_feedback : AimdController → FeedbackSignal → AimdController
unfolding on_kind
process_feedback a signal =
    if signal.is_capacity_error
    then apply_multiplicative_decrease a
    else on_kind signal.signal_type a

unfoldable pub force_capacity : AimdController → ℕ → AimdController
force_capacity a capacity = record a {
  capacity = max a.config.min_capacity (min a.config.max_capacity capacity);
}
