-- ===== src/Scenarios/Control.antt =====
-- Feedback, the capacity controller and the budget ledger.
use adaptive_orchestrator.Base.{◌≤◌, refl, true, none, some, [], ◌∷◌, arith, length}
use adaptive_orchestrator.Base.Int.{pos}
use adaptive_orchestrator.Feedback.{
  rate_limit_error, FeedbackSignal, new_collector, slide, count_signal, record_signal,
  recent_signals,
}
use adaptive_orchestrator.Feedback.Window.{asked, IsEnd, recent_signals-IsEnd}
use adaptive_orchestrator.Aimd.{AimdConfig, validate, AimdController, initial, force_capacity}
use adaptive_orchestrator.Aimd.Bounds.{IsWithin, process_all, capacity_bounds}
use adaptive_orchestrator.Aimd.Recovery.{completions, raised, recovers}

abbrev failure : FeedbackSignal
failure = record {
  signal_type = rate_limit_error;
  task_id = some 1;
  worker_id = none;
  latency = pos 3;
  is_capacity_error = true;
}

recent_signals-IsEnd_example :
    let c = record_signal (new_collector 2) failure in
    IsEnd (asked (pos 1) (length c.signals)) c.signals (recent_signals c (pos 1))
unfolding record_signal slide count_signal
recent_signals-IsEnd_example =
    recent_signals-IsEnd (record_signal (new_collector 2) failure) (pos 1)

abbrev config : AimdConfig
config = record {
  min_capacity = 1;
  max_capacity = 8;
  initial_capacity = 4;
  increase_step = 1;
  decrease_num = 1;
  decrease_den = 2;
  healthy_threshold = 2;
  cooldown_steps = 3;
}

capacity_bounds_example :
    IsWithin (process_all (initial config) (failure ∷ failure ∷ []))
    × IsWithin (force_capacity (process_all (initial config) (failure ∷ failure ∷ [])) 40)
unfolding validate
capacity_bounds_example = capacity_bounds config (failure ∷ failure ∷ []) 40 refl

started-IsWithin : IsWithin (initial config)
unfolding initial
started-IsWithin = record {
  at_least = omega arith;
  at_most = omega arith;
  valid = record {
    min_pos = omega arith;
    initial_ge = omega arith;
    initial_le = omega arith;
    step_pos = omega arith;
    num_pos = omega arith;
    num_lt = omega arith;
    threshold_pos = omega arith;
  };
}

abbrev cooling : AimdController
cooling = record {
  config = config;
  capacity = 2;
  consecutive_successes = 0;
  consecutive_failures = 0;
  cooldown_remaining = 3;
  total_increases = 0;
  total_decreases = 1;
}

cooling-IsWithin : IsWithin cooling
unfolding initial
cooling-IsWithin = record {
  at_least = omega arith;
  at_most = omega arith;
  valid = started-IsWithin.valid;
}

recovers_example : raised cooling ≤ (completions 2 (completions 3 cooling)).capacity
recovers_example = recovers cooling cooling-IsWithin
