-- ===== src/Feedback.antt =====
-- orchestrator/scheduler/feedback.py: the signals and `FeedbackCollector`. A latency is an integer
-- number of ticks; `average_latency` and the metadata of a signal are left out.
pub mod Window
use adaptive_orchestrator.Base.{
  ℕ, zero, suc, ◌+◌, ◌-◌, Bool, false, Option, some, List, [], ◌∷◌, ◌++◌, ltb, ◌==◌, if◌then◌else◌,
  length,
}
use adaptive_orchestrator.Base.Int.{ℤ, pos, negsuc, pos_part}

pub data FeedbackSignalType : Type 0 where
  task_started task_completed task_failed rate_limit_error latency_spike worker_failed
        queue_starvation backlog_saturation :
      FeedbackSignalType

pub record FeedbackSignal : Type 0 where
  pub signal_type : FeedbackSignalType
  pub task_id : Option ℕ
  pub worker_id : Option ℕ
  pub latency : ℤ
  pub is_capacity_error : Bool

pub record FeedbackCollector : Type 0 where
  pub window_size : ℕ
  pub signals : List FeedbackSignal
  pub consecutive_successes : ℕ
  pub consecutive_failures : ℕ
  pub total_completed : ℕ
  pub total_failed : ℕ
  pub total_rate_limits : ℕ
  pub total_latency : ℕ

abbrev pub new_collector : ℕ → FeedbackCollector
new_collector window_size = record {
  window_size = window_size;
  signals = [];
  consecutive_successes = 0;
  consecutive_failures = 0;
  total_completed = 0;
  total_failed = 0;
  total_rate_limits = 0;
  total_latency = 0;
}

-- `xs.pop(0)`
unfoldable pub drop_first : List FeedbackSignal → List FeedbackSignal
drop_first [] = []
drop_first (x ∷ xs) = xs

-- The sliding window: an append, and the oldest goes if the window is too long.
unfoldable pub slide : ℕ → List FeedbackSignal → FeedbackSignal → List FeedbackSignal
unfolding drop_first
slide window_size signals signal =
    let longer = signals ++ signal ∷ [] in
    if ltb window_size (length longer) then drop_first longer else longer

-- The counters, by the kind of the signal.
unfoldable pub count_signal :
    FeedbackCollector → FeedbackSignal → FeedbackSignalType → FeedbackCollector
count_signal c signal task_completed = record c {
  consecutive_successes = c.consecutive_successes + 1;
  consecutive_failures = 0;
  total_completed = c.total_completed + 1;
  total_latency = c.total_latency + pos_part signal.latency;
}
count_signal c signal task_failed = record c {
  consecutive_failures = c.consecutive_failures + 1;
  consecutive_successes = 0;
  total_failed = c.total_failed + 1;
  total_rate_limits = c.total_rate_limits + (if signal.is_capacity_error then 1 else 0);
}
count_signal c signal worker_failed = record c {
  consecutive_failures = c.consecutive_failures + 1;
  consecutive_successes = 0;
  total_failed = c.total_failed + 1;
  total_rate_limits = c.total_rate_limits + (if signal.is_capacity_error then 1 else 0);
}
count_signal c signal rate_limit_error = record c {
  consecutive_failures = c.consecutive_failures + 1;
  consecutive_successes = 0;
  total_rate_limits = c.total_rate_limits + 1;
}
count_signal c signal _ = c

unfoldable pub record_signal : FeedbackCollector → FeedbackSignal → FeedbackCollector
unfolding slide count_signal
record_signal c signal =
    count_signal (record c { signals = slide c.window_size c.signals signal }) signal
      signal.signal_type

unfoldable pub started_signal : ℕ → ℕ → FeedbackSignal
started_signal task worker = record {
  signal_type = task_started;
  task_id = some task;
  worker_id = some worker;
  latency = pos 0;
  is_capacity_error = false;
}

unfoldable pub completed_signal : ℕ → ℕ → ℤ → FeedbackSignal
completed_signal task worker latency = record {
  signal_type = task_completed;
  task_id = some task;
  worker_id = some worker;
  latency = latency;
  is_capacity_error = false;
}

unfoldable pub failed_signal : ℕ → Option ℕ → Bool → ℤ → Bool → FeedbackSignal
failed_signal task worker is_capacity_error latency by_worker = record {
  signal_type =
      if is_capacity_error
      then rate_limit_error
      else if by_worker
      then worker_failed
      else task_failed;
  task_id = some task;
  worker_id = worker;
  latency = latency;
  is_capacity_error = is_capacity_error;
}

unfoldable pub record_task_started : FeedbackCollector → ℕ → ℕ → FeedbackCollector
unfolding record_signal started_signal
record_task_started c task worker = record_signal c (started_signal task worker)

unfoldable pub record_task_completed : FeedbackCollector → ℕ → ℕ → ℤ → FeedbackCollector
unfolding record_signal completed_signal
record_task_completed c task worker latency = record_signal c (completed_signal task worker latency)

unfoldable pub record_task_failed :
    FeedbackCollector → ℕ → Option ℕ → Bool → ℤ → Bool → FeedbackCollector
unfolding record_signal failed_signal
record_task_failed c task worker is_capacity_error latency by_worker =
    record_signal c (failed_signal task worker is_capacity_error latency by_worker)

unfoldable pub drop : ℕ → List FeedbackSignal → List FeedbackSignal
drop zero xs = xs
drop (suc n) [] = []
drop (suc n) (x ∷ xs) = drop n xs

-- `self._signals[-limit:]`. At 0 the slice starts at 0 and is the whole list; a limit below 0 makes it
-- start at the opposite number.
unfoldable pub recent_signals : FeedbackCollector → ℤ → List FeedbackSignal
unfolding drop
recent_signals c (pos limit) =
    if limit == 0 then c.signals else drop (length c.signals - limit) c.signals
recent_signals c (negsuc n) = drop (suc n) c.signals
