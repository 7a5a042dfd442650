-- ===== src/Scenarios/Workers.antt =====
-- One worker.
use adaptive_orchestrator.Base.{ℕ, String, refl, true, none, List, [], ◌∷◌, arith}
use adaptive_orchestrator.Base.Int.{pos}
use adaptive_orchestrator.Worker.{idle, retired, Worker}
use adaptive_orchestrator.Worker.Lifecycle.{
  Call, assigns, completes, fails, retires, run_all, IsSteady, run_all-IsSteady,
}

abbrev pub worker : ℕ → String → Worker
worker worker_id domain = record {
  worker_id = worker_id;
  domain = domain;
  supported_domains = domain ∷ [];
  state = idle;
  current_task_id = none;
  task_history = [];
  metrics = record {
    tasks_completed = 0;
    tasks_failed = 0;
    consecutive_failures = 0;
    total_execution_time = 0;
  };
  last_active_at = 0;
}

worker-IsSteady : IsSteady (worker 1 "backend")
worker-IsSteady = record {
  idle_free = λ e. refl;
  busy_holds = λ e. ground arith;
  counted = omega arith;
  in_a_row = omega arith;
}

abbrev shift : List Call
shift = assigns 7 1 ∷ completes 7 (pos 4) 2 ∷ assigns 8 3 ∷ fails 8 (pos 1) true 4 ∷ retires 5 ∷ []

run_all-IsSteady_example : IsSteady (run_all (worker 1 "backend") shift)
run_all-IsSteady_example = run_all-IsSteady (worker 1 "backend") shift worker-IsSteady

abbrev gone : Worker
gone = record (worker 2 "backend") { state = retired }
