-- ===== src/Scenarios/Pool.antt =====
-- The registry of workers and the choice of one.
use adaptive_orchestrator.Base.{◌≡◌, refl, true, false, some, List, [], ◌∷◌, get, has, put}
use adaptive_orchestrator.Task.{ready}
use adaptive_orchestrator.Worker.{busy, Worker, assign_task}
use adaptive_orchestrator.WorkerRegistry.{register_worker, assign_worker, get_worker_for_task}
use adaptive_orchestrator.WorkerRegistry.Routes.{
  Call, registers, assigns, run_all, get_worker_for_task-holds,
}
use adaptive_orchestrator.Affinity.{DomainAffinityPolicy, select_worker}
use adaptive_orchestrator.Affinity.Choice.{first, IsBest, select_worker-IsBest}
use adaptive_orchestrator.Scenarios.Tasks.{sample}
use adaptive_orchestrator.Scenarios.Workers.{worker}

abbrev calls : List Call
calls = registers (worker 1 "backend") ∷ registers (worker 2 "general") ∷ assigns 1 7 3 ∷ []

abbrev at_work : Worker
at_work = record (worker 1 "backend") { state = busy; current_task_id = some 7; last_active_at = 3 }

get_worker_for_task-holds_example : at_work.current_task_id ≡ some 7
unfolding get_worker_for_task run_all get assign_worker register_worker has put assign_task
get_worker_for_task-holds_example = get_worker_for_task-holds calls 7 at_work refl

abbrev policy : DomainAffinityPolicy
policy = record {
  allow_general_fallback = true;
  allow_cross_domain_fallback = false;
  general_domain_name = "general";
}

abbrev pool : List Worker
pool = worker 4 "general" ∷ worker 2 "general" ∷ worker 3 "backend" ∷ []

select_worker-IsBest_example :
    (w : Worker) × (select_worker policy (sample 1 ready [] []) pool ≡ some w)
    × IsBest "general" pool w
select_worker-IsBest_example =
    select_worker-IsBest policy (sample 1 ready [] []) pool (worker 4 "general") first refl
