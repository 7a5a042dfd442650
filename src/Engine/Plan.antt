-- ===== src/Engine/Plan.antt =====
-- The edits of the plan in `MissionEngine`: `add_task`, `add_dependency`, `remove_dependency` and
-- `invalidate_task`. `add_task` is the branch that builds the task from its fields.
use adaptive_orchestrator.Base.{
  ℕ, String, Bool, not, ◌&&◌, none, some, List, [], ◌∷◌, if◌then◌else◌,
}
use adaptive_orchestrator.Engine.State.{
  Action, ◌>>=◌, ◌>>◌, pure, ask, when, for_all, emit, fetch, update, move_task, enqueue, dequeue,
}
use adaptive_orchestrator.Engine.Tasks.{unless_queued}
use adaptive_orchestrator.Errors.{Result, ok}
use adaptive_orchestrator.Task.{pending, blocked, ready, Task, same_state, is_success, in_states}
use adaptive_orchestrator.Checkpoint.{
  task_created, task_ready, dependency_invalidated, graph_mutated,
}
use adaptive_orchestrator.Graph.{Graph, get_task}
use adaptive_orchestrator.Graph.{add_task, add_dependency, remove_dependency}
use adaptive_orchestrator.Mutations.{invalidate_task}
use adaptive_orchestrator.Resolver.{is_task_ready, resolve_all_ready}
use adaptive_orchestrator.Base.Int.{ℤ}

-- A call of a method of the graph.
abbrev pub on_graph {ℓ} : {A : Type ℓ} → (Graph → Graph × Result A) → Action A
on_graph f s = let out = f s.graph in (record s { graph = out.0 }, out.1)

-- The fields that `add_task` is given.
pub record TaskFields : Type 0 where
  pub identifier : ℕ
  pub task_domain : String
  pub task_priority : ℤ
  pub prerequisites : List ℕ
  pub task_reads : List String
  pub task_writes : List String
  pub task_mode : String

unfoldable pub build_task : TaskFields → Task
build_task f = record {
  task_id = f.identifier;
  status = pending;
  domain = f.task_domain;
  dependencies = f.prerequisites;
  dependents = [];
  priority = f.task_priority;
  read_set = f.task_reads;
  write_set = f.task_writes;
  workspace_mode = f.task_mode;
  assigned_worker_id = none;
  workspace_path = none;
  branch_name = none;
  result = none;
  error = none;
  started_at = none;
  completed_at = none;
  retry_count = 0;
  max_retries = 2;
}

-- `is_task_ready`
abbrev pub ready_now : ℕ → Action Bool
ready_now k = ask (λ s. is_task_ready s.graph k)

unfoldable pub make_ready : ℕ → ℕ → Action (Unit {0})
unfolding move_task enqueue emit
make_ready k now = do move_task k ready now; enqueue k; emit task_ready (some k)

unfoldable pub create_task : TaskFields → ℕ → Action (Unit {0})
unfolding add_task emit make_ready is_task_ready build_task
create_task f now = do
  on_graph (λ g. add_task g (build_task f))
  emit task_created (some f.identifier)
  is_ready ← ready_now f.identifier
  when is_ready (make_ready f.identifier now)

-- `dependent.status = TaskState.PENDING`, under the test that it is READY.
unfoldable pub set_pending : Task → Result Task
unfolding same_state
set_pending t = ok (if same_state t.status ready then record t { status = pending } else t)

unfoldable pub revert_to_pending : ℕ → Action (Unit {0})
unfolding dequeue update set_pending emit
revert_to_pending k = do dequeue k; update k set_pending; emit dependency_invalidated (some k)

unfoldable pub depend_on : ℕ → ℕ → Action (Unit {0})
unfolding add_dependency emit revert_to_pending get_task is_success same_state
depend_on dependent prerequisite = do
  fetch dependent
  fetch prerequisite
  on_graph (λ g. add_dependency g dependent prerequisite)
  emit graph_mutated (some dependent)
  d ← fetch dependent
  p ← fetch prerequisite
  when (not (is_success p.status) && same_state d.status ready) (revert_to_pending dependent)

unfoldable pub make_ready_if_waiting : ℕ → ℕ → Action (Unit {0})
unfolding make_ready get_task in_states
make_ready_if_waiting k now = do
  t ← fetch k
  when (in_states t.status (pending ∷ blocked ∷ [])) (make_ready k now)

unfoldable pub drop_dependency : ℕ → ℕ → ℕ → Action Bool
unfolding remove_dependency emit make_ready_if_waiting is_task_ready
drop_dependency dependent prerequisite now = do
  removed ← on_graph (λ g. remove_dependency g dependent prerequisite)
  when removed (do
    emit graph_mutated (some dependent)
    is_ready ← ready_now dependent
    when is_ready (make_ready_if_waiting dependent now))
  pure removed

-- The bodies of the two loops of `invalidate_task`.
unfoldable pub withdraw : ℕ → Action (Unit {0})
unfolding dequeue emit
withdraw k = do dequeue k; emit graph_mutated (some k)

unfoldable pub enqueue_again : ℕ → Action (Unit {0})
unfolding unless_queued enqueue emit
enqueue_again k = unless_queued k (do enqueue k; emit task_ready (some k))

unfoldable pub invalidate : ℕ → ℕ → Action (List ℕ)
unfolding invalidate_task resolve_all_ready for_all withdraw enqueue_again
invalidate k now = do
  affected ← on_graph (λ g. invalidate_task g k)
  for_all withdraw affected
  ready_tasks ← on_graph (λ g. resolve_all_ready g now)
  for_all enqueue_again ready_tasks
  pure affected
