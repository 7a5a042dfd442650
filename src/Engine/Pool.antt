-- ===== src/Engine/Pool.antt =====
-- The workers of `MissionEngine`: `register_worker`, `assign_next` and `handle_worker_failure`.
use adaptive_orchestrator.Base.{
  ℕ, str_eq, Bool, true, false, ◌&&◌, ◌||◌, Option, none, some, List, [], ◌∷◌, ltb, if◌then◌else◌,
  get, keys,
}
use adaptive_orchestrator.Engine.State.{
  Action, ◌>>=◌, ◌>>◌, pure, ask, done, when, for_all, emit, fetch, update, move_task, push_task,
  enqueue, pop_next_ready_task, free_workspace,
}
use adaptive_orchestrator.Engine.Tasks.{
  mark_task_assigned, mark_task_started, unassign, unless_queued,
}
use adaptive_orchestrator.Errors.{Result, ok, err}
use adaptive_orchestrator.Task.{ready, failed, retrying, Task, is_active}
use adaptive_orchestrator.Checkpoint.{worker_registered, worker_failed_event}
use adaptive_orchestrator.Graph.{get_task}
use adaptive_orchestrator.Worker.{Worker, in_domains, same_task, mark_failed}
use adaptive_orchestrator.WorkerRegistry.{
  WorkerRegistry, register_worker, store, assign_worker, get_idle_workers,
}
use adaptive_orchestrator.Workspace.{released}

-- A call of a method of the worker registry.
abbrev pub on_workers {ℓ} : {A : Type ℓ} → (WorkerRegistry → WorkerRegistry × Result A) → Action A
on_workers f s = let out = f s.workers in (record s { workers = out.0 }, out.1)

unfoldable pub join : Worker → Action (Unit {0})
unfolding register_worker emit
join w = do on_workers (λ r. register_worker r w); emit worker_registered none

unfoldable pub matches : Task → Worker → Bool
unfolding in_domains
matches t w =
    in_domains t.domain w.supported_domains
    || in_domains "general" w.supported_domains
    || str_eq w.domain t.domain

-- The first worker that matches.
unfoldable pub first_match : Task → List Worker → Option Worker
unfolding matches
first_match t [] = none
first_match t (w ∷ ws) = let rest = first_match t ws in if matches t w then some w else rest

unfoldable pub dispatch : ℕ → ℕ → ℕ → Action (Option (ℕ × ℕ))
unfolding mark_task_assigned mark_task_started assign_worker
dispatch k worker now = do
  mark_task_assigned k (some worker) now
  mark_task_started k now
  on_workers (λ r. assign_worker r worker k now)
  pure (some (k, worker))

unfoldable pub place : ℕ → ℕ → Action (Option (ℕ × ℕ))
unfolding push_task dispatch first_match get_idle_workers get_task
place k now = do
  t ← fetch k
  found ← ask (λ s. ok (first_match t (get_idle_workers s.workers none)))
  elim found [ none ↦ do push_task k 0; pure none | some w ↦ dispatch k w.worker_id now ]

-- `assign_next`: the task and the worker that it goes to.
unfoldable pub assign_next : ℕ → Action (Option (ℕ × ℕ))
unfolding pop_next_ready_task place
assign_next now = do
  popped ← pop_next_ready_task
  elim popped [ none ↦ pure none | some k ↦ place k now ]

-- `task.assigned_worker_id == worker_id and task.status.is_active`
unfoldable pub is_held_by : ℕ → Task → Bool
unfolding same_task is_active
is_held_by worker t = same_task t.assigned_worker_id worker && is_active t.status

unfoldable pub retry_lost : ℕ → ℕ → Action (Unit {0})
unfolding move_task unless_queued enqueue
retry_lost k now = do move_task k retrying now; move_task k ready now; unless_queued k (enqueue k)

-- The body of the loop of `handle_worker_failure`.
unfoldable pub recover_task : ℕ → ℕ → ℕ → Action (Unit {0})
unfolding update move_task retry_lost free_workspace unassign is_held_by get_task
recover_task worker now k = do
  t ← fetch k
  when (is_held_by worker t) (do
    update k unassign
    (if ltb t.retry_count t.max_retries then retry_lost k now else (move_task k failed now >> done))
    free_workspace k released now)

-- `worker.mark_failed`, in the registry.
unfoldable pub fail_worker : ℕ → ℕ → WorkerRegistry → WorkerRegistry × Result Bool
unfolding mark_failed store
fail_worker worker now r = elim (get r.workers worker) [
  | none ↦ (r, ok false)
  | some w ↦ elim (mark_failed w now) [
    | err e ↦ (r, err e)
    | ok moved ↦ (store r worker moved, ok true)
  ]
]

unfoldable pub handle_worker_failure : ℕ → ℕ → Action (Unit {0})
unfolding fail_worker for_all recover_task emit keys
handle_worker_failure worker now = do
  known ← on_workers (fail_worker worker now)
  when known (do
    tasks ← ask (λ s. ok (keys s.graph))
    for_all (recover_task worker now) tasks
    emit worker_failed_event none)
