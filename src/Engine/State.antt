-- ===== src/Engine/State.antt =====
-- The state of `MissionEngine`, and the changes of it that its methods are made of.
use adaptive_orchestrator.Base.{
  ℕ, ◌+◌, Bool, true, false, Option, none, some, List, [], ◌∷◌, ◌++◌, if◌then◌else◌, get, has, put,
}
use adaptive_orchestrator.Errors.{Error, task_not_found, Result, ok, err}
use adaptive_orchestrator.Task.{TaskState, Task, transition_to}
use adaptive_orchestrator.Mission.{drafting, Mission}
use adaptive_orchestrator.Checkpoint.{EventType, mission_created}
use adaptive_orchestrator.Graph.{Graph, get_task}
use adaptive_orchestrator.Resolver.{calculate_unlock_value}
use adaptive_orchestrator.ReadyQueue.{ReadyQueue, empty, push, pop_optional, discard}
use adaptive_orchestrator.WorkerRegistry.{WorkerRegistry, new_registry, release}
use adaptive_orchestrator.Workspace.{
  ReleaseState, WorkspaceRegistry, new_workspaces, release_workspace,
}

pub record Event : Type 0 where
  pub event_type : EventType
  pub task_id : Option ℕ
  pub sequence : ℕ

-- `audit` is the verdict of the verifier that `run_victory_audit` finds.
pub record MissionEngine : Type 0 where
  pub mission : Mission
  pub graph : Graph
  pub ready_queue : ReadyQueue
  pub workers : WorkerRegistry
  pub workspace_registry : WorkspaceRegistry
  pub events : List Event
  pub sequence_counter : ℕ
  pub auto_audit : Bool
  pub audit : Mission → Graph → Bool

-- `__init__`, with its MISSION_CREATED.
unfoldable pub new_engine : ℕ → Bool → (Mission → Graph → Bool) → ℕ → MissionEngine
new_engine mission_id auto_audit audit now = record {
  mission = record { mission_id = mission_id; state = drafting; updated_at = now };
  graph = [];
  ready_queue = empty;
  workers = new_registry;
  workspace_registry = new_workspaces;
  events = record { event_type = mission_created; task_id = none; sequence = 1 } ∷ [];
  sequence_counter = 1;
  auto_audit = auto_audit;
  audit = audit;
}

abbrev pub Action {ℓ} : Type ℓ → Type ℓ
Action A = MissionEngine → MissionEngine × Result A

infixl 5 ◌>>=◌ ◌>>◌
unfoldable pub ◌>>=◌ {ℓ κ} : {A : Type ℓ} {B : Type κ} → Action A → (A → Action B) → Action B
(m >>= f) s = let out = m s in elim out.1 [ ok a ↦ f a out.0 | err e ↦ (out.0, err e) ]

unfoldable pub ◌>>◌ {ℓ κ} : {A : Type ℓ} {B : Type κ} → Action A → Action B → Action B
m >> k = m >>= λ a. k

abbrev pub pure {ℓ} : {A : Type ℓ} → A → Action A
pure a s = (s, ok a)

abbrev pub raise {ℓ} : {A : Type ℓ} → Error → Action A
raise e s = (s, err e)

-- What a call reads of the engine.
abbrev pub ask {ℓ} : {A : Type ℓ} → (MissionEngine → Result A) → Action A
ask f s = (s, f s)

abbrev pub done : Action (Unit {0})
done s = (s, ok tt)

-- `if test: ...`
unfoldable pub when : Bool → Action (Unit {0}) → Action (Unit {0})
when true act = act
when false act = done

-- `for x in xs: ...`
unfoldable pub for_all {ℓ} : {A : Type ℓ} → (A → Action (Unit {0})) → List A → Action (Unit {0})
for_all body [] = done
for_all body (x ∷ xs) = body x >> for_all body xs

-- `_emit`
unfoldable pub emit : EventType → Option ℕ → Action (Unit {0})
emit type task s = (
  record s {
    events =
        s.events
        ++ (record { event_type = type; task_id = task; sequence = s.sequence_counter + 1 }) ∷ [];
    sequence_counter = s.sequence_counter + 1;
  },
  ok tt,
)

unfoldable pub set_mission : Mission → Action (Unit {0})
set_mission m s = (record s { mission = m }, ok tt)

-- `self._graph.get_task(task_id)`
abbrev pub fetch : ℕ → Action Task
fetch k = ask (λ s. get_task s.graph k)

-- A change of the task object under `k`, or the exception in its place.
unfoldable pub update : ℕ → (Task → Result Task) → Action Task
update k f s = elim (get s.graph k) [
  | none ↦ (s, err task_not_found)
  | some t ↦ elim (f t) [ err e ↦ (s, err e) | ok u ↦ (record s { graph = put s.graph k u }, ok u) ]
]

-- `task.transition_to(target)`
unfoldable pub move_task : ℕ → TaskState → ℕ → Action Task
unfolding update transition_to
move_task k target now = update k (λ t. transition_to t target now)

-- `self._ready_queue.push(task, unlock_value)` of the task under `k`.
unfoldable pub push_task : ℕ → ℕ → Action (Unit {0})
unfolding push
push_task k unlock_value s = elim (get s.graph k) [
  | none ↦ (s, err task_not_found)
  | some t ↦
      let out = push s.ready_queue t unlock_value in (record s { ready_queue = out.0 }, out.1)
]

-- `calculate_unlock_value` and `push`, as they follow each other everywhere.
unfoldable pub enqueue : ℕ → Action (Unit {0})
unfolding calculate_unlock_value push_task
enqueue k = do value ← ask (λ s. calculate_unlock_value s.graph k); push_task k value

-- `self._ready_queue.remove(task_id)`
unfoldable pub dequeue : ℕ → Action (Unit {0})
unfolding discard
dequeue k s = (record s { ready_queue = (discard s.ready_queue k).0 }, ok tt)

-- `self._ready_queue.pop_optional()`
unfoldable pub pop_next_ready_task : Action (Option ℕ)
unfolding pop_optional
pop_next_ready_task s =
    let out = pop_optional s.ready_queue in (record s { ready_queue = out.0 }, ok out.1)

-- `self._workspace_registry.release(task_id, state)` of a task that holds a workspace.
unfoldable pub free_workspace : ℕ → ReleaseState → ℕ → Action (Unit {0})
unfolding release_workspace
free_workspace k state now s =
    if has s.workspace_registry.active_by_task k
    then (
      record s { workspace_registry = (release_workspace s.workspace_registry k state true now).0 },
      ok tt,
    )
    else (s, ok tt)

-- `self._workers.release(worker_id, success)`
unfoldable pub free_worker : ℕ → Bool → ℕ → Action (Unit {0})
unfolding release
free_worker worker success now s =
    let out = release s.workers worker success now in
    (record s { workers = out.0 }, elim out.1 [ ok w ↦ ok tt | err e ↦ err e ])
