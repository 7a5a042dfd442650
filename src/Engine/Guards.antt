-- ===== src/Engine/Guards.antt =====
-- A property of the engine that the changes of State keep is kept by what is made of them.
use adaptive_orchestrator.Base.{
  ℕ, ◌≡◌, inl, inr, Bool, true, false, Option, some, List, [], ◌∷◌, if◌then◌else◌, Bool-cases,
  Option-cases, get, has, put,
}
use adaptive_orchestrator.Engine.State.{
  MissionEngine, Action, ◌>>=◌, ◌>>◌, pure, raise, ask, done, when, for_all, emit, update,
  push_task, enqueue, dequeue, free_workspace,
}
use adaptive_orchestrator.Engine.Tasks.{cancel}
use adaptive_orchestrator.Engine.Plan.{TaskFields, build_task}
use adaptive_orchestrator.Engine.Pool.{fail_worker}
use adaptive_orchestrator.Errors.{Error, Result, ok, Result-cases}
use adaptive_orchestrator.Task.{cancelled, Task, same_state}
use adaptive_orchestrator.Mission.{Mission}
use adaptive_orchestrator.Checkpoint.{EventType}
use adaptive_orchestrator.Graph.{add_task, add_dependency, remove_dependency}
use adaptive_orchestrator.ReadyQueue.{push, pop_optional, discard}
use adaptive_orchestrator.WorkerRegistry.Routes.{Call, run}
use adaptive_orchestrator.Workspace.{ReleaseState, release_workspace}

-- The change of a task object that leaves its identifier and its edges alone, and whether it is
-- cancelled.
pub record IsKept (t u : Task) : Type 0 where
  pub same_id : u.task_id ≡ t.task_id
  pub same_dependencies : u.dependencies ≡ t.dependencies
  pub same_dependents : u.dependents ≡ t.dependents
  pub same_cancelled : same_state u.status cancelled ≡ same_state t.status cancelled

pub record Guards (P : MissionEngine → Type 0) : Type 0 where
  pub emits :
      (s : MissionEngine) (type : EventType) (task : Option ℕ) → P s → P (emit type task s).0
  pub missions : (s : MissionEngine) (m : Mission) → P s → P (record s { mission = m })
  pub writes :
      (s : MissionEngine) (k : ℕ) (t u : Task)
      → get s.graph k ≡ some t
      → IsKept t u
      → P s
      → P (record s { graph = put s.graph k u })
  pub cancels :
      (s : MissionEngine) (k : ℕ) (t : Task) (now : ℕ)
      → get s.graph k ≡ some t
      → P s
      → P (record s {
        ready_queue = (discard s.ready_queue k).0;
        graph = put s.graph k (cancel now t);
      })
  pub pushes :
      (s : MissionEngine) (k : ℕ) (t : Task) (value : ℕ)
      → get s.graph k ≡ some t
      → P s
      → P (record s { ready_queue = (push s.ready_queue t value).0 })
  pub pops :
      (s : MissionEngine) → P s → P (record s { ready_queue = (pop_optional s.ready_queue).0 })
  pub discards :
      (s : MissionEngine) (k : ℕ) → P s → P (record s { ready_queue = (discard s.ready_queue k).0 })
  pub worker_calls :
      (s : MissionEngine) (c : Call) → P s → P (record s { workers = run s.workers c })
  pub worker_fails :
      (s : MissionEngine) (worker now : ℕ)
      → P s
      → P (record s { workers = (fail_worker worker now s.workers).0 })
  pub frees :
      (s : MissionEngine) (k : ℕ) (state : ReleaseState) (now : ℕ)
      → P s
      → P (record s {
        workspace_registry = (release_workspace s.workspace_registry k state true now).0;
      })
  pub adds :
      (s : MissionEngine) (f : TaskFields)
      → P s
      → P (record s { graph = (add_task s.graph (build_task f)).0 })
  pub adds_edge :
      (s : MissionEngine) (a b : ℕ) → P s → P (record s { graph = (add_dependency s.graph a b).0 })
  pub removes_edge :
      (s : MissionEngine) (a b : ℕ)
      → P s
      → P (record s { graph = (remove_dependency s.graph a b).0 })

-- The engine that the call leaves has the property, whatever the call returns.
pub record Keeps {ℓ} (P : MissionEngine → Type 0) {A : Type ℓ} (m : Action A) : Type 0 where
  pub keeps : (s : MissionEngine) → P s → P (m s).0

module _ {P : MissionEngine → Type 0} where
  -- A call that changes nothing.
  pub Keeps-read {ℓ} : {A : Type ℓ} (f : MissionEngine → Result A) → Keeps P (ask f)
  Keeps-read f = record { keeps = λ s p. p }

  pub Keeps-pure {ℓ} : {A : Type ℓ} (a : A) → Keeps P (pure a)
  Keeps-pure a = record { keeps = λ s p. p }

  pub Keeps-raise {ℓ} : {A : Type ℓ} (e : Error) → Keeps P (raise {A = A} e)
  Keeps-raise e = record { keeps = λ s p. p }

  pub Keeps-done : Keeps P done
  Keeps-done = record { keeps = λ s p. p }

  pub Keeps-bind {ℓ κ} :
      {A : Type ℓ} {B : Type κ} {m : Action A} {f : A → Action B}
      → Keeps P m
      → ((a : A) → Keeps P (f a))
      → Keeps P (m >>= f)
  unfolding ◌>>=◌
  Keeps-bind {m = m} {f = f} km kf = record {
    keeps = λ s p. elim (Result-cases (m s).1) [
      | inl (a, e) ↦ rw (◌>>=◌, e) ((kf a).keeps (m s).0 (km.keeps s p))
      | inr (x, e) ↦ rw (◌>>=◌, e) (km.keeps s p)
    ];
  }

  pub Keeps-then {ℓ κ} :
      {A : Type ℓ} {B : Type κ} {m : Action A} {n : Action B}
      → Keeps P m
      → Keeps P n
      → Keeps P (m >> n)
  unfolding ◌>>◌
  Keeps-then km kn = Keeps-bind km (λ a. kn)

  pub Keeps-when : (b : Bool) {m : Action (Unit {0})} → Keeps P m → Keeps P (when b m)
  unfolding when
  Keeps-when true k = k
  Keeps-when false k = Keeps-done

  pub Keeps-if {ℓ} :
      {A : Type ℓ} (b : Bool) {m n : Action A}
      → Keeps P m
      → Keeps P n
      → Keeps P (if b then m else n)
  Keeps-if true km kn = km
  Keeps-if false km kn = kn

  pub Keeps-for_all {ℓ} :
      {A : Type ℓ} {body : A → Action (Unit {0})} (xs : List A)
      → ((x : A) → Keeps P (body x))
      → Keeps P (for_all body xs)
  unfolding for_all
  Keeps-for_all [] k = Keeps-done
  Keeps-for_all (x ∷ xs) k = Keeps-then (k x) (Keeps-for_all xs k)

module _ {P : MissionEngine → Type 0} (g : Guards P) where
  pub Keeps-update :
      (k : ℕ) (f : Task → Result Task)
      → ((t u : Task) → f t ≡ ok u → IsKept t u)
      → Keeps P (update k f)
  unfolding update
  Keeps-update k f kept = record {
    keeps = λ s p. elim (Option-cases (get s.graph k)) [
      | inl e ↦ rw (update, e) p
      | inr (t, e) ↦ elim (Result-cases (f t)) [
        | inl (u, q) ↦ rw (update, e, q) (g.writes s k t u e (kept t u q) p)
        | inr (x, q) ↦ rw (update, e, q) p
      ]
    ];
  }

  pub Keeps-push_task : (k value : ℕ) → Keeps P (push_task k value)
  unfolding push_task
  Keeps-push_task k value = record {
    keeps = λ s p. elim (Option-cases (get s.graph k)) [
      | inl e ↦ rw (push_task, e) p
      | inr (t, e) ↦ rw (push_task, e) (g.pushes s k t value e p)
    ];
  }

  pub Keeps-enqueue : (k : ℕ) → Keeps P (enqueue k)
  unfolding enqueue
  Keeps-enqueue k = Keeps-bind (Keeps-read _) (Keeps-push_task k)

  pub Keeps-dequeue : (k : ℕ) → Keeps P (dequeue k)
  unfolding dequeue
  Keeps-dequeue k = record { keeps = λ s p. g.discards s k p }

  pub Keeps-emit : (type : EventType) (task : Option ℕ) → Keeps P (emit type task)
  Keeps-emit type task = record { keeps = λ s p. g.emits s type task p }

  pub Keeps-free_workspace :
      (k : ℕ) (state : ReleaseState) (now : ℕ) → Keeps P (free_workspace k state now)
  unfolding free_workspace
  Keeps-free_workspace k state now = record {
    keeps = λ s p. elim (Bool-cases (has s.workspace_registry.active_by_task k)) [
      | inl e ↦ rw (free_workspace, e) (g.frees s k state now p)
      | inr e ↦ rw (free_workspace, e) p
    ];
  }
