-- ===== src/Engine/Gaps.antt =====
-- Where the calls of `MissionEngine` leave a task that another part still counts on.
use adaptive_orchestrator.Base.{
  ℕ, ◌≡◌, refl, ap, true, false, Option, none, some, List, [], ◌∷◌, ◌++◌, arith, ltb, get, put,
  keys, get-put_self,
}
use adaptive_orchestrator.Engine.State.{
  MissionEngine, ask, when, for_all, emit, fetch, update, move_task, free_workspace,
}
use adaptive_orchestrator.Engine.Tasks.{
  status_in, with_worker, assign_to, mark_task_assigned, unassign,
}
use adaptive_orchestrator.Engine.Pool.{
  on_workers, is_held_by, retry_lost, recover_task, fail_worker, handle_worker_failure,
}
use adaptive_orchestrator.Engine.Runs.{run-bind, run-then, run-stops, run-update, run-refused}
use adaptive_orchestrator.WorkerRegistry.{store}
use adaptive_orchestrator.Worker.{Worker, same_task, mark_failed}
use adaptive_orchestrator.Errors.{Error, invalid_state_transition, ok, err}
use adaptive_orchestrator.Task.{
  ready, assigned, retrying, Task, same_state, is_active, in_states, can_transition_to, stamp,
  transition_to,
}
use adaptive_orchestrator.Checkpoint.{task_assigned_event}
use adaptive_orchestrator.Graph.{get_task}
use adaptive_orchestrator.ReadyQueue.{holds}
use adaptive_orchestrator.Workspace.{released}

-- `mark_task_assigned` of a READY task makes it ASSIGNED and leaves it in the ready queue.
pub mark_task_assigned-queued :
    (s : MissionEngine) (k : ℕ) (worker : Option ℕ) (now : ℕ) (t : Task)
    → get s.graph k ≡ some t
    → t.status ≡ ready
    → holds s.ready_queue k ≡ true
    → let out = mark_task_assigned k worker now s in
      (out.1 ≡ ok tt)
      × (holds out.0.ready_queue k ≡ true)
      × ((u : Task) × (get out.0.graph k ≡ some u) × (u.status ≡ assigned))
unfolding mark_task_assigned when emit
mark_task_assigned-queued s k worker now t e r q =
    rw
      (
        run-bind (status_in k (ready ∷ [])) _ s true ready_here,
        run-then (update k (assign_to worker now)) (emit task_assigned_event (some k)) s u
            (ap (λ o. o.1) moved),
        moved,
      )
      (refl, q, (u, get-put_self s.graph k u, status_u worker))
  where
    u : Task
    u = with_worker worker (record t { status = assigned })

    ready_here : (status_in k (ready ∷ []) s).1 ≡ ok true
    ready_here = unfold in_states same_state in ground (arith, e, r)

    moved : update k (assign_to worker now) s ≡ (record s { graph = put s.graph k u }, ok u)
    moved = run-update k (assign_to worker now) s t u e assigned_now
      where
        assigned_now : assign_to worker now t ≡ ok u
        assigned_now = unfold assign_to transition_to stamp same_state in rw r refl

    status_u : (w : Option ℕ) → (with_worker w (record t { status = assigned })).status ≡ assigned
    status_u none = unfold with_worker in refl
    status_u (some x) = unfold with_worker in refl

recover_task-raises :
    (s : MissionEngine) (worker k now : ℕ) (t : Task)
    → get s.graph k ≡ some t
    → t.status ≡ assigned
    → t.assigned_worker_id ≡ some worker
    → ltb t.retry_count t.max_retries ≡ true
    → recover_task worker now k s ≡ (
      record s { graph = put s.graph k (record t { assigned_worker_id = none }) },
      err invalid_state_transition,
    )
unfolding recover_task retry_lost when get_task
recover_task-raises s worker k now t e a w l =
    rw
      (
        run-bind (fetch k) _ s t (ground (arith, e)),
        held,
        run-then (update k unassign) _ s u (ap (λ o. o.1) freed),
        freed,
        l,
        run-stops (retry_lost k now) (free_workspace k released now) after_unassign
            invalid_state_transition (ap (λ o. o.1) stopped),
        stopped,
      )
      refl
  where
    u : Task
    u = record t { assigned_worker_id = none }

    after_unassign : MissionEngine
    after_unassign = record s { graph = put s.graph k u }

    not_moved :
        move_task k retrying now after_unassign ≡ (after_unassign, err invalid_state_transition)
    not_moved =
        unfold move_task in
        run-refused k (λ x. transition_to x retrying now) after_unassign u invalid_state_transition
          (get-put_self s.graph k u)
          (unfold transition_to can_transition_to same_state in rw a refl)

    stopped : retry_lost k now after_unassign ≡ (after_unassign, err invalid_state_transition)
    stopped =
        unfold retry_lost in
        rw
          (
            run-stops (move_task k retrying now) _ after_unassign invalid_state_transition
                (ap (λ o. o.1) not_moved),
            not_moved,
          )
          refl

    freed : update k unassign s ≡ (record s { graph = put s.graph k u }, ok u)
    freed = run-update k unassign s t u e (unfold unassign in refl)

    held : is_held_by worker t ≡ true
    held = unfold is_held_by same_task is_active in rw (a, w) (ground arith)

-- The tasks are there, and the worker holds none of them.
abbrev pub HoldsNone : MissionEngine → ℕ → List ℕ → Type 0
HoldsNone s worker [] = Unit
HoldsNone s worker (k ∷ ks) =
    ((t : Task) × (get s.graph k ≡ some t) × (is_held_by worker t ≡ false)) × HoldsNone s worker ks

recover_task-skips :
    (s : MissionEngine) (worker k now : ℕ) (t : Task)
    → get s.graph k ≡ some t
    → is_held_by worker t ≡ false
    → recover_task worker now k s ≡ (s, ok tt)
unfolding recover_task when get_task
recover_task-skips s worker k now t e free =
    rw (run-bind (fetch k) _ s t (ground (arith, e)), free) refl

-- The loop passes over tasks that the worker does not hold, and stops at one that raises.
for_all-stops :
    (s : MissionEngine) (worker now : ℕ) (before : List ℕ) (k : ℕ) (rest : List ℕ)
    (out : MissionEngine) (x : Error)
    → HoldsNone s worker before
    → recover_task worker now k s ≡ (out, err x)
    → for_all (recover_task worker now) (before ++ k ∷ rest) s ≡ (out, err x)
unfolding for_all
for_all-stops s worker now [] k rest out x none_held e =
    rw
      (
        run-stops (recover_task worker now k) (for_all (recover_task worker now) rest) s x
            (ap (λ o. o.1) e),
        e,
      )
      refl
for_all-stops s worker now (j ∷ js) k rest out x ((t, q, free), none_held) e =
    rw
      (
        run-then (recover_task worker now j) (for_all (recover_task worker now) (js ++ k ∷ rest)) s
            tt (ap (λ o. o.1) (recover_task-skips s worker j now t q free)),
        recover_task-skips s worker j now t q free,
      )
      (for_all-stops s worker now js k rest out x none_held e)

-- The failure of a worker that the registry knows and that can fail: where the first task that it
-- holds is ASSIGNED with retries left and waits in no queue, `handle_worker_failure` raises, since
-- ASSIGNED does not go to RETRYING. The worker has failed, but the task, its worker lost, stays
-- ASSIGNED and is in no queue, no workspace is released, and nothing is emitted.
pub handle_worker_failure-raises :
    (s : MissionEngine) (worker k now : ℕ) (w moved : Worker) (t : Task) (before rest : List ℕ)
    → get s.workers.workers worker ≡ some w
    → mark_failed w now ≡ ok moved
    → keys s.graph ≡ before ++ k ∷ rest
    → HoldsNone s worker before
    → get s.graph k ≡ some t
    → t.status ≡ assigned
    → t.assigned_worker_id ≡ some worker
    → ltb t.retry_count t.max_retries ≡ true
    → holds s.ready_queue k ≡ false
    → let out = handle_worker_failure worker now s in
      (out.1 ≡ err invalid_state_transition)
      × (get out.0.workers.workers worker ≡ some moved)
      × (get out.0.graph k ≡ some (record t { assigned_worker_id = none }))
      × (holds out.0.ready_queue k ≡ false)
      × (out.0.workspace_registry ≡ s.workspace_registry)
      × (out.0.events ≡ s.events)
unfolding handle_worker_failure when
handle_worker_failure-raises s worker k now w moved t before rest known fails at none_held e a h l
      unqueued =
    rw
      (
        run-bind (on_workers (fail_worker worker now)) _ s true (ap (λ o. o.1) failing),
        failing,
        run-bind (ask (λ x. ok (keys x.graph))) _ lost (before ++ k ∷ rest) (ap ok at),
        run-stops (for_all (recover_task worker now) (before ++ k ∷ rest)) _ lost
            invalid_state_transition (ap (λ o. o.1) stopped),
        stopped,
      )
      (
        refl,
        get-put_self s.workers.workers worker moved,
        get-put_self s.graph k _,
        unqueued,
        refl,
        refl,
      )
  where
    lost : MissionEngine
    lost = record s { workers = store s.workers worker moved }

    failing : fail_worker worker now s.workers ≡ (store s.workers worker moved, ok true)
    failing = unfold fail_worker in rw (fail_worker, known, fails) refl

    none_lost : (ks : List ℕ) → HoldsNone s worker ks → HoldsNone lost worker ks
    none_lost [] free = tt
    none_lost (j ∷ js) (free, others) = (free, none_lost js others)

    stopped : for_all (recover_task worker now) (before ++ k ∷ rest) lost ≡ (
      record lost { graph = put s.graph k (record t { assigned_worker_id = none }) },
      err invalid_state_transition,
    )
    stopped =
        for_all-stops lost worker now before k rest _ _ (none_lost before none_held)
          (recover_task-raises lost worker k now t e a h l)
