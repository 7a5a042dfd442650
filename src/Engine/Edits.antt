-- ===== src/Engine/Edits.antt =====
-- The edits of the graph and the calls on workers, made of the changes of State.
use adaptive_orchestrator.Base.{ℕ, ◌≡◌, refl, inl, inr, Option, none, some, arith, Bool-cases}
use adaptive_orchestrator.Engine.State.{
  MissionEngine, ◌>>◌, pure, emit, push_task, pop_next_ready_task,
}
use adaptive_orchestrator.Engine.Tasks.{unassign}
use adaptive_orchestrator.Engine.Plan.{
  TaskFields, make_ready, create_task, set_pending, revert_to_pending, depend_on,
  make_ready_if_waiting, drop_dependency, withdraw, enqueue_again, invalidate,
}
use adaptive_orchestrator.Engine.Pool.{
  join, dispatch, place, assign_next, retry_lost, recover_task, handle_worker_failure,
}
use adaptive_orchestrator.Engine.Guards.{
  IsKept, Guards, Keeps, Keeps-read, Keeps-pure, Keeps-done, Keeps-bind, Keeps-then, Keeps-when,
  Keeps-if, Keeps-for_all, Keeps-update, Keeps-push_task, Keeps-enqueue, Keeps-dequeue, Keeps-emit,
  Keeps-free_workspace,
}
use adaptive_orchestrator.Engine.Chains.{
  IsKept-self, resolve_all_ready-Evolves, invalidate_task-Evolves, Evolves-keeps,
}
use adaptive_orchestrator.Engine.Steady.{
  move_task-Keeps, mark_task_assigned-Keeps, mark_task_started-Keeps,
}
use adaptive_orchestrator.Engine.Outcomes.{wrote, unassign-IsKept, unless_queued-Keeps}
use adaptive_orchestrator.Errors.{ok}
use adaptive_orchestrator.Task.{pending, ready, failed, retrying, Task, same_state}
use adaptive_orchestrator.Task.Lifecycle.{same_state_iff}
use adaptive_orchestrator.Checkpoint.{
  EventType, task_created, task_ready, dependency_invalidated, graph_mutated, worker_registered,
  worker_failed_event,
}
use adaptive_orchestrator.WorkerRegistry.Routes.{registers, assigns}
use adaptive_orchestrator.Worker.{Worker}
use adaptive_orchestrator.Workspace.{released}

set_pending-IsKept : (t u : Task) → set_pending t ≡ ok u → IsKept t u
unfolding set_pending same_state
set_pending-IsKept t u e = elim (Bool-cases (same_state t.status ready)) [
  | inl r ↦
      wrote t u (record t { status = pending }) (ground (arith, e, r))
        (record {
          same_id = refl;
          same_dependencies = refl;
          same_dependents = refl;
          same_cancelled = rw ((same_state_iff t.status ready).0 r) refl;
        })
  | inr r ↦ wrote t u t (ground (arith, e, r)) (IsKept-self t)
]

module _ {P : MissionEngine → Type 0} (g : Guards P) where
  abbrev event : (type : EventType) (task : Option ℕ) → Keeps P (emit type task)
  event type task = Keeps-emit g type task

  make_ready-Keeps : (k now : ℕ) → Keeps P (make_ready k now)
  unfolding make_ready same_state
  make_ready-Keeps k now =
      Keeps-then (move_task-Keeps g k ready now refl)
        (Keeps-then (Keeps-enqueue g k) (event task_ready (some k)))

  pub create_task-Keeps : (f : TaskFields) (now : ℕ) → Keeps P (create_task f now)
  unfolding create_task
  create_task-Keeps f now =
      Keeps-then (record { keeps = λ s p. g.adds s f p })
        (Keeps-then (event task_created (some f.identifier))
          (Keeps-bind (Keeps-read _) (λ b. Keeps-when b (make_ready-Keeps f.identifier now))))

  pub depend_on-Keeps : (a b : ℕ) → Keeps P (depend_on a b)
  unfolding depend_on revert_to_pending
  depend_on-Keeps a b = Keeps-then (Keeps-read _) (
      Keeps-then (Keeps-read _) (
        Keeps-then (record { keeps = λ s p. g.adds_edge s a b p })
          (Keeps-then (event graph_mutated (some a)) (
            Keeps-bind (Keeps-read _) (λ d. Keeps-bind (Keeps-read _) (λ p. Keeps-when _ (
              Keeps-then (Keeps-dequeue g a) (
                Keeps-then (Keeps-update g a set_pending set_pending-IsKept)
                  (event dependency_invalidated (some a))))))))))

  pub drop_dependency-Keeps : (a b now : ℕ) → Keeps P (drop_dependency a b now)
  unfolding drop_dependency make_ready_if_waiting
  drop_dependency-Keeps a b now =
      Keeps-bind (record { keeps = λ s p. g.removes_edge s a b p })
        (λ removed.
          Keeps-then
            (Keeps-when removed (
              Keeps-then (event graph_mutated (some a)) (
                Keeps-bind (Keeps-read _) (λ r.
                  Keeps-when r
                    (Keeps-bind (Keeps-read _) (λ t. Keeps-when _ (make_ready-Keeps a now)))))))
            (Keeps-pure removed))

  pub invalidate-Keeps : (k now : ℕ) → Keeps P (invalidate k now)
  unfolding invalidate withdraw enqueue_again
  invalidate-Keeps k now =
      Keeps-bind
        (record { keeps = λ s p. Evolves-keeps P g s (invalidate_task-Evolves s.graph k) p })
        (λ ks.
          Keeps-then
            (Keeps-for_all ks (λ j. Keeps-then (Keeps-dequeue g j) (event graph_mutated (some j))))
            (Keeps-bind
              (record {
                keeps = λ s p. Evolves-keeps P g s (resolve_all_ready-Evolves s.graph now) p;
              })
              (λ rs.
                Keeps-then
                  (Keeps-for_all rs (λ j.
                    unless_queued-Keeps g j
                      (Keeps-then (Keeps-enqueue g j) (event task_ready (some j)))))
                  (Keeps-pure ks))))

  pub join-Keeps : (w : Worker) → Keeps P (join w)
  unfolding join
  join-Keeps w =
      Keeps-then (record { keeps = λ s p. g.worker_calls s (registers w) p })
        (event worker_registered none)

  dispatch-Keeps : (k worker now : ℕ) → Keeps P (dispatch k worker now)
  unfolding dispatch
  dispatch-Keeps k worker now = Keeps-then (mark_task_assigned-Keeps g k (some worker) now) (
      Keeps-then (mark_task_started-Keeps g k now) (
        Keeps-then (record { keeps = λ s p. g.worker_calls s (assigns worker k now) p })
          (Keeps-pure _)))

  place-Keeps : (k now : ℕ) → Keeps P (place k now)
  unfolding place
  place-Keeps k now = Keeps-bind (Keeps-read _) (λ t. Keeps-bind (Keeps-read _) found)
    where
      found :
          (o : Option Worker)
          → Keeps P (elim o [
            | none ↦ push_task k 0 >> pure {A = Option (ℕ × ℕ)} none
            | some w ↦ dispatch k w.worker_id now
          ])
      found none = Keeps-then (Keeps-push_task g k 0) (Keeps-pure {A = Option (ℕ × ℕ)} none)
      found (some w) = dispatch-Keeps k w.worker_id now

  pub assign_next-Keeps : (now : ℕ) → Keeps P (assign_next now)
  unfolding assign_next pop_next_ready_task
  assign_next-Keeps now = Keeps-bind (record { keeps = λ s p. g.pops s p }) popped
    where
      popped :
          (o : Option ℕ)
          → Keeps P (elim o [ none ↦ pure {A = Option (ℕ × ℕ)} none | some k ↦ place k now ])
      popped none = Keeps-pure {A = Option (ℕ × ℕ)} none
      popped (some k) = place-Keeps k now

  recover_task-Keeps : (worker now k : ℕ) → Keeps P (recover_task worker now k)
  unfolding recover_task retry_lost same_state
  recover_task-Keeps worker now k = Keeps-bind (Keeps-read _) (λ t. Keeps-when _ (
      Keeps-then (Keeps-update g k unassign unassign-IsKept) (
        Keeps-then
          (Keeps-if _
            (Keeps-then (move_task-Keeps g k retrying now refl) (
              Keeps-then (move_task-Keeps g k ready now refl)
                (unless_queued-Keeps g k (Keeps-enqueue g k))))
            (Keeps-then (move_task-Keeps g k failed now refl) Keeps-done))
          (Keeps-free_workspace g k released now))))

  pub handle_worker_failure-Keeps : (worker now : ℕ) → Keeps P (handle_worker_failure worker now)
  unfolding handle_worker_failure
  handle_worker_failure-Keeps worker now =
      Keeps-bind (record { keeps = λ s p. g.worker_fails s worker now p })
        (λ known. Keeps-when known (
          Keeps-bind (Keeps-read _) (λ ks.
            Keeps-then (Keeps-for_all ks (recover_task-Keeps worker now))
              (event worker_failed_event none))))
