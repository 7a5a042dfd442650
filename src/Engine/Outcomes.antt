-- ===== src/Engine/Outcomes.antt =====
-- The calls that end a task's run, made of the changes of State: completion, merge, failure, retry and
-- cancellation.
use adaptive_orchestrator.Base.{
  ℕ, String, ◌≡◌, refl, ap, inl, inr, Bool, true, false, not, Option, none, some, List, [], ◌∷◌,
  arith, ◌==◌, if◌then◌else◌, Bool-cases, Option-cases, length, sorted, get, has,
}
use adaptive_orchestrator.Engine.State.{
  MissionEngine, Action, ◌>>◌, done, emit, update, free_worker,
}
use adaptive_orchestrator.Engine.Tasks.{
  unassign, release_held_worker, merge_if_allowed, merge_writes, resolve_completion, announce,
  enqueue_ready, unless_queued, store_result, mark_task_completed, mark_task_merged, should_retry,
  store_error, resolve_failure, retry_failed, fail_for_good, mark_task_failed, retry_task,
  dequeue_and_cancel, cancel_one, cancel_each, mark_task_cancelled,
}
use adaptive_orchestrator.Engine.Guards.{
  IsKept, Guards, Keeps, Keeps-read, Keeps-pure, Keeps-done, Keeps-bind, Keeps-then, Keeps-when,
  Keeps-if, Keeps-for_all, Keeps-update, Keeps-enqueue, Keeps-emit, Keeps-free_workspace,
}
use adaptive_orchestrator.Engine.Chains.{
  IsKept-self, transition_to-IsKept, resolve_completion-Evolves, resolve_failure-Evolves,
  Evolves-keeps,
}
use adaptive_orchestrator.Engine.Steady.{check_mission_completion-Keeps, move_task-Keeps}
use adaptive_orchestrator.Errors.{Result, ok}
use adaptive_orchestrator.Base.Int.{pos}
use adaptive_orchestrator.Task.{
  ready, passed, merged, failed, retrying, cancelled, Task, same_state, can_transition_to,
  transition_to,
}
use adaptive_orchestrator.Checkpoint.{
  EventType, task_ready, task_completed_event, task_failed_event, task_retrying, task_cancelled,
  task_state_changed, dependency_satisfied,
}
use adaptive_orchestrator.WorkerRegistry.Routes.{releases}
use adaptive_orchestrator.WorkerRegistry.{release}
use adaptive_orchestrator.Workspace.{released, cancelled_workspace}

pub same_edges :
    (t u : Task)
    → u.task_id ≡ t.task_id
    → u.dependencies ≡ t.dependencies
    → u.dependents ≡ t.dependents
    → u.status ≡ t.status
    → IsKept t u
same_edges t u i d d' st = record {
  same_id = i;
  same_dependencies = d;
  same_dependents = d';
  same_cancelled = ap (λ x. same_state x cancelled) st;
}

-- A write that cannot fail and keeps the identifier, the edges and the state.
pub wrote : (t u v : Task) → Path (Result Task) (ok v) (ok u) → IsKept t v → IsKept t u
wrote t u v e h = let p : u ≡ v = ground (arith, e) in rw p h

store_result-IsKept : (result : Option ℕ) (t u : Task) → store_result result t ≡ ok u → IsKept t u
unfolding store_result
store_result-IsKept result t u e =
    let v : Task = record t { result = result } in
    wrote t u v e (same_edges t v refl refl refl refl)

store_error-IsKept : (error : Option String) (t u : Task) → store_error error t ≡ ok u → IsKept t u
unfolding store_error
store_error-IsKept error t u e =
    let v : Task = record t { error = error } in wrote t u v e (same_edges t v refl refl refl refl)

pub unassign-IsKept : (t u : Task) → unassign t ≡ ok u → IsKept t u
unfolding unassign
unassign-IsKept t u e =
    let v : Task = record t { assigned_worker_id = none } in
    wrote t u v e (same_edges t v refl refl refl refl)

pub either-IsKept :
    (t u : Task) (b : Bool) (m n : Result Task)
    → (m ≡ ok u → IsKept t u)
    → (n ≡ ok u → IsKept t u)
    → (if b then m else n) ≡ ok u
    → IsKept t u
either-IsKept t u true m n hm hn = hm
either-IsKept t u false m n hm hn = hn

merge_if_allowed-IsKept : (now : ℕ) (t u : Task) → merge_if_allowed now t ≡ ok u → IsKept t u
unfolding merge_if_allowed same_state
merge_if_allowed-IsKept now t u =
    either-IsKept t u (can_transition_to t merged) (transition_to t merged now) (ok t)
      (transition_to-IsKept t merged now u refl) (λ q. wrote t u t q (IsKept-self t))

merge_writes-IsKept : (now : ℕ) (t u : Task) → merge_writes now t ≡ ok u → IsKept t u
unfolding merge_writes
merge_writes-IsKept now t u =
    either-IsKept t u (length t.write_set == 0) (ok t) (merge_if_allowed now t)
      (λ q. wrote t u t q (IsKept-self t)) (merge_if_allowed-IsKept now t u)

module _ {P : MissionEngine → Type 0} (g : Guards P) where
  abbrev event : (type : EventType) (task : Option ℕ) → Keeps P (emit type task)
  event type task = Keeps-emit g type task

  free_worker-Keeps :
      (worker : ℕ) (success : Bool) (now : ℕ) → Keeps P (free_worker worker success now)
  unfolding free_worker release
  free_worker-Keeps worker success now = record {
    keeps = λ s p. elim (Bool-cases (has s.workers.workers worker)) [
      | inl e ↦ rw (free_worker, e) (g.worker_calls s (releases worker success (pos 0) false now) p)
      | inr e ↦ rw (free_worker, e) p
    ];
  }

  release_held_worker-Keeps :
      (k : ℕ) (success : Bool) (now : ℕ) → Keeps P (release_held_worker k success now)
  unfolding release_held_worker
  release_held_worker-Keeps k success now =
      Keeps-bind (Keeps-read _) (λ t. held t.assigned_worker_id)
    where
      held :
          (o : Option ℕ)
          → Keeps P (elim o [
            | none ↦ done
            | some w ↦ free_worker w success now >> (update k unassign >> done)
          ])
      held none = Keeps-done
      held (some w) =
          Keeps-then (free_worker-Keeps w success now)
            (Keeps-then (Keeps-update g k unassign unassign-IsKept) Keeps-done)

  resolve_completion-Keeps : (k now : ℕ) → Keeps P (resolve_completion k now)
  unfolding resolve_completion
  resolve_completion-Keeps k now = record {
    keeps = λ s p. Evolves-keeps P g s (resolve_completion-Evolves s.graph k now) p;
  }

  resolve_failure-Keeps : (k now : ℕ) → Keeps P (resolve_failure k now)
  unfolding resolve_failure
  resolve_failure-Keeps k now = record {
    keeps = λ s p. Evolves-keeps P g s (resolve_failure-Evolves s.graph k now) p;
  }

  pub enqueue_ready-Keeps : (d : ℕ) → Keeps P (enqueue_ready d)
  unfolding enqueue_ready announce
  enqueue_ready-Keeps d =
      Keeps-then (Keeps-enqueue g d)
        (Keeps-then (event dependency_satisfied (some d)) (event task_ready (some d)))

  pub unless_queued-Keeps :
      (d : ℕ) {act : Action (Unit {0})} → Keeps P act → Keeps P (unless_queued d act)
  unfolding unless_queued
  unless_queued-Keeps d h = Keeps-bind (Keeps-read _) (λ b. Keeps-when (not b) h)

  pub mark_task_completed-Keeps :
      (k : ℕ) (result : Option ℕ) (now : ℕ) → Keeps P (mark_task_completed k result now)
  unfolding mark_task_completed same_state
  mark_task_completed-Keeps k result now = Keeps-bind (Keeps-read _) (λ b.
      Keeps-if b (Keeps-pure []) (
        Keeps-then (Keeps-update g k (store_result result) (store_result-IsKept result)) (
          Keeps-then (move_task-Keeps g k passed now refl) (
            Keeps-then (event task_completed_event (some k)) (
              Keeps-then (release_held_worker-Keeps k true now) (
                Keeps-then (Keeps-update g k _ (merge_writes-IsKept now)) (
                  Keeps-bind (resolve_completion-Keeps k now) (λ ds.
                    Keeps-then (Keeps-for_all ds enqueue_ready-Keeps)
                      (Keeps-then (check_mission_completion-Keeps g now) (Keeps-pure _))))))))))

  pub mark_task_merged-Keeps : (k now : ℕ) → Keeps P (mark_task_merged k now)
  unfolding mark_task_merged
  mark_task_merged-Keeps k now = Keeps-bind (Keeps-read _) (λ b.
      Keeps-then
        (Keeps-when (not b) (
          Keeps-then (Keeps-update g k _ (merge_if_allowed-IsKept now))
            (event task_state_changed (some k))))
        (Keeps-bind (resolve_completion-Keeps k now) (λ ds.
          Keeps-then (Keeps-for_all ds (λ d. unless_queued-Keeps d (enqueue_ready-Keeps d)))
            (Keeps-then (check_mission_completion-Keeps g now) (Keeps-pure _)))))

  pub mark_task_failed-Keeps :
      (k : ℕ) (error : Option String) (can_retry : Option Bool) (transient : Bool) (now : ℕ)
      → Keeps P (mark_task_failed k error can_retry transient now)
  unfolding mark_task_failed retry_failed fail_for_good same_state
  mark_task_failed-Keeps k error can_retry transient now = Keeps-bind (Keeps-read _) (λ b.
      Keeps-when (not b) (
        Keeps-bind (Keeps-update g k (store_error error) (store_error-IsKept error)) (λ t.
          Keeps-then (release_held_worker-Keeps k false now) (
            Keeps-then (Keeps-free_workspace g k released now) (
              Keeps-if (should_retry t can_retry transient)
                (Keeps-then (move_task-Keeps g k retrying now refl) (
                  Keeps-then
                    (Keeps-when _ (
                      Keeps-then (move_task-Keeps g k ready now refl)
                        (unless_queued-Keeps k (Keeps-enqueue g k))))
                    (event task_retrying (some k))))
                (Keeps-then (move_task-Keeps g k failed now refl) (
                  Keeps-then (event task_failed_event (some k)) (
                    Keeps-bind (resolve_failure-Keeps k now)
                      (λ ds. Keeps-for_all ds (λ d. event task_state_changed (some d)))))))))))

  pub retry_task-Keeps : (k now : ℕ) → Keeps P (retry_task k now)
  unfolding retry_task same_state
  retry_task-Keeps k now = Keeps-bind (Keeps-read _) (λ b.
      Keeps-then (Keeps-when (not b) (Keeps-read _)) (
        Keeps-then (move_task-Keeps g k ready now refl)
          (Keeps-then (Keeps-enqueue g k) (event task_ready (some k)))))

  dequeue_and_cancel-Keeps : (k now : ℕ) → Keeps P (dequeue_and_cancel k now)
  unfolding dequeue_and_cancel
  dequeue_and_cancel-Keeps k now = record {
    keeps = λ s p. elim (Option-cases (get s.graph k)) [
      | inl e ↦ rw (dequeue_and_cancel, e) p
      | inr (t, e) ↦ rw (dequeue_and_cancel, e) (g.cancels s k t now e p)
    ];
  }

  pub cancel_one-Keeps : (now k : ℕ) → Keeps P (cancel_one now k)
  unfolding cancel_one
  cancel_one-Keeps now k = Keeps-bind (Keeps-read _) (λ b. Keeps-when (not b) (
      Keeps-then (dequeue_and_cancel-Keeps k now) (
        Keeps-then (Keeps-free_workspace g k cancelled_workspace now)
          (event task_cancelled (some k)))))

  cancel_each-Keeps : (now : ℕ) (ks : List ℕ) → Keeps P (cancel_each now ks)
  unfolding cancel_each
  cancel_each-Keeps now [] = Keeps-pure _
  cancel_each-Keeps now (k ∷ ks) = Keeps-bind (Keeps-read _) (λ already.
      Keeps-then (cancel_one-Keeps now k)
        (Keeps-bind (cancel_each-Keeps now ks) (λ others. Keeps-pure _)))

  pub mark_task_cancelled-Keeps : (k now : ℕ) → Keeps P (mark_task_cancelled k now)
  unfolding mark_task_cancelled
  mark_task_cancelled-Keeps k now =
      Keeps-bind (Keeps-read _) (λ ds. cancel_each-Keeps now (k ∷ sorted ds))
