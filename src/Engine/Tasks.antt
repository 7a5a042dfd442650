-- ===== src/Engine/Tasks.antt =====
-- The life of a task in `MissionEngine`: `mark_task_assigned` to `mark_task_cancelled`.
use adaptive_orchestrator.Base.{
  ℕ, String, Bool, true, false, not, ◌&&◌, Option, none, some, List, [], ◌∷◌, ltb, ◌==◌,
  if◌then◌else◌, length, sorted, get, put,
}
use adaptive_orchestrator.Engine.State.{
  Action, ◌>>=◌, ◌>>◌, pure, raise, ask, done, when, for_all, emit, set_mission, fetch, update,
  move_task, enqueue, dequeue, free_workspace, free_worker,
}
use adaptive_orchestrator.Errors.{
  task_not_found, invalid_state_transition, task_not_ready, Result, ok, err,
}
use adaptive_orchestrator.Task.{
  TaskState, ready, assigned, running, verifying, passed, merged, failed, retrying, cancelled, Task,
  in_states, can_transition_to, stamp, transition_to,
}
use adaptive_orchestrator.Mission.{drafting, plan_approved, executing, in_mission_states}
use adaptive_orchestrator.Checkpoint.{
  task_ready, task_assigned_event, task_started, task_verifying, task_completed_event,
  task_failed_event, task_retrying, task_cancelled, task_state_changed, dependency_satisfied,
}
use adaptive_orchestrator.Graph.{get_task, get_descendants}
use adaptive_orchestrator.Resolver.{resolve_dependents_on_completion, resolve_dependents_on_failure}
use adaptive_orchestrator.ReadyQueue.{discard, holds}
use adaptive_orchestrator.Workspace.{released, cancelled_workspace}
use adaptive_orchestrator.Engine.Lifecycle.{check_mission_completion}

-- `task.status` of the task under `k`, among some states.
abbrev pub status_in : ℕ → List TaskState → Action Bool
status_in k states = ask (λ s. elim (get s.graph k) [
  | none ↦ err task_not_found
  | some t ↦ ok (in_states t.status states)
])

unfoldable pub with_worker : Option ℕ → Task → Task
with_worker none t = t
with_worker (some w) t = record t { assigned_worker_id = some w }

-- `mark_task_assigned`: the transition and `task.assigned_worker_id`.
unfoldable pub assign_to : Option ℕ → ℕ → Task → Result Task
unfolding transition_to with_worker
assign_to worker now t = elim (transition_to t assigned now) [
  | err e ↦ err e
  | ok u ↦ ok (with_worker worker u)
]

unfoldable pub mark_task_assigned : ℕ → Option ℕ → ℕ → Action (Unit {0})
unfolding update assign_to emit in_states
mark_task_assigned k worker now = do
  is_ready ← status_in k (ready ∷ [])
  when is_ready (do update k (assign_to worker now); emit task_assigned_event (some k))

-- `if self._mission.state in (DRAFTING, PLAN_APPROVED): self._mission.state = EXECUTING`
unfoldable pub force_executing : Action (Unit {0})
unfolding set_mission in_mission_states
force_executing s =
    if in_mission_states s.mission.state (drafting ∷ plan_approved ∷ [])
    then set_mission (record s.mission { state = executing }) s
    else (s, ok tt)

unfoldable pub mark_task_started : ℕ → ℕ → Action (Unit {0})
unfolding dequeue move_task force_executing emit in_states
mark_task_started k now = do
  startable ← status_in k (ready ∷ assigned ∷ [])
  when (not startable) (raise task_not_ready)
  dequeue k
  move_task k running now
  force_executing
  emit task_started (some k)

unfoldable pub mark_task_verifying : ℕ → ℕ → Action (Unit {0})
unfolding move_task emit
mark_task_verifying k now = do move_task k verifying now; emit task_verifying (some k)

-- `task.assigned_worker_id = None`
unfoldable pub unassign : Task → Result Task
unassign t = ok (record t { assigned_worker_id = none })

-- `if task.assigned_worker_id: self._workers.release(...); task.assigned_worker_id = None`
unfoldable pub release_held_worker : ℕ → Bool → ℕ → Action (Unit {0})
unfolding free_worker update get_task unassign
release_held_worker k success now = do
  t ← fetch k
  elim t.assigned_worker_id [
    | none ↦ done
    | some w ↦ do free_worker w success now; update k unassign; done
  ]

-- `if task.can_transition_to(MERGED): task.transition_to(MERGED)`
unfoldable pub merge_if_allowed : ℕ → Task → Result Task
unfolding can_transition_to transition_to
merge_if_allowed now t = if can_transition_to t merged then transition_to t merged now else ok t

-- `if task.write_set: ...`, with no integration manager.
unfoldable pub merge_writes : ℕ → Task → Result Task
unfolding merge_if_allowed
merge_writes now t = if length t.write_set == 0 then ok t else merge_if_allowed now t

-- `self._resolver.resolve_dependents_on_completion(task_id)`
unfoldable pub resolve_completion : ℕ → ℕ → Action (List ℕ)
unfolding resolve_dependents_on_completion
resolve_completion k now s =
    let out = resolve_dependents_on_completion s.graph k now in (record s { graph = out.0 }, out.1)

-- The events of a dependent that is ready.
unfoldable pub announce : ℕ → Action (Unit {0})
unfolding emit
announce d = do emit dependency_satisfied (some d); emit task_ready (some d)

unfoldable pub enqueue_ready : ℕ → Action (Unit {0})
unfolding enqueue announce
enqueue_ready d = do enqueue d; announce d

-- `if not self._ready_queue.contains(d): ...`
unfoldable pub unless_queued : ℕ → Action (Unit {0}) → Action (Unit {0})
unfolding holds
unless_queued d act = do queued ← ask (λ s. ok (holds s.ready_queue d)); when (not queued) act

unfoldable pub store_result : Option ℕ → Task → Result Task
store_result result t = ok (record t { result = result })

-- `mark_task_completed`: the tasks that became ready.
unfoldable pub mark_task_completed : ℕ → Option ℕ → ℕ → Action (List ℕ)
unfolding update move_task emit release_held_worker merge_writes resolve_completion enqueue_ready
    for_all check_mission_completion store_result in_states
mark_task_completed k result now = do
  already ← status_in k (passed ∷ merged ∷ [])
  if already then pure [] else (do
    update k (store_result result)
    move_task k passed now
    emit task_completed_event (some k)
    release_held_worker k true now
    update k (merge_writes now)
    newly_ready ← resolve_completion k now
    for_all enqueue_ready newly_ready
    check_mission_completion now
    pure newly_ready)

unfoldable pub mark_task_merged : ℕ → ℕ → Action (List ℕ)
unfolding update emit merge_if_allowed resolve_completion enqueue_ready unless_queued for_all
    check_mission_completion in_states
mark_task_merged k now = do
  already ← status_in k (merged ∷ [])
  when (not already) (do update k (merge_if_allowed now); emit task_state_changed (some k))
  newly_ready ← resolve_completion k now
  for_all (λ d. unless_queued d (enqueue_ready d)) newly_ready
  check_mission_completion now
  pure newly_ready

-- `should_retry`, from `can_retry` and whether the error mentions "transient" or "timeout".
unfoldable pub should_retry : Task → Option Bool → Bool → Bool
should_retry t (some can_retry) transient = can_retry && ltb t.retry_count t.max_retries
should_retry t none transient = transient && ltb t.retry_count t.max_retries

unfoldable pub store_error : Option String → Task → Result Task
store_error error t = ok (record t { error = error })

-- `self._resolver.resolve_dependents_on_failure(task_id)`
unfoldable pub resolve_failure : ℕ → ℕ → Action (List ℕ)
unfolding resolve_dependents_on_failure
resolve_failure k now s =
    let out = resolve_dependents_on_failure s.graph k now in (record s { graph = out.0 }, out.1)

-- The retry of `mark_task_failed`: it stays RETRYING where the caller has said `can_retry`.
unfoldable pub retry_failed : ℕ → Bool → ℕ → Action (Unit {0})
unfolding move_task unless_queued enqueue emit
retry_failed k explicitly now = do
  move_task k retrying now
  when (not explicitly) (do move_task k ready now; unless_queued k (enqueue k))
  emit task_retrying (some k)

unfoldable pub fail_for_good : ℕ → ℕ → Action (Unit {0})
unfolding move_task emit resolve_failure for_all
fail_for_good k now = do
  move_task k failed now
  emit task_failed_event (some k)
  newly_blocked ← resolve_failure k now
  for_all (λ d. emit task_state_changed (some d)) newly_blocked

unfoldable pub mark_task_failed : ℕ → Option String → Option Bool → Bool → ℕ → Action (Unit {0})
unfolding update store_error should_retry release_held_worker free_workspace retry_failed
    fail_for_good get_task in_states
mark_task_failed k error can_retry transient now = do
  already ← status_in k (failed ∷ [])
  when (not already) (do
    t ← update k (store_error error)
    release_held_worker k false now
    free_workspace k released now
    (if should_retry t can_retry transient
        then retry_failed k (elim can_retry [ none ↦ false | some b ↦ b ]) now
        else fail_for_good k now))

unfoldable pub retry_task : ℕ → ℕ → Action (Unit {0})
unfolding move_task enqueue emit in_states
retry_task k now = do
  is_retrying ← status_in k (retrying ∷ [])
  when (not is_retrying) (raise invalid_state_transition)
  move_task k ready now
  enqueue k
  emit task_ready (some k)

-- The transition to CANCELLED, or the direct write of the state.
unfoldable pub cancel : ℕ → Task → Task
unfolding can_transition_to stamp
cancel now t =
    if can_transition_to t cancelled then stamp t cancelled now else record t { status = cancelled }

-- The task leaves the queue and is cancelled.
unfoldable pub dequeue_and_cancel : ℕ → ℕ → Action (Unit {0})
unfolding cancel discard
dequeue_and_cancel k now s = elim (get s.graph k) [
  | none ↦ (s, err task_not_found)
  | some t ↦ (
    record s { ready_queue = (discard s.ready_queue k).0; graph = put s.graph k (cancel now t) },
    ok tt,
  )
]

-- The body of the loop of `mark_task_cancelled`.
unfoldable pub cancel_one : ℕ → ℕ → Action (Unit {0})
unfolding dequeue_and_cancel free_workspace emit in_states
cancel_one now k = do
  already ← status_in k (cancelled ∷ [])
  when (not already) (do
    dequeue_and_cancel k now
    free_workspace k cancelled_workspace now
    emit task_cancelled (some k))

-- The loop of `mark_task_cancelled`, with the tasks that were not cancelled before.
unfoldable pub cancel_each : ℕ → List ℕ → Action (List ℕ)
unfolding cancel_one in_states
cancel_each now [] = pure []
cancel_each now (k ∷ ks) = do
  already ← status_in k (cancelled ∷ [])
  cancel_one now k
  others ← cancel_each now ks
  pure (if already then others else k ∷ others)

unfoldable pub mark_task_cancelled : ℕ → ℕ → Action (List ℕ)
unfolding cancel_each get_descendants sorted
mark_task_cancelled k now = do
  descendants ← ask (λ s. get_descendants s.graph k)
  cancel_each now (k ∷ sorted descendants)
