-- ===== src/Task/Lifecycle.antt =====
-- The task state machine: what a permitted change of state does, and what any run of requests for
-- a change of state can reach.
use adaptive_orchestrator.Base.{
  ℕ, ◌+◌, ◌≡◌, refl, ◌≢◌, ◌↔◌, inl, inr, true, false, Option, none, some, arith, Bool-cases,
  Option-cases, is_some,
}
use adaptive_orchestrator.Errors.{invalid_state_transition, Result, ok, err}
use adaptive_orchestrator.Task.{
  TaskState, pending, blocked, ready, assigned, running, verifying, passed, merged, failed,
  retrying, cancelled, Task, same_state, is_terminal, allowed, stamp, transition_to,
}

-- A finished task has its completion time, and one that runs or is verified its start time.
pub record IsTimed (t : Task) : Type 0 where
  pub finished : is_terminal t.status ≡ true → is_some t.completed_at ≡ true
  pub running_started : t.status ≡ running → is_some t.started_at ≡ true
  pub verifying_started : t.status ≡ verifying → is_some t.started_at ≡ true

-- A successful `transition_to` keeps it so that a finished task has a completion time and that a
-- task which runs or is verified has a start time.
pub transition_to-IsTimed :
    (t u : Task) (target : TaskState) (now : ℕ)
    → IsTimed t
    → transition_to t target now ≡ ok u
    → IsTimed u
unfolding transition_to stamp is_terminal
transition_to-IsTimed t u pending now h e = ground arith
transition_to-IsTimed t u _ now h e = ground arith

-- The start time and the completion time after a change of state.
abbrev pub started_after : TaskState → Option ℕ → ℕ → Option ℕ
started_after running none now = some now
started_after _ started now = started

abbrev pub completed_after : TaskState → Option ℕ → ℕ → Option ℕ
completed_after passed completed now = some now
completed_after merged completed now = some now
completed_after failed completed now = some now
completed_after cancelled completed now = some now
completed_after _ completed now = completed

abbrev pub retries_after : TaskState → ℕ → ℕ
retries_after retrying n = n + 1
retries_after _ n = n

-- The possible results of a request for a state, as the code's guards order them.
pub data Outcome (t : Task) (target : TaskState) (now : ℕ) : Result Task → Type 0 where
  unchanged : target ≡ t.status → Outcome t target now (ok t)
  refused :
      target ≢ t.status
      → allowed t.status target ≡ false
      → Outcome t target now (err invalid_state_transition)
  moved :
      (u : Task)
      → target ≢ t.status
      → allowed t.status target ≡ true
      → u ≡ record t {
        status = target;
        started_at = started_after target t.started_at now;
        completed_at = completed_after target t.completed_at now;
        retry_count = retries_after target t.retry_count;
      }
      → Outcome t target now (ok u)

-- `same_state` decides equality of states.
pub same_state_iff : (a b : TaskState) → (same_state a b ≡ true) ↔ (a ≡ b)
unfolding same_state
same_state_iff pending b = ground arith
same_state_iff _ b = ground arith

module _ (t : Task) (now : ℕ) where
  pub status-stamp : (target : TaskState) → (stamp t target now).status ≡ target
  unfolding stamp
  status-stamp target = ground arith

  pub stamp_lem :
      (target : TaskState)
      → stamp t target now ≡ record t {
        status = target;
        started_at = started_after target t.started_at now;
        completed_at = completed_after target t.completed_at now;
        retry_count = retries_after target t.retry_count;
      }
  unfolding stamp same_state
  stamp_lem running = elim (Option-cases t.started_at) [
    | inl e ↦ rw e refl
    | inr (x, e) ↦ rw e refl
  ]
  stamp_lem pending = refl
  stamp_lem blocked = refl
  stamp_lem ready = refl
  stamp_lem assigned = refl
  stamp_lem verifying = refl
  stamp_lem passed = refl
  stamp_lem merged = refl
  stamp_lem failed = refl
  stamp_lem retrying = refl
  stamp_lem cancelled = refl

  pub stamp_keeps :
      (target : TaskState)
      → let u = stamp t target now in
        (u.task_id ≡ t.task_id) × (u.dependencies ≡ t.dependencies) × (u.dependents ≡ t.dependents)
  unfolding stamp
  stamp_keeps target = ground arith

-- `transition_to` on every branch: a request for the state that the task has returns the task as
-- it is; one that the table does not hold is refused with InvalidStateTransitionError; any other
-- gives the requested state, the present as start time where the state is RUNNING and the task has
-- none, the present as completion time where the state is PASSED, MERGED, FAILED or CANCELLED, one
-- retry more where it is RETRYING, and keeps all else of the task.
pub transition_to-Outcome :
    (t : Task) (target : TaskState) (now : ℕ) → Outcome t target now (transition_to t target now)
unfolding transition_to
transition_to-Outcome t target now = elim (Bool-cases (same_state target t.status)) [
  | inl same ↦ rw same (unchanged ((same_state_iff target t.status).0 same))
  | inr other ↦ elim (Bool-cases (allowed t.status target)) [
    | inl listed ↦
        rw (other, listed) (moved (stamp t target now) (ne other) listed (stamp_lem t now target))
    | inr unlisted ↦ rw (other, unlisted) (refused (ne other) unlisted)
  ]
]
  where
    ne : same_state target t.status ≡ false → target ≢ t.status
    ne other e = cc ((same_state_iff target t.status).1 e)
