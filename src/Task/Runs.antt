-- ===== src/Task/Runs.antt =====
-- What any run of requests for a change of a task's state can reach.
use adaptive_orchestrator.Base.{
  ℕ, ◌≡◌, refl, inl, inr, Bool, true, false, ◌||◌, List, [], ◌∷◌, arith, Bool-cases,
}
use adaptive_orchestrator.Errors.{ok, err}
use adaptive_orchestrator.Task.{
  TaskState, pending, passed, cancelled, Task, same_state, is_success, stamp, transition_to,
}

-- A caller that asks for a change of state and goes on with the task as it was after a refusal.
abbrev pub attempt : Task → TaskState → ℕ → Task
attempt t target now = elim (transition_to t target now) [ ok u ↦ u | err e ↦ t ]

-- Such requests one after the other.
unfoldable pub request_all : Task → List (TaskState × ℕ) → Task
request_all t [] = t
request_all t ((target, now) ∷ rest) = request_all (attempt t target now) rest

abbrev pub asks : TaskState → List (TaskState × ℕ) → Bool
asks s [] = false
asks s ((target, now) ∷ rest) = same_state s target || asks s rest

attempt_outside :
    (t : Task) (target : TaskState) (now : ℕ)
    → is_success t.status ≡ false
    → same_state passed target ≡ false
    → is_success (attempt t target now).status ≡ false
unfolding transition_to stamp is_success
attempt_outside t pending now h p = ground arith
attempt_outside t _ now h p = ground arith

-- A task that is neither PASSED nor MERGED becomes so only if PASSED is asked for on the way:
-- no sequence of requests merges work that did not pass.
pub request_all-passed :
    (t : Task) (requests : List (TaskState × ℕ))
    → is_success t.status ≡ false
    → is_success (request_all t requests).status ≡ true
    → asks passed requests ≡ true
unfolding request_all
request_all-passed t [] h e = cc
request_all-passed t ((target, now) ∷ rest) h e = elim (Bool-cases (same_state passed target)) [
  | inl asked ↦ rw asked refl
  | inr other ↦
      rw other
        (request_all-passed (attempt t target now) rest (attempt_outside t target now h other) e)
]

attempt_cancelled :
    (t : Task) (target : TaskState) (now : ℕ) → t.status ≡ cancelled → attempt t target now ≡ t
unfolding transition_to stamp
attempt_cancelled t pending now h = ground arith
attempt_cancelled t _ now h = ground arith

-- A cancelled task stays as it is, whatever is asked of it.
pub request_all-cancelled :
    (t : Task) (requests : List (TaskState × ℕ)) → t.status ≡ cancelled → request_all t requests ≡ t
unfolding request_all
request_all-cancelled t [] h = refl
request_all-cancelled t ((target, now) ∷ rest) h =
    rw (attempt_cancelled t target now h) (request_all-cancelled t rest h)
