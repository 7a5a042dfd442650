-- ===== src/Task.antt =====
-- orchestrator/models.py: `TaskState`, its transition table and `Task`. The fields that the
-- modelled code neither reads nor writes (title, description, mission_id, created_at, metadata) are
-- left out. A time is a number of ticks, handed in where the code calls `time.time()`; a priority
-- is an integer; a result is an opaque number.
pub mod Lifecycle
pub mod Runs
use adaptive_orchestrator.Base.{
  ℕ, ◌+◌, String, Bool, true, false, not, ◌&&◌, ◌||◌, Option, some, List, [], ◌∷◌, is_some,
  if◌then◌else◌,
}
use adaptive_orchestrator.Base.Int.{ℤ}
use adaptive_orchestrator.Errors.{Result, ok, err, invalid_state_transition}

-- COMPLETED is an alias of PASSED in the source.
pub data TaskState : Type 0 where
  pending blocked ready assigned running verifying passed merged failed retrying cancelled :
      TaskState

pub record Task : Type 0 where
  pub task_id : ℕ
  pub status : TaskState
  pub domain : String
  pub dependencies : List ℕ
  pub dependents : List ℕ
  pub priority : ℤ
  pub read_set : List String
  pub write_set : List String
  pub workspace_mode : String
  pub assigned_worker_id : Option ℕ
  pub workspace_path : Option String
  pub branch_name : Option String
  pub result : Option ℕ
  pub error : Option String
  pub started_at : Option ℕ
  pub completed_at : Option ℕ
  pub retry_count : ℕ
  pub max_retries : ℕ

-- `==` on states.
unfoldable pub same_state : TaskState → TaskState → Bool
same_state pending pending = true
same_state blocked blocked = true
same_state ready ready = true
same_state assigned assigned = true
same_state running running = true
same_state verifying verifying = true
same_state passed passed = true
same_state merged merged = true
same_state failed failed = true
same_state retrying retrying = true
same_state cancelled cancelled = true
same_state _ _ = false

unfoldable pub is_terminal : TaskState → Bool
is_terminal passed = true
is_terminal merged = true
is_terminal failed = true
is_terminal cancelled = true
is_terminal _ = false

unfoldable pub is_success : TaskState → Bool
is_success passed = true
is_success merged = true
is_success _ = false

unfoldable pub is_active : TaskState → Bool
is_active assigned = true
is_active running = true
is_active verifying = true
is_active retrying = true
is_active _ = false

-- VALID_TASK_TRANSITIONS
unfoldable pub valid_task_transitions : TaskState → List TaskState
valid_task_transitions pending = ready ∷ blocked ∷ cancelled ∷ []
valid_task_transitions blocked = pending ∷ ready ∷ cancelled ∷ []
valid_task_transitions ready =
    assigned ∷ running ∷ passed ∷ failed ∷ retrying ∷ blocked ∷ cancelled ∷ []
valid_task_transitions assigned = running ∷ passed ∷ ready ∷ failed ∷ cancelled ∷ []
valid_task_transitions running = verifying ∷ passed ∷ failed ∷ retrying ∷ ready ∷ cancelled ∷ []
valid_task_transitions verifying = passed ∷ failed ∷ retrying ∷ ready ∷ cancelled ∷ []
valid_task_transitions retrying = assigned ∷ running ∷ ready ∷ failed ∷ cancelled ∷ []
valid_task_transitions passed = merged ∷ failed ∷ pending ∷ cancelled ∷ []
valid_task_transitions merged = pending ∷ cancelled ∷ []
valid_task_transitions failed = retrying ∷ ready ∷ pending ∷ cancelled ∷ []
valid_task_transitions cancelled = []

-- `state in states`
unfoldable pub in_states : TaskState → List TaskState → Bool
unfolding same_state
in_states s [] = false
in_states s (x ∷ xs) = same_state s x || in_states s xs

unfoldable pub allowed : TaskState → TaskState → Bool
unfolding in_states valid_task_transitions
allowed source target = in_states target (valid_task_transitions source)

unfoldable pub can_transition_to : Task → TaskState → Bool
unfolding allowed
can_transition_to t target = allowed t.status target

-- The timestamps and the retry counter that a state change sets, after `self.status = target`.
unfoldable pub stamp : Task → TaskState → ℕ → Task
unfolding same_state
stamp t target now =
    let moved = record t { status = target } in
    if same_state target running && not (is_some t.started_at)
    then record moved { started_at = some now }
    else if same_state target passed
        || same_state target merged
        || same_state target failed
        || same_state target cancelled
    then record moved { completed_at = some now }
    else if same_state target retrying
    then record moved { retry_count = t.retry_count + 1 }
    else moved

unfoldable pub transition_to : Task → TaskState → ℕ → Result Task
unfolding same_state can_transition_to
transition_to t target now =
    if same_state target t.status
    then ok t
    else if can_transition_to t target
    then ok (stamp t target now)
    else err invalid_state_transition
