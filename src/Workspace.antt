-- ===== src/Workspace.antt =====
-- orchestrator/workspace/registry.py: `WorkspaceRegistry`, orchestrator/workspace/models.py:
-- `WorkspaceReleaseState` and `WorkspaceRecord`, and `CollisionDetector.detect_active_conflict`. The
-- path of a workspace, its branch, its isolation type and the reason of a release, which no test
-- reads, are left out. A record that both dictionaries hold is one object in the source: it changes
-- only after `_active_by_task` has lost it. The time of a call is an argument.
pub mod Consistency
pub mod Exclusion
pub mod Grants
use adaptive_orchestrator.Base.{
  ℕ, ◌+◌, String, Bool, true, false, not, ◌||◌, Option, none, some, List, [], ◌∷◌, ◌++◌, ltb, ◌==◌,
  if◌then◌else◌, is_some, Dict, get, has, put, remove, keys, values,
}
use adaptive_orchestrator.Task.{Task}
use adaptive_orchestrator.FilePaths.{FilePath, is_empty}
use adaptive_orchestrator.Collision.{
  normalize_set, Footprint, footprint, are_write_sets_overlapping,
}
use adaptive_orchestrator.Errors.{
  workspace_conflict, workspace_acquisition, workspace_not_found, value_error, Result, ok, err,
}

pub data ReleaseState : Type 0 where
  active released invalidated merged_workspace failed_workspace cancelled_workspace : ReleaseState

pub record WorkspaceRecord : Type 0 where
  pub task_id : ℕ
  pub worker_id : ℕ
  pub workspace_mode : String
  pub read_set : List FilePath
  pub write_set : List FilePath
  pub acquired_at : ℕ
  pub released_at : Option ℕ
  pub release_state : ReleaseState

pub record WorkspaceRegistry : Type 0 where
  pub active_by_task : Dict WorkspaceRecord
  pub active_by_worker : Dict WorkspaceRecord
  pub history : List WorkspaceRecord

abbrev pub new_workspaces : WorkspaceRegistry
new_workspaces = record { active_by_task = []; active_by_worker = []; history = [] }

-- The identifier "w_default".
abbrev pub w_default : ℕ
w_default = 0

-- `WorkspaceRecord.is_active`
unfoldable pub is_held : WorkspaceRecord → Bool
is_held rec = elim rec.release_state [ active ↦ true | _ ↦ false ]

-- `WorkspaceRecord.release`
unfoldable pub close : WorkspaceRecord → ReleaseState → ℕ → WorkspaceRecord
close rec state now = record rec { release_state = state; released_at = some now }

-- The first option that holds a value.
unfoldable pub or_else {ℓ} : {A : Type ℓ} → Option A → Option A → Option A
or_else none other = other
or_else (some a) other = some a

unfoldable pub from {ℓ} : {A : Type ℓ} → Option A → A → A
from none a = a
from (some b) a = b

module _ (fnmatch : FilePath → FilePath → Bool) where
  unfoldable pub record_in_conflict :
      Footprint → List WorkspaceRecord → Option (WorkspaceRecord × FilePath × FilePath)
  unfolding is_held is_empty
  record_in_conflict claim [] = none
  record_in_conflict claim (rec ∷ rest) =
      let later = record_in_conflict claim rest in
      if not (is_held rec) || rec.task_id == claim.owner || is_empty rec.write_set
      then later
      else elim (are_write_sets_overlapping fnmatch claim.writes rec.write_set) [
        | some (task_path, active_path) ↦ some (rec, task_path, active_path)
        | none ↦ later
      ]

  unfoldable pub detect_active_conflict :
      Footprint → List WorkspaceRecord → Option (WorkspaceRecord × FilePath × FilePath)
  unfolding record_in_conflict is_empty
  detect_active_conflict claim records =
      if is_empty claim.writes then none else record_in_conflict claim records

  unfoldable pub can_acquire : WorkspaceRegistry → Task → Bool
  unfolding detect_active_conflict footprint
  can_acquire r task =
      if has r.active_by_task task.task_id
      then false
      else not (is_some (detect_active_conflict (footprint task) (values r.active_by_task)))

  -- `acquire` once the task's identifier and the worker's are known: the claim that is compared, and
  -- the sets that are recorded.
  unfoldable pub acquire_as :
      WorkspaceRegistry
      → ℕ
      → ℕ
      → Footprint
      → List FilePath
      → List FilePath
      → String
      → ℕ
      → WorkspaceRegistry × Result WorkspaceRecord
  unfolding detect_active_conflict normalize_set
  acquire_as r tid w_id claim task_read_set task_write_set eff_mode now =
      if has r.active_by_task tid
      then (r, err workspace_acquisition)
      else if has r.active_by_worker w_id
      then (r, err workspace_acquisition)
      else elim (detect_active_conflict claim (values r.active_by_task)) [
        | some found ↦ (r, err workspace_conflict)
        | none ↦
            let rec : WorkspaceRecord = record {
              task_id = tid;
              worker_id = w_id;
              workspace_mode = eff_mode;
              read_set = normalize_set task_read_set;
              write_set = normalize_set task_write_set;
              acquired_at = now;
              released_at = none;
              release_state = active;
            } in
            (
              record r {
                active_by_task = put r.active_by_task tid rec;
                active_by_worker = put r.active_by_worker w_id rec;
              },
              ok rec,
            )
      ]

  -- `acquire`: a task object or none, the worker, and the arguments that go before the task's own
  -- attributes.
  unfoldable pub acquire :
      WorkspaceRegistry
      → Option Task
      → Option ℕ
      → Option ℕ
      → Option String
      → Option (List FilePath)
      → Option (List FilePath)
      → ℕ
      → WorkspaceRegistry × Result WorkspaceRecord
  unfolding or_else from acquire_as footprint
  acquire r none worker none mode read_set write_set now = (r, err value_error)
  acquire r none worker (some tid) mode read_set write_set now =
      let reads = from read_set [] in
      let writes = from write_set [] in
      let ad_hoc : Footprint = record {
        owner = tid;
        reads = reads;
        writes = writes;
        mode = "branch";
      } in
      acquire_as r tid (from worker w_default) ad_hoc reads writes (from mode "branch") now
  acquire r (some task) worker task_id mode read_set write_set now =
      let f = footprint task in
      acquire_as r (from task_id task.task_id) (from worker w_default) f (from read_set f.reads)
        (from write_set f.writes) (from mode task.workspace_mode) now

-- `any(r.task_id == task_id for r in self._history)`
unfoldable pub in_history : List WorkspaceRecord → ℕ → Bool
in_history [] task = false
in_history (rec ∷ rest) task = rec.task_id == task || in_history rest task

unfoldable pub release_workspace :
    WorkspaceRegistry
    → ℕ
    → ReleaseState
    → Bool
    → ℕ
    → WorkspaceRegistry × Result (Option WorkspaceRecord)
unfolding in_history close
release_workspace r task state raise_if_missing now = elim (get r.active_by_task task) [
  | none ↦
      if in_history r.history task
      then (r, ok none)
      else if raise_if_missing
      then (r, err workspace_not_found)
      else (r, ok none)
  | some rec ↦ (
    record {
      active_by_task = remove r.active_by_task task;
      active_by_worker = remove r.active_by_worker rec.worker_id;
      history = r.history ++ close rec state now ∷ [];
    },
    ok (some (close rec state now)),
  )
]

unfoldable pub release_worker_lock : WorkspaceRegistry → ℕ → WorkspaceRegistry
release_worker_lock r worker = record r { active_by_worker = remove r.active_by_worker worker }

unfoldable pub release_for_worker :
    WorkspaceRegistry → ℕ → ReleaseState → ℕ → WorkspaceRegistry × List WorkspaceRecord
unfolding close
release_for_worker r worker state now = elim (get r.active_by_worker worker) [
  | none ↦ (r, [])
  | some rec ↦ (
    record {
      active_by_task = remove r.active_by_task rec.task_id;
      active_by_worker = remove r.active_by_worker worker;
      history = r.history ++ close rec state now ∷ [];
    },
    close rec state now ∷ [],
  )
]

-- The first record of the task from the end.
unfoldable pub last_of : List WorkspaceRecord → ℕ → Option WorkspaceRecord
last_of [] task = none
last_of (rec ∷ rest) task =
    let later = last_of rest task in
    if is_some later then later else if rec.task_id == task then some rec else none

unfoldable pub get_record : WorkspaceRegistry → ℕ → Option WorkspaceRecord
unfolding last_of
get_record r task = elim (get r.active_by_task task) [
  | some rec ↦ some rec
  | none ↦ last_of r.history task
]

-- Older than the limit at the time `now`.
unfoldable pub is_stale : ℕ → ℕ → Option WorkspaceRecord → Bool
is_stale limit now none = false
is_stale limit now (some rec) = ltb (rec.acquired_at + limit) now

-- The body of the loop of `cleanup_stale_ownership`, with the record it has released.
unfoldable pub sweep_task :
    WorkspaceRegistry → ℕ → ℕ → ℕ → WorkspaceRegistry × Option WorkspaceRecord
unfolding is_stale release_workspace
sweep_task r limit now task =
    let freed = release_workspace r task invalidated true now in
    if is_stale limit now (get r.active_by_task task)
    then (freed.0, elim freed.1 [ ok rec ↦ rec | err e ↦ none ])
    else (r, none)

-- The loop over the identifiers.
unfoldable pub sweep : WorkspaceRegistry → ℕ → ℕ → List ℕ → WorkspaceRegistry × List WorkspaceRecord
unfolding sweep_task
sweep r limit now [] = (r, [])
sweep r limit now (task ∷ rest) =
    let freed = sweep_task r limit now task in
    let after = sweep freed.0 limit now rest in
    (after.0, elim freed.1 [ some rec ↦ rec ∷ after.1 | none ↦ after.1 ])

unfoldable pub cleanup_stale_ownership :
    WorkspaceRegistry → Option ℕ → ℕ → WorkspaceRegistry × List WorkspaceRecord
unfolding sweep
cleanup_stale_ownership r none now = (r, [])
cleanup_stale_ownership r (some limit) now = sweep r limit now (keys r.active_by_task)

unfoldable pub clear : WorkspaceRegistry → WorkspaceRegistry
clear r = new_workspaces
