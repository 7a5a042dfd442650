-- ===== src/MergeQueue.antt =====
-- orchestrator/integration/queue.py: `MergeQueue`, with `MergeStatus`, `MergeRequest` and
-- `MergeResult` of orchestrator/integration/models.py. What lies around the queue is a host: the
-- merge adapter and the worktree adapter, the event emitter, the task objects, the workspace registry
-- and the two callbacks. The emitter and the callbacks may change the queue and may raise. The paths
-- of the workspaces, the write set of a request and the payloads of the events are left out.
pub mod Order
pub mod Patient
pub mod Serial
pub mod Sorting
pub mod Served
use adaptive_orchestrator.Base.{
  ℕ, zero, suc, String, Bool, true, false, not, ◌&&◌, ◌||◌, Option, none, some, List, [], ◌∷◌, ◌++◌,
  ltb, leb, ◌==◌, if◌then◌else◌, Dict, has, put,
}
use adaptive_orchestrator.Base.Int.{ℤ, leb_ℤ}
use adaptive_orchestrator.Errors.{out_of_fuel, Result, ok, err, ◌>>=◌}
use adaptive_orchestrator.Task.{passed, merged, Task, same_state, transition_to}
use adaptive_orchestrator.Workspace.{
  ReleaseState, merged_workspace, failed_workspace, WorkspaceRegistry, release_workspace,
}
use adaptive_orchestrator.Checkpoint.{
  EventType, workspace_released, merge_started, merge_completed, merge_failed,
}

pub data MergeStatus : Type 0 where
  status_pending status_merging status_merged status_conflict status_failed : MergeStatus

pub record MergeRequest : Type 0 where
  pub task_id : ℕ
  pub branch_name : String
  pub enqueued_at : ℕ
  pub priority : ℤ
  pub status : MergeStatus
  pub conflict_files : List String
  pub error : Option String
  pub commit_id : Option String
  -- `task is not None`
  pub has_task : Bool

pub record MergeResult : Type 0 where
  pub success : Bool
  pub task_id : ℕ
  pub branch_name : String
  pub commit_id : Option String
  pub conflict_files : List String
  pub error : Option String

-- `MergeResult.status`
unfoldable pub result_status : MergeResult → MergeStatus
result_status res =
    if res.success
    then status_merged
    else elim res.conflict_files [ [] ↦ status_failed | f ∷ fs ↦ status_conflict ]

pub record MergeQueue : Type 0 where
  pub integration_branch : String
  pub queue : List MergeRequest
  pub active_request : Option MergeRequest
  pub history : List MergeRequest
  pub results : Dict MergeResult
  pub is_merging : Bool

abbrev pub new_queue : String → MergeQueue
new_queue branch = record {
  integration_branch = branch;
  queue = [];
  active_request = none;
  history = [];
  results = [];
  is_merging = false;
}

-- The request of that task in the queue.
unfoldable pub queued : List MergeRequest → ℕ → Option MergeRequest
queued [] task = none
queued (req ∷ rest) task = if req.task_id == task then some req else queued rest task

-- `self._queue.sort(key=...)`: insertion sort by a test that a request may stand before another.
unfoldable pub insert_request :
    (MergeRequest → MergeRequest → Bool) → MergeRequest → List MergeRequest → List MergeRequest
insert_request before req [] = req ∷ []
insert_request before req (other ∷ rest) =
    let later = insert_request before req rest in
    if before req other then req ∷ other ∷ rest else other ∷ later

unfoldable pub sort_requests :
    (MergeRequest → MergeRequest → Bool) → List MergeRequest → List MergeRequest
unfolding insert_request
sort_requests before [] = []
sort_requests before (req ∷ rest) = insert_request before req (sort_requests before rest)

-- `(r.enqueued_at, r.task_id)`
unfoldable pub fifo : MergeRequest → MergeRequest → Bool
fifo a b =
    ltb a.enqueued_at b.enqueued_at || (a.enqueued_at == b.enqueued_at && leb a.task_id b.task_id)

-- `(-r.priority, r.enqueued_at)`
unfoldable pub by_priority : MergeRequest → MergeRequest → Bool
by_priority a b =
    not (leb_ℤ a.priority b.priority)
    || (leb_ℤ b.priority a.priority && leb a.enqueued_at b.enqueued_at)

-- `enqueue` of a request.
unfoldable pub enqueue_request : MergeQueue → MergeRequest → MergeQueue × MergeRequest
unfolding queued sort_requests by_priority
enqueue_request q req = elim (queued q.queue req.task_id) [
  | some found ↦ (q, found)
  | none ↦ (record q { queue = sort_requests by_priority (q.queue ++ req ∷ []) }, req)
]

-- The request that `enqueue` builds for a task: a branch or a priority of the caller's goes first.
-- `default_branch` is "ao/" and the task's identifier.
unfoldable pub request_for : Task → Option String → Option ℤ → String → ℕ → MergeRequest
request_for task branch priority default_branch now = record {
  task_id = task.task_id;
  branch_name = elim branch [
    | some b ↦ b
    | none ↦ elim task.branch_name [ some b ↦ b | none ↦ default_branch ]
  ];
  enqueued_at = now;
  priority = elim priority [ some p ↦ p | none ↦ task.priority ];
  status = status_pending;
  conflict_files = [];
  error = none;
  commit_id = none;
  has_task = true;
}

-- `enqueue` of a task. The emitter's MERGE_READY is the caller's where the request is new.
unfoldable pub enqueue_task :
    MergeQueue → Task → Option String → Option ℤ → String → ℕ → MergeQueue × MergeRequest
unfolding queued sort_requests fifo request_for
enqueue_task q task branch priority default_branch now = elim (queued q.queue task.task_id) [
  | some found ↦ (q, found)
  | none ↦
      let req = request_for task branch priority default_branch now in
      (record q { queue = sort_requests fifo (q.queue ++ req ∷ []) }, req)
]

-- A call that leaves the queue: what it calls may change the queue, as a callback that enqueues does,
-- and may raise.
abbrev pub Hook {ℓ} : Type ℓ → Type ℓ
Hook W = MergeQueue × W → (MergeQueue × W) × Result (Unit {0})

-- The second call, once the first has returned.
unfoldable pub and_then {ℓ} : {W : Type ℓ} → Hook W → Hook W → Hook W
and_then first second s =
    let out = first s in elim out.1 [ err e ↦ (out.0, err e) | ok u ↦ second out.0 ]

-- What the queue calls.
pub record Host {ℓ} (W : Type ℓ) : Type ℓ where
  pub attempt_merge : W → String → String → ℕ → W × Result MergeResult
  pub cleanup_workspace : W → MergeRequest → W
  pub emit : EventType → ℕ → Hook W
  pub read_task : W → ℕ → Option Task
  pub write_task : W → ℕ → Task → W
  pub workspaces : W → WorkspaceRegistry
  pub with_workspaces : W → WorkspaceRegistry → W
  pub on_merge_completed : ℕ → MergeResult → Hook W
  pub on_merge_failed : ℕ → MergeResult → Hook W

-- The direct transition of the task object to MERGED, through PASSED.
unfoldable pub merge_task : Task → ℕ → Result Task
unfolding same_state transition_to
merge_task t now =
    if same_state t.status merged
    then ok t
    else if same_state t.status passed
    then transition_to t merged now
    else transition_to (record t { status = passed }) merged now

-- The request as the result leaves it.
unfoldable pub settled : MergeRequest → MergeResult → MergeRequest
unfolding result_status
settled req res =
    if res.success
    then record req { status = status_merged; commit_id = res.commit_id }
    else record req {
      status = result_status res;
      conflict_files = res.conflict_files;
      error = res.error;
    }

module _ {ℓ} {W : Type ℓ} (host : Host W) where
  unfoldable pub release_owned : ℕ → ReleaseState → ℕ → Hook W
  unfolding release_workspace
  release_owned task state now s =
      let r = host.workspaces s.1 in
      if has r.active_by_task task
      then host.emit workspace_released task
          (s.0, host.with_workspaces s.1 ((release_workspace r task state true now).0))
      else (s, ok tt)

  -- The task object of a request, where it has one, moved to MERGED.
  unfoldable pub merge_object : MergeRequest → ℕ → Hook W
  unfolding merge_task
  merge_object req now s =
      if not req.has_task then (s, ok tt) else elim (host.read_task s.1 req.task_id) [
        | none ↦ (s, ok tt)
        | some t ↦ elim (merge_task t now) [
          | ok moved ↦ ((s.0, host.write_task s.1 req.task_id moved), ok tt)
          | err e ↦ (s, err e)
        ]
      ]

  -- The clean-up of the worktree, whose exceptions are swallowed.
  unfoldable pub clean_up : MergeRequest → Hook W
  clean_up req s = ((s.0, host.cleanup_workspace s.1 req), ok tt)

  -- A merge that succeeded.
  unfoldable pub finish_merged : MergeRequest → MergeResult → ℕ → Hook W
  unfolding and_then merge_object clean_up release_owned
  finish_merged req res now = and_then (merge_object req now) (
      and_then (clean_up req) (
        and_then (release_owned req.task_id merged_workspace now) (
          and_then (host.emit merge_completed req.task_id)
            (host.on_merge_completed req.task_id res))))

  -- A merge that did not.
  unfoldable pub finish_failed : MergeRequest → MergeResult → ℕ → Hook W
  unfolding and_then release_owned
  finish_failed req res now =
      and_then (release_owned req.task_id failed_workspace now)
        (and_then (host.emit merge_failed req.task_id) (host.on_merge_failed req.task_id res))

  unfoldable pub finish_merge : MergeRequest → MergeResult → ℕ → Hook W
  unfolding finish_merged finish_failed
  finish_merge req res now =
      if res.success then finish_merged req res now else finish_failed req res now

  -- The body of the `try`: the result, or the exception that leaves it.
  unfoldable pub integrate :
      MergeRequest → ℕ → MergeQueue × W → (MergeQueue × W) × Result MergeResult
  unfolding finish_merge settled
  integrate req now s =
      let tried = host.attempt_merge s.1 req.branch_name s.0.integration_branch req.task_id in
      elim tried.1 [
        | err e ↦ ((s.0, tried.0), err e)
        | ok res ↦
            let entered : MergeQueue × W =
              (record s.0 { active_request = some (settled req res) }, tried.0) in
            let done = finish_merge req res now entered in (done.0, done.1 >>= λ u. ok res)
      ]

  -- `process_next` of a queue that is idle, once a request is taken from it. MERGE_STARTED is emitted
  -- before the `try`: an exception of the emitter leaves the queue merging.
  unfoldable pub process_request :
      MergeQueue
      → W
      → MergeRequest
      → List MergeRequest
      → ℕ
      → MergeQueue × W × Result (Option MergeResult)
  unfolding integrate settled
  process_request q w req rest now =
      let merging : MergeRequest = record req { status = status_merging } in
      let taken : MergeQueue = record q {
        queue = rest;
        active_request = some merging;
        is_merging = true;
      } in
      let started = host.emit merge_started req.task_id (taken, w) in
      let out = integrate merging now started.0 in
      elim started.1 [
        | err e ↦ (started.0.0, started.0.1, err e)
        | ok u ↦ elim out.1 [
          | err e ↦ (record out.0.0 { active_request = none; is_merging = false }, out.0.1, err e)
          | ok res ↦ (
            record out.0.0 {
              active_request = none;
              history = out.0.0.history ++ settled merging res ∷ [];
              results = put out.0.0.results req.task_id res;
              is_merging = false;
            },
            out.0.1,
            ok (some res),
          )
        ]
      ]

  unfoldable pub process_next : MergeQueue → W → ℕ → MergeQueue × W × Result (Option MergeResult)
  unfolding process_request
  process_next q w now =
      if q.is_merging
      then (q, w, ok none)
      else elim q.queue [ [] ↦ (q, w, ok none) | req ∷ rest ↦ process_request q w req rest now ]

  -- The loop of `process_all` on fuel, with the results so far.
  unfoldable pub process_rounds :
      ℕ → MergeQueue → W → List MergeResult → ℕ → MergeQueue × W × Result (List MergeResult)
  unfolding process_next
  process_rounds zero q w results now =
      (q, w, elim q.queue [ [] ↦ ok results | req ∷ rest ↦ err out_of_fuel ])
  process_rounds (suc n) q w results now =
      let out = process_next q w now in
      let rest : List MergeResult → MergeQueue × W × Result (List MergeResult) =
        λ rs. process_rounds n out.0 out.1 rs now in
      elim q.queue [
        | [] ↦ (q, w, ok results)
        | req ∷ reqs ↦ elim out.2 [
          | err e ↦ (out.0, out.1, err e)
          | ok none ↦ (out.0, out.1, ok results)
          | ok (some res) ↦ rest (results ++ res ∷ [])
        ]
      ]

  -- `process_all` in at most `n` rounds: a callback may enqueue a request for ever.
  unfoldable pub process_all : ℕ → MergeQueue → W → ℕ → MergeQueue × W × Result (List MergeResult)
  unfolding process_rounds
  process_all n q w now = process_rounds n q w [] now

-- `clear`
unfoldable pub clear : MergeQueue → MergeQueue
clear q = record q {
  queue = [];
  active_request = none;
  history = [];
  results = [];
  is_merging = false;
}
