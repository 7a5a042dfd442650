-- ===== src/Workspace/Consistency.antt =====
-- The two dictionaries of `WorkspaceRegistry` under any sequence of calls.
use adaptive_orchestrator.Base.{
  ℕ, String, ◌≡◌, refl, ap, ◌≢◌, inl, inr, Bool, true, false, Option, none, some, List, [], ◌∷◌,
  arith, Bool-cases, Option-cases, get, has, put, remove, keys, values, get-put, get-remove,
}
use adaptive_orchestrator.Task.{Task}
use adaptive_orchestrator.FilePaths.{FilePath}
use adaptive_orchestrator.Collision.{Footprint, footprint}
use adaptive_orchestrator.Workspace.{
  ReleaseState, active, invalidated, WorkspaceRecord, WorkspaceRegistry, new_workspaces, w_default,
  or_else, from, detect_active_conflict, acquire_as, acquire, in_history, release_workspace,
  release_worker_lock, release_for_worker, is_stale, sweep_task, sweep, cleanup_stale_ownership,
  clear,
}

-- A record stands under its own task, is held, and is the record of its worker under the worker.
pub record IsConsistent (r : WorkspaceRegistry) : Type 0 where
  pub by_task :
      (t : ℕ) (rec : WorkspaceRecord)
      → get r.active_by_task t ≡ some rec
      → (rec.task_id ≡ t) × (rec.release_state ≡ active)
  pub by_worker :
      (w : ℕ) (rec : WorkspaceRecord)
      → get r.active_by_worker w ≡ some rec
      → (rec.worker_id ≡ w) × (get r.active_by_task rec.task_id ≡ some rec)

-- The calls that change a registry. An `acquires` has the arguments of `acquire`.
pub data Call : Type 0 where
  acquires :
      Option Task
      → (worker task_id : Option ℕ) → (mode : Option String)
      → (read_set write_set : Option (List FilePath)) → (now : ℕ) → Call
  releases : (task : ℕ) → ReleaseState → Bool → (now : ℕ) → Call
  unlocks : (worker : ℕ) → Call
  recovers : (worker : ℕ) → ReleaseState → (now : ℕ) → Call
  cleans : Option ℕ → (now : ℕ) → Call
  clears : Call

module _ (fnmatch : FilePath → FilePath → Bool) where
  abbrev pub run : WorkspaceRegistry → Call → WorkspaceRegistry
  run r (acquires task worker task_id mode reads writes now) =
      (acquire fnmatch r task worker task_id mode reads writes now).0
  run r (releases task state strict now) = (release_workspace r task state strict now).0
  run r (unlocks worker) = release_worker_lock r worker
  run r (recovers worker state now) = (release_for_worker r worker state now).0
  run r (cleans limit now) = (cleanup_stale_ownership r limit now).0
  run r clears = clear r

  unfoldable pub run_all : WorkspaceRegistry → List Call → WorkspaceRegistry
  run_all r [] = r
  run_all r (c ∷ cs) = run_all (run r c) cs

pub new_workspaces-IsConsistent : IsConsistent new_workspaces
unfolding get
new_workspaces-IsConsistent = record {
  by_task = λ t rec e. ground (arith, e);
  by_worker = λ w rec e. ground (arith, e);
}

-- Without the records of a task and of its worker.
drop-IsConsistent :
    (r : WorkspaceRegistry) (task worker : ℕ) (rec : WorkspaceRecord) (h : List WorkspaceRecord)
    → IsConsistent r
    → get r.active_by_task task ≡ some rec
    → rec.worker_id ≡ worker
    → IsConsistent (record {
      active_by_task = remove r.active_by_task task;
      active_by_worker = remove r.active_by_worker worker;
      history = h;
    })
drop-IsConsistent r task worker rec h c e named = record {
  by_task = λ t other q. ground (arith, get-remove r.active_by_task task t, c.by_task t other);
  by_worker = λ w other q. ground (
    arith,
    get-remove r.active_by_worker worker w,
    named,
    get-remove r.active_by_task task other.task_id,
    c.by_worker w other,
    same other,
  );
}
  where
    same :
        (other : WorkspaceRecord)
        → get r.active_by_task other.task_id ≡ some other
        → other.task_id ≡ task
        → other.worker_id ≡ rec.worker_id
    same other q p = ground (arith, ap (get r.active_by_task) p, e, q)

pub release-IsConsistent :
    (r : WorkspaceRegistry) (task : ℕ) (state : ReleaseState) (strict : Bool) (now : ℕ)
    → IsConsistent r
    → IsConsistent (release_workspace r task state strict now).0
unfolding release_workspace
release-IsConsistent r task state strict now c = elim (Option-cases (get r.active_by_task task)) [
  | inl e ↦
      rw (e, release_workspace)
        (elim (Bool-cases (in_history r.history task)) [
          | inl p ↦ rw p c
          | inr p ↦ rw p (elim (Bool-cases strict) [ inl q ↦ rw q c | inr q ↦ rw q c ])
        ])
  | inr (rec, e) ↦ rw (e, release_workspace) (drop-IsConsistent r task rec.worker_id rec _ c e refl)
]

recover-IsConsistent :
    (r : WorkspaceRegistry) (worker : ℕ) (state : ReleaseState) (now : ℕ)
    → IsConsistent r
    → IsConsistent (release_for_worker r worker state now).0
unfolding release_for_worker
recover-IsConsistent r worker state now c = elim (Option-cases (get r.active_by_worker worker)) [
  | inl e ↦ rw (e, release_for_worker) c
  | inr (rec, e) ↦
      rw (e, release_for_worker)
        (drop-IsConsistent r rec.task_id worker rec _ c ((c.by_worker worker rec e).1)
          ((c.by_worker worker rec e).0))
]

unlock-IsConsistent :
    (r : WorkspaceRegistry) (worker : ℕ)
    → IsConsistent r
    → IsConsistent (release_worker_lock r worker)
unfolding release_worker_lock
unlock-IsConsistent r worker c = record {
  by_task = c.by_task;
  by_worker = λ w rec q. ground (arith, get-remove r.active_by_worker worker w, c.by_worker w rec);
}

sweep_task-IsConsistent :
    (r : WorkspaceRegistry) (limit now task : ℕ)
    → IsConsistent r
    → IsConsistent (sweep_task r limit now task).0
unfolding sweep_task
sweep_task-IsConsistent r limit now task c =
    elim (Bool-cases (is_stale limit now (get r.active_by_task task))) [
      | inl e ↦ rw e (release-IsConsistent r task invalidated true now c)
      | inr e ↦ rw e c
    ]

sweep-IsConsistent :
    (r : WorkspaceRegistry) (limit now : ℕ) (tasks : List ℕ)
    → IsConsistent r
    → IsConsistent (sweep r limit now tasks).0
unfolding sweep
sweep-IsConsistent r limit now [] c = c
sweep-IsConsistent r limit now (task ∷ rest) c =
    sweep-IsConsistent (sweep_task r limit now task).0 limit now rest
      (sweep_task-IsConsistent r limit now task c)

module _ (fnmatch : FilePath → FilePath → Bool) where
  fresh-IsConsistent :
      (r : WorkspaceRegistry) (rec : WorkspaceRecord)
      → IsConsistent r
      → rec.release_state ≡ active
      → has r.active_by_task rec.task_id ≡ false
      → IsConsistent (record r {
        active_by_task = put r.active_by_task rec.task_id rec;
        active_by_worker = put r.active_by_worker rec.worker_id rec;
      })
  unfolding has
  fresh-IsConsistent r rec c held new = record {
    by_task = λ t other q.
        ground (arith, get-put r.active_by_task rec.task_id rec t, c.by_task t other, held);
    by_worker = λ w other q. ground (
      arith,
      get-put r.active_by_worker rec.worker_id rec w,
      get-put r.active_by_task rec.task_id rec other.task_id,
      c.by_worker w other,
      there other,
    );
  }
    where
      there :
          (other : WorkspaceRecord)
          → get r.active_by_task other.task_id ≡ some other
          → rec.task_id ≢ other.task_id
      there other q p = ground (arith, ap (get r.active_by_task) p, q, new)

  acquire_as-IsConsistent :
      (r : WorkspaceRegistry) (tid w_id : ℕ) (claim : Footprint) (reads writes : List FilePath)
      (mode : String) (now : ℕ)
      → IsConsistent r
      → IsConsistent (acquire_as fnmatch r tid w_id claim reads writes mode now).0
  unfolding acquire_as
  acquire_as-IsConsistent r tid w_id claim reads writes mode now c =
      elim (Bool-cases (has r.active_by_task tid)) [
        | inl e ↦ rw e c
        | inr e ↦ elim (Bool-cases (has r.active_by_worker w_id)) [
          | inl p ↦ rw (e, p) c
          | inr p ↦
              elim (Option-cases (detect_active_conflict fnmatch claim (values r.active_by_task))) [
                | inr (found, q) ↦ rw (e, p, q) c
                | inl q ↦ rw (e, p, q) (fresh-IsConsistent r _ c refl e)
              ]
        ]
      ]

  pub run-IsConsistent :
      (r : WorkspaceRegistry) (c : Call) → IsConsistent r → IsConsistent (run fnmatch r c)
  unfolding acquire or_else from
  run-IsConsistent r (acquires none worker none mode reads writes now) h = h
  run-IsConsistent r (acquires none worker (some tid) mode reads writes now) h =
      acquire_as-IsConsistent r tid (from worker w_default)
        (record { owner = tid; reads = from reads []; writes = from writes []; mode = "branch" })
        (from reads []) (from writes []) (from mode "branch") now h
  run-IsConsistent r (acquires (some task) worker task_id mode reads writes now) h =
      acquire_as-IsConsistent r (from task_id task.task_id) (from worker w_default) (footprint task)
        _ _ _ now h
  run-IsConsistent r (releases task state strict now) h =
      release-IsConsistent r task state strict now h
  run-IsConsistent r (unlocks worker) h = unlock-IsConsistent r worker h
  run-IsConsistent r (recovers worker state now) h = recover-IsConsistent r worker state now h
  run-IsConsistent r (cleans none now) h = unfold cleanup_stale_ownership in h
  run-IsConsistent r (cleans (some limit) now) h =
      unfold cleanup_stale_ownership in sweep-IsConsistent r limit now (keys r.active_by_task) h
  run-IsConsistent r clears h = unfold clear in new_workspaces-IsConsistent

  -- Under any sequence of calls of the registry, from one that is consistent: each active record
  -- stands under its own task and is not released, and each worker with an entry is the worker that its
  -- record names, and that record is the active one of its task. An active record may have no entry
  -- for its worker.
  pub run_all-IsConsistent :
      (r : WorkspaceRegistry) (calls : List Call)
      → IsConsistent r
      → IsConsistent (run_all fnmatch r calls)
  unfolding run_all
  run_all-IsConsistent r [] h = h
  run_all-IsConsistent r (c ∷ cs) h =
      run_all-IsConsistent (run fnmatch r c) cs (run-IsConsistent r c h)
