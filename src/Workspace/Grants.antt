-- ===== src/Workspace/Grants.antt =====
-- When `acquire` grants a workspace, and what `release` takes away.
use adaptive_orchestrator.Base.{
  ℕ, ◌≡◌, refl, ◌≢◌, inl, inr, Bool, true, false, not, ◌&&◌, none, some, List, [], arith,
  Bool-cases, Option-cases, get, has, values, get-remove, get-put_self,
}
use adaptive_orchestrator.Task.{Task}
use adaptive_orchestrator.FilePaths.{FilePath, paths_of, is_empty}
use adaptive_orchestrator.Collision.{normalize_set, footprint}
use adaptive_orchestrator.Errors.{Result, ok, err}
use adaptive_orchestrator.Workspace.{
  ReleaseState, WorkspaceRecord, WorkspaceRegistry, or_else, from, detect_active_conflict,
  can_acquire, acquire_as, acquire, release_workspace,
}

-- The call has returned a record.
abbrev pub granted : WorkspaceRegistry × Result WorkspaceRecord → Bool
granted out = elim out.1 [ ok rec ↦ true | err e ↦ false ]

-- For a task's own claim, `acquire` grants the workspace exactly where `can_acquire` says so and the
-- worker holds none, and a registry that refuses it is unchanged.
pub acquire-can_acquire :
    (fnmatch : FilePath → FilePath → Bool) (r : WorkspaceRegistry) (task : Task) (worker now : ℕ)
    → let out = acquire fnmatch r (some task) (some worker) none none none none now in
      (granted out ≡ (can_acquire fnmatch r task && not (has r.active_by_worker worker)))
      × (granted out ≡ false → out.0 ≡ r)
unfolding acquire or_else from acquire_as can_acquire footprint
acquire-can_acquire fnmatch r task worker now =
    elim (Bool-cases (has r.active_by_task task.task_id)) [
      | inl e ↦ rw e (refl, λ q. refl)
      | inr e ↦
          elim (Option-cases
            (detect_active_conflict fnmatch (footprint task) (values r.active_by_task))) [
              | inl p ↦ elim (Bool-cases (has r.active_by_worker worker)) [
                | inl q ↦ rw (e, p, q) (refl, λ z. refl)
                | inr q ↦ rw (e, p, q) (refl, λ z. ground (arith, z))
              ]
              | inr (c, p) ↦ elim (Bool-cases (has r.active_by_worker worker)) [
                | inl q ↦ rw (e, p, q) (refl, λ z. refl)
                | inr q ↦ rw (e, p, q) (refl, λ z. refl)
              ]
            ]
    ]

-- A write set that the caller hands in beside the task object is recorded and not compared: for a
-- task that declares no write set, any paths are granted, whatever the active records write to.
pub acquire-unchecked :
    (fnmatch : FilePath → FilePath → Bool) (r : WorkspaceRegistry) (task : Task) (worker now : ℕ)
    (writes : List FilePath)
    → task.write_set ≡ []
    → has r.active_by_task task.task_id ≡ false
    → has r.active_by_worker worker ≡ false
    → (rec : WorkspaceRecord) × (get
          (acquire fnmatch r
            (some task)
            (some worker)
            none
            none
            none
            (some writes)
            now).0.active_by_task
          task.task_id
        ≡ some rec)
      × (rec.write_set ≡ normalize_set writes)
unfolding acquire or_else from acquire_as detect_active_conflict footprint paths_of is_empty
acquire-unchecked fnmatch r task worker now writes bare e p =
    rw (bare, e, p) (_, get-put_self r.active_by_task task.task_id _, refl)

-- Where the lock of a worker has been given up and the worker has taken another task, the release of
-- the first task takes away the worker's entry for the second, which stays an active task.
pub release_workspace-foreign :
    (r : WorkspaceRegistry) (first second : WorkspaceRecord) (state : ReleaseState) (strict : Bool)
    (now : ℕ)
    → get r.active_by_task first.task_id ≡ some first
    → get r.active_by_task second.task_id ≡ some second
    → get r.active_by_worker second.worker_id ≡ some second
    → first.worker_id ≡ second.worker_id
    → first.task_id ≢ second.task_id
    → (get (release_workspace r first.task_id state strict now).0.active_by_worker second.worker_id
        ≡ none)
      × (get (release_workspace r first.task_id state strict now).0.active_by_task second.task_id
          ≡ some second)
unfolding release_workspace
release_workspace-foreign r first second state strict now a b c same other =
    rw (a, release_workspace)
      (
        ground (arith, get-remove r.active_by_worker first.worker_id second.worker_id, same),
        ground (arith, get-remove r.active_by_task first.task_id second.task_id, other, b),
      )
