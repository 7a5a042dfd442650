-- ===== src/Scenarios/Workspaces.antt =====
-- Workspaces of tasks that write.
use adaptive_orchestrator.Base.{
  ℕ, String, ◌≡◌, refl, Bool, true, false, not, ◌&&◌, none, some, List, [], ◌∷◌, arith, is_some,
  get, has,
}
use adaptive_orchestrator.FilePaths.{
  FilePath, codes, paths_of, same_path, clean, normpath, normalize_path,
}
use adaptive_orchestrator.Collision.{footprint, are_write_sets_overlapping}
use adaptive_orchestrator.Collision.Overlap.{are_write_sets_overlapping_comm, AreStable}
use adaptive_orchestrator.Workspace.{
  active, released, WorkspaceRecord, WorkspaceRegistry, new_workspaces, from, can_acquire, acquire,
  release_workspace,
}
use adaptive_orchestrator.Workspace.Consistency.{
  IsConsistent, Call, acquires, releases, unlocks, run_all, new_workspaces-IsConsistent,
  run_all-IsConsistent,
}
use adaptive_orchestrator.Workspace.Exclusion.{
  IsExclusive, AreStableCalls, new_workspaces-IsExclusive, run_all-IsExclusive,
}
use adaptive_orchestrator.Workspace.Grants.{granted, acquire-can_acquire, release_workspace-foreign}
use adaptive_orchestrator.Task.{assigned, Task}
use adaptive_orchestrator.Scenarios.Tasks.{sample}

-- A matcher with no wildcards.
abbrev matcher : FilePath → FilePath → Bool
matcher name pattern = same_path name pattern

abbrev writer : ℕ → List String → Task
writer k paths = record (sample k assigned [] []) { write_set = paths }

abbrev calls : List Call
calls =
    acquires (some (writer 1 ("Src/Api" ∷ []))) (some 1) none none none none 5
    ∷ acquires none none (some 2) none none (some (codes "docs/" ∷ [])) 6
    ∷ unlocks 1
    ∷ releases 2 released true 8
    ∷ []

stable_calls : AreStableCalls matcher calls
unfolding AreStableCalls AreStable from paths_of normalize_path normpath footprint clean
stable_calls = ((refl, refl, (refl, tt)), ((refl, tt), (tt, (tt, tt))))

run_all-IsExclusive_example : IsExclusive matcher (run_all matcher new_workspaces calls)
run_all-IsExclusive_example =
    run_all-IsExclusive matcher new_workspaces calls stable_calls new_workspaces-IsConsistent
      (new_workspaces-IsExclusive matcher)

run_all-IsConsistent_example : IsConsistent (run_all matcher new_workspaces calls)
run_all-IsConsistent_example =
    run_all-IsConsistent matcher new_workspaces calls new_workspaces-IsConsistent

acquire-can_acquire_example :
    let out = acquire matcher new_workspaces (some (writer 1 [])) (some 3) none none none none 5 in
    (granted out ≡ (
      can_acquire matcher new_workspaces (writer 1 [])
      && not (has new_workspaces.active_by_worker 3)))
    × (granted out ≡ false → out.0 ≡ new_workspaces)
acquire-can_acquire_example = acquire-can_acquire matcher new_workspaces (writer 1 []) 3 5

are_write_sets_overlapping_comm_example :
    is_some (are_write_sets_overlapping matcher (codes "src/api" ∷ []) (codes "src" ∷ []))
    ≡ is_some (are_write_sets_overlapping matcher (codes "src" ∷ []) (codes "src/api" ∷ []))
are_write_sets_overlapping_comm_example =
    are_write_sets_overlapping_comm matcher (codes "src/api" ∷ []) (codes "src" ∷ [])

-- Two records of one worker, whose lock is the second one's.
abbrev held_record : ℕ → WorkspaceRecord
held_record task = record {
  task_id = task;
  worker_id = 3;
  workspace_mode = "branch";
  read_set = [];
  write_set = [];
  acquired_at = task;
  released_at = none;
  release_state = active;
}

abbrev shared : WorkspaceRegistry
shared = record {
  active_by_task = (1, held_record 1) ∷ (2, held_record 2) ∷ [];
  active_by_worker = (3, held_record 2) ∷ [];
  history = [];
}

release_workspace-foreign_example :
    (get (release_workspace shared 1 released true 9).0.active_by_worker 3 ≡ none)
    × (get (release_workspace shared 1 released true 9).0.active_by_task 2 ≡ some (held_record 2))
unfolding get
release_workspace-foreign_example =
    release_workspace-foreign shared (held_record 1) (held_record 2) released true 9 refl refl refl
      refl (λ p. ground (arith, p))
