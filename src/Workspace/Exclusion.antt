-- ===== src/Workspace/Exclusion.antt =====
-- The write sets of the active records of `WorkspaceRegistry`.
use adaptive_orchestrator.Base.{
  ℕ, String, ◌≡◌, refl, sym, ap, ◌∙◌, ◌≢◌, ◌⊎◌, inl, inr, Bool, true, false, none, some, List, [],
  ◌∷◌, ◌++◌, arith, Bool-cases, Option-cases, Dict, get, has, put, remove, keys, values, get-put,
  get-remove,
}
use adaptive_orchestrator.Task.{Task}
use adaptive_orchestrator.FilePaths.{FilePath, is_empty}
use adaptive_orchestrator.Collision.{
  normalize_set, Footprint, footprint, are_write_sets_overlapping,
}
use adaptive_orchestrator.Collision.Overlap.{
  are_write_sets_overlapping_comm, nothing-overlaps, overlaps-nothing, AreStable,
  overlapping-normalized,
}
use adaptive_orchestrator.Workspace.{
  ReleaseState, active, invalidated, WorkspaceRecord, WorkspaceRegistry, new_workspaces, w_default,
  is_held, close, or_else, from, record_in_conflict, detect_active_conflict, acquire_as, acquire,
  in_history, release_workspace, release_worker_lock, release_for_worker, is_stale, sweep_task,
  sweep, cleanup_stale_ownership, clear,
}
use adaptive_orchestrator.Workspace.Consistency.{
  IsConsistent, Call, acquires, releases, unlocks, recovers, cleans, clears, run, run_all,
  run-IsConsistent,
}

List-cases : (xs : List FilePath) → (xs ≡ []) ⊎ (is_empty xs ≡ false)
unfolding is_empty
List-cases [] = inl refl
List-cases (x ∷ xs) = inr refl

module _ (fnmatch : FilePath → FilePath → Bool) where
  -- The active records of two tasks write to no common path.
  abbrev pub IsExclusive : WorkspaceRegistry → Type 0
  IsExclusive r =
      (s t : ℕ) (a b : WorkspaceRecord)
      → get r.active_by_task s ≡ some a
      → get r.active_by_task t ≡ some b
      → s ≢ t
      → are_write_sets_overlapping fnmatch a.write_set b.write_set ≡ none

  rest_free :
      (claim : Footprint) (rec : WorkspaceRecord) (recs : List WorkspaceRecord)
      → record_in_conflict fnmatch claim (rec ∷ recs) ≡ none
      → record_in_conflict fnmatch claim recs ≡ none
  unfolding record_in_conflict
  rest_free claim rec recs q = ground (arith, q)

  first_free :
      (claim : Footprint) (b : WorkspaceRecord) (recs : List WorkspaceRecord)
      → record_in_conflict fnmatch claim (b ∷ recs) ≡ none
      → b.release_state ≡ active
      → b.task_id ≢ claim.owner
      → are_write_sets_overlapping fnmatch claim.writes b.write_set ≡ none
  unfolding record_in_conflict is_held
  first_free claim b recs q held other = elim (List-cases b.write_set) [
    | inl e ↦ rw e (overlaps-nothing fnmatch claim.writes)
    | inr e ↦ ground (arith, q, held, other, e)
  ]

  no_conflict :
      (claim : Footprint) (d : Dict WorkspaceRecord) (t : ℕ) (b : WorkspaceRecord)
      → record_in_conflict fnmatch claim (values d) ≡ none
      → get d t ≡ some b
      → b.release_state ≡ active
      → b.task_id ≢ claim.owner
      → are_write_sets_overlapping fnmatch claim.writes b.write_set ≡ none
  unfolding record_in_conflict values get
  no_conflict claim [] t b q e held other = ground (arith, e)
  no_conflict claim ((k, rec) ∷ d) t b q e held other =
      ground (arith, free_here, no_conflict claim d t b (rest_free claim rec (values d) q))
    where
      free_here : rec ≡ b → are_write_sets_overlapping fnmatch claim.writes b.write_set ≡ none
      free_here p = rw (sym p) (first_free claim rec (values d) q (rw p held) (rw p other))

  undetected :
      (claim : Footprint) (d : Dict WorkspaceRecord) (t : ℕ) (b : WorkspaceRecord)
      → detect_active_conflict fnmatch claim (values d) ≡ none
      → get d t ≡ some b
      → b.release_state ≡ active
      → b.task_id ≢ claim.owner
      → are_write_sets_overlapping fnmatch claim.writes b.write_set ≡ none
  unfolding detect_active_conflict
  undetected claim d t b q e held other = elim (List-cases claim.writes) [
    | inl none_written ↦ rw none_written (nothing-overlaps fnmatch b.write_set)
    | inr some_written ↦ no_conflict claim d t b (ground (arith, q, some_written)) e held other
  ]

  remove-IsExclusive :
      (r : WorkspaceRegistry) (task : ℕ) (w : Dict WorkspaceRecord) (h : List WorkspaceRecord)
      → IsExclusive r
      → IsExclusive (record {
        active_by_task = remove r.active_by_task task;
        active_by_worker = w;
        history = h;
      })
  remove-IsExclusive r task w h x s t a b es et ne = x s t a b (kept s a es) (kept t b et) ne
    where
      kept :
          (k : ℕ) (rec : WorkspaceRecord)
          → get (remove r.active_by_task task) k ≡ some rec
          → get r.active_by_task k ≡ some rec
      kept k rec g = ground (arith, get-remove r.active_by_task task k, g)

  -- The records of a new claim and of an active one.
  acquired-IsExclusive :
      (r : WorkspaceRegistry) (claim : Footprint) (rec : WorkspaceRecord)
      → IsConsistent r
      → IsExclusive r
      → rec.task_id ≡ claim.owner
      → rec.write_set ≡ normalize_set claim.writes
      → AreStable claim.writes
      → has r.active_by_task rec.task_id ≡ false
      → detect_active_conflict fnmatch claim (values r.active_by_task) ≡ none
      → IsExclusive (record r {
        active_by_task = put r.active_by_task rec.task_id rec;
        active_by_worker = put r.active_by_worker rec.worker_id rec;
      })
  unfolding has
  acquired-IsExclusive r claim rec c x own sets st new q s t a b es et ne = ground (
    arith,
    get-put r.active_by_task rec.task_id rec s,
    get-put r.active_by_task rec.task_id rec t,
    x s t a b,
    against t b,
    against s a,
    are_write_sets_overlapping_comm fnmatch a.write_set b.write_set,
  )
    where
      against :
          (k : ℕ) (other : WorkspaceRecord)
          → get r.active_by_task k ≡ some other
          → are_write_sets_overlapping fnmatch rec.write_set other.write_set ≡ none
      against k other e =
          rw (sets, overlapping-normalized fnmatch claim.writes other.write_set st)
            (undetected claim r.active_by_task k other q e ((c.by_task k other e).1)
              (ground (arith, (c.by_task k other e).0, own, new, e)))

  acquire_as-IsExclusive :
      (r : WorkspaceRegistry) (tid worker : ℕ) (claim : Footprint) (reads writes : List FilePath)
      (mode : String) (now : ℕ)
      → tid ≡ claim.owner
      → writes ≡ claim.writes
      → IsConsistent r
      → IsExclusive r
      → AreStable claim.writes
      → IsExclusive (acquire_as fnmatch r tid worker claim reads writes mode now).0
  unfolding acquire_as
  acquire_as-IsExclusive r tid worker claim reads writes mode now own same c x st =
      elim (Bool-cases (has r.active_by_task tid)) [
        | inl e ↦ rw e x
        | inr e ↦ elim (Bool-cases (has r.active_by_worker worker)) [
          | inl p ↦ rw (e, p) x
          | inr p ↦
              elim (Option-cases (detect_active_conflict fnmatch claim (values r.active_by_task))) [
                | inr (found, q) ↦ rw (e, p, q) x
                | inl q ↦
                    rw (e, p, q)
                      (acquired-IsExclusive r claim _ c x own (ap normalize_set same) st e q)
              ]
        ]
      ]

  release-IsExclusive :
      (r : WorkspaceRegistry) (task : ℕ) (state : ReleaseState) (strict : Bool) (now : ℕ)
      → IsExclusive r
      → IsExclusive (release_workspace r task state strict now).0
  unfolding release_workspace
  release-IsExclusive r task state strict now x = elim (Option-cases (get r.active_by_task task)) [
    | inl e ↦
        rw (e, release_workspace)
          (elim (Bool-cases (in_history r.history task)) [
            | inl p ↦ rw p x
            | inr p ↦ rw p (elim (Bool-cases strict) [ inl q ↦ rw q x | inr q ↦ rw q x ])
          ])
    | inr (rec, e) ↦
        rw (e, release_workspace)
          (remove-IsExclusive r task (remove r.active_by_worker rec.worker_id)
            (r.history ++ close rec state now ∷ []) x)
  ]

  recover-IsExclusive :
      (r : WorkspaceRegistry) (worker : ℕ) (state : ReleaseState) (now : ℕ)
      → IsExclusive r
      → IsExclusive (release_for_worker r worker state now).0
  unfolding release_for_worker
  recover-IsExclusive r worker state now x = elim (Option-cases (get r.active_by_worker worker)) [
    | inl e ↦ rw (e, release_for_worker) x
    | inr (rec, e) ↦
        rw (e, release_for_worker)
          (remove-IsExclusive r rec.task_id (remove r.active_by_worker worker)
            (r.history ++ close rec state now ∷ []) x)
  ]

  sweep_task-IsExclusive :
      (r : WorkspaceRegistry) (limit now task : ℕ)
      → IsExclusive r
      → IsExclusive (sweep_task r limit now task).0
  unfolding sweep_task
  sweep_task-IsExclusive r limit now task x =
      elim (Bool-cases (is_stale limit now (get r.active_by_task task))) [
        | inl e ↦ rw e (release-IsExclusive r task invalidated true now x)
        | inr e ↦ rw e x
      ]

  sweep-IsExclusive :
      (r : WorkspaceRegistry) (limit now : ℕ) (tasks : List ℕ)
      → IsExclusive r
      → IsExclusive (sweep r limit now tasks).0
  unfolding sweep
  sweep-IsExclusive r limit now [] x = x
  sweep-IsExclusive r limit now (task ∷ rest) x =
      sweep-IsExclusive (sweep_task r limit now task).0 limit now rest
        (sweep_task-IsExclusive r limit now task x)

  -- An acquisition records what it compares: the caller hands in no other identifier and no other
  -- write set beside a task object. The paths of that set are stable.
  abbrev pub IsStableCall : Call → Type 0
  IsStableCall (acquires none worker task_id mode reads writes now) = AreStable (from writes [])
  IsStableCall (acquires (some task) worker task_id mode reads writes now) =
      (writes ≡ none)
      × (from task_id task.task_id ≡ task.task_id)
      × AreStable (footprint task).writes
  IsStableCall (releases task state strict now) = Unit
  IsStableCall (unlocks worker) = Unit
  IsStableCall (recovers worker state now) = Unit
  IsStableCall (cleans limit now) = Unit
  IsStableCall clears = Unit

  unfoldable pub AreStableCalls : List Call → Type 0
  AreStableCalls [] = Unit
  AreStableCalls (c ∷ cs) = IsStableCall c × AreStableCalls cs

  pub new_workspaces-IsExclusive : IsExclusive new_workspaces
  unfolding get
  new_workspaces-IsExclusive s t a b es et ne = ground (arith, es)

  run-IsExclusive :
      (r : WorkspaceRegistry) (c : Call)
      → IsStableCall c
      → IsConsistent r
      → IsExclusive r
      → IsExclusive (run fnmatch r c)
  unfolding acquire or_else from
  run-IsExclusive r (acquires none worker none mode reads writes now) st h x = x
  run-IsExclusive r (acquires none worker (some tid) mode reads writes now) st h x =
      acquire_as-IsExclusive r tid (from worker w_default)
        (record { owner = tid; reads = from reads []; writes = from writes []; mode = "branch" })
        (from reads []) (from writes []) (from mode "branch") now refl refl h x st
  run-IsExclusive r (acquires (some task) worker task_id mode reads writes now) (w, own, st) h x =
      acquire_as-IsExclusive r (from task_id task.task_id) (from worker w_default) (footprint task)
        _ (from writes (footprint task).writes) _ now (own ∙ own_claim task)
        (ap (λ o. from o (footprint task).writes) w) h x st
    where
      own_claim : (t : Task) → t.task_id ≡ (footprint t).owner
      own_claim t = unfold footprint in refl
  run-IsExclusive r (releases task state strict now) st h x =
      release-IsExclusive r task state strict now x
  run-IsExclusive r (unlocks worker) st h x = unfold release_worker_lock in x
  run-IsExclusive r (recovers worker state now) st h x = recover-IsExclusive r worker state now x
  run-IsExclusive r (cleans none now) st h x = unfold cleanup_stale_ownership in x
  run-IsExclusive r (cleans (some limit) now) st h x =
      unfold cleanup_stale_ownership in sweep-IsExclusive r limit now (keys r.active_by_task) x
  run-IsExclusive r clears st h x = unfold clear in new_workspaces-IsExclusive

  -- Where no acquisition hands in an identifier or a write set that differs from those of the task
  -- object beside it, and the claimed paths are stable under a second normalization: after any sequence of calls of the registry, from one that is consistent
  -- and exclusive, the write sets of the active records of two different tasks do not overlap.
  pub run_all-IsExclusive :
      (r : WorkspaceRegistry) (calls : List Call)
      → AreStableCalls calls
      → IsConsistent r
      → IsExclusive r
      → IsExclusive (run_all fnmatch r calls)
  unfolding run_all AreStableCalls
  run_all-IsExclusive r [] st h x = x
  run_all-IsExclusive r (c ∷ cs) (s, st) h x =
      run_all-IsExclusive (run fnmatch r c) cs st (run-IsConsistent fnmatch r c h)
        (run-IsExclusive r c s h x)
