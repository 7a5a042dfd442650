-- ===== src/Mutations.antt =====
-- orchestrator/graph/mutations.py: `GraphMutationEngine`, whose `add_task`, `add_dependency` and
-- `remove_dependency` are those of the graph.
pub mod Invalidation
use adaptive_orchestrator.Base.{
  ℕ, Bool, not, ◌||◌, none, some, List, [], ◌∷◌, if◌then◌else◌, keep, contains, set_add, get, has,
  put,
}
use adaptive_orchestrator.Errors.{task_not_found, Result, ok, err, ◌>>=◌}
use adaptive_orchestrator.Task.{
  TaskState, pending, blocked, ready, running, verifying, passed, failed, cancelled, Task,
  same_state, in_states,
}
use adaptive_orchestrator.Graph.{Graph, get_descendants}
use adaptive_orchestrator.Graph.{topological_sort}

-- `status in (PASSED, FAILED)` or `status in (READY, RUNNING, VERIFYING, BLOCKED)`
unfoldable pub is_revoked : TaskState → Bool
unfolding in_states
is_revoked s =
    in_states s (passed ∷ failed ∷ []) || in_states s (ready ∷ running ∷ verifying ∷ blocked ∷ [])

-- The body of the loop: what becomes of one task.
unfoldable pub invalidated : Task → Task
unfolding is_revoked same_state
invalidated t = if same_state t.status cancelled then t else record t {
  status = (if is_revoked t.status then pending else t.status);
  result = none;
  error = none;
  completed_at = none;
}

unfoldable pub invalidate_all : Graph → List ℕ → Graph × Result (Unit {0})
unfolding invalidated
invalidate_all g [] = (g, ok tt)
invalidate_all g (k ∷ ks) = elim (get g k) [
  | none ↦ (g, err task_not_found)
  | some t ↦ invalidate_all (put g k (invalidated t)) ks
]

unfoldable pub invalidate_task : Graph → ℕ → Graph × Result (List ℕ)
unfolding invalidate_all
invalidate_task g k =
    if not (has g k) then (g, err task_not_found) else elim (get_descendants g k) [
      | err e ↦ (g, err e)
      | ok descendants ↦ elim (topological_sort g) [
        | err e ↦ (g, err e)
        | ok full_order ↦
            let affected = keep (λ j. contains (set_add descendants k) j) full_order in
            let out = invalidate_all g affected in (out.0, out.1 >>= λ u. ok affected)
      ]
    ]
