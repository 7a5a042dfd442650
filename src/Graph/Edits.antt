-- ===== src/Graph/Edits.antt =====
-- The methods of `DependencyGraph` that write: `add_task`, `add_dependency` and
-- `remove_dependency`, and the check `validate_integrity`.
use adaptive_orchestrator.Base.{
  ℕ, Bool, true, false, not, none, some, List, [], ◌∷◌, ◌==◌, if◌then◌else◌, every, contains, has,
  put, remove,
}
use adaptive_orchestrator.Errors.{
  duplicate_task, task_not_found, self_dependency, cycle_detected, unknown_dependency, name_error,
  Result, ok, err, ◌>>◌,
}
use adaptive_orchestrator.Task.{Task}
use adaptive_orchestrator.Graph.Defs.{
  Graph, dependents_of, dependencies_of, modify, add_dependent, discard_dependent, add_prerequisite,
  discard_prerequisite, get_descendants,
}
use adaptive_orchestrator.Graph.Cycles.{detect_cycle}

-- `for k in ks: ...`, a loop that writes to the graph.
unfoldable pub for_each : (ℕ → Graph → Graph) → List ℕ → Graph → Graph
for_each body [] g = g
for_each body (k ∷ ks) g = for_each body ks (body k g)

-- The task in the graph, with the reciprocal edges of its dependencies.
unfoldable pub link_task : Graph → Task → Graph
unfolding for_each
link_task g task =
    for_each (λ d h. modify h d (add_dependent task.task_id)) task.dependencies
      (put g task.task_id task)

-- The rollback of `add_task`.
unfoldable pub unlink_task : Graph → Task → Graph
unfolding for_each
unlink_task g task =
    remove (for_each (λ d h. modify h d (discard_dependent task.task_id)) task.dependencies g)
      task.task_id

unfoldable pub add_task : Graph → Task → Graph × Result (Unit {0})
unfolding link_task unlink_task
add_task g task =
    if has g task.task_id
    then (g, err duplicate_task)
    else if not (every (λ d. has g d) task.dependencies)
    then (g, err unknown_dependency)
    else elim (detect_cycle (link_task g task)) [
      | none ↦ (link_task g task, ok tt)
      | some cycle ↦ (unlink_task (link_task g task) task, err cycle_detected)
    ]

unfoldable pub add_edge : Graph → ℕ → ℕ → Graph
unfolding modify add_prerequisite add_dependent
add_edge g dependent prerequisite =
    modify (modify g dependent (add_prerequisite prerequisite)) prerequisite
      (add_dependent dependent)

unfoldable pub remove_edge : Graph → ℕ → ℕ → Graph
unfolding modify discard_prerequisite discard_dependent
remove_edge g dependent prerequisite =
    modify (modify g dependent (discard_prerequisite prerequisite)) prerequisite
      (discard_dependent dependent)

-- The part of `add_dependency` behind its guards.
unfoldable pub commit_edge : Graph → ℕ → ℕ → Graph × Result (Unit {0})
unfolding add_edge remove_edge
commit_edge g dependent prerequisite = elim (detect_cycle (add_edge g dependent prerequisite)) [
  | none ↦ (add_edge g dependent prerequisite, ok tt)
  | some cycle ↦
      (remove_edge (add_edge g dependent prerequisite) dependent prerequisite, err cycle_detected)
]

unfoldable pub add_dependency : Graph → ℕ → ℕ → Graph × Result (Unit {0})
unfolding commit_edge
add_dependency g dependent prerequisite =
    if dependent == prerequisite
    then (g, err self_dependency)
    else if not (has g dependent)
    then (g, err task_not_found)
    else if not (has g prerequisite)
    then (g, err unknown_dependency)
    else if contains (dependencies_of g dependent) prerequisite
    then (g, ok tt)
    else elim (get_descendants g dependent) [
      | err e ↦ (g, err e)
      | ok descendants ↦
          if contains descendants prerequisite
          then (g, err cycle_detected)
          else commit_edge g dependent prerequisite
    ]

-- The value says whether there was an edge to remove.
unfoldable pub remove_dependency : Graph → ℕ → ℕ → Graph × Result Bool
unfolding remove_edge
remove_dependency g dependent prerequisite =
    if not (has g dependent)
    then (g, err task_not_found)
    else if not (has g prerequisite)
    then (g, err unknown_dependency)
    else if contains (dependencies_of g dependent) prerequisite
    then (remove_edge g dependent prerequisite, ok true)
    else (g, ok false)

-- The checks of `validate_integrity` on the edges of one task. The class `DependencyError`, which
-- it means to raise for an edge with no reciprocal, is not imported in dag.py: Python raises
-- NameError in its place.
unfoldable pub check_dependencies : Graph → ℕ → List ℕ → Result (Unit {0})
check_dependencies g k [] = ok tt
check_dependencies g k (d ∷ ds) =
    let rest = check_dependencies g k ds in
    if not (has g d)
    then err unknown_dependency
    else if not (contains (dependents_of g d) k)
    then err name_error
    else rest

unfoldable pub check_dependents : Graph → ℕ → List ℕ → Result (Unit {0})
check_dependents g k [] = ok tt
check_dependents g k (d ∷ ds) =
    let rest = check_dependents g k ds in
    if not (has g d)
    then err unknown_dependency
    else if not (contains (dependencies_of g d) k)
    then err name_error
    else rest

unfoldable pub check_tasks : Graph → List (ℕ × Task) → Result (Unit {0})
unfolding check_dependencies check_dependents
check_tasks g [] = ok tt
check_tasks g ((k, t) ∷ rest) = do
  check_dependencies g k t.dependencies
  check_dependents g k t.dependents
  check_tasks g rest

unfoldable pub validate_integrity : Graph → Result (Unit {0})
unfolding check_tasks
validate_integrity g =
    check_tasks g g >> elim (detect_cycle g) [ none ↦ ok tt | some cycle ↦ err cycle_detected ]
