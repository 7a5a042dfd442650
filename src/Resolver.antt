-- ===== src/Resolver.antt =====
-- orchestrator/resolver.py: `DependencyResolver`. Lists of tasks are given by their identifiers, and
-- the graph by its tasks, which the code changes in place. Each task is stored under its own
-- identifier, so the tasks in the order of their identifiers are those of the sorted keys.
pub mod Promotion
pub mod Ready
use adaptive_orchestrator.Base.{
  ℕ, ◌+◌, Bool, true, false, ◌||◌, none, some, List, [], ◌∷◌, ◌==◌, if◌then◌else◌, length, sorted,
  get, put, keys,
}
use adaptive_orchestrator.Errors.{task_not_found, Result, ok, err, ◌>>=◌}
use adaptive_orchestrator.Task.{
  TaskState, pending, blocked, ready, assigned, running, verifying, passed, merged, failed,
  retrying, cancelled, same_state, is_terminal, is_success, in_states, transition_to,
}
use adaptive_orchestrator.Graph.{Graph}

-- `status in (...)` at the top of `is_task_ready`
unfoldable pub is_settled : TaskState → Bool
unfolding in_states
is_settled s =
    in_states s
      (assigned ∷ running ∷ verifying ∷ passed ∷ merged ∷ failed ∷ retrying ∷ cancelled ∷ [])

-- `status in (TaskState.PENDING, TaskState.BLOCKED)`
unfoldable pub is_waiting : TaskState → Bool
unfolding in_states
is_waiting s = in_states s (pending ∷ blocked ∷ [])

-- The loop over the direct dependencies.
unfoldable pub all_successful : Graph → List ℕ → Result Bool
all_successful g [] = ok true
all_successful g (d ∷ ds) = elim (get g d) [
  | none ↦ err task_not_found
  | some t ↦ elim (is_success t.status) [ false ↦ ok false | true ↦ all_successful g ds ]
]

unfoldable pub is_task_ready : Graph → ℕ → Result Bool
unfolding all_successful is_settled
is_task_ready g k = elim (get g k) [
  | none ↦ err task_not_found
  | some t ↦
      if is_settled t.status
      then ok false
      else if length t.dependencies == 0
      then ok true
      else all_successful g t.dependencies
]

-- The prerequisites of a dependent, other than `task`, that have not succeeded.
unfoldable pub unsatisfied : Graph → ℕ → List ℕ → Result (List ℕ)
unsatisfied g task [] = ok []
unsatisfied g task (p ∷ ps) = elim (p == task) [
  | true ↦ unsatisfied g task ps
  | false ↦ elim (get g p) [
    | none ↦ err task_not_found
    | some t ↦ do rest ← unsatisfied g task ps; ok (if is_success t.status then rest else p ∷ rest)
  ]
]

-- The loop over the dependents of `task`.
unfoldable pub count_unlocked : Graph → ℕ → List ℕ → Result ℕ
unfolding unsatisfied
count_unlocked g task [] = ok 0
count_unlocked g task (d ∷ ds) = elim (get g d) [
  | none ↦ err task_not_found
  | some t ↦ elim (is_terminal t.status || same_state t.status running) [
    | true ↦ count_unlocked g task ds
    | false ↦ do
      missing ← unsatisfied g task t.dependencies
      rest ← count_unlocked g task ds
      ok (if length missing == 0 then 1 + rest else rest)
  ]
]

unfoldable pub calculate_unlock_value : Graph → ℕ → Result ℕ
unfolding count_unlocked
calculate_unlock_value g k = elim (get g k) [
  | none ↦ err task_not_found
  | some t ↦ count_unlocked g k t.dependents
]

-- `xs.append(k)` in front of what the rest of a loop appends.
unfoldable pub listed : ℕ → Graph × Result (List ℕ) → Graph × Result (List ℕ)
listed k out = (out.0, out.1 >>= λ ks. ok (k ∷ ks))

-- The loop of `resolve_all_ready`.
unfoldable pub sweep : ℕ → Graph → List ℕ → Graph × Result (List ℕ)
unfolding listed is_task_ready is_waiting
sweep now g [] = (g, ok [])
sweep now g (k ∷ ks) = elim (get g k) [
  | none ↦ (g, err task_not_found)
  | some t ↦ elim (is_waiting t.status) [
    | true ↦ elim (is_task_ready g k) [
      | err e ↦ (g, err e)
      | ok false ↦ sweep now g ks
      | ok true ↦ elim (transition_to t ready now) [
        | err e ↦ (g, err e)
        | ok u ↦ listed k (sweep now (put g k u) ks)
      ]
    ]
    | false ↦ elim (same_state t.status ready) [
      | true ↦ listed k (sweep now g ks)
      | false ↦ sweep now g ks
    ]
  ]
]

unfoldable pub resolve_all_ready : Graph → ℕ → Graph × Result (List ℕ)
unfolding sweep
resolve_all_ready g now = sweep now g (sorted (keys g))

-- The loop of `resolve_dependents_on_completion`.
unfoldable pub release_dependents : ℕ → Graph → List ℕ → Graph × Result (List ℕ)
unfolding listed is_task_ready is_waiting
release_dependents now g [] = (g, ok [])
release_dependents now g (k ∷ ks) = elim (get g k) [
  | none ↦ (g, err task_not_found)
  | some t ↦ elim (is_waiting t.status) [
    | true ↦ elim (is_task_ready g k) [
      | err e ↦ (g, err e)
      | ok false ↦ release_dependents now g ks
      | ok true ↦ elim (transition_to t ready now) [
        | err e ↦ (g, err e)
        | ok u ↦ listed k (release_dependents now (put g k u) ks)
      ]
    ]
    | false ↦ release_dependents now g ks
  ]
]

unfoldable pub resolve_dependents_on_completion : Graph → ℕ → ℕ → Graph × Result (List ℕ)
unfolding release_dependents
resolve_dependents_on_completion g k now = elim (get g k) [
  | none ↦ (g, err task_not_found)
  | some t ↦ release_dependents now g (sorted t.dependents)
]

-- The loop of `resolve_dependents_on_failure`.
unfoldable pub block_dependents : ℕ → Graph → List ℕ → Graph × Result (List ℕ)
unfolding listed
block_dependents now g [] = (g, ok [])
block_dependents now g (k ∷ ks) = elim (get g k) [
  | none ↦ (g, err task_not_found)
  | some t ↦ elim (same_state t.status pending) [
    | true ↦ elim (transition_to t blocked now) [
      | err e ↦ (g, err e)
      | ok u ↦ listed k (block_dependents now (put g k u) ks)
    ]
    | false ↦ block_dependents now g ks
  ]
]

unfoldable pub resolve_dependents_on_failure : Graph → ℕ → ℕ → Graph × Result (List ℕ)
unfolding block_dependents
resolve_dependents_on_failure g k now = elim (get g k) [
  | none ↦ (g, err task_not_found)
  | some t ↦ block_dependents now g (sorted t.dependents)
]
