-- ===== src/Graph/Defs.antt =====
-- The dictionary of tasks, the edges, the look-ups and the transitive closures of
-- `DependencyGraph`.
use adaptive_orchestrator.Base.{
  ℕ, zero, suc, ◌+◌, Bool, true, false, none, some, List, [], ◌∷◌, ◌++◌, ◌==◌, length, keep,
  contains, set_add, set_discard, Dict, get, has, put, keys, values,
}
use adaptive_orchestrator.Errors.{Result, ok, err, task_not_found, out_of_fuel, ◌>>=◌, ◌>>◌}
use adaptive_orchestrator.Task.{Task}

abbrev pub Graph : Type 0
Graph = Dict Task

-- `self._tasks[k].dependents`, for a task that is there.
unfoldable pub dependents_of : Graph → ℕ → List ℕ
dependents_of g k = elim (get g k) [ none ↦ [] | some t ↦ t.dependents ]

unfoldable pub dependencies_of : Graph → ℕ → List ℕ
dependencies_of g k = elim (get g k) [ none ↦ [] | some t ↦ t.dependencies ]

-- A write to the task object that the dictionary holds.
unfoldable pub modify : Graph → ℕ → (Task → Task) → Graph
modify g k f = elim (get g k) [ none ↦ g | some t ↦ put g k (f t) ]

unfoldable pub add_dependent : ℕ → Task → Task
add_dependent d t = record t { dependents = set_add t.dependents d }

unfoldable pub discard_dependent : ℕ → Task → Task
discard_dependent d t = record t { dependents = set_discard t.dependents d }

unfoldable pub add_prerequisite : ℕ → Task → Task
add_prerequisite p t = record t { dependencies = set_add t.dependencies p }

unfoldable pub discard_prerequisite : ℕ → Task → Task
discard_prerequisite p t = record t { dependencies = set_discard t.dependencies p }

unfoldable pub get_task : Graph → ℕ → Result Task
get_task g k = elim (get g k) [ none ↦ err task_not_found | some t ↦ ok t ]

unfoldable pub has_task : Graph → ℕ → Bool
has_task g k = has g k

unfoldable pub all_tasks : Graph → List Task
all_tasks g = values g

unfoldable pub task_count : Graph → ℕ
task_count g = length g

-- The `while stack` loop of `get_ancestors` and `get_descendants` on fuel. The top of the stack is
-- in front. The code pushes the members of a set in no particular order.
unfoldable pub closure : (ℕ → List ℕ) → ℕ → List ℕ → List ℕ → Result (List ℕ)
closure next zero stack seen = err out_of_fuel
closure next (suc fuel) [] seen = ok seen
closure next (suc fuel) (curr ∷ stack) seen = elim (contains seen curr) [
  | true ↦ closure next fuel stack seen
  | false ↦ closure next fuel (next curr ++ stack) (set_add seen curr)
]

-- The edges of a graph, which bound the rounds of the loop.
unfoldable pub edge_count : (ℕ → List ℕ) → List ℕ → ℕ
edge_count next [] = 0
edge_count next (k ∷ ks) = length (next k) + edge_count next ks

unfoldable pub closure_of : (ℕ → List ℕ) → Graph → ℕ → Result (List ℕ)
unfolding closure edge_count
closure_of next g k = closure next (suc (length (next k) + edge_count next (keys g))) (next k) []

unfoldable pub get_ancestors : Graph → ℕ → Result (List ℕ)
unfolding dependencies_of closure_of get_task
get_ancestors g k = do get_task g k; closure_of (dependencies_of g) g k

unfoldable pub get_descendants : Graph → ℕ → Result (List ℕ)
unfolding dependents_of closure_of get_task
get_descendants g k = do get_task g k; closure_of (dependents_of g) g k

unfoldable pub get_dependencies : Graph → ℕ → Result (List ℕ)
unfolding get_task
get_dependencies g k = do t ← get_task g k; ok t.dependencies

unfoldable pub get_dependents : Graph → ℕ → Result (List ℕ)
unfolding get_task
get_dependents g k = do t ← get_task g k; ok t.dependents

unfoldable pub get_root_tasks : Graph → List Task
get_root_tasks g = keep (λ t. length t.dependencies == 0) (values g)

unfoldable pub get_leaf_tasks : Graph → List Task
get_leaf_tasks g = keep (λ t. length t.dependents == 0) (values g)
