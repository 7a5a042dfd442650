-- ===== src/Scenarios/Graphs.antt =====
-- Graphs of tasks.
use adaptive_orchestrator.Base.{
  ℕ, ◌≡◌, refl, ◌≢◌, List, [], ◌∷◌, arith, every, contains, get, has, put,
}
use adaptive_orchestrator.Errors.{out_of_fuel, ok, err}
use adaptive_orchestrator.Task.{pending, passed, Task}
use adaptive_orchestrator.Graph.{Graph, dependencies_of, get_ancestors, get_descendants}
use adaptive_orchestrator.Graph.{exhausted, detect, detect_cycle}
use adaptive_orchestrator.Graph.{link_task, add_task, add_dependency}
use adaptive_orchestrator.Graph.{topological_sort}
use adaptive_orchestrator.Graph.Acyclic.{detect_terminates, Decides, detect_cycle-Decides}
use adaptive_orchestrator.Graph.Invariant.{IsSound, IsSound-nil, add_dependency-IsSound}
use adaptive_orchestrator.Graph.Adding.{IsAdded, add_task-IsAdded}
use adaptive_orchestrator.Graph.Rounds.{topological_sort_terminates}
use adaptive_orchestrator.Graph.Closures.{closures_terminate}
use adaptive_orchestrator.Scenarios.Tasks.{sample}
use adaptive_orchestrator.Resolver.{resolve_all_ready}
use adaptive_orchestrator.Resolver.Promotion.{IsClosed, promoted, is_ready}
use adaptive_orchestrator.Resolver.Ready.{resolve_all_ready-exact}

-- Two tasks that depend on each other.
abbrev cyclic : Graph
cyclic = (1, sample 1 pending (2 ∷ []) (2 ∷ [])) ∷ (2, sample 2 pending (1 ∷ []) (1 ∷ [])) ∷ []

detect_terminates_example : detect cyclic ≢ exhausted
detect_terminates_example = detect_terminates cyclic

detect_cycle-Decides_example : Decides cyclic (detect_cycle cyclic)
detect_cycle-Decides_example = detect_cycle-Decides cyclic

abbrev first_task : Task
first_task = sample 1 passed [] []

abbrev second_task : Task
second_task = sample 2 pending (1 ∷ []) []

abbrev one : Graph
one = (add_task [] first_task).0

one-IsSound : IsSound one
unfolding has every
one-IsSound = (add_task-IsAdded [] first_task IsSound-nil refl refl refl).sound

add_task-IsAdded_example : IsAdded one second_task (add_task one second_task)
unfolding has every add_task link_task detect_cycle put
add_task-IsAdded_example = add_task-IsAdded one second_task one-IsSound refl refl refl

-- Two tasks with no edge.
abbrev apart : Graph
apart = (add_task one (sample 2 pending [] [])).0

apart-IsSound : IsSound apart
unfolding has every add_task link_task detect_cycle put
apart-IsSound = (add_task-IsAdded one (sample 2 pending [] []) one-IsSound refl refl refl).sound

add_dependency-IsSound_example : IsSound (add_dependency apart 2 1).0
add_dependency-IsSound_example = add_dependency-IsSound apart 2 1 apart-IsSound

-- The second task waits for the first, which has passed.
abbrev released : Graph
released = (1, sample 1 passed [] (2 ∷ [])) ∷ (2, sample 2 pending (1 ∷ []) []) ∷ []

released-IsClosed : IsClosed released
unfolding dependencies_of contains has get
released-IsClosed k d e = ground arith

resolve_all_ready-exact_example :
    (ids : List ℕ) × ((resolve_all_ready released 5).1 ≡ ok ids)
    × ((k : ℕ) → get (resolve_all_ready released 5).0 k ≡ promoted released k)
    × ((k : ℕ) → contains ids k ≡ is_ready (get (resolve_all_ready released 5).0 k))
resolve_all_ready-exact_example = resolve_all_ready-exact released 5 released-IsClosed

topological_sort_terminates_example : topological_sort cyclic ≢ err out_of_fuel
topological_sort_terminates_example = topological_sort_terminates cyclic

closures_terminate_example :
    (get_ancestors cyclic 1 ≢ err out_of_fuel) × (get_descendants cyclic 1 ≢ err out_of_fuel)
closures_terminate_example = closures_terminate cyclic 1
