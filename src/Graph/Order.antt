-- ===== src/Graph/Order.antt =====
-- `topological_sort`: Kahn's algorithm on the in-degrees, with the ready tasks kept sorted.
use adaptive_orchestrator.Base.{
  ℕ, zero, suc, Bool, not, ◌&&◌, none, some, List, [], ◌∷◌, ◌++◌, ◌==◌, if◌then◌else◌, length,
  sorted, Dict, get, put,
}
use adaptive_orchestrator.Base.Int.{ℤ, pos, negsuc, pos_part, neg_part, ◌+ℤ◌}
use adaptive_orchestrator.Errors.{cycle_detected, key_error, out_of_fuel, Result, ok, err, ◌>>=◌}
use adaptive_orchestrator.Graph.Defs.{Graph, dependents_of}

unfoldable pub is_zero : ℤ → Bool
is_zero a = pos_part a == 0 && neg_part a == 0

unfoldable pub in_degrees : Graph → Dict ℤ
in_degrees [] = []
in_degrees ((k, t) ∷ g) = (k, pos (length t.dependencies)) ∷ in_degrees g

-- `[task_id for task_id, degree in in_degree.items() if degree == 0]`
unfoldable pub zero_keys : Dict ℤ → List ℕ
unfolding is_zero
zero_keys [] = []
zero_keys ((k, n) ∷ d) = let rest = zero_keys d in if is_zero n then k ∷ rest else rest

-- The loop over the dependents of a task: the degrees after it, and the newly ready tasks.
unfoldable pub decrement : Dict ℤ → List ℕ → Result (Dict ℤ × List ℕ)
unfolding is_zero
decrement degrees [] = ok (degrees, [])
decrement degrees (d ∷ ds) = elim (get degrees d) [
  | none ↦ err key_error
  | some n ↦ do
    rest ← decrement (put degrees d (n +ℤ negsuc 0)) ds
    ok (rest.0, if is_zero (n +ℤ negsuc 0) then d ∷ rest.1 else rest.1)
]

-- The `while ready` loop on fuel.
unfoldable pub kahn : Graph → ℕ → Dict ℤ → List ℕ → List ℕ → Result (List ℕ)
unfolding decrement dependents_of
kahn g zero degrees waiting order = err out_of_fuel
kahn g (suc fuel) degrees [] order = ok order
kahn g (suc fuel) degrees (curr ∷ waiting) order = do
  next ← decrement degrees (sorted (dependents_of g curr))
  kahn g fuel next.0 (sorted (waiting ++ next.1)) (order ++ curr ∷ [])

-- A task becomes ready at most once, so the number of tasks bounds the rounds.
unfoldable pub topological_sort : Graph → Result (List ℕ)
unfolding kahn in_degrees zero_keys
topological_sort g = do
  order ← kahn g (suc (length g)) (in_degrees g) (sorted (zero_keys (in_degrees g))) []
  if not (length order == length g) then err cycle_detected else ok order
