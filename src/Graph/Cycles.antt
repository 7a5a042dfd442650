-- ===== src/Graph/Cycles.antt =====
-- Cycle detection: `detect_cycle` and `_dfs_cycle`, a depth-first search with three colours.
use adaptive_orchestrator.Base.{
  ℕ, zero, suc, true, false, Option, none, some, List, [], ◌∷◌, ◌==◌, length, sorted, Dict, get,
  put, keys,
}
use adaptive_orchestrator.Graph.Defs.{Graph, dependents_of}

-- 0: UNVISITED, 1: VISITING, 2: VISITED
pub data Colour : Type 0 where
  unvisited visiting visited : Colour

-- The dictionaries `visited` and `parent`.
pub record Search : Type 0 where
  pub colours : Dict Colour
  pub parents : Dict (Option ℕ)

-- How a call of `_dfs_cycle` ends: with a cycle, with None, or out of the model's fuel.
pub data Verdict : Type 0 where
  found : List ℕ → Verdict
  clear : Search → Verdict
  exhausted : Verdict

unfoldable pub paint : Search → ℕ → Colour → Search
paint s k c = record s { colours = put s.colours k c }

unfoldable pub adopt : Search → ℕ → ℕ → Search
adopt s child node = record s { parents = put s.parents child (some node) }

-- `parent[k]`
unfoldable pub parent_of : Search → ℕ → Option ℕ
parent_of s k = elim (get s.parents k) [ none ↦ none | some p ↦ p ]

-- The loop that follows the parents from `curr` to `neighbor`; `cycle` is the list so far,
-- reversed, so that the final `reverse` is done already.
unfoldable pub climb : ℕ → Search → ℕ → ℕ → List ℕ → Verdict
unfolding parent_of
climb zero s neighbor curr cycle = exhausted
climb (suc fuel) s neighbor curr cycle = elim (parent_of s curr) [
  | none ↦ found (neighbor ∷ cycle)
  | some p ↦ elim (p == neighbor) [
    | true ↦ found (neighbor ∷ cycle)
    | false ↦ climb fuel s neighbor p (p ∷ cycle)
  ]
]

-- The loop over the sorted dependents of a node; `recur` is the recursive call.
unfoldable pub visit_all : (ℕ → Search → Verdict) → ℕ → ℕ → List ℕ → Search → Verdict
unfolding climb adopt
visit_all recur limit node [] s = clear s
visit_all recur limit node (neighbor ∷ rest) s = elim (get s.colours neighbor) [
  | none ↦ visit_all recur limit node rest s
  | some colour ↦ elim colour [
    | visiting ↦ climb limit s neighbor node (node ∷ neighbor ∷ [])
    | unvisited ↦ elim (recur neighbor (adopt s neighbor node)) [
      | found cycle ↦ found cycle
      | clear t ↦ visit_all recur limit node rest t
      | exhausted ↦ exhausted
    ]
    | visited ↦ visit_all recur limit node rest s
  ]
]

-- `visited[node] = 2` at the end of a call that found nothing.
unfoldable pub finish : ℕ → Verdict → Verdict
unfolding paint
finish node (found cycle) = found cycle
finish node (clear s) = clear (paint s node visited)
finish node exhausted = exhausted

unfoldable pub dfs_cycle : Graph → ℕ → ℕ → ℕ → Search → Verdict
unfolding visit_all finish dependents_of paint
dfs_cycle g limit zero node s = exhausted
dfs_cycle g limit (suc fuel) node s = finish node (
    visit_all (dfs_cycle g limit fuel) limit node (sorted (dependents_of g node))
      (paint s node visiting))

-- The loop of `detect_cycle` over the sorted keys.
unfoldable pub search_from : Graph → ℕ → List ℕ → Search → Verdict
unfolding dfs_cycle
search_from g limit [] s = clear s
search_from g limit (start ∷ rest) s = elim (get s.colours start) [
  | none ↦ search_from g limit rest s
  | some colour ↦ elim colour [
    | unvisited ↦ elim (dfs_cycle g limit limit start s) [
      | found cycle ↦ found cycle
      | clear t ↦ search_from g limit rest t
      | exhausted ↦ exhausted
    ]
    | visiting ↦ search_from g limit rest s
    | visited ↦ search_from g limit rest s
  ]
]

unfoldable pub fill {ℓ} : {V : Type ℓ} → V → List ℕ → Dict V
fill v [] = []
fill v (k ∷ ks) = (k, v) ∷ fill v ks

-- The fuel is one more than the number of tasks.
unfoldable pub detect : Graph → Verdict
unfolding search_from fill sorted keys
detect g =
    search_from g (suc (length (keys g))) (sorted (keys g))
      (record { colours = fill unvisited (keys g); parents = fill none (keys g) })

-- `cycle = self.detect_cycle()`: the cycle, or None.
unfoldable pub detect_cycle : Graph → Option (List ℕ)
unfolding detect
detect_cycle g = elim (detect g) [ found cycle ↦ some cycle | clear s ↦ none | exhausted ↦ none ]
