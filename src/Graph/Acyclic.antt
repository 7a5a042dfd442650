-- ===== src/Graph/Acyclic.antt =====
-- `detect_cycle` decides whether the graph has a cycle.
use adaptive_orchestrator.Base.{
  ℕ, suc, ◌<◌, ◌≡◌, refl, sym, ◌∙◌, ◌≢◌, true, Option, none, some, List, [], ◌∷◌, arith,
  if◌then◌else◌, is_some, length, contains, sorted, contains-sorted, Dict, get, keys,
}
use adaptive_orchestrator.Graph.Defs.{Graph, dependents_of}
use adaptive_orchestrator.Graph.Cycles.{
  unvisited, visited, Search, Verdict, found, clear, exhausted, parent_of, fill, detect,
  detect_cycle,
}
use adaptive_orchestrator.Graph.Colours.{colour, Stable, white-fill}
use adaptive_orchestrator.Graph.Search.{Reaches, edge, step, Ranks, Done}
use adaptive_orchestrator.Graph.Starts.{Idle, StartPost, looped, swept, search_from-Post}

-- No path of the graph leads from a task back to it. The edges are the ones that the search follows,
-- from a task to its dependents.
abbrev pub IsAcyclic : Graph → Type 0
IsAcyclic g = (k : ℕ) → ¬ (Reaches (dependents_of g) k k)

get-fill {ℓ} :
    {V : Type ℓ} (v : V) (ks : List ℕ) (k : ℕ)
    → get (fill v ks) k ≡ (if contains ks k then some v else none)
unfolding get fill contains
get-fill v [] k = refl
get-fill v (j ∷ ks) k = ground (arith, get-fill v ks k)

-- The colours before the search.
abbrev blank : Graph → Search
blank g = record { colours = fill unvisited (keys g); parents = fill none (keys g) }

blank-Idle : (g : Graph) → Idle g (suc (length (keys g))) (blank g)
blank-Idle g = record {
  settled = λ k e. ground (arith, get-fill unvisited (keys g) k);
  enough = omega (arith, white-fill (keys g));
  ranked = (
    λ k. 0,
    0,
    record {
      below = λ k e. ground (arith, get-fill unvisited (keys g) k);
      falls = λ k w e h p. ground (arith, get-fill unvisited (keys g) k);
    },
  );
  orphans = λ k e. unfold parent_of in ground (arith, get-fill {V = Option ℕ} none (keys g) k);
}

detect-Post :
    (g : Graph) → StartPost g (suc (length (keys g))) (sorted (keys g)) (blank g) (detect g)
unfolding detect
detect-Post g =
    search_from-Post g (suc (length (keys g))) (sorted (keys g)) (blank g) (blank-Idle g)

has_edge : (g : Graph) (k w : ℕ) → contains (dependents_of g k) w ≡ true → is_some (get g k) ≡ true
unfolding dependents_of contains
has_edge g k w e = ground arith

is_some-get : {V : Type 0} (d : Dict V) (k : ℕ) → is_some (get d k) ≡ contains (keys d) k
unfolding get keys contains
is_some-get [] k = refl
is_some-get ((j, v) ∷ d) k = ground (arith, is_some-get d k)

-- A search that ends with every task finished has ranked them.
module _ (g : Graph) (t : Search)
    (finished : (k : ℕ) → is_some (get g k) ≡ true → colour t k ≡ some visited) (rank : ℕ → ℕ)
    (bound : ℕ) (r : Ranks (dependents_of g) t rank bound) where
  Reaches-rank :
      {a b : ℕ} → Reaches (dependents_of g) a b → is_some (get g b) ≡ true → rank b < rank a
  Reaches-rank (edge {a = a} {b = b} e) p =
      (r.falls a b (finished a (has_edge g a b e)) e (rw (finished b p))).1
  Reaches-rank (step {a = a} {b = b} e rest) p = omega (
    arith,
    Reaches-rank rest p,
    (r.falls a b (finished a (has_edge g a b e)) e (rw (finished b (start rest)))).1,
  )
    where
      start : {x y : ℕ} → Reaches (dependents_of g) x y → is_some (get g x) ≡ true
      start (edge {a = x} {b = y} q) = has_edge g x y q
      start (step {a = x} {b = y} q s) = has_edge g x y q

blank_keys : (g : Graph) (k : ℕ) → is_some (colour (blank g) k) ≡ is_some (get g k)
blank_keys g k = ground (arith, get-fill unvisited (keys g) k, is_some-get g k)

-- No call of the search runs out of the model's fuel, whatever the graph.
pub detect_terminates : (g : Graph) → detect g ≢ exhausted
detect_terminates g e = elim (rw e at (detect-Post g)) [ ]

swept-IsAcyclic :
    (g : Graph) (t : Search)
    → Stable (blank g) t
    → Idle g (suc (length (keys g))) t
    → Done t (sorted (keys g))
    → IsAcyclic g
swept-IsAcyclic g t st idle done k loop =
    let (rank, bound, r) = idle.ranked in
    absurd (omega (arith, Reaches-rank g t all_finished rank bound r loop (first loop)))
  where
    all_finished : (j : ℕ) → is_some (get g j) ≡ true → colour t j ≡ some visited
    all_finished j p =
        done j (contains-sorted (keys g) j ∙ (sym (is_some-get g j) ∙ p))
          (st.same_keys j ∙ (blank_keys g j ∙ p))

    first : {x y : ℕ} → Reaches (dependents_of g) x y → is_some (get g x) ≡ true
    first (edge {a = x} {b = y} q) = has_edge g x y q
    first (step {a = x} {b = y} q s) = has_edge g x y q

-- The right verdicts of the search.
pub data Decides (g : Graph) : Option (List ℕ) → Type 0 where
  has_cycle : (c : List ℕ) (v : ℕ) → Reaches (dependents_of g) v v → Decides g (some c)
  no_cycle : IsAcyclic g → Decides g none

-- The verdict of `detect_cycle` is right on every graph: it reports a cycle only if some task
-- depends on itself through dependents, and None only if no task does.
pub detect_cycle-Decides : (g : Graph) → Decides g (detect_cycle g)
unfolding detect_cycle
detect_cycle-Decides g = decide (detect-Post g)
  where
    decide :
        {v : Verdict}
        → StartPost g (suc (length (keys g))) (sorted (keys g)) (blank g) v
        → Decides g (elim v [ found c ↦ some c | clear s ↦ none | exhausted ↦ none ])
    decide (looped c v r) = has_cycle c v r
    decide (swept t st idle done) = no_cycle (swept-IsAcyclic g t st idle done)
