-- ===== src/Graph/Descendants.antt =====
-- What `get_descendants` returns lies in the graph.
use adaptive_orchestrator.Base.{
  ℕ, zero, suc, ◌+◌, ◌≡◌, refl, sym, ◌∙◌, ◌⊎◌, inl, inr, Bool, true, List, [], ◌∷◌, ◌++◌, arith,
  Bool-cases, Option-cases, length, contains, set_add, contains-append, contains-set_add, get, has,
  keys,
}
use adaptive_orchestrator.Errors.{out_of_fuel, ok, err, Result-cases}
use adaptive_orchestrator.Graph.Defs.{
  Graph, dependents_of, dependencies_of, get_task, closure, edge_count, closure_of, get_descendants,
}
use adaptive_orchestrator.Graph.Invariant.{IsSound}
use adaptive_orchestrator.Graph.Closures.{closures_terminate}

-- Whatever holds of all successors holds of what the closure collects.
closure-sub :
    (p : ℕ → Bool) (next : ℕ → List ℕ)
    → ((x y : ℕ) → contains (next x) y ≡ true → p y ≡ true)
    → (fuel : ℕ) (stack seen out : List ℕ) → ((y : ℕ) → contains stack y ≡ true → p y ≡ true)
    → ((y : ℕ) → contains seen y ≡ true → p y ≡ true)
    → closure next fuel stack seen ≡ ok out
    → (y : ℕ) → contains out y ≡ true
    → p y ≡ true
unfolding closure contains
closure-sub p next closed zero stack seen out hs hn e y c = absurd (ground (arith, e))
closure-sub p next closed (suc fuel) [] seen out hs hn e y c =
    let q : out ≡ seen = ground (arith, e) in hn y (rw (sym q) c)
closure-sub p next closed (suc fuel) (curr ∷ stack) seen out hs hn e y c =
    elim (Bool-cases (contains seen curr)) [
      | inl i ↦
          closure-sub p next closed fuel stack seen out (λ z q. hs z (ground (arith, q))) hn
            (rw (closure, i) at e) y c
      | inr i ↦
          closure-sub p next closed fuel (next curr ++ stack) (set_add seen curr) out
            (λ z q. ground (arith, contains-append (next curr) stack z, closed curr z, hs z, q))
            (λ z q. ground (arith, contains-set_add seen curr z, hn z, hs z, q))
            (rw (closure, i) at e) y c
    ]

-- The dependents of a task of a linked graph are in the graph.
present-dependents :
    (g : Graph) → IsSound g → (x y : ℕ) → contains (dependents_of g x) y ≡ true → has g y ≡ true
unfolding dependencies_of has contains
present-dependents g s x y e = ground (arith, s.linked x y, e)

-- The descendants that are found in a linked graph are tasks of the graph.
pub present-descendants :
    (g : Graph) (k : ℕ) (ds : List ℕ)
    → IsSound g
    → get_descendants g k ≡ ok ds
    → (y : ℕ) → contains ds y ≡ true
    → has g y ≡ true
unfolding get_descendants closure_of contains
present-descendants g k ds s e = elim (Result-cases (get_task g k)) [
  | inr (x, q) ↦ absurd (ground (arith, rw (get_descendants, q) at e))
  | inl (t, q) ↦
      closure-sub (has g) (dependents_of g) (present-dependents g s)
        (suc (length (dependents_of g k) + edge_count (dependents_of g) (keys g)))
        (dependents_of g k) [] ds (present-dependents g s k) (λ y c. ground (arith, c)) (rw q at e)
]

-- A closure can only raise by running out of rounds.
closure-outcome :
    (next : ℕ → List ℕ) (fuel : ℕ) (stack seen : List ℕ)
    → ((out : List ℕ) × (closure next fuel stack seen ≡ ok out))
      ⊎ (closure next fuel stack seen ≡ err out_of_fuel)
unfolding closure
closure-outcome next zero stack seen = inr refl
closure-outcome next (suc fuel) [] seen = inl (seen, refl)
closure-outcome next (suc fuel) (curr ∷ stack) seen = elim (Bool-cases (contains seen curr)) [
  | inl i ↦ rw (closure, i) (closure-outcome next fuel stack seen)
  | inr i ↦ rw (closure, i) (closure-outcome next fuel (next curr ++ stack) (set_add seen curr))
]

-- The descendants of a task of the graph are found.
pub get_descendants-returns :
    (g : Graph) (k : ℕ) → has g k ≡ true → (ds : List ℕ) × (get_descendants g k ≡ ok ds)
unfolding has
get_descendants-returns g k present = elim (Option-cases (get g k)) [
  | inl e ↦ absurd (ground (arith, e, present))
  | inr (t, e) ↦
      let found : get_task g k ≡ ok t = unfold get_task in rw (get_task, e) refl in
      let here : get_descendants g k ≡ closure_of (dependents_of g) g k =
        unfold get_descendants in rw (get_descendants, found) refl in
      elim (closure-outcome (dependents_of g)
        (suc (length (dependents_of g k) + edge_count (dependents_of g) (keys g)))
        (dependents_of g k) []) [
          | inl (ds, q) ↦ (ds, here ∙ unfold closure_of in q)
          | inr q ↦ absurd ((closures_terminate g k).1 (here ∙ unfold closure_of in q))
        ]
]
