-- ===== src/Graph/Closures.antt =====
-- The rounds of `get_ancestors` and `get_descendants`, measured by the entries of the stack and the
-- edges out of the tasks that have not been seen.
use adaptive_orchestrator.Base.{
  ℕ, zero, suc, ◌+◌, ◌≤◌, ◌<◌, ◌≡◌, refl, ◌≢◌, inl, inr, true, false, List, [], ◌∷◌, ◌++◌, arith,
  if◌then◌else◌, Bool-cases, Option-cases, length, length-append, contains, set_add,
  contains-set_add, get, has, keys, contains-keys,
}
use adaptive_orchestrator.Errors.{out_of_fuel, Result, err, ◌>>=◌}
use adaptive_orchestrator.Graph.Defs.{
  Graph, dependents_of, dependencies_of, get_task, closure, edge_count, closure_of, get_ancestors,
  get_descendants,
}

-- The edges out of the tasks that have not been seen.
remaining : (ℕ → List ℕ) → List ℕ → List ℕ → ℕ
remaining next [] seen = 0
remaining next (k ∷ ks) seen =
    (if contains seen k then 0 else length (next k)) + remaining next ks seen

module _ (next : ℕ → List ℕ) where
  remaining-le : (ks seen : List ℕ) → remaining next ks seen ≤ edge_count next ks
  unfolding remaining edge_count
  remaining-le [] seen = omega arith
  remaining-le (k ∷ ks) seen = ground (arith, remaining-le ks seen)

  remaining-set_add-le :
      (ks seen : List ℕ) (c : ℕ) → remaining next ks (set_add seen c) ≤ remaining next ks seen
  unfolding remaining
  remaining-set_add-le [] seen c = omega arith
  remaining-set_add-le (k ∷ ks) seen c =
      ground (arith, contains-set_add seen c k, remaining-set_add-le ks seen c)

  remaining-set_add :
      (ks seen : List ℕ) (c : ℕ)
      → contains seen c ≡ false
      → contains ks c ≡ true
      → remaining next ks (set_add seen c) + length (next c) ≤ remaining next ks seen
  unfolding remaining contains
  remaining-set_add [] seen c n e = ground arith
  remaining-set_add (k ∷ ks) seen c n e = ground (
    arith,
    contains-set_add seen c k,
    remaining-set_add ks seen c n,
    remaining-set_add-le ks seen c,
    same,
  )
    where
      same : c ≡ k → (length (next c) ≡ length (next k)) × (contains seen c ≡ contains seen k)
      same p = rw p (refl, refl)

  -- The tasks of `ks` are all that have edges.
  module _ (ks : List ℕ) (outside : (k : ℕ) → contains ks k ≡ false → length (next k) ≡ 0) where
    round :
        (seen : List ℕ) (c : ℕ)
        → contains seen c ≡ false
        → remaining next ks (set_add seen c) + length (next c) ≤ remaining next ks seen
    round seen c n =
        ground (arith, remaining-set_add ks seen c n, remaining-set_add-le ks seen c, outside c)

    closure_terminates :
        (fuel : ℕ) (stack seen : List ℕ)
        → length stack + remaining next ks seen < fuel
        → closure next fuel stack seen ≢ err out_of_fuel
    unfolding closure
    closure_terminates zero stack seen h = absurd (omega (arith, h))
    closure_terminates (suc fuel) [] seen h = λ q. ground arith
    closure_terminates (suc fuel) (c ∷ stack) seen h = elim (Bool-cases (contains seen c)) [
      | inl e ↦ rw (closure, e) (closure_terminates fuel stack seen (omega (arith, h)))
      | inr e ↦
          rw (closure, e)
            (closure_terminates fuel (next c ++ stack) (set_add seen c)
              (omega (arith, h, round seen c e, length-append (next c) stack)))
    ]

dependents_outside :
    (g : Graph) (k : ℕ) → contains (keys g) k ≡ false → length (dependents_of g k) ≡ 0
unfolding dependents_of has
dependents_outside g k e = ground (arith, contains-keys g k)

dependencies_outside :
    (g : Graph) (k : ℕ) → contains (keys g) k ≡ false → length (dependencies_of g k) ≡ 0
unfolding dependencies_of has
dependencies_outside g k e = ground (arith, contains-keys g k)

closure_of_terminates :
    (next : ℕ → List ℕ) (g : Graph) (k : ℕ)
    → ((j : ℕ) → contains (keys g) j ≡ false → length (next j) ≡ 0)
    → closure_of next g k ≢ err out_of_fuel
unfolding closure_of
closure_of_terminates next g k outside =
    closure_terminates next (keys g) outside (suc (length (next k) + edge_count next (keys g)))
      (next k) [] (omega (arith, remaining-le next (keys g) []))

after_look_up :
    (g : Graph) (k : ℕ) (out : Result (List ℕ))
    → out ≢ err out_of_fuel
    → (get_task g k >>= λ t. out) ≢ err out_of_fuel
unfolding get_task
after_look_up g k out n = elim (Option-cases (get g k)) [
  | inl gone ↦ rw (get_task, gone) (λ q. ground arith)
  | inr (t, e) ↦ rw (get_task, e) n
]

-- The loops of `get_ancestors` and `get_descendants` end on every graph, cyclic or inconsistent ones
-- included.
pub closures_terminate :
    (g : Graph) (k : ℕ)
    → (get_ancestors g k ≢ err out_of_fuel) × (get_descendants g k ≢ err out_of_fuel)
unfolding get_ancestors get_descendants
closures_terminate g k = (
  after_look_up g k (closure_of (dependencies_of g) g k)
      (closure_of_terminates (dependencies_of g) g k (dependencies_outside g)),
  after_look_up g k (closure_of (dependents_of g) g k)
      (closure_of_terminates (dependents_of g) g k (dependents_outside g)),
)
