-- ===== src/Graph/Rounds.antt =====
-- The rounds of `topological_sort`, measured by the tasks that wait in `ready` and those whose degree
-- is above 0.
use adaptive_orchestrator.Base.{
  ℕ, zero, suc, ◌+◌, ◌≤◌, ◌<◌, ◌≡◌, refl, ap, ◌≢◌, inl, inr, not, some, List, [], ◌∷◌, ◌++◌, arith,
  ltb, ◌==◌, if◌then◌else◌, Option-cases, length, length-append, insert_sorted, sorted, Dict, get,
  put,
}
use adaptive_orchestrator.Base.Int.{ℤ, negsuc, pos_part, ◌+ℤ◌}
use adaptive_orchestrator.Errors.{cycle_detected, out_of_fuel, Result, ok, err, ◌>>=◌}
use adaptive_orchestrator.Graph.Defs.{Graph, dependents_of}
use adaptive_orchestrator.Graph.Order.{
  is_zero, in_degrees, zero_keys, decrement, kahn, topological_sort,
}

-- The tasks whose degree is above 0.
positives : Dict ℤ → ℕ
positives [] = 0
positives ((k, n) ∷ d) = (if ltb 0 (pos_part n) then 1 else 0) + positives d

weight : ℤ → ℕ
weight n = if ltb 0 (pos_part n) then 1 else 0

positives-put :
    (d : Dict ℤ) (k : ℕ) (n m : ℤ)
    → get d k ≡ some n
    → positives (put d k m) + weight n ≡ positives d + weight m
unfolding get put positives weight
positives-put [] k n m e = ground arith
positives-put ((j, i) ∷ d) k n m e = ground (arith, positives-put d k n m)

-- A degree that reaches 0 was above it.
drops : (n : ℤ) → weight (n +ℤ negsuc 0) + (if is_zero (n +ℤ negsuc 0) then 1 else 0) ≤ weight n
unfolding weight is_zero ◌+ℤ◌
drops n = ground arith

-- The loop over the dependents does not run out of fuel, and what it makes ready it takes away.
abbrev Falls : ℕ → Result (Dict ℤ × List ℕ) → Type 0
Falls n (ok out) = length out.1 + positives out.0 ≤ n
Falls n (err e) = e ≢ out_of_fuel

Falls-step :
    (d : Dict ℤ) (k : ℕ) (n : ℤ) (out : Result (Dict ℤ × List ℕ))
    → get d k ≡ some n
    → Falls (positives (put d k (n +ℤ negsuc 0))) out
    → Falls
        (positives d)
        (out >>= λ rest. ok (rest.0, if is_zero (n +ℤ negsuc 0) then k ∷ rest.1 else rest.1))
Falls-step d k n (ok out) e h = ground (arith, positives-put d k n (n +ℤ negsuc 0), drops n)
Falls-step d k n (err x) e h = h

decrement-Falls : (d : Dict ℤ) (ds : List ℕ) → Falls (positives d) (decrement d ds)
unfolding decrement
decrement-Falls d [] = omega arith
decrement-Falls d (k ∷ ks) = elim (Option-cases (get d k)) [
  | inl gone ↦ rw (decrement, gone) (λ e. ground arith)
  | inr (n, e) ↦
      rw (decrement, e)
        (Falls-step d k n (decrement (put d k (n +ℤ negsuc 0)) ks) e
          (decrement-Falls (put d k (n +ℤ negsuc 0)) ks))
]

length-insert_sorted : (a : ℕ) (xs : List ℕ) → length (insert_sorted a xs) ≡ suc (length xs)
unfolding insert_sorted
length-insert_sorted a [] = refl
length-insert_sorted a (x ∷ xs) = ground (arith, length-insert_sorted a xs)

length-sorted : (xs : List ℕ) → length (sorted xs) ≡ length xs
unfolding sorted
length-sorted [] = refl
length-sorted (x ∷ xs) = omega (arith, length-insert_sorted x (sorted xs), length-sorted xs)

length-zero_keys : (d : Dict ℤ) → length (zero_keys d) + positives d ≤ length d
unfolding zero_keys is_zero positives
length-zero_keys [] = omega arith
length-zero_keys ((k, n) ∷ d) = ground (arith, length-zero_keys d)

length-in_degrees : (g : Graph) → length (in_degrees g) ≡ length g
unfolding in_degrees
length-in_degrees [] = refl
length-in_degrees ((k, t) ∷ g) = ap suc (length-in_degrees g)

next_round :
    (g : Graph) (fuel : ℕ) (waiting order : List ℕ) (n : ℕ) (out : Result (Dict ℤ × List ℕ))
    → Falls n out
    → ((next : Dict ℤ × List ℕ)
        → length next.1 + positives next.0 ≤ n
        → kahn g fuel next.0 (sorted (waiting ++ next.1)) order ≢ err out_of_fuel)
    → (out >>= λ next. kahn g fuel next.0 (sorted (waiting ++ next.1)) order) ≢ err out_of_fuel
next_round g fuel waiting order n (ok next) h rec = rec next h
next_round g fuel waiting order n (err e) h rec = λ q. h (ground arith)

kahn_terminates :
    (g : Graph) (fuel : ℕ) (degrees : Dict ℤ) (waiting order : List ℕ)
    → length waiting + positives degrees < fuel
    → kahn g fuel degrees waiting order ≢ err out_of_fuel
unfolding kahn
kahn_terminates g zero degrees waiting order h = absurd (omega (arith, h))
kahn_terminates g (suc fuel) degrees [] order h = λ q. ground arith
kahn_terminates g (suc fuel) degrees (curr ∷ waiting) order h =
    next_round g fuel waiting (order ++ curr ∷ []) (positives degrees)
      (decrement degrees (sorted (dependents_of g curr)))
      (decrement-Falls degrees (sorted (dependents_of g curr)))
      (λ next b.
        kahn_terminates g fuel next.0 (sorted (waiting ++ next.1)) (order ++ curr ∷ [])
          (omega (arith, length-sorted (waiting ++ next.1), length-append waiting next.1)))

-- `topological_sort` ends on every graph, cyclic or inconsistent ones included: its loop makes at
-- most as many rounds as there are tasks.
pub topological_sort_terminates : (g : Graph) → topological_sort g ≢ err out_of_fuel
unfolding topological_sort
topological_sort_terminates g =
    settle (kahn g (suc (length g)) (in_degrees g) (sorted (zero_keys (in_degrees g))) []) (
      kahn_terminates g (suc (length g)) (in_degrees g) (sorted (zero_keys (in_degrees g))) [] (
        omega (
          arith,
          length-sorted (zero_keys (in_degrees g)),
          length-zero_keys (in_degrees g),
          length-in_degrees g,
        )))
  where
    settle :
        (out : Result (List ℕ))
        → out ≢ err out_of_fuel
        → (out >>= λ order. if not (length order == length g) then err cycle_detected else ok order)
          ≢ err out_of_fuel
    settle (ok order) n = λ q. ground arith
    settle (err e) n = n
