-- ===== src/Base/Lists.antt =====
-- Lists measured by native numbers, and Python's sets of identifiers as lists of numbers.
use Prim.Native.Nat.{ℕ, suc, ◌+◌, ◌≤◌}
use mathlib.Core.Path.{◌≡◌, refl, ap}
use mathlib.Core.Bool.{Bool, true, false, not, ◌&&◌, ◌||◌}
use mathlib.Core.List.{List, [], ◌∷◌, ◌++◌}
use native.Mathlib.Omega.{arith}
use adaptive_orchestrator.Base.Tests.{◌==◌, leb, if◌then◌else◌}

module _ {ℓ} {A : Type ℓ} where
  abbrev pub length : List A → ℕ
  length [] = 0
  length (x ∷ xs) = suc (length xs)

  pub length-append : (xs ys : List A) → length (xs ++ ys) ≡ length xs + length ys
  length-append [] ys = omega arith
  length-append (x ∷ xs) ys = omega (arith, length-append xs ys)

  -- `[x for x in xs if p(x)]`
  unfoldable pub keep : (A → Bool) → List A → List A
  keep p [] = []
  keep p (x ∷ xs) = let rest = keep p xs in if p x then x ∷ rest else rest

  -- `all(p(x) for x in xs)`
  unfoldable pub every : (A → Bool) → List A → Bool
  every p [] = true
  every p (x ∷ xs) = p x && every p xs

  pub length-keep-le : (p : A → Bool) (xs : List A) → length (keep p xs) ≤ length xs
  unfolding keep
  length-keep-le p [] = omega arith
  length-keep-le p (x ∷ xs) = ground (arith, length-keep-le p xs)

-- `x in s`
unfoldable pub contains : List ℕ → ℕ → Bool
contains [] a = false
contains (x ∷ xs) a = a == x || contains xs a

-- `s.add(x)`
unfoldable pub set_add : List ℕ → ℕ → List ℕ
set_add xs a = if contains xs a then xs else xs ++ a ∷ []

-- `s.discard(x)`
unfoldable pub set_discard : List ℕ → ℕ → List ℕ
set_discard [] a = []
set_discard (x ∷ xs) a = let rest = set_discard xs a in if x == a then rest else x ∷ rest

pub contains-append :
    (xs ys : List ℕ) (a : ℕ) → contains (xs ++ ys) a ≡ (contains xs a || contains ys a)
unfolding contains
contains-append [] ys a = refl
contains-append (x ∷ xs) ys a = ground (arith, contains-append xs ys a)

pub contains-set_add :
    (xs : List ℕ) (a b : ℕ) → contains (set_add xs a) b ≡ (b == a || contains xs b)
unfolding contains set_add
contains-set_add xs a b = ground (arith, contains-append xs (a ∷ []) b, contains_eq)
  where
    contains_eq : a ≡ b → contains xs a ≡ contains xs b
    contains_eq e = ap (contains xs) e

pub contains-set_discard :
    (xs : List ℕ) (a b : ℕ) → contains (set_discard xs a) b ≡ (not (b == a) && contains xs b)
unfolding contains set_discard
contains-set_discard [] a b = ground arith
contains-set_discard (x ∷ xs) a b = ground (arith, contains-set_discard xs a b)

-- `sorted(xs)` on identifiers: insertion sort, which is stable as Python's sort is.
unfoldable pub insert_sorted : ℕ → List ℕ → List ℕ
insert_sorted a [] = a ∷ []
insert_sorted a (x ∷ xs) = let rest = insert_sorted a xs in if leb a x then a ∷ x ∷ xs else x ∷ rest

unfoldable pub sorted : List ℕ → List ℕ
unfolding insert_sorted
sorted [] = []
sorted (x ∷ xs) = insert_sorted x (sorted xs)

pub contains-insert_sorted :
    (a : ℕ) (xs : List ℕ) (b : ℕ) → contains (insert_sorted a xs) b ≡ (b == a || contains xs b)
unfolding contains insert_sorted
contains-insert_sorted a [] b = refl
contains-insert_sorted a (x ∷ xs) b = ground (arith, contains-insert_sorted a xs b)

pub contains-sorted : (xs : List ℕ) (b : ℕ) → contains (sorted xs) b ≡ contains xs b
unfolding contains sorted
contains-sorted [] b = refl
contains-sorted (x ∷ xs) b =
    ground (arith, contains-insert_sorted x (sorted xs) b, contains-sorted xs b)
