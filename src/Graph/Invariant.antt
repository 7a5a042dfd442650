-- ===== src/Graph/Invariant.antt =====
-- The invariant of the graph, which every edit keeps, whatever it returns.
use adaptive_orchestrator.Base.{
  ℕ, ◌≡◌, refl, ◌∙◌, ◌⊎◌, inl, inr, true, false, not, ◌&&◌, ◌||◌, Option, none, some, List, [],
  arith, ◌==◌, if◌then◌else◌, Bool-cases, contains, get, has,
}
use adaptive_orchestrator.Errors.{cycle_detected, Result, ok, err}
use adaptive_orchestrator.Graph.Defs.{
  Graph, dependents_of, dependencies_of, modify, add_prerequisite, discard_prerequisite,
  get_descendants,
}
use adaptive_orchestrator.Graph.Edits.{
  add_edge, remove_edge, commit_edge, add_dependency, remove_dependency,
}
use adaptive_orchestrator.Graph.Search.{Reaches, edge, step}
use adaptive_orchestrator.Graph.Acyclic.{
  IsAcyclic, Decides, has_cycle, no_cycle, detect_cycle-Decides,
}
use adaptive_orchestrator.Graph.Writes.{
  has-modify, dependencies-add_prerequisite, dependents-add_prerequisite,
  dependencies-add_dependent, dependents-add_dependent, dependencies-discard_prerequisite,
  dependents-discard_prerequisite, dependencies-discard_dependent, dependents-discard_dependent,
}

-- `a` is a dependency of `b` exactly if `b` is a dependent of `a`.
abbrev pub IsLinked : Graph → Type 0
IsLinked g = (a b : ℕ) → contains (dependencies_of g b) a ≡ contains (dependents_of g a) b

pub record IsSound (g : Graph) : Type 0 where
  pub linked : IsLinked g
  pub acyclic : IsAcyclic g

no_path : {a b : ℕ} → Reaches (dependents_of []) a b → contains [] a ≡ true
unfolding dependents_of contains get
no_path (edge e) = e
no_path (step e r) = e

-- The empty graph.
pub IsSound-nil : IsSound []
unfolding dependencies_of dependents_of contains get
IsSound-nil = record { linked = λ a b. refl; acyclic = λ k loop. cc (no_path loop) }

-- Paths carry over to a graph that has the edges.
Reaches-map :
    {next more : ℕ → List ℕ} {a b : ℕ}
    → ((x y : ℕ) → contains (next x) y ≡ true → contains (more x) y ≡ true)
    → Reaches next a b
    → Reaches more a b
Reaches-map sub (edge {a = a} {b = b} e) = edge (sub a b e)
Reaches-map sub (step {a = a} {b = b} e r) = step (sub a b e) (Reaches-map sub r)

pub IsAcyclic-sub :
    (g h : Graph)
    → ((x y : ℕ) → contains (dependents_of h x) y ≡ true → contains (dependents_of g x) y ≡ true)
    → IsAcyclic g
    → IsAcyclic h
IsAcyclic-sub g h sub acyclic k loop = acyclic k (Reaches-map sub loop)

module _ (g : Graph) (b a : ℕ) (hb : has g b ≡ true) (ha : has g a ≡ true) where
  dependencies-add_edge :
      (x y : ℕ)
      → contains (dependencies_of (add_edge g b a) y) x
        ≡ ((b == y && x == a) || contains (dependencies_of g y) x)
  unfolding add_edge
  dependencies-add_edge x y =
      dependencies-add_dependent (modify g b (add_prerequisite a)) a b y x
      ∙ ground (arith, dependencies-add_prerequisite g b a y x)

  dependents-add_edge :
      (x y : ℕ)
      → contains (dependents_of (add_edge g b a) x) y
        ≡ ((a == x && y == b) || contains (dependents_of g x) y)
  unfolding add_edge
  dependents-add_edge x y =
      dependents-add_dependent (modify g b (add_prerequisite a)) a b x y
      ∙ ground
          (arith, dependents-add_prerequisite g b a x y, has-modify g b a a (add_prerequisite a))

module _ (g : Graph) (b a : ℕ) where
  dependencies-remove_edge :
      (x y : ℕ)
      → contains (dependencies_of (remove_edge g b a) y) x
        ≡ (not (b == y && x == a) && contains (dependencies_of g y) x)
  unfolding remove_edge
  dependencies-remove_edge x y =
      dependencies-discard_dependent (modify g b (discard_prerequisite a)) a b y x
      ∙ dependencies-discard_prerequisite g b a y x

  dependents-remove_edge :
      (x y : ℕ)
      → contains (dependents_of (remove_edge g b a) x) y
        ≡ (not (a == x && y == b) && contains (dependents_of g x) y)
  unfolding remove_edge
  dependents-remove_edge x y =
      dependents-discard_dependent (modify g b (discard_prerequisite a)) a b x y
      ∙ ground (arith, dependents-discard_prerequisite g b a x y)

  IsSound-remove_edge : IsSound g → IsSound (remove_edge g b a)
  IsSound-remove_edge s = record {
    linked = λ x y.
        ground (arith, dependencies-remove_edge x y, dependents-remove_edge x y, s.linked x y);
    acyclic =
        IsAcyclic-sub g (remove_edge g b a) (λ x y e. ground (arith, dependents-remove_edge x y))
          s.acyclic;
  }

-- The edge is in, and the rollback takes it out again.
module _ (g : Graph) (b a : ℕ) (hb : has g b ≡ true) (ha : has g a ≡ true) where
  IsLinked-add_edge : IsLinked g → IsLinked (add_edge g b a)
  IsLinked-add_edge l x y =
      ground
        (arith, dependencies-add_edge g b a hb ha x y, dependents-add_edge g b a hb ha x y, l x y)

  IsSound-rollback :
      contains (dependencies_of g b) a ≡ false
      → IsSound g
      → IsSound (remove_edge (add_edge g b a) b a)
  IsSound-rollback absent s = record {
    linked = λ x y. ground (
      arith,
      dependencies-remove_edge (add_edge g b a) b a x y,
      dependents-remove_edge (add_edge g b a) b a x y,
      IsLinked-add_edge s.linked x y,
    );
    acyclic =
        IsAcyclic-sub g (remove_edge (add_edge g b a) b a)
          (λ x y e. ground (
            arith,
            dependents-remove_edge (add_edge g b a) b a x y,
            dependents-add_edge g b a hb ha x y,
          ))
          s.acyclic;
  }

  commit_edge-IsSound :
      contains (dependencies_of g b) a ≡ false → IsSound g → IsSound (commit_edge g b a).0
  unfolding commit_edge
  commit_edge-IsSound absent s = settle (detect_cycle-Decides (add_edge g b a))
    where
      settle :
          {c : Option (List ℕ)}
          → Decides (add_edge g b a) c
          → IsSound
              (elim c as (λ x. Graph × Result (Unit {0})) [
                | none ↦ (add_edge g b a, ok tt)
                | some cycle ↦ (remove_edge (add_edge g b a) b a, err cycle_detected)
              ]).0
      settle (has_cycle c v r) = IsSound-rollback absent s
      settle (no_cycle h) = record { linked = IsLinked-add_edge s.linked; acyclic = h }

-- `add_dependency` keeps the graph linked and acyclic, whether it returns or raises.
pub add_dependency-IsSound :
    (g : Graph) (dependent prerequisite : ℕ)
    → IsSound g
    → IsSound (add_dependency g dependent prerequisite).0
unfolding add_dependency
add_dependency-IsSound g b a s =
    guards (Bool-cases (b == a)) (Bool-cases (has g b)) (Bool-cases (has g a))
      (Bool-cases (contains (dependencies_of g b) a))
  where
    closure_guard :
        (r : Result (List ℕ))
        → IsSound (commit_edge g b a).0
        → IsSound
            (elim r as (λ x. Graph × Result (Unit {0})) [
              | err e ↦ (g, err e)
              | ok descendants ↦
                  if contains descendants a then (g, err cycle_detected) else commit_edge g b a
            ]).0
    closure_guard (err e) h = s
    closure_guard (ok descendants) h = elim (Bool-cases (contains descendants a)) [
      | inl e ↦ rw e s
      | inr e ↦ rw e h
    ]

    guards :
        ((b == a) ≡ true) ⊎ ((b == a) ≡ false)
        → (has g b ≡ true) ⊎ (has g b ≡ false)
        → (has g a ≡ true) ⊎ (has g a ≡ false)
        → (contains (dependencies_of g b) a ≡ true) ⊎ (contains (dependencies_of g b) a ≡ false)
        → IsSound (add_dependency g b a).0
    guards (inl e) _ _ _ = rw e s
    guards (inr e) (inr f) _ _ = rw (e, f) s
    guards (inr e) (inl f) (inr h) _ = rw (e, f, h) s
    guards (inr e) (inl f) (inl h) (inl i) = rw (e, f, h, i) s
    guards (inr e) (inl f) (inl h) (inr i) =
        rw (e, f, h, i) (closure_guard (get_descendants g b) (commit_edge-IsSound g b a f h i s))

-- `remove_dependency` keeps the graph linked and acyclic, whether it returns or raises.
pub remove_dependency-IsSound :
    (g : Graph) (dependent prerequisite : ℕ)
    → IsSound g
    → IsSound (remove_dependency g dependent prerequisite).0
unfolding remove_dependency
remove_dependency-IsSound g b a s = ground (arith, IsSound-remove_edge g b a s)
