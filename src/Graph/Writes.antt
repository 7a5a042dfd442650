-- ===== src/Graph/Writes.antt =====
-- What one write to a task changes of the edges.
use adaptive_orchestrator.Base.{
  ℕ, ◌≡◌, inl, inr, not, ◌&&◌, ◌||◌, arith, ◌==◌, Option-cases, contains, contains-set_add,
  contains-set_discard, get, has, get-put,
}
use adaptive_orchestrator.Task.{Task}
use adaptive_orchestrator.Graph.Defs.{
  Graph, dependents_of, dependencies_of, modify, add_dependent, discard_dependent, add_prerequisite,
  discard_prerequisite,
}

module _ (g : Graph) (k d j : ℕ) where
  pub has-modify : (f : Task → Task) → has (modify g k f) j ≡ has g j
  unfolding modify has
  has-modify f = elim (Option-cases (get g k)) [
    | inl e ↦ ground arith
    | inr (t, e) ↦ ground (arith, get-put g k (f t) j)
  ]

  pub dependencies-add_prerequisite :
      (a : ℕ)
      → contains (dependencies_of (modify g k (add_prerequisite d)) j) a
        ≡ ((has g k && (k == j && a == d)) || contains (dependencies_of g j) a)
  unfolding modify dependencies_of add_prerequisite has
  dependencies-add_prerequisite a = elim (Option-cases (get g k)) [
    | inl e ↦ ground arith
    | inr (t, e) ↦
        ground (arith, get-put g k (add_prerequisite d t) j, contains-set_add t.dependencies d a)
  ]

  pub dependents-add_prerequisite :
      (a : ℕ)
      → contains (dependents_of (modify g k (add_prerequisite d)) j) a
        ≡ contains (dependents_of g j) a
  unfolding modify dependents_of add_prerequisite
  dependents-add_prerequisite a = elim (Option-cases (get g k)) [
    | inl e ↦ ground arith
    | inr (t, e) ↦ ground (arith, get-put g k (add_prerequisite d t) j)
  ]

  pub dependencies-add_dependent :
      (a : ℕ)
      → contains (dependencies_of (modify g k (add_dependent d)) j) a
        ≡ contains (dependencies_of g j) a
  unfolding modify dependencies_of add_dependent
  dependencies-add_dependent a = elim (Option-cases (get g k)) [
    | inl e ↦ ground arith
    | inr (t, e) ↦ ground (arith, get-put g k (add_dependent d t) j)
  ]

  pub dependents-add_dependent :
      (a : ℕ)
      → contains (dependents_of (modify g k (add_dependent d)) j) a
        ≡ ((has g k && (k == j && a == d)) || contains (dependents_of g j) a)
  unfolding modify dependents_of add_dependent has
  dependents-add_dependent a = elim (Option-cases (get g k)) [
    | inl e ↦ ground arith
    | inr (t, e) ↦
        ground (arith, get-put g k (add_dependent d t) j, contains-set_add t.dependents d a)
  ]

  pub dependencies-discard_prerequisite :
      (a : ℕ)
      → contains (dependencies_of (modify g k (discard_prerequisite d)) j) a
        ≡ (not (k == j && a == d) && contains (dependencies_of g j) a)
  unfolding modify dependencies_of discard_prerequisite contains
  dependencies-discard_prerequisite a = elim (Option-cases (get g k)) [
    | inl e ↦ ground arith
    | inr (t, e) ↦
        ground
          (arith, get-put g k (discard_prerequisite d t) j, contains-set_discard t.dependencies d a)
  ]

  pub dependents-discard_prerequisite :
      (a : ℕ)
      → contains (dependents_of (modify g k (discard_prerequisite d)) j) a
        ≡ contains (dependents_of g j) a
  unfolding modify dependents_of discard_prerequisite
  dependents-discard_prerequisite a = elim (Option-cases (get g k)) [
    | inl e ↦ ground arith
    | inr (t, e) ↦ ground (arith, get-put g k (discard_prerequisite d t) j)
  ]

  pub dependencies-discard_dependent :
      (a : ℕ)
      → contains (dependencies_of (modify g k (discard_dependent d)) j) a
        ≡ contains (dependencies_of g j) a
  unfolding modify dependencies_of discard_dependent
  dependencies-discard_dependent a = elim (Option-cases (get g k)) [
    | inl e ↦ ground arith
    | inr (t, e) ↦ ground (arith, get-put g k (discard_dependent d t) j)
  ]

  pub dependents-discard_dependent :
      (a : ℕ)
      → contains (dependents_of (modify g k (discard_dependent d)) j) a
        ≡ (not (k == j && a == d) && contains (dependents_of g j) a)
  unfolding modify dependents_of discard_dependent contains
  dependents-discard_dependent a = elim (Option-cases (get g k)) [
    | inl e ↦ ground arith
    | inr (t, e) ↦
        ground (arith, get-put g k (discard_dependent d t) j, contains-set_discard t.dependents d a)
  ]
