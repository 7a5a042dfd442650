-- ===== src/Mutations/Invalidation.antt =====
-- What `invalidate_task` does to the tasks of the graph.
use adaptive_orchestrator.Base.{
  ℕ, ◌≡◌, refl, inl, inr, Option, none, some, List, [], ◌∷◌, arith, if◌then◌else◌, Bool-cases,
  Option-cases, keep, contains, set_add, get, has, put, get-put,
}
use adaptive_orchestrator.Errors.{Error, task_not_found, Result, ok, err, ◌>>=◌, Result-cases}
use adaptive_orchestrator.Task.{Task}
use adaptive_orchestrator.Graph.{Graph, get_descendants}
use adaptive_orchestrator.Graph.{topological_sort}
use adaptive_orchestrator.Mutations.{is_revoked, invalidated, invalidate_all, invalidate_task}

abbrev pub revised : (Task → Task) → Option Task → Option Task
revised f none = none
revised f (some t) = some (f t)

invalidated_twice : (t : Task) → invalidated (invalidated t) ≡ invalidated t
unfolding invalidated is_revoked
invalidated_twice t = ground arith

abbrev Revises : Graph → List ℕ → Graph × Result (Unit {0}) → Type 0
Revises g ks out =
    (j : ℕ)
    → out.1 ≡ ok tt
    → get out.0 j ≡ (if contains ks j then revised invalidated (get g j) else get g j)

Revises-cons :
    (g : Graph) (k : ℕ) (t : Task) (ks : List ℕ) (out : Graph × Result (Unit {0}))
    → get g k ≡ some t
    → Revises (put g k (invalidated t)) ks out
    → Revises g (k ∷ ks) out
unfolding contains
Revises-cons g k t ks out e h j q =
    ground (arith, h j q, get-put g k (invalidated t) j, at_k, invalidated_twice t)
  where
    at_k : j ≡ k → get g j ≡ some t
    at_k p = rw p e

invalidate_all-Revises : (g : Graph) (ks : List ℕ) → Revises g ks (invalidate_all g ks)
unfolding invalidate_all contains
invalidate_all-Revises g [] = λ j q. refl
invalidate_all-Revises g (k ∷ ks) = elim (Option-cases (get g k)) [
  | inl gone ↦ rw (invalidate_all, gone) (λ j q. ground arith)
  | inr (t, e) ↦
      rw (invalidate_all, e)
        (Revises-cons g k t ks (invalidate_all (put g k (invalidated t)) ks) e
          (invalidate_all-Revises (put g k (invalidated t)) ks))
]

abbrev Named : Graph → Graph × Result (List ℕ) → Type 0
Named g out =
    (ids : List ℕ) (j : ℕ)
    → out.1 ≡ ok ids
    → get out.0 j ≡ (if contains ids j then revised invalidated (get g j) else get g j)

Named-err : (g : Graph) (x : Error) → Named g (g, err x)
Named-err g x ids j q = ground arith

Named-ok :
    (g : Graph) (affected : List ℕ) (h : Graph) (outcome : Result (Unit {0}))
    → Revises g affected (h, outcome)
    → Named g (h, outcome >>= λ u. ok affected)
Named-ok g affected h (ok tt) r ids j q =
    let same : affected ≡ ids = ground arith in rw same at (r j refl)
Named-ok g affected h (err x) r ids j q = ground arith

-- If `invalidate_task` returns, then it has dealt with the tasks that it names and with no other:
-- each named task that is not CANCELLED has lost its result, its error and its completion time, and
-- is PENDING where it was BLOCKED, READY, RUNNING, VERIFYING, PASSED or FAILED; the other tasks are
-- as they were.
pub invalidate_task-exact :
    (g : Graph) (k : ℕ) (ids : List ℕ)
    → (invalidate_task g k).1 ≡ ok ids
    → (j : ℕ)
    → get (invalidate_task g k).0 j
      ≡ (if contains ids j then revised invalidated (get g j) else get g j)
unfolding invalidate_task
invalidate_task-exact g k ids e j = every_branch ids j e
  where
    after_order :
        (descendants : List ℕ) (order : Result (List ℕ))
        → Named g (elim order [
          | err x ↦ (g, err x)
          | ok full_order ↦
              let affected = keep (λ i. contains (set_add descendants k) i) full_order in
              let out = invalidate_all g affected in (out.0, out.1 >>= λ u. ok affected)
        ])
    after_order descendants (err x) = Named-err g x
    after_order descendants (ok full_order) =
        let affected : List ℕ = keep (λ i. contains (set_add descendants k) i) full_order in
        Named-ok g affected (invalidate_all g affected).0 (invalidate_all g affected).1
          (invalidate_all-Revises g affected)

    every_branch : Named g (invalidate_task g k)
    every_branch = elim (Bool-cases (has g k)) [
      | inr h ↦ rw (invalidate_task, h) (Named-err g task_not_found)
      | inl h ↦ elim (Result-cases (get_descendants g k)) [
        | inr (x, q) ↦ rw (invalidate_task, h, q) (Named-err g x)
        | inl (ds, q) ↦ rw (invalidate_task, h, q) (after_order ds (topological_sort g))
      ]
    ]
