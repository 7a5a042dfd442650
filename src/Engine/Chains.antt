-- ===== src/Engine/Chains.antt =====
-- The loops that write to many tasks of the graph, as sequences of single writes.
use adaptive_orchestrator.Base.{
  ℕ, ◌≡◌, refl, inl, inr, true, false, some, List, [], ◌∷◌, arith, Bool-cases, Option-cases, keep,
  contains, set_add, sorted, get, has, put, keys,
}
use adaptive_orchestrator.Engine.State.{MissionEngine}
use adaptive_orchestrator.Engine.Guards.{IsKept, Guards}
use adaptive_orchestrator.Errors.{Result, ok, Result-cases}
use adaptive_orchestrator.Task.{
  TaskState, pending, blocked, ready, cancelled, Task, same_state, valid_task_transitions,
  in_states, allowed, transition_to,
}
use adaptive_orchestrator.Task.Lifecycle.{Outcome, unchanged, refused, moved, transition_to-Outcome}
use adaptive_orchestrator.Graph.{Graph, get_descendants}
use adaptive_orchestrator.Graph.{topological_sort}
use adaptive_orchestrator.Mutations.{is_revoked, invalidated, invalidate_all, invalidate_task}
use adaptive_orchestrator.Resolver.{
  is_waiting, is_task_ready, listed, sweep, resolve_all_ready, release_dependents,
  resolve_dependents_on_completion, block_dependents, resolve_dependents_on_failure,
}

pub IsKept-self : (t : Task) → IsKept t t
IsKept-self t = record {
  same_id = refl;
  same_dependencies = refl;
  same_dependents = refl;
  same_cancelled = refl;
}

not_left : (s target : TaskState) → allowed s target ≡ true → same_state s cancelled ≡ false
unfolding allowed in_states valid_task_transitions same_state
not_left cancelled target e = ground (arith, e)
not_left _ target e = refl

pub transition_to-IsKept :
    (t : Task) (target : TaskState) (now : ℕ) (u : Task)
    → same_state target cancelled ≡ false
    → transition_to t target now ≡ ok u
    → IsKept t u
transition_to-IsKept t target now u n e = settle (transition_to-Outcome t target now) e
  where
    settle : {out : Result Task} → Outcome t target now out → out ≡ ok u → IsKept t u
    settle (unchanged same) q = let p : u ≡ t = ground (arith, q) in rw p (IsKept-self t)
    settle (refused ne unlisted) q = ground (arith, q)
    settle (moved v ne listed described) q =
        let p : u ≡ v = ground (arith, q) in
        rw (p, described)
          (record {
            same_id = refl;
            same_dependencies = refl;
            same_dependents = refl;
            same_cancelled = rw (not_left t.status target listed) n;
          })

-- A graph becomes another by writes to its tasks.
pub data Evolves : Graph → Graph → Type 0 where
  here : {g : Graph} → Evolves g g
  write :
      {g h : Graph} (k : ℕ) (t u : Task)
      → get g k ≡ some t
      → IsKept t u
      → Evolves (put g k u) h
      → Evolves g h

listed-Evolves :
    (g : Graph) (k : ℕ) (out : Graph × Result (List ℕ))
    → Evolves g out.0
    → Evolves g (listed k out).0
unfolding listed
listed-Evolves g k out v = v

release_dependents-Evolves :
    (now : ℕ) (g : Graph) (ks : List ℕ) → Evolves g (release_dependents now g ks).0
unfolding release_dependents same_state
release_dependents-Evolves now g [] = here
release_dependents-Evolves now g (k ∷ ks) = elim (Option-cases (get g k)) [
  | inl e ↦ rw (release_dependents, e) here
  | inr (t, e) ↦ elim (Bool-cases (is_waiting t.status)) [
    | inr w ↦ rw (release_dependents, e, w) (release_dependents-Evolves now g ks)
    | inl w ↦ elim (Result-cases (is_task_ready g k)) [
      | inr (x, q) ↦ rw (release_dependents, e, w, q) here
      | inl (false, q) ↦ rw (release_dependents, e, w, q) (release_dependents-Evolves now g ks)
      | inl (true, q) ↦ elim (Result-cases (transition_to t ready now)) [
        | inr (x, f) ↦ rw (release_dependents, e, w, q, f) here
        | inl (u, f) ↦
            rw (release_dependents, e, w, q, f)
              (write k t u e (transition_to-IsKept t ready now u refl f)
                (release_dependents-Evolves now (put g k u) ks))
      ]
    ]
  ]
]

block_dependents-Evolves :
    (now : ℕ) (g : Graph) (ks : List ℕ) → Evolves g (block_dependents now g ks).0
unfolding block_dependents same_state
block_dependents-Evolves now g [] = here
block_dependents-Evolves now g (k ∷ ks) = elim (Option-cases (get g k)) [
  | inl e ↦ rw (block_dependents, e) here
  | inr (t, e) ↦ elim (Bool-cases (same_state t.status pending)) [
    | inr w ↦ rw (block_dependents, e, w) (block_dependents-Evolves now g ks)
    | inl w ↦ elim (Result-cases (transition_to t blocked now)) [
      | inr (x, f) ↦ rw (block_dependents, e, w, f) here
      | inl (u, f) ↦
          rw (block_dependents, e, w, f)
            (write k t u e (transition_to-IsKept t blocked now u refl f)
              (block_dependents-Evolves now (put g k u) ks))
    ]
  ]
]

sweep-Evolves : (now : ℕ) (g : Graph) (ks : List ℕ) → Evolves g (sweep now g ks).0
unfolding sweep same_state
sweep-Evolves now g [] = here
sweep-Evolves now g (k ∷ ks) = elim (Option-cases (get g k)) [
  | inl e ↦ rw (sweep, e) here
  | inr (t, e) ↦ elim (Bool-cases (is_waiting t.status)) [
    | inr w ↦ elim (Bool-cases (same_state t.status ready)) [
      | inl r ↦ rw (sweep, e, w, r) (sweep-Evolves now g ks)
      | inr r ↦ rw (sweep, e, w, r) (sweep-Evolves now g ks)
    ]
    | inl w ↦ elim (Result-cases (is_task_ready g k)) [
      | inr (x, q) ↦ rw (sweep, e, w, q) here
      | inl (false, q) ↦ rw (sweep, e, w, q) (sweep-Evolves now g ks)
      | inl (true, q) ↦ elim (Result-cases (transition_to t ready now)) [
        | inr (x, f) ↦ rw (sweep, e, w, q, f) here
        | inl (u, f) ↦
            rw (sweep, e, w, q, f)
              (write k t u e (transition_to-IsKept t ready now u refl f)
                (sweep-Evolves now (put g k u) ks))
      ]
    ]
  ]
]

invalidated-IsKept : (t : Task) → IsKept t (invalidated t)
unfolding invalidated same_state
invalidated-IsKept t = elim (Bool-cases (same_state t.status cancelled)) [
  | inl c ↦ rw (invalidated, c) (IsKept-self t)
  | inr c ↦
      rw (invalidated, c)
        (record {
          same_id = refl;
          same_dependencies = refl;
          same_dependents = refl;
          same_cancelled = elim (Bool-cases (is_revoked t.status)) [
            | inl r ↦ rw (r, c) refl
            | inr r ↦ rw r refl
          ];
        })
]

invalidate_all-Evolves : (g : Graph) (ks : List ℕ) → Evolves g (invalidate_all g ks).0
unfolding invalidate_all
invalidate_all-Evolves g [] = here
invalidate_all-Evolves g (k ∷ ks) = elim (Option-cases (get g k)) [
  | inl e ↦ rw (invalidate_all, e) here
  | inr (t, e) ↦
      rw (invalidate_all, e)
        (write k t (invalidated t) e (invalidated-IsKept t)
          (invalidate_all-Evolves (put g k (invalidated t)) ks))
]

pub resolve_completion-Evolves :
    (g : Graph) (k now : ℕ) → Evolves g (resolve_dependents_on_completion g k now).0
unfolding resolve_dependents_on_completion
resolve_completion-Evolves g k now = elim (Option-cases (get g k)) [
  | inl e ↦ rw (resolve_dependents_on_completion, e) here
  | inr (t, e) ↦
      rw (resolve_dependents_on_completion, e)
        (release_dependents-Evolves now g (sorted t.dependents))
]

pub resolve_failure-Evolves :
    (g : Graph) (k now : ℕ) → Evolves g (resolve_dependents_on_failure g k now).0
unfolding resolve_dependents_on_failure
resolve_failure-Evolves g k now = elim (Option-cases (get g k)) [
  | inl e ↦ rw (resolve_dependents_on_failure, e) here
  | inr (t, e) ↦
      rw (resolve_dependents_on_failure, e) (block_dependents-Evolves now g (sorted t.dependents))
]

pub resolve_all_ready-Evolves : (g : Graph) (now : ℕ) → Evolves g (resolve_all_ready g now).0
unfolding resolve_all_ready
resolve_all_ready-Evolves g now = sweep-Evolves now g (sorted (keys g))

pub invalidate_task-Evolves : (g : Graph) (k : ℕ) → Evolves g (invalidate_task g k).0
unfolding invalidate_task
invalidate_task-Evolves g k = elim (Bool-cases (has g k)) [
  | inr e ↦ rw (invalidate_task, e) here
  | inl e ↦ elim (Result-cases (get_descendants g k)) [
    | inr (x, f) ↦ rw (invalidate_task, e, f) here
    | inl (ds, f) ↦ elim (Result-cases (topological_sort g)) [
      | inr (x, q) ↦ rw (invalidate_task, e, f, q) here
      | inl (order, q) ↦
          rw (invalidate_task, e, f, q)
            (invalidate_all-Evolves g (keep (λ j. contains (set_add ds k) j) order))
    ]
  ]
]

-- What single writes keep, sequences keep.
pub Evolves-keeps :
    (P : MissionEngine → Type 0) (gs : Guards P) (s : MissionEngine) {g h : Graph}
    → Evolves g h
    → P (record s { graph = g })
    → P (record s { graph = h })
Evolves-keeps P gs s here p = p
Evolves-keeps P gs s (write {g = g} {h = h} k t u e kept rest) p =
    Evolves-keeps P gs s rest (gs.writes (record s { graph = g }) k t u e kept p)
