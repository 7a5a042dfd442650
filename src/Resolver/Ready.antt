-- ===== src/Resolver/Ready.antt =====
-- The promotion of tasks by the whole of `resolve_all_ready`.
use adaptive_orchestrator.Base.{
  ℕ, ◌≡◌, refl, sym, ◌∙◌, inl, inr, Bool, true, false, ◌&&◌, none, some, List, [], ◌∷◌, arith,
  if◌then◌else◌, Bool-cases, Option-cases, every, contains, sorted, contains-sorted, get, has, put,
  keys, get-put, contains-keys,
}
use adaptive_orchestrator.Errors.{Result, ok}
use adaptive_orchestrator.Task.{ready, Task, same_state}
use adaptive_orchestrator.Graph.{Graph, dependencies_of}
use adaptive_orchestrator.Resolver.{is_waiting, sweep, resolve_all_ready}
use adaptive_orchestrator.Resolver.Promotion.{
  IsClosed, succeeded, promote, promoted, is_task_ready_lem, transition_to-ready, is_ready, Sweeps,
  made_ready, Sweeps-skip, Sweeps-list, Sweeps-move,
}

IsClosed-put :
    (g : Graph) (k : ℕ) (t : Task)
    → get g k ≡ some t
    → IsClosed g
    → IsClosed (put g k (record t { status = ready }))
unfolding dependencies_of has
IsClosed-put g k t e closed j d = ground (
  arith,
  get-put g k (record t { status = ready }) j,
  get-put g k (record t { status = ready }) d,
  closed j d,
  e,
  same,
)
  where
    same : j ≡ k → get g j ≡ some t
    same p = rw p e

has-put :
    (g : Graph) (k : ℕ) (t : Task)
    → get g k ≡ some t
    → (j : ℕ) → has g j ≡ true
    → has (put g k (record t { status = ready })) j ≡ true
unfolding has
has-put g k t e j q = ground (arith, get-put g k (record t { status = ready }) j)

absurd_task : {A : Type 0} (g : Graph) (k : ℕ) → get g k ≡ none → has g k ≡ true → A
unfolding has
absurd_task g k gone q = ground arith

kept :
    (g : Graph) (t : Task)
    → (is_waiting t.status && every (succeeded g) t.dependencies) ≡ false
    → promote g t ≡ t
unfolding promote
kept g t q = rw (promote, q) refl

not_ready : (t : Task) → is_waiting t.status ≡ true → same_state t.status ready ≡ false
unfolding is_waiting
not_ready t w = ground arith

tail :
    {P : ℕ → Bool} (k : ℕ) (ks : List ℕ)
    → ((j : ℕ) → contains (k ∷ ks) j ≡ true → P j ≡ true)
    → (j : ℕ) → contains ks j ≡ true
    → P j ≡ true
unfolding contains
tail k ks all j q = all j (ground arith)

-- The loop over tasks of the graph.
sweep-Sweeps :
    (now : ℕ) (g : Graph) (ks : List ℕ)
    → IsClosed g
    → ((k : ℕ) → contains ks k ≡ true → has g k ≡ true)
    → Sweeps g ks (sweep now g ks)
unfolding sweep contains
sweep-Sweeps now g [] closed known = record {
  ids = [];
  returned = refl;
  tasks = λ j. refl;
  listed_iff = λ j. refl;
}
sweep-Sweeps now g (k ∷ ks) closed known =
    let later : Sweeps g ks (sweep now g ks) = sweep-Sweeps now g ks closed (tail k ks known) in
    elim (Option-cases (get g k)) [
      | inl gone ↦ absurd_task g k gone (known k (ground arith))
      | inr (t, e) ↦ elim (Bool-cases (is_waiting t.status)) [
        | inl w ↦ elim (Bool-cases (every (succeeded g) t.dependencies)) [
          | inl met ↦
              rw (sweep, e, w, is_task_ready_lem g k t closed e w, met, transition_to-ready t now w)
                (Sweeps-move g k t e w met ks (sweep now (put g k (made_ready g k t e)) ks) (
                  sweep-Sweeps now (put g k (made_ready g k t e)) ks (IsClosed-put g k t e closed)
                    (λ j q. has-put g k t e j (tail k ks known j q))))
          | inr unmet ↦
              rw (sweep, e, w, is_task_ready_lem g k t closed e w, unmet)
                (Sweeps-skip g k t e ks (sweep now g ks) (kept g t (rw (w, unmet) refl))
                  (not_ready t w) later)
        ]
        | inr w ↦ elim (Bool-cases (same_state t.status ready)) [
          | inl r ↦
              rw (sweep, e, w, r)
                (Sweeps-list g k t e ks (sweep now g ks) (kept g t (rw w refl)) r later)
          | inr r ↦
              rw (sweep, e, w, r)
                (Sweeps-skip g k t e ks (sweep now g ks) (kept g t (rw w refl)) r later)
        ]
      ]
    ]

not_there : (g : Graph) (k : ℕ) → has g k ≡ false → get g k ≡ none
unfolding has
not_there g k q = ground arith

absent_promoted : (g : Graph) (k : ℕ) → has g k ≡ false → promoted g k ≡ none
unfolding has promoted
absent_promoted g k q = ground arith

promoted-Sweeps :
    (g : Graph) (out : Graph × Result (List ℕ))
    → Sweeps g (sorted (keys g)) out
    → (ids : List ℕ) × (out.1 ≡ ok ids)
      × ((k : ℕ) → get out.0 k ≡ promoted g k)
      × ((k : ℕ) → contains ids k ≡ is_ready (get out.0 k))
promoted-Sweeps g out s =
    (s.ids, s.returned, λ k. at k (s.tasks k), λ k. rw (at k (s.tasks k)) (among k))
  where
    member : (k : ℕ) → contains (sorted (keys g)) k ≡ has g k
    member k = contains-sorted (keys g) k ∙ contains-keys g k

    nothing : (k : ℕ) → has g k ≡ false → get g k ≡ none
    nothing k q = not_there g k q

    at :
        (k : ℕ)
        → get out.0 k ≡ (if contains (sorted (keys g)) k then promoted g k else get g k)
        → get out.0 k ≡ promoted g k
    at k q = ground (arith, member k, nothing k, absent_promoted g k)

    among : (k : ℕ) → contains s.ids k ≡ is_ready (promoted g k)
    among k = ground (arith, s.listed_iff k, member k, absent_promoted g k)

-- In a graph whose dependencies are all known, `resolve_all_ready` returns. Each task that was
-- PENDING or BLOCKED and whose dependencies have all succeeded is then READY, and nothing else of
-- it and no other task has changed. The identifiers that the call returns are those of the tasks
-- that are then READY.
pub resolve_all_ready-exact :
    (g : Graph) (now : ℕ)
    → IsClosed g
    → (ids : List ℕ) × ((resolve_all_ready g now).1 ≡ ok ids)
      × ((k : ℕ) → get (resolve_all_ready g now).0 k ≡ promoted g k)
      × ((k : ℕ) → contains ids k ≡ is_ready (get (resolve_all_ready g now).0 k))
unfolding resolve_all_ready
resolve_all_ready-exact g now closed = promoted-Sweeps g (sweep now g (sorted (keys g))) (
    sweep-Sweeps now g (sorted (keys g)) closed
      (λ k q. sym (contains-keys g k) ∙ sym (contains-sorted (keys g) k) ∙ q))
