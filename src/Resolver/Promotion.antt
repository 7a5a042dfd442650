-- ===== src/Resolver/Promotion.antt =====
-- One step of the loop of `resolve_all_ready`, against a description that looks at each task alone.
use adaptive_orchestrator.Base.{
  ℕ, ◌≡◌, refl, sym, ap, ◌∙◌, inl, inr, Bool, true, false, ◌&&◌, Option, none, some, List, [], ◌∷◌,
  arith, ◌==◌, if◌then◌else◌, ==_iff, Bool-cases, length, every, contains, get, has, put, get-put,
  get-put_self,
}
use adaptive_orchestrator.Errors.{Result, ok}
use adaptive_orchestrator.Task.{ready, Task, same_state, is_success, stamp, transition_to}
use adaptive_orchestrator.Graph.{Graph, dependencies_of}
use adaptive_orchestrator.Resolver.{is_settled, is_waiting, all_successful, is_task_ready, listed}

-- Every dependency of a task of the graph is in the graph.
abbrev pub IsClosed : Graph → Type 0
IsClosed g = (k d : ℕ) → contains (dependencies_of g k) d ≡ true → has g d ≡ true

-- The task `d` has succeeded.
abbrev pub succeeded : Graph → ℕ → Bool
succeeded g d = elim (get g d) [ none ↦ false | some t ↦ is_success t.status ]

-- The task with its state made READY if it waits and all its dependencies have succeeded.
unfoldable pub promote : Graph → Task → Task
promote g t =
    if is_waiting t.status && every (succeeded g) t.dependencies
    then record t { status = ready }
    else t

unfoldable pub promoted : Graph → ℕ → Option Task
unfolding promote
promoted g k = elim (get g k) [ none ↦ none | some t ↦ some (promote g t) ]

all_successful_lem :
    (g : Graph) (ds : List ℕ)
    → ((d : ℕ) → contains ds d ≡ true → has g d ≡ true)
    → all_successful g ds ≡ ok (every (succeeded g) ds)
unfolding all_successful every has contains
all_successful_lem g [] known = refl
all_successful_lem g (d ∷ ds) known =
    ground (arith, known d, all_successful_lem g ds (λ x e. known x (ground arith)))

pub is_task_ready_lem :
    (g : Graph) (k : ℕ) (t : Task)
    → IsClosed g
    → get g k ≡ some t
    → is_waiting t.status ≡ true
    → is_task_ready g k ≡ ok (every (succeeded g) t.dependencies)
unfolding is_task_ready is_waiting is_settled all_successful dependencies_of
is_task_ready_lem g k t closed e w =
    rw (is_task_ready, e)
      (ground
        (arith, all_successful_lem g t.dependencies (closed' e), no_dependencies t.dependencies))
  where
    closed' : get g k ≡ some t → (d : ℕ) → contains t.dependencies d ≡ true → has g d ≡ true
    closed' e' d q = closed k d (rw (dependencies_of, e') q)

    no_dependencies : (ds : List ℕ) → length ds ≡ 0 → all_successful g ds ≡ ok true
    no_dependencies [] q = refl
    no_dependencies (x ∷ xs) q = ground arith

pub transition_to-ready :
    (t : Task) (now : ℕ)
    → is_waiting t.status ≡ true
    → transition_to t ready now ≡ ok (record t { status = ready })
unfolding transition_to is_waiting stamp
transition_to-ready t now w = ground arith

-- Whether the task is there and READY.
abbrev pub is_ready : Option Task → Bool
is_ready none = false
is_ready (some t) = same_state t.status ready

-- What the loop over `ks` returns, and the graph that it leaves.
pub record Sweeps (g : Graph) (ks : List ℕ) (out : Graph × Result (List ℕ)) : Type 0 where
  pub ids : List ℕ
  pub returned : out.1 ≡ ok ids
  pub tasks : (k : ℕ) → get out.0 k ≡ (if contains ks k then promoted g k else get g k)
  pub listed_iff : (k : ℕ) → contains ids k ≡ (contains ks k && is_ready (promoted g k))

module _ (g : Graph) (k : ℕ) (t : Task) (e : get g k ≡ some t) where
  abbrev pub made_ready : Task
  made_ready = record t { status = ready }

  at_k : (j : ℕ) → j ≡ k → promoted g j ≡ some (promote g t)
  unfolding promoted
  at_k j p = rw (p, promoted, e) refl

  at_k' : (j : ℕ) → j ≡ k → get g j ≡ some t
  at_k' j p = rw p e

  pub Sweeps-skip :
      (ks : List ℕ) (out : Graph × Result (List ℕ))
      → promote g t ≡ t
      → same_state t.status ready ≡ false
      → Sweeps g ks out
      → Sweeps g (k ∷ ks) out
  unfolding contains
  Sweeps-skip ks out p n s = record {
    ids = s.ids;
    returned = s.returned;
    tasks = λ j. ground (arith, s.tasks j, at_k j, at_k' j);
    listed_iff = λ j. ground (arith, s.listed_iff j, at_k j);
  }

  pub Sweeps-list :
      (ks : List ℕ) (out : Graph × Result (List ℕ))
      → promote g t ≡ t
      → same_state t.status ready ≡ true
      → Sweeps g ks out
      → Sweeps g (k ∷ ks) (listed k out)
  unfolding contains listed
  Sweeps-list ks out p n s = record {
    ids = k ∷ s.ids;
    returned = rw s.returned refl;
    tasks = λ j. ground (arith, s.tasks j, at_k j, at_k' j);
    listed_iff = λ j. ground (arith, s.listed_iff j, at_k j);
  }

  module _ (w : is_waiting t.status ≡ true) where
    succeeded-put : (d : ℕ) → succeeded (put g k made_ready) d ≡ succeeded g d
    unfolding is_success is_waiting
    succeeded-put d = ground (arith, get-put g k made_ready d, at_k' d)

    every-put : (ds : List ℕ) → every (succeeded (put g k made_ready)) ds ≡ every (succeeded g) ds
    unfolding every
    every-put [] = refl
    every-put (d ∷ ds) = rw (succeeded-put d, every-put ds) refl

    promote-put : (x : Task) → promote (put g k made_ready) x ≡ promote g x
    unfolding promote
    promote-put x = rw (promote, every-put x.dependencies) refl

    module _ (met : every (succeeded g) t.dependencies ≡ true) where
      changed : promote g t ≡ made_ready
      unfolding promote
      changed = rw (promote, w, met) refl

      at_self : promoted (put g k made_ready) k ≡ some made_ready
      unfolding promoted promote is_waiting
      at_self = rw (promoted, get-put_self g k made_ready) refl

      pointwise :
          (o : Option Task)
          → (elim o [ none ↦ none | some x ↦ some (promote (put g k made_ready) x) ])
            ≡ (elim o [ none ↦ none | some x ↦ some (promote g x) ])
      pointwise none = refl
      pointwise (some x) = ap some (promote-put x)

      promoted-put : (j : ℕ) → promoted (put g k made_ready) j ≡ promoted g j
      unfolding promoted
      promoted-put j = elim (Bool-cases (j == k)) [
        | inl same ↦
            let p : j ≡ k = (==_iff j k).0 same in
            rw p (at_self ∙ ap some (sym changed) ∙ sym (at_k k refl))
        | inr other ↦ rw (promoted, elsewhere j other) (pointwise (get g j))
      ]
        where
          elsewhere : (i : ℕ) → (i == k) ≡ false → get (put g k made_ready) i ≡ get g i
          elsewhere i q = ground (arith, get-put g k made_ready i)

      ready_at : (j : ℕ) → j ≡ k → is_ready (promoted g j) ≡ true
      unfolding same_state
      ready_at j p = rw (at_k j p, changed) refl

      pub Sweeps-move :
          (ks : List ℕ) (out : Graph × Result (List ℕ))
          → Sweeps (put g k made_ready) ks out
          → Sweeps g (k ∷ ks) (listed k out)
      unfolding contains listed
      Sweeps-move ks out s = record {
        ids = k ∷ s.ids;
        returned = rw s.returned refl;
        tasks = λ j.
            ground (
              arith,
              s.tasks j,
              at_k j,
              at_k' j,
              get-put g k made_ready j,
              promoted-put j,
              changed,
            );
        listed_iff = λ j. ground (arith, s.listed_iff j, ready_at j, promoted-put j);
      }
