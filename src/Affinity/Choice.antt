-- ===== src/Affinity/Choice.antt =====
-- What `select_worker` chooses.
use adaptive_orchestrator.Base.{
  ◌≤◌, ◌<◌, str_eq, eq_iff, String, ◌≡◌, refl, ◌⊎◌, inl, inr, Bool, true, false, Option, none, some,
  List, [], ◌∷◌, arith, Bool-cases, keep,
}
use adaptive_orchestrator.Task.{Task}
use adaptive_orchestrator.Worker.{Worker}
use adaptive_orchestrator.Affinity.{
  DomainAffinityPolicy, candidate_leb, insert_candidate, sort_candidates, is_nonempty, matches,
  rank_candidates, select_worker,
}

-- `w` stands in the list.
pub data IsIn (w : Worker) : List Worker → Type 0 where
  first : {ws : List Worker} → IsIn w (w ∷ ws)
  later : {x : Worker} {ws : List Worker} → IsIn w ws → IsIn w (x ∷ ws)

-- `w` comes first in the order of the candidates.
abbrev pub IsLeast : Worker → List Worker → Type 0
IsLeast w ws = (v : Worker) → IsIn v ws → candidate_leb w v ≡ true

-- The list that the choice is made from, and its result.
pub data Choice (pool : List Worker) : Option Worker → Type 0 where
  nobody : pool ≡ [] → Choice pool none
  chosen : (w : Worker) → IsIn w pool → IsLeast w pool → Choice pool (some w)

abbrev head : List Worker → Option Worker
head [] = none
head (w ∷ ws) = some w

candidate_leb_refl : (w : Worker) → candidate_leb w w ≡ true
unfolding candidate_leb
candidate_leb_refl w = ground arith

candidate_leb_total : (v w : Worker) → candidate_leb v w ≡ false → candidate_leb w v ≡ true
unfolding candidate_leb
candidate_leb_total v w e = ground arith

candidate_leb_trans :
    (u v w : Worker)
    → candidate_leb u v ≡ true
    → candidate_leb v w ≡ true
    → candidate_leb u w ≡ true
unfolding candidate_leb
candidate_leb_trans u v w e f = ground arith

IsLeast-cons :
    (u w : Worker) (pool : List Worker)
    → candidate_leb u w ≡ true
    → IsLeast u pool
    → IsLeast u (w ∷ pool)
IsLeast-cons u w pool e least _ first = e
IsLeast-cons u w pool e least v (later i) = least v i

IsLeast-nil : (u : Worker) → IsLeast u []
IsLeast-nil u v i = elim i [ ]

IsLeast-below :
    (u w : Worker) (pool : List Worker) → candidate_leb u w ≡ true → IsLeast w pool → IsLeast u pool
IsLeast-below u w pool e least v i = candidate_leb_trans u w v e (least v i)

head-insert_candidate :
    (w : Worker) (xs pool : List Worker)
    → Choice pool (head xs)
    → Choice (w ∷ pool) (head (insert_candidate w xs))
unfolding insert_candidate
head-insert_candidate w [] pool (nobody e) =
    chosen w first (IsLeast-cons w w pool (candidate_leb_refl w) (rw e (IsLeast-nil w)))
head-insert_candidate w (x ∷ xs) pool (chosen _ i least) = elim (Bool-cases (candidate_leb w x)) [
  | inl e ↦
      rw (insert_candidate, e)
        (chosen w first
          (IsLeast-cons w w pool (candidate_leb_refl w) (IsLeast-below w x pool e least)))
  | inr e ↦
      rw (insert_candidate, e)
        (chosen x (later i) (IsLeast-cons x w pool (candidate_leb_total w x e) least))
]

-- The least of the candidates comes first.
head-sort_candidates : (ws : List Worker) → Choice ws (head (sort_candidates ws))
unfolding sort_candidates
head-sort_candidates [] = nobody refl
head-sort_candidates (w ∷ ws) =
    head-insert_candidate w (sort_candidates ws) ws (head-sort_candidates ws)

module _ (p : Worker → Bool) {v : Worker} where
  IsIn-keep : {ws : List Worker} → IsIn v ws → p v ≡ true → IsIn v (keep p ws)
  unfolding keep
  IsIn-keep first e = rw (keep, e) first
  IsIn-keep (later {x = x} i) e = elim (Bool-cases (p x)) [
    | inl q ↦ rw (keep, q) (later (IsIn-keep i e))
    | inr q ↦ rw (keep, q) (IsIn-keep i e)
  ]

  IsIn-cons :
      (x : Worker) (xs ys : List Worker)
      → p x ≡ true
      → (IsIn v ys → IsIn v xs × (p v ≡ true))
      → IsIn v (x ∷ ys)
      → IsIn v (x ∷ xs) × (p v ≡ true)
  IsIn-cons _ xs ys e f first = (first, e)
  IsIn-cons x xs ys e f (later i) = (later (f i).0, (f i).1)

  keep-IsIn : (ws : List Worker) → IsIn v (keep p ws) → IsIn v ws × (p v ≡ true)
  unfolding keep
  keep-IsIn [] i = elim i [ ]
  keep-IsIn (x ∷ xs) i = elim (Bool-cases (p x)) [
    | inl q ↦ IsIn-cons x xs (keep p xs) q (keep-IsIn xs) (rw (keep, q) at i)
    | inr q ↦
        let found : IsIn v xs × (p v ≡ true) = keep-IsIn xs (rw (keep, q) at i) in
        (later found.0, found.1)
  ]

-- The documented order: fewest tasks completed, then the oldest activity, then the identifier.
abbrev pub Precedes : Worker → Worker → Type 0
Precedes w v =
    (w.metrics.tasks_completed < v.metrics.tasks_completed)
    ⊎ ((w.metrics.tasks_completed ≡ v.metrics.tasks_completed)
        × ((w.last_active_at < v.last_active_at)
            ⊎ ((w.last_active_at ≡ v.last_active_at) × (w.worker_id ≤ v.worker_id))))

candidate_leb-Precedes : (w v : Worker) → candidate_leb w v ≡ true → Precedes w v
unfolding candidate_leb
candidate_leb-Precedes w v e = ground (arith, e)

-- `w` is the best of the idle workers of the domain `d`.
pub record IsBest (d : String) (ws : List Worker) (w : Worker) : Type 0 where
  pub idle : IsIn w ws
  pub of_domain : w.domain ≡ d
  pub least : (v : Worker) → IsIn v ws → v.domain ≡ d → Precedes w v

module _ (d : String) (ws : List Worker) (v : Worker) (i : IsIn v ws) (e : v.domain ≡ d) where
  matched : IsIn v (matches d ws)
  unfolding matches
  matched = IsIn-keep (λ w. str_eq w.domain d) i ((eq_iff v.domain d).1 e)

  IsIn-is_nonempty : {xs : List Worker} → IsIn v xs → is_nonempty xs ≡ true
  unfolding is_nonempty
  IsIn-is_nonempty first = refl
  IsIn-is_nonempty (later j) = refl

  best : (o : Option Worker) → Choice (matches d ws) o → (w : Worker) × (o ≡ some w) × IsBest d ws w
  unfolding matches
  best _ (nobody q) = elim (rw q at matched) [ ]
  best _ (chosen w j least) = (
    w,
    refl,
    record {
      idle = (keep-IsIn (λ x. str_eq x.domain d) ws j).0;
      of_domain = (eq_iff w.domain d).0 (keep-IsIn (λ x. str_eq x.domain d) ws j).1;
      least = λ u k q.
          candidate_leb-Precedes w u
            (least u (IsIn-keep (λ x. str_eq x.domain d) k ((eq_iff u.domain d).1 q)));
    },
  )

-- If some idle worker has the task's domain, then `select_worker` gives one of these: the first of
-- them by tasks completed, then by the time of the last activity, then by identifier.
pub select_worker-IsBest :
    (p : DomainAffinityPolicy) (task : Task) (ws : List Worker) (v : Worker)
    → IsIn v ws
    → v.domain ≡ task.domain
    → (w : Worker) × (select_worker p task ws ≡ some w) × IsBest task.domain ws w
unfolding select_worker rank_candidates
select_worker-IsBest p task ws v i e = best task.domain ws v i e (select_worker p task ws) (
    rw
      (
        select_worker,
        rank_candidates,
        IsIn-is_nonempty task.domain ws v i e i,
        IsIn-is_nonempty task.domain ws v i e (matched task.domain ws v i e),
      )
      (head-sort_candidates (matches task.domain ws)))

-- If no idle worker has the task's domain and the general domain is allowed, the choice is the
-- best idle worker of the general domain, where there is one.
pub select_worker-general :
    (p : DomainAffinityPolicy) (task : Task) (ws : List Worker) (v : Worker)
    → is_nonempty (matches task.domain ws) ≡ false
    → p.allow_general_fallback ≡ true
    → IsIn v ws
    → v.domain ≡ p.general_domain_name
    → (w : Worker) × (select_worker p task ws ≡ some w) × IsBest p.general_domain_name ws w
unfolding select_worker rank_candidates
select_worker-general p task ws v n a i e =
    best p.general_domain_name ws v i e (select_worker p task ws) (
      rw
        (
          select_worker,
          rank_candidates,
          IsIn-is_nonempty p.general_domain_name ws v i e i,
          n,
          a,
          IsIn-is_nonempty p.general_domain_name ws v i e (matched p.general_domain_name ws v i e),
        )
        (head-sort_candidates (matches p.general_domain_name ws)))
