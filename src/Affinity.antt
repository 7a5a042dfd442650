-- ===== src/Affinity.antt =====
-- orchestrator/workers/affinity.py: `DomainAffinityPolicy`. Identifiers of workers are numbers in
-- the order of the strings, and times are numbers of ticks.
pub mod Choice
use adaptive_orchestrator.Base.{
  str_eq, String, Bool, true, false, not, ◌&&◌, Option, none, some, List, [], ◌∷◌, ltb, leb,
  if◌then◌else◌, keep,
}
use adaptive_orchestrator.Task.{Task}
use adaptive_orchestrator.Worker.{Worker}

pub record DomainAffinityPolicy : Type 0 where
  pub allow_general_fallback : Bool
  pub allow_cross_domain_fallback : Bool
  pub general_domain_name : String

-- `<=` on the sort keys, which are compared as tuples.
unfoldable pub candidate_leb : Worker → Worker → Bool
candidate_leb v w =
    if ltb v.metrics.tasks_completed w.metrics.tasks_completed
    then true
    else if ltb w.metrics.tasks_completed v.metrics.tasks_completed
    then false
    else if ltb v.last_active_at w.last_active_at
    then true
    else if ltb w.last_active_at v.last_active_at
    then false
    else leb v.worker_id w.worker_id

unfoldable pub insert_candidate : Worker → List Worker → List Worker
unfolding candidate_leb
insert_candidate w [] = w ∷ []
insert_candidate w (x ∷ xs) =
    let rest = insert_candidate w xs in if candidate_leb w x then w ∷ x ∷ xs else x ∷ rest

-- `_sort_candidates`
unfoldable pub sort_candidates : List Worker → List Worker
unfolding insert_candidate
sort_candidates [] = []
sort_candidates (w ∷ ws) = insert_candidate w (sort_candidates ws)

unfoldable pub is_nonempty : List Worker → Bool
is_nonempty [] = false
is_nonempty (w ∷ ws) = true

-- The idle workers of a domain.
unfoldable pub matches : String → List Worker → List Worker
matches domain ws = keep (λ w. str_eq w.domain domain) ws

-- An empty list of idle workers, which the code returns for at once, has no match.
unfoldable pub rank_candidates : DomainAffinityPolicy → Task → List Worker → List Worker
unfolding sort_candidates is_nonempty matches
rank_candidates p task idle_workers =
    if not (is_nonempty idle_workers)
    then []
    else if is_nonempty (matches task.domain idle_workers)
    then sort_candidates (matches task.domain idle_workers)
    else if p.allow_general_fallback && is_nonempty (matches p.general_domain_name idle_workers)
    then sort_candidates (matches p.general_domain_name idle_workers)
    else if p.allow_cross_domain_fallback
    then sort_candidates idle_workers
    else []

unfoldable pub select_worker : DomainAffinityPolicy → Task → List Worker → Option Worker
unfolding rank_candidates
select_worker p task idle_workers = elim (rank_candidates p task idle_workers) [
  | [] ↦ none
  | w ∷ ws ↦ some w
]
