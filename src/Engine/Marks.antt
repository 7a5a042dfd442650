-- ===== src/Engine/Marks.antt =====
-- What the writes to the graph and to the queue do to the identifiers, the cancelled tasks and the
-- queued ones.
use adaptive_orchestrator.Base.{
  ℕ, ◌≡◌, refl, ap, ◌∙◌, ◌⊎◌, inl, inr, Bool, false, not, ◌&&◌, ◌||◌, Option, none, some, List, [],
  ◌∷◌, arith, ◌==◌, if◌then◌else◌, Bool-cases, Option-cases, get, has, put, get-put, get-remove,
}
use adaptive_orchestrator.Engine.Plan.{TaskFields, build_task}
use adaptive_orchestrator.Task.{ready, cancelled, Task, same_state}
use adaptive_orchestrator.Graph.{
  Graph, modify, add_dependent, discard_dependent, add_prerequisite, discard_prerequisite,
}
use adaptive_orchestrator.Graph.{
  for_each, link_task, add_edge, remove_edge, commit_edge, add_dependency, remove_dependency,
}
use adaptive_orchestrator.Graph.{detect_cycle}
use adaptive_orchestrator.ReadyQueue.{
  QueueItem, ReadyQueue, push, drop_stale, pop, pop_optional, discard, holds,
}
use adaptive_orchestrator.ReadyQueue.Refinement.{item_of}

-- The identifier of the task under a key, and whether it is cancelled.
unfoldable pub mark : Graph → ℕ → Option (ℕ × Bool)
mark g k = elim (get g k) [ none ↦ none | some t ↦ some (t.task_id, same_state t.status cancelled) ]

pub mark-put :
    (g : Graph) (k : ℕ) (u : Task) (j : ℕ)
    → mark (put g k u) j
      ≡ (if k == j then some (u.task_id, same_state u.status cancelled) else mark g j)
unfolding mark
mark-put g k u j = ground (arith, get-put g k u j)

mark-modify :
    (g : Graph) (k : ℕ) (f : Task → Task) (j : ℕ)
    → ((t : Task) → ((f t).task_id ≡ t.task_id) × ((f t).status ≡ t.status))
    → mark (modify g k f) j ≡ mark g j
unfolding mark modify
mark-modify g k f j same = elim (Option-cases (get g k)) [
  | inl e ↦ rw (modify, e) refl
  | inr (t, e) ↦ rw (modify, e) (ground (arith, get-put g k (f t) j, same t, moved, e))
]
  where
    moved : k ≡ j → get g k ≡ get g j
    moved p = ap (get g) p

mark-add_edge : (g : Graph) (a b j : ℕ) → mark (add_edge g a b) j ≡ mark g j
unfolding add_edge add_prerequisite add_dependent
mark-add_edge g a b j =
    mark-modify (modify g a (add_prerequisite b)) b (add_dependent a) j (λ t. (refl, refl))
    ∙ mark-modify g a (add_prerequisite b) j (λ t. (refl, refl))

mark-remove_edge : (g : Graph) (a b j : ℕ) → mark (remove_edge g a b) j ≡ mark g j
unfolding remove_edge discard_prerequisite discard_dependent
mark-remove_edge g a b j =
    mark-modify (modify g a (discard_prerequisite b)) b (discard_dependent a) j (λ t. (refl, refl))
    ∙ mark-modify g a (discard_prerequisite b) j (λ t. (refl, refl))

mark-commit_edge : (g : Graph) (a b j : ℕ) → mark (commit_edge g a b).0 j ≡ mark g j
unfolding commit_edge
mark-commit_edge g a b j = elim (Option-cases (detect_cycle (add_edge g a b))) [
  | inl e ↦ rw (commit_edge, e) (mark-add_edge g a b j)
  | inr (c, e) ↦
      rw (commit_edge, e) (mark-remove_edge (add_edge g a b) a b j ∙ mark-add_edge g a b j)
]

pub mark-add_dependency : (g : Graph) (a b j : ℕ) → mark (add_dependency g a b).0 j ≡ mark g j
unfolding add_dependency
mark-add_dependency g a b j = ground (arith, mark-commit_edge g a b j)

pub mark-remove_dependency : (g : Graph) (a b j : ℕ) → mark (remove_dependency g a b).0 j ≡ mark g j
unfolding remove_dependency
mark-remove_dependency g a b j = ground (arith, mark-remove_edge g a b j)

mark-link :
    (id : ℕ) (ds : List ℕ) (g : Graph) (j : ℕ)
    → mark (for_each (λ d h. modify h d (add_dependent id)) ds g) j ≡ mark g j
unfolding for_each add_dependent
mark-link id [] g j = refl
mark-link id (d ∷ ds) g j =
    mark-link id ds (modify g d (add_dependent id)) j
    ∙ mark-modify g d (add_dependent id) j (λ t. (refl, refl))

pub mark-link_task :
    (g : Graph) (f : TaskFields) (j : ℕ)
    → mark (link_task g (build_task f)) j
      ≡ (if f.identifier == j then some (f.identifier, false) else mark g j)
unfolding link_task build_task same_state
mark-link_task g f j =
    mark-link f.identifier f.prerequisites (put g f.identifier (build_task f)) j
    ∙ mark-put g f.identifier (build_task f) j

pub holds-discard :
    (q : ReadyQueue) (k j : ℕ) → holds (discard q k).0 j ≡ (not (k == j) && holds q j)
unfolding holds discard has
holds-discard q k j = elim (Option-cases (get q.entry_finder k)) [
  | inl e ↦ rw (discard, e) (ground (arith, e, moved))
  | inr (item, e) ↦ rw (discard, e) (ground (arith, get-remove q.entry_finder k j))
]
  where
    moved : k ≡ j → get q.entry_finder k ≡ get q.entry_finder j
    moved p = ap (get q.entry_finder) p

pub holds-push :
    (q : ReadyQueue) (t : Task) (value j : ℕ)
    → holds (push q t value).0 j ≡ ((same_state t.status ready && t.task_id == j) || holds q j)
unfolding holds push has
holds-push q t value j = elim (Bool-cases (same_state t.status ready)) [
  | inr e ↦ rw (e, push) refl
  | inl e ↦ elim (Bool-cases (has q.entry_finder t.task_id)) [
    | inl h ↦ rw (e, push) (ground (arith, h, moved))
    | inr h ↦
        rw (e, push) (ground (arith, h, get-put q.entry_finder t.task_id (item_of q t value) j))
  ]
]
  where
    moved : t.task_id ≡ j → get q.entry_finder t.task_id ≡ get q.entry_finder j
    moved p = ap (get q.entry_finder) p

heap-cases :
    (xs : List QueueItem)
    → (xs ≡ []) ⊎ ((item : QueueItem) × (rest : List QueueItem) × (xs ≡ item ∷ rest))
heap-cases [] = inl refl
heap-cases (x ∷ xs) = inr (x, xs, refl)

-- A task that the queue has after it gives one up was there before.
pub holds-pop : (q : ReadyQueue) (j : ℕ) → holds q j ≡ false → holds (pop_optional q).0 j ≡ false
unfolding holds pop_optional has
holds-pop q j h = elim (heap-cases (drop_stale q.entry_finder q.heap)) [
  | inl e ↦ rw (pop, e) h
  | inr (item, rest, e) ↦ rw (pop, e) (ground (arith, h, get-remove q.entry_finder item.task_id j))
]
