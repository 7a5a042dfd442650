-- ===== src/ReadyQueue/Removal.antt =====
-- `remove` on the abstract queue.
use adaptive_orchestrator.Base.{
  ℕ, ◌≡◌, refl, ap, inl, inr, Bool, not, ◌&&◌, List, [], ◌∷◌, arith, ◌==◌, Option-cases, keep, get,
  remove, get-remove,
}
use adaptive_orchestrator.ReadyQueue.{QueueItem, ReadyQueue, is_live, discard}
use adaptive_orchestrator.ReadyQueue.Consistency.{view}

keep-keep :
    (p q r : QueueItem → Bool) (xs : List QueueItem)
    → ((x : QueueItem) → r x ≡ (p x && q x))
    → keep r xs ≡ keep q (keep p xs)
unfolding keep
keep-keep p q r [] h = refl
keep-keep p q r (x ∷ xs) h = ground (arith, h x, keep-keep p q r xs h)

-- `remove` takes exactly the item of its task out of the abstract queue, although the heap keeps it.
pub view-discard :
    (q : ReadyQueue) (k : ℕ) → view (discard q k).0 ≡ keep (λ x. not (x.task_id == k)) (view q)
unfolding discard
view-discard q k = elim (Option-cases (get q.entry_finder k)) [
  | inl e ↦
      rw (e, discard)
        (keep-keep (is_live q.entry_finder) (λ x. not (x.task_id == k)) (is_live q.entry_finder)
          q.heap (λ x. unfold is_live in ground (arith, at_key x)))
  | inr (item, e) ↦
      rw (e, discard)
        (keep-keep (is_live q.entry_finder) (λ x. not (x.task_id == k))
          (is_live (remove q.entry_finder k)) q.heap
          (λ x. unfold is_live in ground (arith, get-remove q.entry_finder k x.task_id)))
]
  where
    at_key : (x : QueueItem) → x.task_id ≡ k → get q.entry_finder x.task_id ≡ get q.entry_finder k
    at_key x e = ap (get q.entry_finder) e
