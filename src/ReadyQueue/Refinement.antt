-- ===== src/ReadyQueue/Refinement.antt =====
-- The queue with its stale items refines a plain ordered list of live items.
use adaptive_orchestrator.Base.{
  ℕ, ◌+◌, ◌<◌, ◌≡◌, refl, sym, ap, ◌∙◌, inl, inr, true, false, List, [], ◌∷◌, arith, Bool-cases,
  keep, Dict, get, has, put, remove, get-put, get-remove, get-put_self,
}
use adaptive_orchestrator.Base.Int.{pos, neg}
use adaptive_orchestrator.Errors.{
  duplicate_queue_entry, task_not_ready, index_error, Result, ok, err,
}
use adaptive_orchestrator.Task.{ready, Task, same_state}
use adaptive_orchestrator.ReadyQueue.{
  QueueItem, ReadyQueue, heappush, push, is_live, drop_stale, pop, holds,
}
use adaptive_orchestrator.ReadyQueue.View.{IsOrdered, IsOrdered-heappush, keep-heappush}
use adaptive_orchestrator.ReadyQueue.Consistency.{
  view, Avoids, Distinct, UpTo, IsConsistent, Avoids-UpTo, UpTo-mono, UpTo-heappush,
  Distinct-heappush,
}

-- What the loop that drops stale items returns: nothing is live, or a live item is in front.
data Front (finder : Dict QueueItem) (heap : List QueueItem) : List QueueItem → Type 0 where
  none_live : keep (is_live finder) heap ≡ [] → Front finder heap []
  live :
      (item : QueueItem) (rest : List QueueItem)
      → is_live finder item ≡ true
      → keep (is_live finder) heap ≡ item ∷ keep (is_live finder) rest
      → (IsOrdered heap → IsOrdered (item ∷ rest))
      → (Distinct heap → Distinct (item ∷ rest))
      → ((n : ℕ) → UpTo n heap → UpTo n (item ∷ rest))
      → Front finder heap (item ∷ rest)

Front-stale :
    (finder : Dict QueueItem) (x : QueueItem) (xs : List QueueItem)
    → is_live finder x ≡ false
    → {ys : List QueueItem} → Front finder xs ys
    → Front finder (x ∷ xs) ys
unfolding keep
Front-stale finder x xs e (none_live q) = none_live (rw e q)
Front-stale finder x xs e (live item rest l q o d u) =
    live item rest l (rw e q) (λ w. o w.1) (λ w. d w.1) (λ n w. u n w.1)

drop_stale-Front :
    (finder : Dict QueueItem) (heap : List QueueItem) → Front finder heap (drop_stale finder heap)
unfolding drop_stale keep
drop_stale-Front finder [] = none_live refl
drop_stale-Front finder (x ∷ xs) = elim (Bool-cases (is_live finder x)) [
  | inl e ↦ rw e (live x xs e (rw e) (λ o. o) (λ d. d) (λ n u. u))
  | inr e ↦ rw e (Front-stale finder x xs e (drop_stale-Front finder xs))
]

-- Without the entry of a live item no other item goes stale.
keep-remove :
    (finder : Dict QueueItem) (item : QueueItem) (xs : List QueueItem)
    → is_live finder item ≡ true
    → Avoids item.entry_seq xs
    → keep (is_live (remove finder item.task_id)) xs ≡ keep (is_live finder) xs
unfolding keep
keep-remove finder item [] l a = refl
keep-remove finder item (x ∷ xs) l a = rw (same, keep-remove finder item xs l a.1)
  where
    same : is_live (remove finder item.task_id) x ≡ is_live finder x
    same = unfold is_live in ground (arith, get-remove finder item.task_id x.task_id, at_key)
      where
        at_key : item.task_id ≡ x.task_id → get finder item.task_id ≡ get finder x.task_id
        at_key e = ap (get finder) e

-- The outcomes of `pop`, by the abstract queue.
pub data Pops (q : ReadyQueue) : ReadyQueue × Result ℕ → Type 0 where
  nothing :
      (r : ReadyQueue) → view q ≡ [] → view r ≡ [] → IsConsistent r → Pops q (r, err index_error)
  first :
      (r : ReadyQueue) (item : QueueItem)
      → view q ≡ item ∷ view r
      → IsConsistent r
      → Pops q (r, ok item.task_id)

-- `pop` on a consistent queue takes the first item of the abstract queue, leaves the rest of it and
-- returns the task of that item; it raises IndexError exactly if the abstract queue is empty. The
-- queue that it leaves is consistent.
pub pop-Pops : (q : ReadyQueue) → IsConsistent q → Pops q (pop q)
unfolding pop
pop-Pops q c = settle (drop_stale-Front q.entry_finder q.heap)
  where
    settle :
        {xs : List QueueItem}
        → Front q.entry_finder q.heap xs
        → Pops q (elim xs as (λ x. ReadyQueue × Result ℕ) [
          | [] ↦ (record q { heap = [] }, err index_error)
          | item ∷ heap ↦ (
            record q { heap = heap; entry_finder = remove q.entry_finder item.task_id },
            ok item.task_id,
          )
        ])
    settle (none_live e) =
        nothing (record q { heap = [] }) e (unfold keep in refl)
          (record { ordered = tt; distinct = tt; up_to = tt })
    settle (live item rest l e o d u) =
        first (record q { heap = rest; entry_finder = remove q.entry_finder item.task_id }) item
          (e ∙ ap (λ ys. item ∷ ys) (sym (keep-remove q.entry_finder item rest l (d c.distinct).0)))
          (record {
            ordered = (o c.ordered).1;
            distinct = (d c.distinct).1;
            up_to = (u q.sequence_counter c.up_to).1;
          })

-- A new entry for an identifier that has none makes no old item live.
keep-put :
    (finder : Dict QueueItem) (item : QueueItem) (n : ℕ) (xs : List QueueItem)
    → has finder item.task_id ≡ false
    → UpTo n xs
    → n < item.entry_seq
    → keep (is_live (put finder item.task_id item)) xs ≡ keep (is_live finder) xs
unfolding keep
keep-put finder item n [] h u l = refl
keep-put finder item n (x ∷ xs) h u l = rw (same, keep-put finder item n xs h u.1 l)
  where
    same : is_live (put finder item.task_id item) x ≡ is_live finder x
    same =
        unfold is_live has in
        ground (arith, get-put finder item.task_id item x.task_id, at_key, u.0)
      where
        at_key : item.task_id ≡ x.task_id → get finder item.task_id ≡ get finder x.task_id
        at_key e = ap (get finder) e

live_self :
    (finder : Dict QueueItem) (item : QueueItem)
    → is_live (put finder item.task_id item) item ≡ true
unfolding is_live
live_self finder item = ground (arith, get-put_self finder item.task_id item)

-- The item that `push` makes of a task.
abbrev pub item_of : ReadyQueue → Task → ℕ → QueueItem
item_of q task unlock_value = record {
  priority_neg = neg task.priority;
  unlock_value_neg = neg (pos unlock_value);
  entry_seq = q.sequence_counter + 1;
  task_id = task.task_id;
}

-- The outcomes of `push`, by the task and the abstract queue.
pub data Pushes (q : ReadyQueue) (task : Task) (unlock_value : ℕ)
    : ReadyQueue × Result (Unit {0}) → Type 0 where
  not_ready :
      same_state task.status ready ≡ false → Pushes q task unlock_value (q, err task_not_ready)
  duplicate :
      holds q task.task_id ≡ true → Pushes q task unlock_value (q, err duplicate_queue_entry)
  inserted :
      (r : ReadyQueue)
      → same_state task.status ready ≡ true
      → holds q task.task_id ≡ false
      → view r ≡ heappush (view q) (item_of q task unlock_value)
      → IsConsistent r
      → Pushes q task unlock_value (r, ok tt)

module _ (q : ReadyQueue) (task : Task) (unlock_value : ℕ) where
  abbrev pushed : ReadyQueue
  pushed = record {
    heap = heappush q.heap (item_of q task unlock_value);
    entry_finder = put q.entry_finder task.task_id (item_of q task unlock_value);
    sequence_counter = q.sequence_counter + 1;
  }

  view-push :
      has q.entry_finder task.task_id ≡ false
      → IsConsistent q
      → view pushed ≡ heappush (view q) (item_of q task unlock_value)
  view-push h c =
      let item = item_of q task unlock_value in
      let finder = put q.entry_finder task.task_id item in
      keep-heappush (is_live finder) item q.heap c.ordered
      ∙ rw (
        live_self q.entry_finder item,
        keep-put q.entry_finder item q.sequence_counter q.heap h c.up_to (omega arith),
      )

  pushed-IsConsistent : IsConsistent q → IsConsistent pushed
  pushed-IsConsistent c =
      let item = item_of q task unlock_value in
      let n = q.sequence_counter in
      record {
        ordered = IsOrdered-heappush item q.heap c.ordered;
        distinct = Distinct-heappush item q.heap (Avoids-UpTo n q.heap c.up_to) c.distinct;
        up_to =
            UpTo-heappush item (n + 1) q.heap (omega arith)
              (UpTo-mono n (n + 1) q.heap (omega arith) c.up_to);
      }

  pub push-Pushes : IsConsistent q → Pushes q task unlock_value (push q task unlock_value)
  unfolding push
  push-Pushes c = elim (Bool-cases (same_state task.status ready)) [
    | inr e ↦ rw e (not_ready e)
    | inl e ↦ elim (Bool-cases (has q.entry_finder task.task_id)) [
      | inl h ↦ rw (e, h) (duplicate (unfold holds in h))
      | inr h ↦
          rw (e, h) (inserted pushed e (unfold holds in h) (view-push h c) (pushed-IsConsistent c))
    ]
  ]
