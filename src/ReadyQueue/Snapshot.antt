-- ===== src/ReadyQueue/Snapshot.antt =====
-- The snapshot that `all_tasks` takes. `heapq` keeps the items in an arrangement of its own, so the
-- items are taken in any arrangement here.
use mathlib.Core.List.{Perm, foldr}
use mathlib.Core.List.Perm
use adaptive_orchestrator.Base.{
  ◌≡◌, refl, sym, ap, ◌∙◌, inl, inr, Bool, true, false, List, [], ◌∷◌, arith, if◌then◌else◌,
  Bool-cases, keep,
}
use adaptive_orchestrator.Base.Int.{ℤ, pos, pos_part, eq_of_parts}
use adaptive_orchestrator.ReadyQueue.{
  QueueItem, first_leb, item_leb, ReadyQueue, heappush, is_live, sort_items, active_items, ids,
  all_task_ids,
}
use adaptive_orchestrator.ReadyQueue.View.{
  item_leb_total, item_leb_trans, IsOrdered-keep, sort_items_ordered,
}
use adaptive_orchestrator.ReadyQueue.Consistency.{view, IsConsistent}

first_leb_antisym :
    (a b : ℤ) (p q : Bool)
    → first_leb a b p ≡ true
    → first_leb b a q ≡ true
    → (a ≡ b) × (p ≡ true) × (q ≡ true)
unfolding first_leb
first_leb_antisym a b p q h e =
    (eq_of_parts a b (ground (arith, h, e)), ground (arith, h, e), ground (arith, h, e))

item_leb_antisym : (a b : QueueItem) → item_leb a b ≡ true → item_leb b a ≡ true → a ≡ b
unfolding item_leb
item_leb_antisym a b h k =
    let (p, h1, k1) = first_leb_antisym a.priority_neg b.priority_neg _ _ h k in
    let (u, h2, k2) = first_leb_antisym a.unlock_value_neg b.unlock_value_neg _ _ h1 k1 in
    let (s, h3, k3) = first_leb_antisym (pos a.entry_seq) (pos b.entry_seq) _ _ h2 k2 in
    same p u (ap pos_part s) (ground (arith, h3, k3))
  where
    same :
        a.priority_neg ≡ b.priority_neg
        → a.unlock_value_neg ≡ b.unlock_value_neg
        → a.entry_seq ≡ b.entry_seq
        → a.task_id ≡ b.task_id
        → a ≡ b
    same p u s t = cc

-- Two items go in in either order.
heappush_comm :
    (xs : List QueueItem) (a b : QueueItem)
    → heappush (heappush xs a) b ≡ heappush (heappush xs b) a
unfolding heappush
heappush_comm [] a b = ground (arith, item_leb_antisym a b, item_leb_total a b)
heappush_comm (x ∷ xs) a b = elim (Bool-cases (item_leb a x)) [
  | inl p ↦ elim (Bool-cases (item_leb b x)) [
    | inl q ↦ ground (arith, p, q, item_leb_antisym a b, item_leb_total a b)
    | inr q ↦ ground (arith, p, q, behind b a q p)
  ]
  | inr p ↦ elim (Bool-cases (item_leb b x)) [
    | inl q ↦ ground (arith, p, q, behind a b p q)
    | inr q ↦ ground (arith, p, q, heappush_comm xs a b)
  ]
]
  where
    behind : (c d : QueueItem) → item_leb c x ≡ false → item_leb d x ≡ true → item_leb c d ≡ false
    behind c d p q = elim (Bool-cases (item_leb c d)) [
      | inl e ↦ ground (arith, p, item_leb_trans c d x e q)
      | inr e ↦ e
    ]

items_set : IsSet (List QueueItem)
items_set = hlevel

module _ (p : QueueItem → Bool) where
  -- Insertion of the items that pass the test.
  insert_passing : QueueItem → List QueueItem → List QueueItem
  insert_passing x xs = if p x then heappush xs x else xs

  sort_items-keep : (xs : List QueueItem) → sort_items (keep p xs) ≡ foldr insert_passing [] xs
  unfolding sort_items keep insert_passing
  sort_items-keep [] = refl
  sort_items-keep (x ∷ xs) = ground (arith, sort_items-keep xs)

  insert_passing_comm :
      (a b : QueueItem) (xs : List QueueItem)
      → insert_passing a (insert_passing b xs) ≡ insert_passing b (insert_passing a xs)
  unfolding insert_passing
  insert_passing_comm a b xs = ground (arith, heappush_comm xs a b)

  sort_items-arranged :
      (xs ys : List QueueItem) → Perm xs ys → sort_items (keep p xs) ≡ sort_items (keep p ys)
  sort_items-arranged xs ys d =
      sort_items-keep xs
      ∙ Perm.foldr-eq items_set insert_passing insert_passing_comm d []
      ∙ sym (sort_items-keep ys)

-- The snapshot of a consistent queue, however its items are arranged, lists the tasks of the abstract
-- queue in its order: the one that `pop` returns first, then the next ones.
pub all_task_ids_lem :
    (q : ReadyQueue) (arranged : List QueueItem)
    → IsConsistent q
    → Perm arranged q.heap
    → all_task_ids (record q { heap = arranged }) ≡ ids (view q)
unfolding all_task_ids active_items
all_task_ids_lem q arranged c d = ap ids (
    sort_items-arranged (is_live q.entry_finder) arranged q.heap d
    ∙ sort_items_ordered (view q) (IsOrdered-keep (is_live q.entry_finder) q.heap c.ordered))
