-- ===== src/ReadyQueue.antt =====
-- orchestrator/scheduler/ready_queue.py: `ReadyQueue`. The code keeps `_heap` by `heapq` and looks
-- at nothing of it but the least item and the set of its items, so the heap is the list of its items
-- in order; Snapshot takes them in any arrangement, since `all_tasks` sorts what it finds. An item holds the identifier of its task in place of the task object, and two items are
-- the same object exactly if they have the same sequence number.
pub mod View
pub mod Consistency
pub mod Refinement
pub mod Removal
pub mod Snapshot
use adaptive_orchestrator.Base.{
  ℕ, ◌+◌, Bool, true, false, not, Option, none, some, List, [], ◌∷◌, leb, ◌==◌, if◌then◌else◌,
  length, keep, Dict, get, has, put, remove,
}
use adaptive_orchestrator.Base.Int.{ℤ, pos, neg, leb_ℤ}
use adaptive_orchestrator.Errors.{
  duplicate_queue_entry, task_not_ready, index_error, Result, ok, err,
}
use adaptive_orchestrator.Task.{ready, Task, same_state}

pub record QueueItem : Type 0 where
  pub priority_neg : ℤ
  pub unlock_value_neg : ℤ
  pub entry_seq : ℕ
  pub task_id : ℕ

-- `(a, ...) <= (b, ...)` on tuples: the first fields decide unless they are equal.
unfoldable pub first_leb : ℤ → ℤ → Bool → Bool
first_leb a b rest = if not (leb_ℤ b a) then true else if not (leb_ℤ a b) then false else rest

-- `a <= b` on items, field by field.
unfoldable pub item_leb : QueueItem → QueueItem → Bool
unfolding first_leb
item_leb a b = first_leb a.priority_neg b.priority_neg (
    first_leb a.unlock_value_neg b.unlock_value_neg
      (first_leb (pos a.entry_seq) (pos b.entry_seq) (leb a.task_id b.task_id)))

pub record ReadyQueue : Type 0 where
  pub heap : List QueueItem
  pub entry_finder : Dict QueueItem
  pub sequence_counter : ℕ

abbrev pub empty : ReadyQueue
empty = record { heap = []; entry_finder = []; sequence_counter = 0 }

-- `heapq.heappush`
unfoldable pub heappush : List QueueItem → QueueItem → List QueueItem
unfolding item_leb
heappush [] item = item ∷ []
heappush (x ∷ heap) item =
    let rest = heappush heap item in if item_leb item x then item ∷ x ∷ heap else x ∷ rest

unfoldable pub push : ReadyQueue → Task → ℕ → ReadyQueue × Result (Unit {0})
unfolding heappush same_state
push q task unlock_value =
    if not (same_state task.status ready)
    then (q, err task_not_ready)
    else if has q.entry_finder task.task_id
    then (q, err duplicate_queue_entry)
    else let item : QueueItem = record {
      priority_neg = neg task.priority;
      unlock_value_neg = neg (pos unlock_value);
      entry_seq = q.sequence_counter + 1;
      task_id = task.task_id;
    } in
      (
        record {
          heap = heappush q.heap item;
          entry_finder = put q.entry_finder task.task_id item;
          sequence_counter = q.sequence_counter + 1;
        },
        ok tt,
      )

-- `item.task_id in self._entry_finder and self._entry_finder[item.task_id] is item`
unfoldable pub is_live : Dict QueueItem → QueueItem → Bool
is_live finder item = elim (get finder item.task_id) [
  | none ↦ false
  | some entry ↦ entry.entry_seq == item.entry_seq
]

-- The loops of `pop` and `peek`, which drop the stale items in front of the first live one.
unfoldable pub drop_stale : Dict QueueItem → List QueueItem → List QueueItem
unfolding is_live
drop_stale finder [] = []
drop_stale finder (item ∷ heap) =
    let rest = drop_stale finder heap in if is_live finder item then item ∷ heap else rest

unfoldable pub pop : ReadyQueue → ReadyQueue × Result ℕ
unfolding drop_stale
pop q = elim (drop_stale q.entry_finder q.heap) [
  | [] ↦ (record q { heap = [] }, err index_error)
  | item ∷ heap ↦
      (record q { heap = heap; entry_finder = remove q.entry_finder item.task_id }, ok item.task_id)
]

unfoldable pub pop_optional : ReadyQueue → ReadyQueue × Option ℕ
unfolding pop
pop_optional q = let (rest, result) = pop q in (rest, elim result [ ok k ↦ some k | err e ↦ none ])

unfoldable pub peek : ReadyQueue → ReadyQueue × Option ℕ
unfolding drop_stale
peek q = elim (drop_stale q.entry_finder q.heap) [
  | [] ↦ (record q { heap = [] }, none)
  | item ∷ heap ↦ (record q { heap = item ∷ heap }, some item.task_id)
]

-- The item stays in the heap and is stale from now on.
unfoldable pub discard : ReadyQueue → ℕ → ReadyQueue × Option ℕ
discard q k = elim (get q.entry_finder k) [
  | none ↦ (q, none)
  | some item ↦ (record q { entry_finder = remove q.entry_finder k }, some item.task_id)
]

unfoldable pub holds : ReadyQueue → ℕ → Bool
holds q k = has q.entry_finder k

unfoldable pub size : ReadyQueue → ℕ
size q = length q.entry_finder

unfoldable pub is_empty : ReadyQueue → Bool
is_empty q = length q.entry_finder == 0

unfoldable pub clear : ReadyQueue → ReadyQueue
clear q = record { heap = []; entry_finder = []; sequence_counter = 0 }

-- `sorted(items)`
unfoldable pub sort_items : List QueueItem → List QueueItem
unfolding heappush
sort_items [] = []
sort_items (x ∷ xs) = heappush (sort_items xs) x

-- The live items in order; `all_tasks` returns their tasks.
unfoldable pub active_items : ReadyQueue → List QueueItem
unfolding sort_items is_live keep
active_items q = sort_items (keep (is_live q.entry_finder) q.heap)

unfoldable pub ids : List QueueItem → List ℕ
ids [] = []
ids (x ∷ xs) = x.task_id ∷ ids xs

unfoldable pub all_task_ids : ReadyQueue → List ℕ
unfolding active_items ids
all_task_ids q = ids (active_items q)
