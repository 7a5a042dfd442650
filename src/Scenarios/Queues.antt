-- ===== src/Scenarios/Queues.antt =====
-- A ready queue with two tasks and a stale item in front of them.
use mathlib.Core.List.{Perm}
use mathlib.Core.List.Perm
use adaptive_orchestrator.Base.{ℕ, ◌≡◌, refl, not, List, [], ◌∷◌, arith, ◌==◌, keep}
use adaptive_orchestrator.Base.Int.{pos, negsuc}
use adaptive_orchestrator.ReadyQueue.{
  QueueItem, first_leb, item_leb, ReadyQueue, pop, discard, ids, all_task_ids,
}
use adaptive_orchestrator.ReadyQueue.Consistency.{view, IsConsistent}
use adaptive_orchestrator.ReadyQueue.Refinement.{Pops, pop-Pops}
use adaptive_orchestrator.ReadyQueue.Removal.{view-discard}
use adaptive_orchestrator.ReadyQueue.Snapshot.{all_task_ids_lem}

abbrev item : ℕ → QueueItem
item n = record { priority_neg = negsuc n; unlock_value_neg = pos 0; entry_seq = n; task_id = n }

-- The task 3 has been removed: its item, the first of the heap, is stale.
abbrev waiting : ReadyQueue
waiting = record {
  heap = item 3 ∷ item 2 ∷ item 1 ∷ [];
  entry_finder = (1, item 1) ∷ (2, item 2) ∷ [];
  sequence_counter = 3;
}

waiting-IsConsistent : IsConsistent waiting
unfolding item_leb first_leb
waiting-IsConsistent = record {
  ordered = ((refl, (refl, tt)), ((refl, tt), (tt, tt)));
  distinct = ((λ e. omega arith, (λ e. omega arith, tt)), ((λ e. omega arith, tt), (tt, tt)));
  up_to = (omega arith, (omega arith, (omega arith, tt)));
}

pop-Pops_example : Pops waiting (pop waiting)
pop-Pops_example = pop-Pops waiting waiting-IsConsistent

view-discard_example : view (discard waiting 2).0 ≡ keep (λ x. not (x.task_id == 2)) (view waiting)
view-discard_example = view-discard waiting 2

-- The same items as an array in the arrangement of a heap with one swap.
abbrev arranged : List QueueItem
arranged = item 3 ∷ item 1 ∷ item 2 ∷ []

arranged-perm : Perm arranged waiting.heap
arranged-perm = Perm.cons (item 3) (Perm.swap (item 2) (item 1) [])

all_task_ids_lem_example : all_task_ids (record waiting { heap = arranged }) ≡ ids (view waiting)
all_task_ids_lem_example = all_task_ids_lem waiting arranged waiting-IsConsistent arranged-perm
