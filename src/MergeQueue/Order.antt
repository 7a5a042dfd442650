-- ===== src/MergeQueue/Order.antt =====
-- The order in which requests wait.
use mathlib.Core.List.{Perm}
use mathlib.Core.List.Perm
use adaptive_orchestrator.Base.{
  ℕ, suc, String, ◌≡◌, refl, ◌∙◌, ◌⊎◌, inl, inr, Bool, true, ◌||◌, Option, none, some, [], ◌∷◌,
  ◌++◌, arith, ◌==◌, Option-cases, is_some, length, length-append,
}
use adaptive_orchestrator.Base.Int.{ℤ}
use adaptive_orchestrator.Task.{Task}
use adaptive_orchestrator.MergeQueue.{
  status_pending, MergeRequest, MergeQueue, queued, sort_requests, by_priority, enqueue_request,
}
use adaptive_orchestrator.MergeQueue.Sorting.{
  IsOrdered, IsTotal, sort_requests-IsOrdered, by_priority-IsTotal, queued-sort, queued-append,
  length-sort_requests, sort_requests-perm, snoc-perm,
}

-- A queue once the request has come in by a sort: it has been returned, the queue holds it and the
-- requests that it held, each as it was, in order, and nothing else has changed.
pub record IsEnqueued (before : MergeRequest → MergeRequest → Bool) (q : MergeQueue)
    (req : MergeRequest) (out : MergeQueue × MergeRequest) : Type 0 where
  pub returned : out.1 ≡ req
  pub contents : Perm out.0.queue (req ∷ q.queue)
  pub ordered : IsOrdered before out.0.queue
  pub one_more : length out.0.queue ≡ suc (length q.queue)
  pub holds :
      (k : ℕ) → is_some (queued out.0.queue k) ≡ (req.task_id == k || is_some (queued q.queue k))
  pub same_else : out.0 ≡ record q { queue = out.0.queue }

sorted-IsEnqueued :
    (before : MergeRequest → MergeRequest → Bool) (t : IsTotal before) (q : MergeQueue)
    (req : MergeRequest)
    → IsEnqueued before q req (record q { queue = sort_requests before (q.queue ++ req ∷ []) }, req)
sorted-IsEnqueued before t q req = record {
  returned = refl;
  contents = Perm.trans (sort_requests-perm before (q.queue ++ req ∷ [])) (snoc-perm q.queue req);
  ordered = sort_requests-IsOrdered before t (q.queue ++ req ∷ []);
  one_more =
      ground (
        arith,
        length-sort_requests before (q.queue ++ req ∷ []),
        length-append q.queue (req ∷ []),
      );
  holds = λ k. queued-sort before (q.queue ++ req ∷ []) k ∙ queued-append q.queue req k;
  same_else = refl;
}

-- The request of a task that has come in.
pub record IsRequest (task : Task) (branch : Option String) (priority : Option ℤ)
    (default_branch : String) (now : ℕ) (req : MergeRequest) : Type 0 where
  pub of_task : (req.task_id ≡ task.task_id) × (req.has_task ≡ true)
  pub arrived : req.enqueued_at ≡ now
  pub waiting : req.status ≡ status_pending
  pub clean : (req.conflict_files ≡ []) × (req.error ≡ none) × (req.commit_id ≡ none)
  pub callers_branch : (b : String) → branch ≡ some b → req.branch_name ≡ b
  pub own_branch : (b : String) → branch ≡ none → task.branch_name ≡ some b → req.branch_name ≡ b
  pub new_branch : branch ≡ none → task.branch_name ≡ none → req.branch_name ≡ default_branch
  pub callers_priority : (p : ℤ) → priority ≡ some p → req.priority ≡ p
  pub own_priority : priority ≡ none → req.priority ≡ task.priority

-- A request that a caller enqueues itself sorts the whole queue by priority, the highest first, and
-- by the time of arrival for one priority, with the same effect on what waits.
pub enqueue_request_lem :
    (q : MergeQueue) (req : MergeRequest)
    → let out = enqueue_request q req in
      ((found : MergeRequest) × (queued q.queue req.task_id ≡ some found) × (out ≡ (q, found)))
      ⊎ ((queued q.queue req.task_id ≡ none) × IsEnqueued by_priority q req out)
unfolding enqueue_request
enqueue_request_lem q req = elim (Option-cases (queued q.queue req.task_id)) [
  | inl e ↦
      inr (e, rw (e, enqueue_request) (sorted-IsEnqueued by_priority by_priority-IsTotal q req))
  | inr (found, e) ↦ inl (found, e, rw (enqueue_request, e) refl)
]
