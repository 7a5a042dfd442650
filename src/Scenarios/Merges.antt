-- ===== src/Scenarios/Merges.antt =====
-- A queue of two merges.
use mathlib.Core.List.{Sublist}
use mathlib.Core.List.Sublist
use adaptive_orchestrator.Base.{
  ℕ, zero, suc, ◌+◌, ◌≤◌, ◌≡◌, refl, false, none, List, [], ◌∷◌, ◌++◌, arith, ◌==◌, length,
  length-append,
}
use adaptive_orchestrator.MergeQueue.{
  MergeRequest, MergeResult, MergeQueue, new_queue, queued, request_for, enqueue_task, Hook, Host,
  process_all,
}
use adaptive_orchestrator.MergeQueue.Patient.{tasks_of, Adds, IsPolite, IsPatient}
use adaptive_orchestrator.MergeQueue.Serial.{IsDrained, process_all_returns}
use adaptive_orchestrator.Errors.{ok}
use adaptive_orchestrator.Task.{passed}
use adaptive_orchestrator.Workspace.{WorkspaceRegistry, new_workspaces}
use adaptive_orchestrator.Scenarios.Tasks.{sample}

abbrev outcome : ℕ → MergeResult
outcome task = record {
  success = task == 1;
  task_id = task;
  branch_name = "ao";
  commit_id = none;
  conflict_files = [];
  error = none;
}

-- The workspaces, and how many requests are still to come.
abbrev World : Type 0
World = WorkspaceRegistry × ℕ

abbrev follow_up : MergeRequest
follow_up = request_for (sample 7 passed [] []) none none "ao/7" 9

-- The callback of a merge enqueues the follow-up where it is still to come.
abbrev enqueue_follow_up : Hook World
enqueue_follow_up (q, (r, zero)) = ((q, (r, zero)), ok tt)
enqueue_follow_up (q, (r, suc n)) =
    ((record q { queue = q.queue ++ follow_up ∷ [] }, (r, n)), ok tt)

-- The first task merges, the others do not; no task objects.
abbrev host : Host World
host = record {
  attempt_merge = λ w source target task. (w, ok (outcome task));
  cleanup_workspace = λ w req. w;
  emit = λ type task s. (s, ok tt);
  read_task = λ w task. none;
  write_task = λ w task t. w;
  workspaces = λ w. w.0;
  with_workspaces = λ w r. (r, w.1);
  on_merge_completed = λ task res. enqueue_follow_up;
  on_merge_failed = λ task res s. (s, ok tt);
}

abbrev to_come : World → ℕ
to_come w = w.1

untouched : (s : MergeQueue × World) → Adds to_come s s
untouched s = record { lasting = refl; waits = Sublist.refl _; room = omega arith }

append-waits :
    (xs : List MergeRequest) (req : MergeRequest)
    → Sublist (tasks_of xs) (tasks_of (xs ++ req ∷ []))
unfolding tasks_of
append-waits [] req = Sublist.cons req.task_id (Sublist.refl [])
append-waits (x ∷ xs) req = Sublist.cons-cons x.task_id (append-waits xs req)

enqueue_follow_up-IsPolite : IsPolite to_come enqueue_follow_up
enqueue_follow_up-IsPolite (q, (r, zero)) = (refl, untouched (q, (r, zero)))
enqueue_follow_up-IsPolite (q, (r, suc n)) = (
  refl,
  record {
    lasting = refl;
    waits = append-waits q.queue follow_up;
    room = ground (arith, length-append q.queue (follow_up ∷ []));
  },
)

host-IsPatient : IsPatient to_come host
host-IsPatient = record {
  attempts = λ w source target task. (outcome task, refl, omega arith);
  cleans = λ w req. omega arith;
  writes = λ w k t. omega arith;
  frees = λ w r. omega arith;
  emits = λ type task s. (refl, untouched s);
  completes = λ task res. enqueue_follow_up-IsPolite;
  fails = λ task res s. (refl, untouched s);
}

abbrev waiting : MergeQueue
waiting =
    (enqueue_task ((enqueue_task (new_queue "main") (sample 2 passed [] []) none none "ao/2" 4).0)
      (sample 1 passed [] []) none none "ao/1" 3).0

abbrev world : World
world = (new_workspaces, 1)

idle : waiting.is_merging ≡ false
unfolding enqueue_task queued
idle = refl

rounds_enough : length waiting.queue + to_come world ≤ 3
unfolding enqueue_task queued
rounds_enough = omega arith

process_all_returns_example :
    (rs : List MergeResult) × ((process_all host 3 waiting world 9).2 ≡ ok rs)
    × IsDrained host waiting [] (process_all host 3 waiting world 9) rs
process_all_returns_example =
    process_all_returns host to_come 3 waiting world 9 host-IsPatient idle rounds_enough
