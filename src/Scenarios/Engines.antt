-- ===== src/Scenarios/Engines.antt =====
-- A mission of two tasks.
use adaptive_orchestrator.Base.{
  ℕ, ◌≡◌, refl, ◌⊎◌, true, false, none, some, List, [], ◌∷◌, ◌++◌, arith, every, contains, set_add,
  get, has, put, keys,
}
use adaptive_orchestrator.Base.Int.{pos}
use adaptive_orchestrator.Engine.State.{
  MissionEngine, new_engine, ◌>>=◌, ◌>>◌, when, emit, update, move_task, push_task, enqueue,
}
use adaptive_orchestrator.Engine.Lifecycle.{run_victory_audit}
use adaptive_orchestrator.Engine.Tasks.{mark_task_assigned, mark_task_cancelled}
use adaptive_orchestrator.Engine.Plan.{TaskFields, make_ready, create_task}
use adaptive_orchestrator.Engine.Pool.{is_held_by, handle_worker_failure}
use adaptive_orchestrator.Engine.Calls.{
  EngineCall, approves, starts, creates, marks_assigned, marks_started, marks_cancelled,
  marks_completed, after, after_all,
}
use adaptive_orchestrator.Engine.Sound.{IsWell, new_engine-IsWell, after_all-IsWell}
use adaptive_orchestrator.Engine.Marks.{mark}
use adaptive_orchestrator.Engine.Cancelled.{IsSettled, after_all-IsSettled}
use adaptive_orchestrator.Engine.Cancelling.{AllCancelled, mark_task_cancelled-AllCancelled}
use adaptive_orchestrator.Engine.Verdict.{auditable, IsAudited, run_victory_audit_lem}
use adaptive_orchestrator.Engine.Gaps.{
  mark_task_assigned-queued, HoldsNone, handle_worker_failure-raises,
}
use adaptive_orchestrator.Errors.{invalid_state_transition, ok, err}
use adaptive_orchestrator.Mission.{executing}
use adaptive_orchestrator.Task.{ready, assigned, Task, is_success, stamp}
use adaptive_orchestrator.Graph.Invariant.{IsSound-nil}
use adaptive_orchestrator.Graph.{modify, add_dependent, get_descendants}
use adaptive_orchestrator.Graph.{link_task, add_task}
use adaptive_orchestrator.Graph.{detect_cycle}
use adaptive_orchestrator.ReadyQueue.{empty, push, holds}
use adaptive_orchestrator.Scenarios.Tasks.{sample}
use adaptive_orchestrator.Scenarios.Workers.{worker}
use adaptive_orchestrator.Worker.{failed, same_task, mark_failed, Worker}

abbrev start : MissionEngine
start = new_engine 1 true (λ m g. true) 0

abbrev fields : ℕ → List ℕ → TaskFields
fields k prerequisites = record {
  identifier = k;
  task_domain = "general";
  task_priority = pos 1;
  prerequisites = prerequisites;
  task_reads = [];
  task_writes = "src" ∷ [];
  task_mode = "branch";
}

abbrev plan : List EngineCall
plan = creates (fields 1 []) 1 ∷ creates (fields 2 (1 ∷ [])) 2 ∷ []

abbrev calls : List EngineCall
calls =
    approves 3
    ∷ starts 4
    ∷ marks_assigned 1 none 5
    ∷ marks_started 1 6
    ∷ marks_cancelled 2 7
    ∷ marks_completed 1 none 8
    ∷ []

after_all-IsWell_example : IsWell (after_all start (plan ++ calls))
after_all-IsWell_example =
    after_all-IsWell start (plan ++ calls) (new_engine-IsWell 1 true (λ m g. true) 0)

start-IsSettled : IsSettled (λ k. false) start
unfolding new_engine mark get holds has
start-IsSettled = record {
  sound = IsSound-nil;
  keyed = λ k i c e. ground (arith, e);
  withheld = λ k i e. refl;
  stays = λ k e. ground (arith, e);
}

after_all-IsSettled_example : IsSettled (λ k. false) (after_all start (plan ++ calls))
after_all-IsSettled_example = after_all-IsSettled (λ k. false) start (plan ++ calls) start-IsSettled

abbrev planned : MissionEngine
planned = after_all start plan

planned-IsSettled : IsSettled (λ k. false) planned
planned-IsSettled = after_all-IsSettled (λ k. false) start plan start-IsSettled

mark_task_cancelled-AllCancelled_example :
    (ds : List ℕ) × (get_descendants planned.graph 1 ≡ ok ds)
    × ((found : List ℕ) × ((mark_task_cancelled 1 9 planned).1 ≡ ok found))
    × AllCancelled (mark_task_cancelled 1 9 planned).0 (1 ∷ ds)
unfolding after_all after create_task new_engine has add_task link_task detect_cycle get put
    get_descendants emit when make_ready move_task update enqueue push_task push ◌>>◌ ◌>>=◌ every
    stamp modify add_dependent set_add contains is_success
mark_task_cancelled-AllCancelled_example =
    mark_task_cancelled-AllCancelled planned 1 9 planned-IsSettled refl

abbrev executing_engine : MissionEngine
executing_engine = record start {
  mission = record { mission_id = 1; state = executing; updated_at = 4 };
}

run_victory_audit_lem_example :
    let out = run_victory_audit 5 executing_engine in
    ((auditable executing_engine.mission.state ≡ false)
      × (out ≡ (executing_engine, err invalid_state_transition)))
    ⊎ ((auditable executing_engine.mission.state ≡ true) × IsAudited executing_engine 5 out)
run_victory_audit_lem_example = run_victory_audit_lem executing_engine 5

abbrev first_task : Task
first_task = sample 1 ready [] []

abbrev queued : MissionEngine
queued = record start { graph = (1, first_task) ∷ []; ready_queue = (push empty first_task 0).0 }

mark_task_assigned-queued_example :
    ((mark_task_assigned 1 (some 4) 5 queued).1 ≡ ok tt)
    × (holds (mark_task_assigned 1 (some 4) 5 queued).0.ready_queue 1 ≡ true)
    × ((u : Task) × (get (mark_task_assigned 1 (some 4) 5 queued).0.graph 1 ≡ some u)
        × (u.status ≡ assigned))
unfolding get push holds has put
mark_task_assigned-queued_example =
    mark_task_assigned-queued queued 1 (some 4) 5 first_task refl refl refl

abbrev handed : Task
handed = record (sample 1 assigned [] []) { assigned_worker_id = some 4 }

-- The worker 4 has the second task, which waits in no queue.
abbrev dispatched : MissionEngine
dispatched = record start {
  graph = (5, sample 5 ready [] []) ∷ (1, handed) ∷ [];
  workers = record start.workers { workers = (4, worker 4 "general") ∷ [] };
}

abbrev lost_worker : Worker
lost_worker = record (worker 4 "general") { state = failed; last_active_at = 7 }

none_before : HoldsNone dispatched 4 (5 ∷ [])
unfolding get is_held_by same_task
none_before = ((sample 5 ready [] [], refl, refl), tt)

handle_worker_failure-raises_example :
    let out = handle_worker_failure 4 7 dispatched in
    (out.1 ≡ err invalid_state_transition)
    × (get out.0.workers.workers 4 ≡ some lost_worker)
    × (get out.0.graph 1 ≡ some (record handed { assigned_worker_id = none }))
    × (holds out.0.ready_queue 1 ≡ false)
    × (out.0.workspace_registry ≡ dispatched.workspace_registry)
    × (out.0.events ≡ dispatched.events)
unfolding get keys mark_failed holds has new_engine
handle_worker_failure-raises_example =
    handle_worker_failure-raises dispatched 4 1 7 (worker 4 "general") lost_worker handed (5 ∷ [])
      [] refl refl refl none_before refl refl refl refl refl
