-- ===== src/Engine/Calls.antt =====
-- The calls of `MissionEngine` as data, and their sequences.
-- The calls of the engine.
use adaptive_orchestrator.Base.{ℕ, String, Bool, Option, List, [], ◌∷◌}
use adaptive_orchestrator.Engine.State.{MissionEngine, pop_next_ready_task}
use adaptive_orchestrator.Engine.Lifecycle.{
  approve_plan, start_mission, pause_mission, resume_mission, start_integrating, start_auditing,
  run_victory_audit,
}
use adaptive_orchestrator.Engine.Tasks.{
  mark_task_assigned, mark_task_started, mark_task_verifying, mark_task_completed, mark_task_merged,
  mark_task_failed, retry_task, mark_task_cancelled,
}
use adaptive_orchestrator.Engine.Plan.{
  TaskFields, create_task, depend_on, drop_dependency, invalidate,
}
use adaptive_orchestrator.Engine.Pool.{join, assign_next, handle_worker_failure}
use adaptive_orchestrator.Engine.Guards.{Guards}
use adaptive_orchestrator.Engine.Steady.{
  mission_to-Keeps, start_mission-Keeps, run_victory_audit-Keeps, mark_task_assigned-Keeps,
  mark_task_started-Keeps, mark_task_verifying-Keeps,
}
use adaptive_orchestrator.Engine.Outcomes.{
  mark_task_completed-Keeps, mark_task_merged-Keeps, mark_task_failed-Keeps, retry_task-Keeps,
  mark_task_cancelled-Keeps,
}
use adaptive_orchestrator.Engine.Edits.{
  create_task-Keeps, depend_on-Keeps, drop_dependency-Keeps, invalidate-Keeps, join-Keeps,
  assign_next-Keeps, handle_worker_failure-Keeps,
}
use adaptive_orchestrator.Mission.{plan_approved, executing, integrating, auditing, paused}
use adaptive_orchestrator.Worker.{Worker}

pub data EngineCall : Type 0 where
  approves starts pauses resumes integrates audits concludes pops_next assigns_next :
      (now : ℕ) → EngineCall
  creates : TaskFields → (now : ℕ) → EngineCall
  depends : (dependent prerequisite : ℕ) → EngineCall
  drops : (dependent prerequisite now : ℕ) → EngineCall
  invalidates : (task now : ℕ) → EngineCall
  marks_assigned : (task : ℕ) → Option ℕ → (now : ℕ) → EngineCall
  marks_started marks_verifying marks_merged retries marks_cancelled : (task now : ℕ) → EngineCall
  marks_completed : (task : ℕ) → Option ℕ → (now : ℕ) → EngineCall
  marks_failed : (task : ℕ) → Option String → Option Bool → Bool → (now : ℕ) → EngineCall
  joins : Worker → EngineCall
  loses : (worker now : ℕ) → EngineCall

-- The engine that a call leaves.
unfoldable pub after : MissionEngine → EngineCall → MissionEngine
after s (approves now) = (approve_plan now s).0
after s (starts now) = (start_mission now s).0
after s (pauses now) = (pause_mission now s).0
after s (resumes now) = (resume_mission now s).0
after s (integrates now) = (start_integrating now s).0
after s (audits now) = (start_auditing now s).0
after s (concludes now) = (run_victory_audit now s).0
after s (pops_next now) = (pop_next_ready_task s).0
after s (assigns_next now) = (assign_next now s).0
after s (creates f now) = (create_task f now s).0
after s (depends a b) = (depend_on a b s).0
after s (drops a b now) = (drop_dependency a b now s).0
after s (invalidates k now) = (invalidate k now s).0
after s (marks_assigned k worker now) = (mark_task_assigned k worker now s).0
after s (marks_started k now) = (mark_task_started k now s).0
after s (marks_verifying k now) = (mark_task_verifying k now s).0
after s (marks_merged k now) = (mark_task_merged k now s).0
after s (retries k now) = (retry_task k now s).0
after s (marks_cancelled k now) = (mark_task_cancelled k now s).0
after s (marks_completed k result now) = (mark_task_completed k result now s).0
after s (marks_failed k error can_retry transient now) =
    (mark_task_failed k error can_retry transient now s).0
after s (joins w) = (join w s).0
after s (loses worker now) = (handle_worker_failure worker now s).0

unfoldable pub after_all : MissionEngine → List EngineCall → MissionEngine
unfolding after
after_all s [] = s
after_all s (c ∷ cs) = after_all (after s c) cs

pub after-keeps :
    (P : MissionEngine → Type 0)
    → Guards P
    → (s : MissionEngine) (c : EngineCall) → P s
    → P (after s c)
unfolding after approve_plan pause_mission resume_mission start_integrating start_auditing
    pop_next_ready_task
after-keeps P g s (approves now) = (mission_to-Keeps g plan_approved now).keeps s
after-keeps P g s (starts now) = (start_mission-Keeps g now).keeps s
after-keeps P g s (pauses now) = (mission_to-Keeps g paused now).keeps s
after-keeps P g s (resumes now) = (mission_to-Keeps g executing now).keeps s
after-keeps P g s (integrates now) = (mission_to-Keeps g integrating now).keeps s
after-keeps P g s (audits now) = (mission_to-Keeps g auditing now).keeps s
after-keeps P g s (concludes now) = (run_victory_audit-Keeps g now).keeps s
after-keeps P g s (pops_next now) = g.pops s
after-keeps P g s (assigns_next now) = (assign_next-Keeps g now).keeps s
after-keeps P g s (creates f now) = (create_task-Keeps g f now).keeps s
after-keeps P g s (depends a b) = (depend_on-Keeps g a b).keeps s
after-keeps P g s (drops a b now) = (drop_dependency-Keeps g a b now).keeps s
after-keeps P g s (invalidates k now) = (invalidate-Keeps g k now).keeps s
after-keeps P g s (marks_assigned k worker now) = (mark_task_assigned-Keeps g k worker now).keeps s
after-keeps P g s (marks_started k now) = (mark_task_started-Keeps g k now).keeps s
after-keeps P g s (marks_verifying k now) = (mark_task_verifying-Keeps g k now).keeps s
after-keeps P g s (marks_merged k now) = (mark_task_merged-Keeps g k now).keeps s
after-keeps P g s (retries k now) = (retry_task-Keeps g k now).keeps s
after-keeps P g s (marks_cancelled k now) = (mark_task_cancelled-Keeps g k now).keeps s
after-keeps P g s (marks_completed k result now) =
    (mark_task_completed-Keeps g k result now).keeps s
after-keeps P g s (marks_failed k error can_retry transient now) =
    (mark_task_failed-Keeps g k error can_retry transient now).keeps s
after-keeps P g s (joins w) = (join-Keeps g w).keeps s
after-keeps P g s (loses worker now) = (handle_worker_failure-Keeps g worker now).keeps s

pub after_all-keeps :
    (P : MissionEngine → Type 0)
    → Guards P
    → (s : MissionEngine) (cs : List EngineCall) → P s
    → P (after_all s cs)
unfolding after_all
after_all-keeps P g s [] p = p
after_all-keeps P g s (c ∷ cs) p = after_all-keeps P g (after s c) cs (after-keeps P g s c p)
