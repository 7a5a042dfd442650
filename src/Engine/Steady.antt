-- ===== src/Engine/Steady.antt =====
-- The calls of `MissionEngine` on the mission and on a task, made of the changes of State.
use adaptive_orchestrator.Base.{
  ℕ, ◌≡◌, refl, inl, inr, false, not, ◌&&◌, Option, none, some, [], ◌∷◌, arith, Bool-cases,
}
use adaptive_orchestrator.Engine.State.{MissionEngine, emit, set_mission, move_task}
use adaptive_orchestrator.Engine.Lifecycle.{
  mission_to, approve_plan, start_mission, conclude, run_victory_audit, advance_to_audit,
  advance_to_integration, check_mission_completion,
}
use adaptive_orchestrator.Engine.Tasks.{
  with_worker, assign_to, mark_task_assigned, force_executing, mark_task_started,
  mark_task_verifying,
}
use adaptive_orchestrator.Engine.Guards.{
  IsKept, Guards, Keeps, Keeps-read, Keeps-done, Keeps-bind, Keeps-then, Keeps-when, Keeps-if,
  Keeps-update, Keeps-dequeue, Keeps-emit,
}
use adaptive_orchestrator.Engine.Chains.{transition_to-IsKept}
use adaptive_orchestrator.Errors.{ok, Result-cases}
use adaptive_orchestrator.Task.{
  TaskState, assigned, running, verifying, cancelled, Task, same_state, transition_to,
}
use adaptive_orchestrator.Mission.{
  MissionState, drafting, plan_approved, executing, integrating, auditing, in_mission_states,
}
use adaptive_orchestrator.Checkpoint.{
  EventType, mission_state_changed_event, task_assigned_event, task_started, task_verifying,
}

with_worker-IsKept : (worker : Option ℕ) (t v : Task) → IsKept t v → IsKept t (with_worker worker v)
unfolding with_worker
with_worker-IsKept none t v h = h
with_worker-IsKept (some w) t v h = record {
  same_id = h.same_id;
  same_dependencies = h.same_dependencies;
  same_dependents = h.same_dependents;
  same_cancelled = h.same_cancelled;
}

assign_to-IsKept :
    (worker : Option ℕ) (now : ℕ) (t u : Task) → assign_to worker now t ≡ ok u → IsKept t u
unfolding assign_to same_state
assign_to-IsKept worker now t u e = elim (Result-cases (transition_to t assigned now)) [
  | inr (x, q) ↦ absurd (ground (arith, q, e))
  | inl (v, q) ↦
      let p : u ≡ with_worker worker v = ground (arith, q, e) in
      rw p (with_worker-IsKept worker t v (transition_to-IsKept t assigned now v refl q))
]

module _ {P : MissionEngine → Type 0} (g : Guards P) where
  abbrev event : (type : EventType) (task : Option ℕ) → Keeps P (emit type task)
  event type task = Keeps-emit g type task

  pub mission_to-Keeps : (target : MissionState) (now : ℕ) → Keeps P (mission_to target now)
  unfolding mission_to set_mission
  mission_to-Keeps target now = Keeps-bind (Keeps-read _) (λ m.
      Keeps-then (record { keeps = λ s p. g.missions s m p })
        (event mission_state_changed_event none))

  pub start_mission-Keeps : (now : ℕ) → Keeps P (start_mission now)
  unfolding start_mission approve_plan
  start_mission-Keeps now = Keeps-bind (Keeps-read _) (λ b.
      Keeps-then (Keeps-when b (mission_to-Keeps plan_approved now))
        (mission_to-Keeps executing now))

  pub run_victory_audit-Keeps : (now : ℕ) → Keeps P (run_victory_audit now)
  unfolding run_victory_audit conclude
  run_victory_audit-Keeps now = Keeps-bind (Keeps-read _) (λ b.
      Keeps-then (Keeps-when (not b) (Keeps-read _)) (
        Keeps-bind (Keeps-read _) (λ c.
          Keeps-then (Keeps-when (not c) (mission_to-Keeps auditing now))
            (Keeps-bind (Keeps-read _) (λ v. Keeps-then (mission_to-Keeps _ now) (Keeps-read _))))))

  pub check_mission_completion-Keeps : (now : ℕ) → Keeps P (check_mission_completion now)
  unfolding check_mission_completion advance_to_audit advance_to_integration
  check_mission_completion-Keeps now = Keeps-bind (Keeps-read _) (λ a.
      Keeps-bind (Keeps-read _) (λ b. Keeps-if a Keeps-done (
        Keeps-if b
          (Keeps-bind (Keeps-read _) (λ c. Keeps-when c (mission_to-Keeps integrating now)))
          (Keeps-bind (Keeps-read _) (λ c.
            Keeps-then (Keeps-when c (mission_to-Keeps auditing now)) (
              Keeps-bind (Keeps-read _) (λ d. Keeps-bind (Keeps-read _) (λ e.
                Keeps-when (e && d) (Keeps-then (run_victory_audit-Keeps now) Keeps-done)))))))))

  pub move_task-Keeps :
      (k : ℕ) (target : TaskState) (now : ℕ)
      → same_state target cancelled ≡ false
      → Keeps P (move_task k target now)
  unfolding move_task
  move_task-Keeps k target now n =
      Keeps-update g k _ (λ t u e. transition_to-IsKept t target now u n e)

  pub mark_task_assigned-Keeps :
      (k : ℕ) (worker : Option ℕ) (now : ℕ) → Keeps P (mark_task_assigned k worker now)
  unfolding mark_task_assigned
  mark_task_assigned-Keeps k worker now = Keeps-bind (Keeps-read _) (λ b. Keeps-when b (
      Keeps-then (Keeps-update g k _ (assign_to-IsKept worker now))
        (event task_assigned_event (some k))))

  force_executing-Keeps : Keeps P force_executing
  unfolding force_executing set_mission
  force_executing-Keeps = record {
    keeps = λ s p.
        elim (Bool-cases (in_mission_states s.mission.state (drafting ∷ plan_approved ∷ []))) [
          | inl e ↦ rw (force_executing, e) (g.missions s _ p)
          | inr e ↦ rw (force_executing, e) p
        ];
  }

  pub mark_task_started-Keeps : (k now : ℕ) → Keeps P (mark_task_started k now)
  unfolding mark_task_started same_state
  mark_task_started-Keeps k now = Keeps-bind (Keeps-read _) (λ b.
      Keeps-then (Keeps-when (not b) (Keeps-read _)) (
        Keeps-then (Keeps-dequeue g k) (
          Keeps-then (move_task-Keeps k running now refl)
            (Keeps-then force_executing-Keeps (event task_started (some k))))))

  pub mark_task_verifying-Keeps : (k now : ℕ) → Keeps P (mark_task_verifying k now)
  unfolding mark_task_verifying same_state
  mark_task_verifying-Keeps k now =
      Keeps-then (move_task-Keeps k verifying now refl) (event task_verifying (some k))
