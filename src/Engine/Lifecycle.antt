-- ===== src/Engine/Lifecycle.antt =====
-- The mission of `MissionEngine`: `approve_plan` to `run_victory_audit`.
use adaptive_orchestrator.Base.{
  ℕ, str_eq, Bool, not, ◌&&◌, none, List, [], ◌∷◌, ltb, ◌==◌, if◌then◌else◌, length, every, values,
}
use adaptive_orchestrator.Engine.State.{
  Action, ◌>>=◌, ◌>>◌, pure, raise, ask, done, when, emit, set_mission,
}
use adaptive_orchestrator.Errors.{invalid_state_transition, ok}
use adaptive_orchestrator.Mission.{
  MissionState, drafting, plan_approved, executing, integrating, auditing, paused, completed,
  failed, in_mission_states, transition_mission,
}
use adaptive_orchestrator.Task.{merged, Task, same_state, is_terminal, is_success}
use adaptive_orchestrator.Checkpoint.{mission_state_changed_event}
use adaptive_orchestrator.Graph.{Graph}

-- A change of the mission's state, and its event.
unfoldable pub mission_to : MissionState → ℕ → Action (Unit {0})
unfolding transition_mission set_mission emit
mission_to target now = do
  m ← ask (λ s. transition_mission s.mission target now)
  set_mission m
  emit mission_state_changed_event none

abbrev pub mission_in : List MissionState → Action Bool
mission_in states = ask (λ s. ok (in_mission_states s.mission.state states))

unfoldable pub approve_plan : ℕ → Action (Unit {0})
unfolding mission_to
approve_plan now = mission_to plan_approved now

unfoldable pub start_mission : ℕ → Action (Unit {0})
unfolding mission_to in_mission_states approve_plan
start_mission now = do
  is_draft ← mission_in (drafting ∷ [])
  when is_draft (approve_plan now)
  mission_to executing now

unfoldable pub pause_mission : ℕ → Action (Unit {0})
unfolding mission_to
pause_mission now = mission_to paused now

unfoldable pub resume_mission : ℕ → Action (Unit {0})
unfolding mission_to
resume_mission now = mission_to executing now

unfoldable pub start_integrating : ℕ → Action (Unit {0})
unfolding mission_to
start_integrating now = mission_to integrating now

unfoldable pub start_auditing : ℕ → Action (Unit {0})
unfolding mission_to
start_auditing now = mission_to auditing now

-- The last step of `run_victory_audit`, from the verdict.
unfoldable pub conclude : Bool → ℕ → Action (Unit {0})
unfolding mission_to
conclude verdict now = mission_to (if verdict then completed else failed) now

unfoldable pub run_victory_audit : ℕ → Action Bool
unfolding mission_to conclude in_mission_states
run_victory_audit now = do
  may_run ← mission_in (auditing ∷ executing ∷ integrating ∷ [])
  when (not may_run) (raise invalid_state_transition)
  is_auditing ← mission_in (auditing ∷ [])
  when (not is_auditing) (mission_to auditing now)
  verdict ← ask (λ s. ok (s.audit s.mission s.graph))
  conclude verdict now
  pure verdict

unfoldable pub is_passed : Task → Bool
unfolding is_terminal is_success
is_passed t = is_terminal t.status && is_success t.status

-- A task in a branch with writes that are not merged.
unfoldable pub has_unmerged : Task → Bool
unfolding same_state
has_unmerged t =
    str_eq t.workspace_mode "branch"
    && not (length t.write_set == 0)
    && not (same_state t.status merged)

-- `not (all_passed and self._graph.task_count() > 0)`
unfoldable pub is_unfinished : Graph → Bool
unfolding is_passed every values
is_unfinished g = not (every is_passed (values g) && ltb 0 (length g))

unfoldable pub has_unmerged_writes : Graph → Bool
unfolding has_unmerged every values
has_unmerged_writes g = not (every (λ t. not (has_unmerged t)) (values g))

-- The part of `_check_mission_completion` for a graph whose writes are all merged.
unfoldable pub advance_to_audit : ℕ → Action (Unit {0})
unfolding mission_to run_victory_audit in_mission_states
advance_to_audit now = do
  may_audit ← mission_in (executing ∷ integrating ∷ [])
  when may_audit (mission_to auditing now)
  is_auditing ← mission_in (auditing ∷ [])
  auto ← ask (λ s. ok s.auto_audit)
  when (auto && is_auditing) (run_victory_audit now >> done)

-- The part for a graph with writes to merge.
unfoldable pub advance_to_integration : ℕ → Action (Unit {0})
unfolding mission_to in_mission_states
advance_to_integration now = do
  is_executing ← mission_in (executing ∷ [])
  when is_executing (mission_to integrating now)

-- `_check_mission_completion`
unfoldable pub check_mission_completion : ℕ → Action (Unit {0})
unfolding advance_to_audit advance_to_integration is_unfinished has_unmerged_writes
check_mission_completion now = do
  unfinished ← ask (λ s. ok (is_unfinished s.graph))
  unmerged ← ask (λ s. ok (has_unmerged_writes s.graph))
  (if unfinished
      then done
      else if unmerged
      then advance_to_integration now
      else advance_to_audit now)
