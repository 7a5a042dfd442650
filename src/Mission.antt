-- ===== src/Mission.antt =====
-- orchestrator/models.py: `MissionState`, its transition table and `Mission`, without the fields
-- that nothing modelled reads (title, description, metadata, created_at).
pub mod Lifecycle
use adaptive_orchestrator.Base.{ℕ, Bool, true, false, not, ◌||◌, List, [], ◌∷◌, if◌then◌else◌}
use adaptive_orchestrator.Errors.{Result, ok, err, invalid_state_transition}

pub data MissionState : Type 0 where
  drafting plan_approved executing integrating auditing paused completed failed cancelled :
      MissionState

pub record Mission : Type 0 where
  pub mission_id : ℕ
  pub state : MissionState
  pub updated_at : ℕ

-- VALID_MISSION_TRANSITIONS
unfoldable pub valid_mission_transitions : MissionState → List MissionState
valid_mission_transitions drafting = plan_approved ∷ cancelled ∷ []
valid_mission_transitions plan_approved = executing ∷ cancelled ∷ []
valid_mission_transitions executing =
    integrating ∷ auditing ∷ paused ∷ completed ∷ failed ∷ cancelled ∷ []
valid_mission_transitions integrating = auditing ∷ completed ∷ failed ∷ cancelled ∷ []
valid_mission_transitions auditing = completed ∷ failed ∷ cancelled ∷ []
valid_mission_transitions paused = executing ∷ cancelled ∷ []
valid_mission_transitions completed = []
valid_mission_transitions failed = []
valid_mission_transitions cancelled = []

-- `==` on states.
unfoldable pub same_mission_state : MissionState → MissionState → Bool
same_mission_state drafting drafting = true
same_mission_state plan_approved plan_approved = true
same_mission_state executing executing = true
same_mission_state integrating integrating = true
same_mission_state auditing auditing = true
same_mission_state paused paused = true
same_mission_state completed completed = true
same_mission_state failed failed = true
same_mission_state cancelled cancelled = true
same_mission_state _ _ = false

-- `target in states`
unfoldable pub in_mission_states : MissionState → List MissionState → Bool
unfolding same_mission_state
in_mission_states s [] = false
in_mission_states s (x ∷ xs) = same_mission_state s x || in_mission_states s xs

unfoldable pub transition_mission : Mission → MissionState → ℕ → Result Mission
unfolding same_mission_state in_mission_states valid_mission_transitions
transition_mission m target now =
    if same_mission_state target m.state
    then ok m
    else if not (in_mission_states target (valid_mission_transitions m.state))
    then err invalid_state_transition
    else ok (record m { state = target; updated_at = now })
