-- ===== src/Scenarios/Missions.antt =====
-- The life of a mission.
use adaptive_orchestrator.Base.{◌≤◌, refl}
use adaptive_orchestrator.Mission.{MissionState, executing, completed, Mission, transition_mission}
use adaptive_orchestrator.Mission.Lifecycle.{here, next, Changes-phase}

abbrev mission : MissionState → Mission
mission state = record { mission_id = 1; state = state; updated_at = 4 }

Changes-phase_example : 2 ≤ 5
unfolding transition_mission
Changes-phase_example =
    Changes-phase {m = mission executing} {v = mission completed} (next completed 4 here refl)
