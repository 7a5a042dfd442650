-- ===== src/Mission/Lifecycle.antt =====
-- What any run of requests for a change of the mission's state can reach.
use adaptive_orchestrator.Base.{ℕ, ◌≤◌, ◌≡◌, refl, ◌∙◌, arith}
use adaptive_orchestrator.Errors.{ok}
use adaptive_orchestrator.Mission.{
  MissionState, drafting, plan_approved, executing, integrating, auditing, paused, completed,
  failed, cancelled, Mission, transition_mission,
}

-- A permitted change of a mission's state: a call of `transition_mission` that returns.
pub data Changes (m : Mission) : Mission → Type 0 where
  here : Changes m m
  next :
      {u v : Mission} (target : MissionState) (now : ℕ)
      → Changes m u
      → transition_mission u target now ≡ ok v
      → Changes m v

-- How far a mission is in its life. PAUSED lies with EXECUTING.
abbrev pub phase : MissionState → ℕ
phase drafting = 0
phase plan_approved = 1
phase executing = 2
phase paused = 2
phase integrating = 3
phase auditing = 4
phase completed = 5
phase failed = 5
phase cancelled = 5

transition_mission-phase :
    (u v : Mission) (target : MissionState) (now : ℕ)
    → transition_mission u target now ≡ ok v
    → phase u.state ≤ phase v.state
unfolding transition_mission
transition_mission-phase u v drafting now e = ground arith
transition_mission-phase u v _ now e = ground arith

-- A mission never goes back to an earlier phase, by any number of permitted changes.
pub Changes-phase : {m v : Mission} → Changes m v → phase m.state ≤ phase v.state
Changes-phase here = omega arith
Changes-phase (next {u = u} {v = v} target now c e) =
    omega (arith, Changes-phase c, transition_mission-phase u v target now e)

final_step :
    (u v : Mission) (target : MissionState) (now : ℕ)
    → phase u.state ≡ 5
    → transition_mission u target now ≡ ok v
    → v ≡ u
unfolding transition_mission
final_step u v drafting now h e = ground arith
final_step u v _ now h e = ground arith

-- COMPLETED, FAILED and CANCELLED are final: no permitted change alters such a mission.
pub Changes-final : {m v : Mission} → phase m.state ≡ 5 → Changes m v → v ≡ m
Changes-final h here = refl
Changes-final {m = m} h (next {u = u} {v = v} target now c e) =
    let same : u ≡ m = Changes-final h c in final_step u v target now (rw same h) e ∙ same
