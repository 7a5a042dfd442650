-- ===== src/Checkpoint.antt =====
-- orchestrator/persistence/checkpoint.py: `CheckpointPolicy`. The name of the file is left out. The
-- time of a call is an argument, in ticks from the start of the clock.
pub mod Throttle
use adaptive_orchestrator.Base.{
  ℕ, ◌+◌, str_eq, String, Bool, true, false, not, ◌&&◌, ◌||◌, Option, none, some, List, [], ◌∷◌,
  ltb, if◌then◌else◌,
}

pub data CheckpointTrigger : Type 0 where
  mission_state_changed task_assigned task_completed task_failed : CheckpointTrigger
  verification_result repair_result merge_result worker_failed explicit : CheckpointTrigger

-- `EventType`. Where a trigger has the name of an event, the event ends in `_event`. Other names of
-- the same value are left out.
pub data EventType : Type 0 where
  mission_created mission_state_changed_event task_created task_ready : EventType
  task_assigned_event task_started task_verifying task_completed_event : EventType
  task_failed_event task_retrying task_cancelled task_state_changed : EventType
  dependency_satisfied dependency_invalidated graph_mutated worker_registered : EventType
  worker_unregistered worker_busy worker_idle worker_retired worker_failed_event : EventType
  capacity_changed workspace_acquired workspace_released workspace_conflict : EventType
  merge_ready merge_started merge_completed merge_failed verification_started : EventType
  verification_passed verification_failed verification_retrying repair_requested : EventType
  repair_completed repair_failed checkpoint_saved mission_recovered : EventType
  tier3_challenge_started tier3_challenge_passed tier3_challenge_failed : EventType
  tier4_audit_started tier4_audit_passed tier4_audit_failed : EventType

pub record CheckpointPolicy : Type 0 where
  pub enabled : Bool
  pub triggers : List CheckpointTrigger
  pub min_interval : ℕ
  pub last_checkpoint_time : ℕ

-- The triggers of a policy that names none.
abbrev pub default_triggers : List CheckpointTrigger
default_triggers =
    mission_state_changed ∷ task_assigned ∷ task_completed ∷ task_failed ∷ verification_result
    ∷ repair_result ∷ merge_result ∷ worker_failed ∷ explicit ∷ []

-- `__init__`: `enabled_triggers` goes before `triggers`, and `throttle_seconds` before
-- `min_interval_seconds`.
unfoldable pub new_policy :
    Bool
    → Option (List CheckpointTrigger)
    → Option (List CheckpointTrigger)
    → ℕ
    → Option ℕ
    → CheckpointPolicy
new_policy enabled triggers enabled_triggers min_interval throttle = record {
  enabled = enabled;
  triggers = elim enabled_triggers [
    | some ts ↦ ts
    | none ↦ elim triggers [ some ts ↦ ts | none ↦ default_triggers ]
  ];
  min_interval = elim throttle [ some n ↦ n | none ↦ min_interval ];
  last_checkpoint_time = 0;
}

-- The setter of `enabled_triggers`.
unfoldable pub set_triggers : CheckpointPolicy → List CheckpointTrigger → CheckpointPolicy
set_triggers p ts = record p { triggers = ts }

-- `==` on triggers.
unfoldable pub same_trigger : CheckpointTrigger → CheckpointTrigger → Bool
same_trigger mission_state_changed mission_state_changed = true
same_trigger task_assigned task_assigned = true
same_trigger task_completed task_completed = true
same_trigger task_failed task_failed = true
same_trigger verification_result verification_result = true
same_trigger repair_result repair_result = true
same_trigger merge_result merge_result = true
same_trigger worker_failed worker_failed = true
same_trigger explicit explicit = true
same_trigger _ _ = false

-- `trigger in self.triggers`
unfoldable pub in_triggers : CheckpointTrigger → List CheckpointTrigger → Bool
unfolding same_trigger
in_triggers t [] = false
in_triggers t (x ∷ xs) = same_trigger t x || in_triggers t xs

unfoldable pub should_checkpoint :
    CheckpointPolicy → CheckpointTrigger → ℕ → CheckpointPolicy × Bool
unfolding same_trigger in_triggers
should_checkpoint p trigger now =
    if not p.enabled
    then (p, false)
    else if not (in_triggers trigger p.triggers)
    then (p, false)
    else if ltb 0 p.min_interval
        && not (same_trigger trigger explicit)
        && ltb now (p.last_checkpoint_time + p.min_interval)
    then (p, false)
    else (record p { last_checkpoint_time = now }, true)

unfoldable pub map_event_to_trigger : EventType → Option CheckpointTrigger
map_event_to_trigger mission_state_changed_event = some mission_state_changed
map_event_to_trigger task_assigned_event = some task_assigned
map_event_to_trigger task_completed_event = some task_completed
map_event_to_trigger task_failed_event = some task_failed
map_event_to_trigger verification_passed = some verification_result
map_event_to_trigger verification_failed = some verification_result
map_event_to_trigger repair_completed = some repair_result
map_event_to_trigger repair_failed = some repair_result
map_event_to_trigger merge_completed = some merge_result
map_event_to_trigger merge_failed = some merge_result
map_event_to_trigger worker_failed_event = some worker_failed
map_event_to_trigger _ = none

-- The value of a trigger, which is its name too.
unfoldable pub trigger_value : CheckpointTrigger → String
trigger_value mission_state_changed = "MISSION_STATE_CHANGED"
trigger_value task_assigned = "TASK_ASSIGNED"
trigger_value task_completed = "TASK_COMPLETED"
trigger_value task_failed = "TASK_FAILED"
trigger_value verification_result = "VERIFICATION_RESULT"
trigger_value repair_result = "REPAIR_RESULT"
trigger_value merge_result = "MERGE_RESULT"
trigger_value worker_failed = "WORKER_FAILED"
trigger_value explicit = "EXPLICIT"

-- The trigger of that name in the set.
unfoldable pub named : String → List CheckpointTrigger → Option CheckpointTrigger
unfolding trigger_value
named name [] = none
named name (t ∷ ts) = if str_eq (trigger_value t) name then some t else named name ts

unfoldable pub should_checkpoint_event : CheckpointPolicy → String → ℕ → CheckpointPolicy × Bool
unfolding should_checkpoint named
should_checkpoint_event p name now = elim (named name p.triggers) [
  | none ↦ (p, false)
  | some t ↦ should_checkpoint p t now
]
