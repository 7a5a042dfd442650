-- ===== src/Scenarios/Policies.antt =====
-- Tasks of high and of critical risk.
use adaptive_orchestrator.Base.{String, refl, none}
use adaptive_orchestrator.VerificationPolicy.{
  default_policy, PolicyFields, PolicyMeta, absent, Metadata, resolve_policy_for_task,
}
use adaptive_orchestrator.VerificationPolicy.Gates.{IsGated, resolve_policy_for_task-IsGated}

abbrev no_fields : PolicyFields
no_fields = record {
  tier1_enabled = none;
  tier2_enabled = none;
  tier3_enabled = none;
  tier4_enabled = none;
  tier1_commands = none;
  tier2_commands = none;
  tier3_commands = none;
  timeout = none;
  require_independent_verification = none;
  require_adversarial_challenge = none;
  allow_merge_after_tier1 = none;
  auto_repair = none;
  max_repair_attempts = none;
  custom_checks = none;
}

abbrev metadata : PolicyMeta → String → Metadata
metadata policy risk = record {
  verification_policy = policy;
  flags = no_fields;
  require_tier2 = none;
  require_tier3 = none;
  risk = risk;
}

resolve_policy_for_task-IsGated_example :
    IsGated
      (metadata absent "critical")
      3
      default_policy
      (resolve_policy_for_task (metadata absent "critical") 3 none)
resolve_policy_for_task-IsGated_example =
    resolve_policy_for_task-IsGated (metadata absent "critical") 3 none refl
