-- ===== src/Scenarios/Repairs.antt =====
-- A failed verification.
use adaptive_orchestrator.Base.{◌≤◌, ◌≡◌, refl, true, false, none, [], ◌++◌, arith, length}
use adaptive_orchestrator.FilePaths.{codes}
use adaptive_orchestrator.Task.{verifying, retrying, Task, stamp, transition_to}
use adaptive_orchestrator.Repair.{
  tier_2_independent, is_repairable, truncate_summary, VerificationResult, explicit_classification,
  classify_failure, classification_of, repair_limit, can_repair, build_repair_payload,
}
use adaptive_orchestrator.Repair.Limits.{can_repair-transition_to}
use adaptive_orchestrator.Repair.Severity.{severity, classify_failure-append}
use adaptive_orchestrator.Repair.Truncation.{length-truncate_summary}
use adaptive_orchestrator.Scenarios.Tasks.{sample}

abbrev assertion_failed : VerificationResult
assertion_failed = record {
  task_id = 1;
  passed = false;
  tier = tier_2_independent;
  evidences = [];
  failure_classification = none;
  summary = codes "AssertionError: 1 test failed";
}

abbrev attempted : Task
attempted = sample 1 verifying [] []

can_repair-transition_to_example :
    (is_repairable (classification_of assertion_failed) ≡ true)
    × ((stamp attempted retrying 7).retry_count ≤ repair_limit (stamp attempted retrying 7) none)
    × ((build_repair_payload attempted assertion_failed).repair_attempt
        ≡ (stamp attempted retrying 7).retry_count)
unfolding can_repair transition_to
can_repair-transition_to_example =
    can_repair-transition_to attempted (stamp attempted retrying 7) assertion_failed none 7 refl
      refl refl

classify_failure-append_example :
    severity (classify_failure none (codes "Killed"))
    ≤ severity (classify_failure none (codes "Killed" ++ codes " after a failure"))
unfolding explicit_classification
classify_failure-append_example =
    classify_failure-append none (codes "Killed") (codes " after a failure") refl

length-truncate_summary_example :
    length (truncate_summary (codes "a text that is longer than the limit of characters") 40) ≤ 40
length-truncate_summary_example =
    length-truncate_summary (codes "a text that is longer than the limit of characters") 40
      (omega arith)
