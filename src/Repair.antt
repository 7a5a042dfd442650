-- ===== src/Repair.antt =====
-- orchestrator/verification/repair.py, with the results and the evidence of
-- orchestrator/verification/models.py. A text is a list of code points; `str.lower` is written for
-- ASCII. Times, identities and details of the evidence are left out.
pub mod Limits
pub mod Severity
pub mod Truncation
use adaptive_orchestrator.Base.{
  ℕ, zero, suc, ◌+◌, ◌-◌, ◌/◌, String, Bool, true, false, not, ◌&&◌, ◌||◌, Option, none, some, List,
  [], ◌∷◌, ◌++◌, leb, ◌==◌, if◌then◌else◌, length,
}
use adaptive_orchestrator.FilePaths.{codes, lstrip, rstrip, is_space, clean}
use adaptive_orchestrator.Task.{Task}
use adaptive_orchestrator.VerificationPolicy.{VerificationPolicy}

abbrev pub Text : Type 0
Text = List ℕ

pub data VerificationTier : Type 0 where
  tier_1_self_test tier_2_independent tier_3_adversarial tier_4_victory_audit : VerificationTier

pub data VerificationStatus : Type 0 where
  passed_check failed_check skipped error_check : VerificationStatus

pub data FailureClassification : Type 0 where
  repairable non_repairable environmental infrastructure workspace_collision logic_error unknown :
      FailureClassification

unfoldable pub is_repairable : FailureClassification → Bool
is_repairable repairable = true
is_repairable workspace_collision = true
is_repairable logic_error = true
is_repairable _ = false

-- `text.strip()`
unfoldable pub strip : Text → Text
unfolding lstrip rstrip is_space
strip text = rstrip is_space (lstrip is_space text)

-- The first `n` code points, and what follows them.
unfoldable pub first_chars : ℕ → Text → Text
first_chars zero text = []
first_chars (suc n) [] = []
first_chars (suc n) (c ∷ cs) = c ∷ first_chars n cs

unfoldable pub drop_chars : ℕ → Text → Text
drop_chars zero text = text
drop_chars (suc n) [] = []
drop_chars (suc n) (c ∷ cs) = drop_chars n cs

abbrev pub truncation_mark : Text
truncation_mark = codes "\n... [truncated] ...\n"

-- `f"{clean[:half]}\n... [truncated] ...\n{clean[-half:]}"`: below 30 characters the half is negative,
-- and a half of 0 takes the whole text as its end.
unfoldable pub shorten : Text → ℕ → Text
unfolding first_chars drop_chars
shorten clean max_chars =
    let half = (max_chars - 30) / 2 in
    let below = (30 - max_chars + 1) / 2 in
    if leb 30 max_chars
    then first_chars half clean
      ++ truncation_mark
      ++ (if half == 0 then clean else drop_chars (length clean - half) clean)
    else first_chars (length clean - below) clean ++ truncation_mark ++ drop_chars below clean

unfoldable pub truncate_summary : Text → ℕ → Text
unfolding strip shorten
truncate_summary text max_chars =
    let clean = strip text in
    if leb (length clean) max_chars then clean else shorten clean max_chars

abbrev pub max_log_summary_chars : ℕ
max_log_summary_chars = 500

pub record VerificationEvidence : Type 0 where
  pub task_id : ℕ
  pub tier : VerificationTier
  pub status : VerificationStatus
  pub command : Option Text
  pub stdout_summary : Text
  pub stderr_summary : Text
  pub failure_classification : Option FailureClassification

-- `__post_init__`
unfoldable pub new_evidence : VerificationEvidence → VerificationEvidence
unfolding truncate_summary
new_evidence e = record e {
  stdout_summary = truncate_summary e.stdout_summary max_log_summary_chars;
  stderr_summary = truncate_summary e.stderr_summary max_log_summary_chars;
}

unfoldable pub is_passed_check : VerificationEvidence → Bool
is_passed_check e = elim e.status [
  | passed_check ↦ true
  | failed_check ↦ false
  | skipped ↦ false
  | error_check ↦ false
]

pub record VerificationResult : Type 0 where
  pub task_id : ℕ
  pub passed : Bool
  pub tier : VerificationTier
  pub evidences : List VerificationEvidence
  pub failure_classification : Option FailureClassification
  pub summary : Text

-- `str.lower`
unfoldable pub lower : Text → Text
lower [] = []
lower (c ∷ cs) = (if leb 65 c && leb c 90 then c + 32 else c) ∷ lower cs

unfoldable pub starts_with : Text → Text → Bool
starts_with text [] = true
starts_with [] (k ∷ ks) = false
starts_with (c ∷ cs) (k ∷ ks) = c == k && starts_with cs ks

-- `keyword in text`
unfoldable pub contains_text : Text → Text → Bool
unfolding starts_with
contains_text [] keyword = starts_with [] keyword
contains_text (c ∷ cs) keyword = starts_with (c ∷ cs) keyword || contains_text cs keyword

-- `any(kw in lower_err for kw in keywords)`
unfoldable pub mentions : Text → List Text → Bool
unfolding contains_text
mentions text [] = false
mentions text (k ∷ ks) = contains_text text k || mentions text ks

abbrev pub env_keywords : List Text
env_keywords =
    codes "modulenotfounderror"
    ∷ codes "nodename nor servname provided"
    ∷ codes "connection refused"
    ∷ codes "no route to host"
    ∷ codes "network unreachable"
    ∷ codes "dns resolution failed"
    ∷ codes "service unavailable"
    ∷ codes "dependency not found"
    ∷ codes "could not find a version that satisfies the requirement"
    ∷ codes "environment error"
    ∷ []

abbrev pub infra_keywords : List Text
infra_keywords =
    codes "killed"
    ∷ codes "out of memory"
    ∷ codes "disk space"
    ∷ codes "permission denied"
    ∷ codes "sigkill"
    ∷ codes "sigterm"
    ∷ codes "timed out"
    ∷ codes "adapter crash"
    ∷ codes "runtime error"
    ∷ codes "process terminated unexpectedly"
    ∷ []

abbrev pub repairable_keywords : List Text
repairable_keywords =
    codes "assertionerror"
    ∷ codes "failed"
    ∷ codes "failure"
    ∷ codes "syntaxerror"
    ∷ codes "typeerror"
    ∷ codes "nameerror"
    ∷ codes "attributeerror"
    ∷ codes "valueerror"
    ∷ codes "indexerror"
    ∷ codes "keyerror"
    ∷ codes "lint error"
    ∷ codes "mypy error"
    ∷ codes "flake8"
    ∷ codes "exit status 1"
    ∷ codes "exit code 1"
    ∷ codes "test_fail"
    ∷ codes "tests failed"
    ∷ []

-- The classification by the lower-case text, with the three lists of keywords.
unfoldable pub classify_text : List Text → List Text → List Text → Text → FailureClassification
unfolding mentions
classify_text env infra code lower_err =
    if mentions lower_err env
    then environmental
    else if mentions lower_err infra
    then infrastructure
    else if mentions lower_err code
    then repairable
    else unknown

-- The text of the evidence and of the message.
unfoldable pub combined_text : Option VerificationEvidence → Text → Text
combined_text none error_message = error_message
combined_text (some e) error_message =
    (e.stderr_summary ++ codes " " ++ e.stdout_summary ++ codes " ") ++ error_message

unfoldable pub explicit_classification : Option VerificationEvidence → Option FailureClassification
explicit_classification none = none
explicit_classification (some e) = e.failure_classification

unfoldable pub classify_failure : Option VerificationEvidence → Text → FailureClassification
unfolding classify_text combined_text explicit_classification lower
classify_failure evidence error_message = elim (explicit_classification evidence) [
  | some c ↦ c
  | none ↦
      classify_text env_keywords infra_keywords repairable_keywords
        (lower (combined_text evidence error_message))
]

-- The classification of a result, or that of its summary.
unfoldable pub classification_of : VerificationResult → FailureClassification
unfolding classify_failure
classification_of r = elim r.failure_classification [
  | some c ↦ c
  | none ↦ classify_failure none r.summary
]

unfoldable pub repair_limit : Task → Option VerificationPolicy → ℕ
repair_limit task none = task.max_retries
repair_limit task (some policy) = policy.max_repair_attempts

unfoldable pub forbids_repair : Option VerificationPolicy → Bool
forbids_repair none = false
forbids_repair (some policy) = not policy.auto_repair

unfoldable pub can_repair : Task → VerificationResult → Option VerificationPolicy → Bool
unfolding classification_of is_repairable repair_limit forbids_repair
can_repair task r policy =
    if forbids_repair policy
    then false
    else if not (is_repairable (classification_of r))
    then false
    else if leb (repair_limit task policy) task.retry_count
    then false
    else true

pub record RepairPayload : Type 0 where
  pub task_id : ℕ
  pub repair_attempt : ℕ
  pub failed_tier : VerificationTier
  pub failed_command : Option Text
  pub failure_classification : FailureClassification
  pub error_summary : Text
  pub affected_files : List String
  pub worker_id : Option ℕ

-- The first evidence that is no success.
unfoldable pub first_failed : List VerificationEvidence → Option VerificationEvidence
unfolding is_passed_check
first_failed [] = none
first_failed (e ∷ es) = let later = first_failed es in if is_passed_check e then later else some e

-- The first text that is not empty, or the last.
unfoldable pub or_text : Text → Text → Text
or_text [] other = other
or_text (c ∷ cs) other = c ∷ cs

unfoldable pub error_summary_of : VerificationResult → Text
unfolding first_failed or_text
error_summary_of r = elim (first_failed r.evidences) [
  | none ↦ r.summary
  | some e ↦ or_text e.stderr_summary (or_text e.stdout_summary r.summary)
]

-- `build_repair_payload`. The files are the write set as a set: their sorted order is left out.
unfoldable pub build_repair_payload : Task → VerificationResult → RepairPayload
unfolding error_summary_of truncate_summary classification_of first_failed
build_repair_payload task r = record {
  task_id = task.task_id;
  repair_attempt = task.retry_count + 1;
  failed_tier = r.tier;
  failed_command = elim (first_failed r.evidences) [ none ↦ none | some e ↦ e.command ];
  failure_classification = classification_of r;
  error_summary = truncate_summary (error_summary_of r) max_log_summary_chars;
  affected_files = task.write_set;
  worker_id = task.assigned_worker_id;
}
