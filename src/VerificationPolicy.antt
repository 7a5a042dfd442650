-- ===== src/VerificationPolicy.antt =====
-- orchestrator/verification/policy.py: `VerificationPolicy` and `resolve_policy_for_task`. The keys of
-- a task's metadata are fields that may be absent, of the types that the policy gives them. A
-- timeout is a number of ticks.
pub mod Gates
use adaptive_orchestrator.Base.{
  ℕ, str_eq, String, Bool, true, false, ◌||◌, Option, none, some, List, [], if◌then◌else◌,
}

pub record VerificationPolicy : Type 0 where
  pub tier1_enabled : Bool
  pub tier2_enabled : Bool
  pub tier3_enabled : Bool
  pub tier4_enabled : Bool
  pub tier1_commands : List String
  pub tier2_commands : List String
  pub tier3_commands : List String
  pub timeout : ℕ
  pub require_independent_verification : Bool
  pub require_adversarial_challenge : Bool
  pub allow_merge_after_tier1 : Bool
  pub auto_repair : Bool
  pub max_repair_attempts : ℕ
  pub custom_checks : List String

-- The policy of the dataclass's defaults.
abbrev pub default_policy : VerificationPolicy
default_policy = record {
  tier1_enabled = true;
  tier2_enabled = false;
  tier3_enabled = false;
  tier4_enabled = true;
  tier1_commands = [];
  tier2_commands = [];
  tier3_commands = [];
  timeout = 30;
  require_independent_verification = false;
  require_adversarial_challenge = false;
  allow_merge_after_tier1 = true;
  auto_repair = true;
  max_repair_attempts = 2;
  custom_checks = [];
}

-- The keys that a dictionary of policy fields may have.
pub record PolicyFields : Type 0 where
  pub tier1_enabled : Option Bool
  pub tier2_enabled : Option Bool
  pub tier3_enabled : Option Bool
  pub tier4_enabled : Option Bool
  pub tier1_commands : Option (List String)
  pub tier2_commands : Option (List String)
  pub tier3_commands : Option (List String)
  pub timeout : Option ℕ
  pub require_independent_verification : Option Bool
  pub require_adversarial_challenge : Option Bool
  pub allow_merge_after_tier1 : Option Bool
  pub auto_repair : Option Bool
  pub max_repair_attempts : Option ℕ
  pub custom_checks : Option (List String)

-- `meta.get("verification_policy")`: a policy, a dictionary, or neither.
pub data PolicyMeta : Type 0 where
  object : VerificationPolicy → PolicyMeta
  dictionary : PolicyFields → PolicyMeta
  absent : PolicyMeta

-- The metadata of a task. `risk` is the text after `lower()`, empty if the key is absent.
pub record Metadata : Type 0 where
  pub verification_policy : PolicyMeta
  pub flags : PolicyFields
  pub require_tier2 : Option Bool
  pub require_tier3 : Option Bool
  pub risk : String

-- `d.get(key, default)`
unfoldable pub get_or {ℓ} : {A : Type ℓ} → Option A → A → A
get_or none d = d
get_or (some a) d = a

-- The policy of a dictionary. The limit of the repairs falls back to the task's retries.
unfoldable pub policy_of_dictionary : PolicyFields → VerificationPolicy → ℕ → VerificationPolicy
unfolding get_or
policy_of_dictionary f base max_retries = record {
  tier1_enabled = get_or f.tier1_enabled base.tier1_enabled;
  tier2_enabled = get_or f.tier2_enabled base.tier2_enabled;
  tier3_enabled = get_or f.tier3_enabled base.tier3_enabled;
  tier4_enabled = get_or f.tier4_enabled base.tier4_enabled;
  tier1_commands = get_or f.tier1_commands base.tier1_commands;
  tier2_commands = get_or f.tier2_commands base.tier2_commands;
  tier3_commands = get_or f.tier3_commands base.tier3_commands;
  timeout = get_or f.timeout base.timeout;
  require_independent_verification =
      get_or f.require_independent_verification base.require_independent_verification;
  require_adversarial_challenge =
      get_or f.require_adversarial_challenge base.require_adversarial_challenge;
  allow_merge_after_tier1 = get_or f.allow_merge_after_tier1 base.allow_merge_after_tier1;
  auto_repair = get_or f.auto_repair base.auto_repair;
  max_repair_attempts = get_or f.max_repair_attempts max_retries;
  custom_checks = get_or f.custom_checks base.custom_checks;
}

-- `risk in ("high", "critical") or meta.get("require_tier2", False)`
unfoldable pub wants_tier2 : Metadata → Bool
unfolding get_or
wants_tier2 m = str_eq m.risk "high" || str_eq m.risk "critical" || get_or m.require_tier2 false

-- `risk in ("critical",) or meta.get("require_tier3", False)`
unfoldable pub wants_tier3 : Metadata → Bool
unfolding get_or
wants_tier3 m = str_eq m.risk "critical" || get_or m.require_tier3 false

-- `require_independent` after the risk has been looked at.
unfoldable pub independent : Metadata → VerificationPolicy → Bool
unfolding wants_tier2 get_or
independent m base =
    if wants_tier2 m
    then true
    else get_or m.flags.require_independent_verification
        (get_or m.require_tier2 base.require_independent_verification)

unfoldable pub adversarial : Metadata → VerificationPolicy → Bool
unfolding wants_tier3 get_or
adversarial m base =
    if wants_tier3 m
    then true
    else get_or m.flags.require_adversarial_challenge
        (get_or m.require_tier3 base.require_adversarial_challenge)

-- The policy of a task that has no policy of its own.
unfoldable pub policy_of_flags : Metadata → VerificationPolicy → ℕ → VerificationPolicy
unfolding independent adversarial
policy_of_flags m base max_retries = record {
  tier1_enabled = get_or m.flags.tier1_enabled base.tier1_enabled;
  tier2_enabled = (if wants_tier2 m then true else get_or m.flags.tier2_enabled base.tier2_enabled);
  tier3_enabled = (if wants_tier3 m then true else get_or m.flags.tier3_enabled base.tier3_enabled);
  tier4_enabled = get_or m.flags.tier4_enabled base.tier4_enabled;
  tier1_commands = get_or m.flags.tier1_commands base.tier1_commands;
  tier2_commands = get_or m.flags.tier2_commands base.tier2_commands;
  tier3_commands = get_or m.flags.tier3_commands base.tier3_commands;
  timeout = get_or m.flags.timeout base.timeout;
  require_independent_verification = independent m base;
  require_adversarial_challenge = adversarial m base;
  allow_merge_after_tier1 =
      (if independent m base || adversarial m base then false else base.allow_merge_after_tier1);
  auto_repair = get_or m.flags.auto_repair base.auto_repair;
  max_repair_attempts = max_retries;
  custom_checks = get_or m.flags.custom_checks base.custom_checks;
}

unfoldable pub resolve_policy_for_task :
    Metadata → ℕ → Option VerificationPolicy → VerificationPolicy
unfolding policy_of_dictionary policy_of_flags
resolve_policy_for_task m max_retries default =
    let base : VerificationPolicy = elim default [ none ↦ default_policy | some p ↦ p ] in
    elim m.verification_policy [
      | object p ↦ p
      | dictionary f ↦ policy_of_dictionary f base max_retries
      | absent ↦ policy_of_flags m base max_retries
    ]
