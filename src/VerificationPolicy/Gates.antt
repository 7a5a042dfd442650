-- ===== src/VerificationPolicy/Gates.antt =====
-- The gates that the resolved policy sets.
use adaptive_orchestrator.Base.{
  ℕ, eq_iff, ◌≡◌, refl, ◌≢◌, ◌⊎◌, inl, inr, true, false, Option, none, some, arith,
}
use adaptive_orchestrator.VerificationPolicy.{
  VerificationPolicy, default_policy, PolicyFields, dictionary, absent, Metadata, get_or,
  wants_tier2, wants_tier3, independent, adversarial, policy_of_flags, resolve_policy_for_task,
}

-- No key of the policy in the metadata.
abbrev pub no_flags : PolicyFields
no_flags = record {
  tier1_enabled = none;
  tier2_enabled = none;
  tier3_enabled = none;
  tier4_enabled = none;
  tier1_commands = none;
  tier2_commands = none;
  tier3_commands = none;
  timeout = none;
  require_independent_verification = none;
  require_adversarial_challenge = none;
  allow_merge_after_tier1 = none;
  auto_repair = none;
  max_repair_attempts = none;
  custom_checks = none;
}

-- What a policy for the metadata must ask for.
pub record IsGated (m : Metadata) (max_retries : ℕ) (base p : VerificationPolicy) : Type 0 where
  pub high_risk :
      (m.risk ≡ "high") ⊎ (m.risk ≡ "critical") ⊎ (m.require_tier2 ≡ some true)
      → (p.tier2_enabled ≡ true)
        × (p.require_independent_verification ≡ true)
        × (p.allow_merge_after_tier1 ≡ false)
  pub critical_risk :
      (m.risk ≡ "critical") ⊎ (m.require_tier3 ≡ some true)
      → (p.tier3_enabled ≡ true)
        × (p.require_adversarial_challenge ≡ true)
        × (p.allow_merge_after_tier1 ≡ false)
  pub merge_gate :
      p.allow_merge_after_tier1 ≡ true
      → (p.require_independent_verification ≡ false) × (p.require_adversarial_challenge ≡ false)
  pub low_risk :
      m.risk ≢ "high"
      → m.risk ≢ "critical"
      → m.require_tier2 ≡ none
      → m.require_tier3 ≡ none
      → m.flags ≡ no_flags
      → (p.tier2_enabled ≡ base.tier2_enabled)
        × (p.tier3_enabled ≡ base.tier3_enabled)
        × (p.require_independent_verification ≡ base.require_independent_verification)
        × (p.require_adversarial_challenge ≡ base.require_adversarial_challenge)
  pub repairs : p.max_repair_attempts ≡ max_retries

asks_tier2 :
    (m : Metadata)
    → (m.risk ≡ "high") ⊎ (m.risk ≡ "critical") ⊎ (m.require_tier2 ≡ some true)
    → wants_tier2 m ≡ true
unfolding wants_tier2 get_or
asks_tier2 m (inl e) = ground (arith, (eq_iff m.risk "high").1 e)
asks_tier2 m (inr (inl e)) = ground (arith, (eq_iff m.risk "critical").1 e)
asks_tier2 m (inr (inr e)) = ground (arith, e)

asks_tier3 :
    (m : Metadata) → (m.risk ≡ "critical") ⊎ (m.require_tier3 ≡ some true) → wants_tier3 m ≡ true
unfolding wants_tier3 get_or
asks_tier3 m (inl e) = ground (arith, (eq_iff m.risk "critical").1 e)
asks_tier3 m (inr e) = ground (arith, e)

no_tier2 :
    (m : Metadata)
    → m.risk ≢ "high"
    → m.risk ≢ "critical"
    → m.require_tier2 ≡ none
    → wants_tier2 m ≡ false
unfolding wants_tier2 get_or
no_tier2 m h c t = ground (arith, (eq_iff m.risk "high").0, (eq_iff m.risk "critical").0, h, c, t)

no_tier3 : (m : Metadata) → m.risk ≢ "critical" → m.require_tier3 ≡ none → wants_tier3 m ≡ false
unfolding wants_tier3 get_or
no_tier3 m c t = ground (arith, (eq_iff m.risk "critical").0, c, t)

-- Without a policy of its own, a task of high or critical risk, or one that requires tier 2, gets
-- tier 2 and independent verification, one of critical risk or that requires tier 3 gets tier 3 and
-- the adversarial challenge, and neither may be merged after tier 1. A merge after tier 1 is allowed
-- only where neither verification is required. A task that is of neither risk, requires no tier and
-- sets no flag keeps the tiers and the verifications of the default policy. The repairs are limited by
-- the task's retries.
pub resolve_policy_for_task-IsGated :
    (m : Metadata) (max_retries : ℕ) (default : Option VerificationPolicy)
    → m.verification_policy ≡ absent
    → IsGated m max_retries
        (elim default [ none ↦ default_policy | some b ↦ b ])
        (resolve_policy_for_task m max_retries default)
unfolding resolve_policy_for_task policy_of_flags independent adversarial
resolve_policy_for_task-IsGated m max_retries default e =
    rw (resolve_policy_for_task, e)
      (record {
        high_risk = λ h. ground (arith, asks_tier2 m h);
        critical_risk = λ h. ground (arith, asks_tier3 m h);
        low_risk = λ h c t u f.
            unfold get_or in
            rw (no_tier2 m h c t, no_tier3 m c u, f, t, u) (refl, refl, refl, refl);
        merge_gate = λ h. ground arith;
        repairs = refl;
      })

-- A dictionary of policy fields in the metadata switches the gates of the risk off: the policy is the
-- same for any two risks and any requirements of tiers beside it.
pub dictionary_ignores_risk :
    (m n : Metadata) (f : PolicyFields) (max_retries : ℕ) (default : Option VerificationPolicy)
    → m.verification_policy ≡ dictionary f
    → n.verification_policy ≡ dictionary f
    → resolve_policy_for_task m max_retries default ≡ resolve_policy_for_task n max_retries default
unfolding resolve_policy_for_task
dictionary_ignores_risk m n f max_retries default p q = rw (resolve_policy_for_task, p, q) refl
