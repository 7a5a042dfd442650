-- ===== src/Repair/Limits.antt =====
-- Repairs against the retries that are counted when a task goes to RETRYING.
use adaptive_orchestrator.Base.{
  ℕ, ◌+◌, ◌≤◌, ◌<◌, ◌≡◌, refl, inl, inr, true, false, Option, none, some, arith, Bool-cases,
}
use adaptive_orchestrator.Errors.{ok}
use adaptive_orchestrator.Task.{retrying, Task, same_state, can_transition_to, stamp, transition_to}
use adaptive_orchestrator.VerificationPolicy.{VerificationPolicy}
use adaptive_orchestrator.Repair.{
  is_repairable, VerificationResult, classification_of, repair_limit, can_repair,
  build_repair_payload,
}

retry_count-retrying : (t : Task) (now : ℕ) → (stamp t retrying now).retry_count ≡ t.retry_count + 1
unfolding stamp same_state
retry_count-retrying t now = refl

can_repair-below :
    (t : Task) (r : VerificationResult) (policy : Option VerificationPolicy)
    → can_repair t r policy ≡ true
    → t.retry_count < repair_limit t policy
unfolding can_repair
can_repair-below t r policy e = ground (arith, e)

limit-stamp :
    (t : Task) (now : ℕ) (policy : Option VerificationPolicy)
    → repair_limit (stamp t retrying now) policy ≡ repair_limit t policy
unfolding stamp same_state repair_limit
limit-stamp t now none = refl
limit-stamp t now (some policy) = refl

-- A repair that `can_repair` allows is only of a repairable failure; when the task then goes to
-- RETRYING, its retries are counted one up and stay within the limit, which is that of the policy, or
-- the task's own without a policy. The payload of the repair carries that new count.
pub can_repair-transition_to :
    (t u : Task) (r : VerificationResult) (policy : Option VerificationPolicy) (now : ℕ)
    → can_repair t r policy ≡ true
    → transition_to t retrying now ≡ ok u
    → same_state retrying t.status ≡ false
    → (is_repairable (classification_of r) ≡ true)
      × (u.retry_count ≤ repair_limit u policy)
      × ((build_repair_payload t r).repair_attempt ≡ u.retry_count)
unfolding can_repair transition_to build_repair_payload
can_repair-transition_to t u r policy now e q other = (
  unfold can_repair in ground (arith, e),
  rw (is_stamped, limit-stamp t now policy, retry_count-retrying t now)
      (omega (arith, can_repair-below t r policy e)),
  rw (is_stamped, retry_count-retrying t now) refl,
)
  where
    is_stamped : u ≡ stamp t retrying now
    is_stamped = elim (Bool-cases (can_transition_to t retrying)) [
      | inl c ↦ unfold transition_to in ground (arith, q, other, c)
      | inr c ↦ absurd (unfold transition_to in ground (arith, q, other, c))
    ]
