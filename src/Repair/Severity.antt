-- ===== src/Repair/Severity.antt =====
-- What more text does to the classification of a failure.
use adaptive_orchestrator.Base.{
  ℕ, ◌≤◌, ◌≡◌, refl, sym, ap, true, Option, none, some, List, [], ◌∷◌, ◌++◌, arith,
}
use adaptive_orchestrator.FilePaths.{codes}
use adaptive_orchestrator.Repair.{
  Text, FailureClassification, repairable, environmental, infrastructure, VerificationEvidence,
  lower, starts_with, contains_text, mentions, env_keywords, infra_keywords, repairable_keywords,
  classify_text, combined_text, explicit_classification, classify_failure,
}

-- From the failures that no repair is tried for to those that none is known for.
unfoldable pub severity : FailureClassification → ℕ
severity environmental = 3
severity infrastructure = 2
severity repairable = 1
severity _ = 0

starts_with-append :
    (text more keyword : Text)
    → starts_with text keyword ≡ true
    → starts_with (text ++ more) keyword ≡ true
unfolding starts_with
starts_with-append text more [] e = refl
starts_with-append [] more (k ∷ ks) e = ground (arith, e)
starts_with-append (c ∷ cs) more (k ∷ ks) e = ground (arith, e, starts_with-append cs more ks)

contains_nothing : (text : Text) → contains_text text [] ≡ true
unfolding contains_text starts_with
contains_nothing [] = refl
contains_nothing (c ∷ cs) = refl

contains_text-append :
    (text more keyword : Text)
    → contains_text text keyword ≡ true
    → contains_text (text ++ more) keyword ≡ true
unfolding contains_text
contains_text-append [] more [] e = contains_nothing more
contains_text-append [] more (k ∷ ks) e = unfold starts_with in ground (arith, e)
contains_text-append (c ∷ cs) more keyword e =
    ground
      (arith, e, starts_with-append (c ∷ cs) more keyword, contains_text-append cs more keyword)

mentions-append :
    (text more : Text) (keywords : List Text)
    → mentions text keywords ≡ true
    → mentions (text ++ more) keywords ≡ true
unfolding mentions
mentions-append text more [] e = ground (arith, e)
mentions-append text more (k ∷ ks) e =
    ground (arith, e, contains_text-append text more k, mentions-append text more ks)

append_assoc : (xs ys zs : Text) → (xs ++ ys) ++ zs ≡ xs ++ (ys ++ zs)
append_assoc [] ys zs = refl
append_assoc (x ∷ xs) ys zs = ap (λ l. x ∷ l) (append_assoc xs ys zs)

lower-append : (text more : Text) → lower (text ++ more) ≡ lower text ++ lower more
unfolding lower
lower-append [] more = refl
lower-append (c ∷ cs) more = rw (lower-append cs more) refl

classify_text-append :
    (env infra code : List Text) (text more : Text)
    → severity (classify_text env infra code text)
      ≤ severity (classify_text env infra code (text ++ more))
unfolding classify_text severity
classify_text-append env infra code text more = ground (
  arith,
  mentions-append text more env,
  mentions-append text more infra,
  mentions-append text more code,
)

combined_text-append :
    (evidence : Option VerificationEvidence) (message more : Text)
    → combined_text evidence (message ++ more) ≡ combined_text evidence message ++ more
unfolding combined_text
combined_text-append none message more = refl
combined_text-append (some e) message more =
    sym (append_assoc (e.stderr_summary ++ codes " " ++ e.stdout_summary ++ codes " ") message more)

classify_failure-text :
    (evidence : Option VerificationEvidence) (message : Text)
    → explicit_classification evidence ≡ none
    → classify_failure evidence message
      ≡ classify_text env_keywords infra_keywords repairable_keywords
          (lower (combined_text evidence message))
unfolding classify_failure
classify_failure-text evidence message e = rw (classify_failure, e) refl

-- Text that is added to an error message never makes a failure less severe, in the order unknown,
-- repairable, infrastructure, environmental, where the evidence has no classification of its own:
-- so a failure of the environment or the infrastructure never becomes one to repair.
pub classify_failure-append :
    (evidence : Option VerificationEvidence) (message more : Text)
    → explicit_classification evidence ≡ none
    → severity (classify_failure evidence message)
      ≤ severity (classify_failure evidence (message ++ more))
classify_failure-append evidence message more e =
    rw
      (
        classify_failure-text evidence message e,
        classify_failure-text evidence (message ++ more) e,
        combined_text-append evidence message more,
        lower-append (combined_text evidence message) more,
      )
      (classify_text-append env_keywords infra_keywords repairable_keywords
        (lower (combined_text evidence message)) (lower more))
