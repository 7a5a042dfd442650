-- ===== src/Router.antt =====
-- orchestrator/routing/router.py and models.py: `ModelRouter`, `RouterConfig` and
-- `ExecutionProfile`. What the router reads of a task is a record of its own, with the texts after
-- the `upper()`, `strip()` and `lower()` of the code. The reason is the rule that decided, without
-- its wording. The worker and the feedback, which `route` takes and never reads, are left out.
pub mod Escalation
use text.Mathlib.Text.{find?}
use adaptive_orchestrator.Base.{
  ℕ, str_eq, String, Bool, false, ◌||◌, Option, none, some, List, [], ◌∷◌, leb, if◌then◌else◌,
  is_some,
}
use adaptive_orchestrator.Base.Int.{ℤ, leb_ℤ}

pub data ModelTier : Type 0 where
  fast pro : ModelTier

pub data RoutingReason : Type 0 where
  result_override metadata_override retries domain_rule type_rule : RoutingReason
  adversarial_rule priority_rule default_rule : RoutingReason

pub record ExecutionProfile : Type 0 where
  pub tier : ModelTier
  pub model_id : String
  pub routing_reason : RoutingReason

pub record RouterConfig : Type 0 where
  pub fast_model_id : String
  pub pro_model_id : String
  pub high_priority_threshold : ℤ
  pub max_retries_before_escalation : ℕ
  pub pro_domains : List String
  pub pro_task_types : List String

-- `force_tier` is the entry of a result that is a dictionary, the others are entries of the metadata;
-- an absent type is the empty text.
pub record RoutedTask : Type 0 where
  pub force_tier : Option String
  pub model_tier : Option String
  pub retry_count : ℕ
  pub domain : String
  pub task_type : String
  pub adversarial_review : Bool
  pub priority : ℤ

unfoldable pub get_model_id_for_tier : RouterConfig → ModelTier → String
get_model_id_for_tier c pro = c.pro_model_id
get_model_id_for_tier c fast = c.fast_model_id

-- `ExecutionProfile.__init__`: an empty model identifier is replaced.
unfoldable pub effective_model : ModelTier → String → String
effective_model pro model_id = if str_eq model_id "" then "model:pro" else model_id
effective_model fast model_id = if str_eq model_id "" then "model:flash" else model_id

unfoldable pub build_profile : RouterConfig → ModelTier → RoutingReason → ExecutionProfile
unfolding get_model_id_for_tier effective_model
build_profile c tier reason = record {
  tier = tier;
  model_id = effective_model tier (get_model_id_for_tier c tier);
  routing_reason = reason;
}

-- `text in texts`
unfoldable pub in_texts : String → List String → Bool
in_texts s [] = false
in_texts s (x ∷ xs) = str_eq s x || in_texts s xs

-- The rules behind the overrides.
unfoldable pub route_by_rules : RouterConfig → RoutedTask → ExecutionProfile
unfolding build_profile in_texts
route_by_rules c task =
    if leb c.max_retries_before_escalation task.retry_count
    then build_profile c pro retries
    else if in_texts task.domain c.pro_domains
    then build_profile c pro domain_rule
    else if in_texts task.task_type c.pro_task_types
    then build_profile c pro type_rule
    else if task.adversarial_review
    then build_profile c pro adversarial_rule
    else if leb_ℤ c.high_priority_threshold task.priority
    then build_profile c pro priority_rule
    else build_profile c fast default_rule

unfoldable pub route : RouterConfig → RoutedTask → ExecutionProfile
unfolding route_by_rules
route c task = elim task.force_tier [
  | some tier ↦ build_profile c (if str_eq tier "PRO" then pro else fast) result_override
  | none ↦ elim task.model_tier [
    | some tier ↦
        build_profile c (if is_some (find? tier "PRO") then pro else fast) metadata_override
    | none ↦ route_by_rules c task
  ]
]
