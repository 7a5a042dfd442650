-- ===== src/Scenarios/Routing.antt =====
-- A security task under the default configuration.
use adaptive_orchestrator.Base.{◌≡◌, refl, false, none, [], ◌∷◌, arith}
use adaptive_orchestrator.Base.Int.{pos}
use adaptive_orchestrator.Router.{
  pro, RouterConfig, RoutedTask, build_profile, in_texts, route_by_rules, route,
}
use adaptive_orchestrator.Router.Escalation.{route_escalates}

abbrev config : RouterConfig
config = record {
  fast_model_id = "model: flash";
  pro_model_id = "model: pro";
  high_priority_threshold = pos 8;
  max_retries_before_escalation = 1;
  pro_domains = "architecture" ∷ "planning" ∷ "security" ∷ "audit" ∷ "adversarial" ∷ [];
  pro_task_types = "PLANNING" ∷ "ARCHITECTURE" ∷ [];
}

abbrev task : RoutedTask
task = record {
  force_tier = none;
  model_tier = none;
  retry_count = 0;
  domain = "security";
  task_type = "";
  adversarial_review = false;
  priority = pos 2;
}

route_escalates_example :
    let later = route config (record task { retry_count = 2; priority = pos 3 }) in
    (later.tier ≡ pro) × (later.model_id ≡ (route config task).model_id)
unfolding route route_by_rules build_profile in_texts
route_escalates_example = route_escalates config task 2 (pos 3) (omega arith) refl refl
