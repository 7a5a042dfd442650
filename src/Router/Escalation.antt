-- ===== src/Router/Escalation.antt =====
-- The router never takes an escalation back.
use adaptive_orchestrator.Base.{ℕ, ◌≤◌, ◌≡◌, true, arith}
use adaptive_orchestrator.Base.Int.{ℤ, leb_ℤ}
use adaptive_orchestrator.Router.{
  pro, RouterConfig, RoutedTask, build_profile, route_by_rules, route,
}

-- A task that goes to the PRO tier still goes there, with the same model, when it has been retried
-- more often and its priority is no lower.
pub route_escalates :
    (c : RouterConfig) (task : RoutedTask) (retry_count : ℕ) (priority : ℤ)
    → task.retry_count ≤ retry_count
    → leb_ℤ task.priority priority ≡ true
    → (route c task).tier ≡ pro
    → let later = route c (record task { retry_count = retry_count; priority = priority }) in
      (later.tier ≡ pro) × (later.model_id ≡ (route c task).model_id)
unfolding route route_by_rules build_profile
route_escalates c task retry_count priority n p e = ground arith
