-- ===== src/Scenarios/Budget.antt =====
-- The budget ledger.
use adaptive_orchestrator.Base.{refl, some, List, [], ◌∷◌}
use adaptive_orchestrator.Base.Int.{pos, negsuc, ◌+ℤ◌}
use adaptive_orchestrator.Ledger.{active, idle, BudgetLedger, sum_values, active_total, over_budget}
use adaptive_orchestrator.Ledger.Capacity.{
  Call, spawns, releases, reserves, frees, adjusts, run_all, IsBounded, run_all-IsBounded,
}

-- A ledger for two workers, with one at work and one idle.
abbrev ledger : BudgetLedger
ledger = record {
  min_capacity = 1;
  max_capacity = 1;
  current_capacity = 1;
  max_budget = some 5;
  spawned_total = 2;
  tasks_dispatched = 0;
  worker_reuses = 0;
  active_workers = (1, record { status = active; reuses = 0 }) ∷ [];
  idle_workers = (2, record { status = idle; reuses = 0 }) ∷ [];
  coordinator_quotas = [];
}

ledger-IsBounded : IsBounded ledger
unfolding active_total sum_values over_budget ◌+ℤ◌
ledger-IsBounded = record { in_capacity = refl; in_budget = refl; quotas = tt }

abbrev calls : List Call
calls = releases 1 ∷ reserves 9 (pos 1) ∷ spawns 4 ∷ frees 9 ∷ spawns 5 ∷ adjusts (negsuc 3) ∷ []

run_all-IsBounded_example : IsBounded (run_all ledger calls)
run_all-IsBounded_example = run_all-IsBounded ledger calls (refl, tt) ledger-IsBounded
