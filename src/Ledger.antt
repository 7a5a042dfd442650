-- ===== src/Ledger.antt =====
-- scripts/budget_ledger.py: `BudgetLedger`. A worker's record keeps its status and its reuses; role,
-- domain and coordinator, which the ledger only prints, are left out, and so is the history.
-- `remaining_budget` is 999999 without a budget, as in the code.
pub mod Capacity
pub mod Limits
pub mod Quotas
use adaptive_orchestrator.Base.{
  ℕ, ◌+◌, ◌-◌, min, max, Bool, true, false, not, Option, none, some, [], ◌∷◌, if◌then◌else◌, length,
  Dict, get, has, put, remove,
}
use adaptive_orchestrator.Base.Int.{ℤ, pos, pos_part, ◌+ℤ◌, leb_ℤ}

pub data WorkerStatus : Type 0 where
  active idle terminated : WorkerStatus

pub record WorkerInfo : Type 0 where
  pub status : WorkerStatus
  pub reuses : ℕ

pub record BudgetLedger : Type 0 where
  pub min_capacity : ℕ
  pub max_capacity : ℕ
  pub current_capacity : ℕ
  pub max_budget : Option ℕ
  pub spawned_total : ℕ
  pub tasks_dispatched : ℕ
  pub worker_reuses : ℕ
  pub active_workers : Dict WorkerInfo
  pub idle_workers : Dict WorkerInfo
  pub coordinator_quotas : Dict ℤ

-- `__init__`
unfoldable pub new_ledger : Option ℕ → Option ℕ → ℕ → ℕ → ℕ → BudgetLedger
new_ledger max_concurrent max_budget min_capacity max_capacity initial_capacity =
    let top : ℕ = elim max_concurrent [ none ↦ max_capacity | some n ↦ n ] in
    record {
      min_capacity = min_capacity;
      max_capacity = top;
      current_capacity = min top (max min_capacity initial_capacity);
      max_budget = max_budget;
      spawned_total = 0;
      tasks_dispatched = 0;
      worker_reuses = 0;
      active_workers = [];
      idle_workers = [];
      coordinator_quotas = [];
    }

-- `sum(d.values())`
unfoldable pub sum_values : Dict ℤ → ℤ
unfolding ◌+ℤ◌
sum_values [] = pos 0
sum_values ((k, v) ∷ d) = v +ℤ sum_values d

unfoldable pub active_total : BudgetLedger → ℤ
unfolding sum_values ◌+ℤ◌
active_total l = pos (length l.active_workers) +ℤ sum_values l.coordinator_quotas

unfoldable pub remaining_budget : BudgetLedger → ℕ
remaining_budget l = elim l.max_budget [ none ↦ 999999 | some b ↦ b - l.spawned_total ]

unfoldable pub over_budget : Option ℕ → ℤ → Bool
over_budget none n = false
over_budget (some b) n = not (leb_ℤ n (pos b))

unfoldable pub can_spawn : BudgetLedger → ℤ → Bool
unfolding over_budget active_total ◌+ℤ◌
can_spawn l count =
    if over_budget l.max_budget (pos l.spawned_total +ℤ count)
    then false
    else if not (leb_ℤ (active_total l +ℤ count) (pos l.max_capacity))
    then false
    else true

unfoldable pub spawn : BudgetLedger → ℕ → BudgetLedger × Bool
spawn l worker = if not (can_spawn l (pos 1)) then (l, false) else (
  record l {
    spawned_total = l.spawned_total + 1;
    active_workers = put l.active_workers worker (record { status = active; reuses = 0 });
  },
  true,
)

unfoldable pub release_to_idle : BudgetLedger → ℕ → BudgetLedger × Bool
release_to_idle l worker = elim (get l.active_workers worker) [
  | none ↦ (l, false)
  | some info ↦ (
    record l {
      active_workers = remove l.active_workers worker;
      idle_workers = put l.idle_workers worker (record info { status = idle });
    },
    true,
  )
]

unfoldable pub record_reuse : BudgetLedger → ℕ → BudgetLedger × Bool
record_reuse l worker = elim (get l.idle_workers worker) [
  | none ↦ (l, false)
  | some info ↦ (
    record l {
      idle_workers = remove l.idle_workers worker;
      active_workers =
          put l.active_workers worker (record { status = active; reuses = info.reuses + 1 });
      worker_reuses = l.worker_reuses + 1;
      tasks_dispatched = l.tasks_dispatched + 1;
    },
    true,
  )
]

unfoldable pub terminate : BudgetLedger → ℕ → BudgetLedger × Bool
terminate l worker =
    if has l.active_workers worker
    then (record l { active_workers = remove l.active_workers worker }, true)
    else if has l.idle_workers worker
    then (record l { idle_workers = remove l.idle_workers worker }, true)
    else (l, false)

-- The quota may be negative: the code has no test of it.
unfoldable pub reserve_coordinator_quota : BudgetLedger → ℕ → ℤ → BudgetLedger × Bool
unfolding can_spawn ◌+ℤ◌
reserve_coordinator_quota l coordinator quota =
    let held : ℤ = elim (get l.coordinator_quotas coordinator) [ none ↦ pos 0 | some q ↦ q ] in
    if not (can_spawn l quota) then (l, false) else (
      record l { coordinator_quotas = put l.coordinator_quotas coordinator (held +ℤ quota) },
      true,
    )

unfoldable pub release_coordinator_quota : BudgetLedger → ℕ → BudgetLedger
release_coordinator_quota l coordinator = record l {
  coordinator_quotas = remove l.coordinator_quotas coordinator;
}

unfoldable pub collapse_all : BudgetLedger → BudgetLedger × ℕ
collapse_all l = (
  record l { active_workers = []; idle_workers = []; coordinator_quotas = [] },
  length l.active_workers + length l.idle_workers,
)

-- The result is at least `min_capacity`, so what lies below 0 before the clamp does not matter.
unfoldable pub adjust_capacity : BudgetLedger → ℤ → BudgetLedger
adjust_capacity l delta = record l {
  current_capacity =
      max l.min_capacity (min l.max_capacity (pos_part (pos l.current_capacity +ℤ delta)));
}
