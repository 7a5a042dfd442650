-- ===== src/Ledger/Limits.antt =====
-- What a reuse and a change of the capacity do to the limits.
use adaptive_orchestrator.Base.{
  ℕ, suc, ◌+◌, ◌≤◌, ◌≡◌, ap, inl, inr, true, false, arith, Option-cases, length, get, has, put,
  length-put,
}
use adaptive_orchestrator.Base.Int.{ℤ, pos, pos_part, neg_part, add_parts, eq_of_parts}
use adaptive_orchestrator.Ledger.{
  active, WorkerInfo, BudgetLedger, sum_values, active_total, record_reuse, adjust_capacity,
}

-- The reuse of a worker that is idle and not active passes no such gate: at full capacity it takes
-- the active total one above the maximum.
pub record_reuse_overflows :
    (l : BudgetLedger) (worker : ℕ)
    → active_total l ≡ pos l.max_capacity
    → has l.idle_workers worker ≡ true
    → has l.active_workers worker ≡ false
    → active_total (record_reuse l worker).0 ≡ pos (l.max_capacity + 1)
unfolding record_reuse active_total has
record_reuse_overflows l worker full idle_there not_active =
    elim (Option-cases (get l.idle_workers worker)) [
      | inl e ↦ ground (arith, e, idle_there)
      | inr (info, e) ↦
          rw (e, record_reuse)
            (eq_of_parts _ _ (
              omega (
                arith,
                grown (record { status = active; reuses = info.reuses + 1 }),
                add_parts
                    (pos (
                      length (
                        put l.active_workers worker
                          (record { status = active; reuses = info.reuses + 1 }))))
                    quotas,
                add_parts (pos (length l.active_workers)) quotas,
                ap pos_part full,
                ap neg_part full,
              )))
    ]
  where
    quotas : ℤ
    quotas = sum_values l.coordinator_quotas

    grown :
        (v : WorkerInfo) → length (put l.active_workers worker v) ≡ suc (length l.active_workers)
    grown v = ground (arith, length-put l.active_workers worker v)

-- Where the minimal capacity is no more than the maximal one, `adjust_capacity` stays between them
-- for every change, positive or negative.
pub adjust_capacity_bounds :
    (l : BudgetLedger) (delta : ℤ)
    → l.min_capacity ≤ l.max_capacity
    → (l.min_capacity ≤ (adjust_capacity l delta).current_capacity)
      × ((adjust_capacity l delta).current_capacity ≤ l.max_capacity)
unfolding adjust_capacity
adjust_capacity_bounds l delta h = ground arith
