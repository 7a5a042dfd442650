-- ===== src/Ledger/Capacity.antt =====
-- The physical capacity and the budget.
use adaptive_orchestrator.Base.{
  ℕ, ◌+◌, ◌≤◌, ◌≡◌, sym, ap, ◌∙◌, inl, inr, true, false, List, [], ◌∷◌, arith, Bool-cases,
  Option-cases, length, Dict, get, has, put, remove, length-put, length-remove-le,
}
use adaptive_orchestrator.Base.Int.{ℤ, pos, ◌+ℤ◌, leb_ℤ, add_parts, eq_of_parts, add_assoc}
use adaptive_orchestrator.Ledger.{
  active, WorkerInfo, BudgetLedger, sum_values, active_total, over_budget, can_spawn, spawn,
  release_to_idle, terminate, reserve_coordinator_quota, release_coordinator_quota, collapse_all,
  adjust_capacity,
}
use adaptive_orchestrator.Ledger.Quotas.{
  IsNatural, AreQuotas, remove-AreQuotas, sum-remove-le, quota_of, sum-put, put-AreQuotas,
  quota_of-IsNatural,
}

-- The methods that take or give back capacity, but for the reuse of an idle worker.
pub data Call : Type 0 where
  spawns releases terminates : (worker : ℕ) → Call
  reserves : (coordinator : ℕ) (quota : ℤ) → Call
  frees : (coordinator : ℕ) → Call
  collapses : Call
  adjusts : (delta : ℤ) → Call

unfoldable pub run : BudgetLedger → Call → BudgetLedger
run l (spawns worker) = (spawn l worker).0
run l (releases worker) = (release_to_idle l worker).0
run l (terminates worker) = (terminate l worker).0
run l (reserves coordinator quota) = (reserve_coordinator_quota l coordinator quota).0
run l (frees coordinator) = release_coordinator_quota l coordinator
run l collapses = (collapse_all l).0
run l (adjusts delta) = adjust_capacity l delta

unfoldable pub run_all : BudgetLedger → List Call → BudgetLedger
run_all l [] = l
run_all l (c ∷ rest) = run_all (run l c) rest

-- No call reserves a negative quota.
abbrev pub AreNatural : List Call → Type 0
AreNatural [] = Unit
AreNatural (reserves coordinator quota ∷ rest) = IsNatural quota × AreNatural rest
AreNatural (c ∷ rest) = AreNatural rest

pub record IsBounded (l : BudgetLedger) : Type 0 where
  pub in_capacity : leb_ℤ (active_total l) (pos l.max_capacity) ≡ true
  pub in_budget : over_budget l.max_budget (pos l.spawned_total) ≡ false
  pub quotas : AreQuotas l.coordinator_quotas

length-put-le : (d : Dict WorkerInfo) (k : ℕ) (v : WorkerInfo) → length (put d k v) ≤ length d + 1
length-put-le d k v = ground (arith, length-put d k v)

-- Fewer workers at work, and no quota changed.
fewer-IsBounded :
    (l : BudgetLedger) (workers idlers : Dict WorkerInfo)
    → length workers ≤ length l.active_workers
    → IsBounded l
    → IsBounded (record l { active_workers = workers; idle_workers = idlers })
unfolding active_total
fewer-IsBounded l workers idlers h b = record {
  in_capacity = ground (
    arith,
    h,
    b.in_capacity,
    add_parts (pos (length workers)) (sum_values l.coordinator_quotas),
    add_parts (pos (length l.active_workers)) (sum_values l.coordinator_quotas),
  );
  in_budget = b.in_budget;
  quotas = b.quotas;
}

can_spawn-room :
    (l : BudgetLedger) (count : ℤ)
    → can_spawn l count ≡ true
    → (over_budget l.max_budget (pos l.spawned_total +ℤ count) ≡ false)
      × (leb_ℤ (active_total l +ℤ count) (pos l.max_capacity) ≡ true)
unfolding can_spawn
can_spawn-room l count e = (ground (arith, e), ground (arith, e))

spawn-IsBounded : (l : BudgetLedger) (worker : ℕ) → IsBounded l → IsBounded (spawn l worker).0
unfolding spawn active_total
spawn-IsBounded l worker b = elim (Bool-cases (can_spawn l (pos 1))) [
  | inr e ↦ rw (e, spawn) b
  | inl e ↦
      rw (e, spawn)
        (record {
          in_capacity = ground (
            arith,
            (can_spawn-room l (pos 1) e).1,
            length-put-le l.active_workers worker fresh,
            add_parts (pos (length (put l.active_workers worker fresh))) quotas,
            add_parts (pos (length l.active_workers)) quotas,
            add_parts (active_total l) (pos 1),
          );
          in_budget =
              ap (over_budget l.max_budget)
                (eq_of_parts _ _ (omega (arith, add_parts (pos l.spawned_total) (pos 1))))
              ∙ (can_spawn-room l (pos 1) e).0;
          quotas = b.quotas;
        })
]
  where
    fresh : WorkerInfo
    fresh = record { status = active; reuses = 0 }

    quotas : ℤ
    quotas = sum_values l.coordinator_quotas

release-IsBounded :
    (l : BudgetLedger) (worker : ℕ) → IsBounded l → IsBounded (release_to_idle l worker).0
unfolding release_to_idle
release-IsBounded l worker b = elim (Option-cases (get l.active_workers worker)) [
  | inl e ↦ rw (e, release_to_idle) b
  | inr (info, e) ↦
      rw (e, release_to_idle) (fewer-IsBounded l _ _ (length-remove-le l.active_workers worker) b)
]

terminate-IsBounded :
    (l : BudgetLedger) (worker : ℕ) → IsBounded l → IsBounded (terminate l worker).0
unfolding terminate
terminate-IsBounded l worker b = elim (Bool-cases (has l.active_workers worker)) [
  | inl e ↦ rw (e, terminate) (fewer-IsBounded l _ _ (length-remove-le l.active_workers worker) b)
  | inr e ↦ elim (Bool-cases (has l.idle_workers worker)) [
    | inl f ↦ rw (e, f, terminate) (fewer-IsBounded l _ _ (omega arith) b)
    | inr f ↦ rw (e, f, terminate) b
  ]
]

reserve-IsBounded :
    (l : BudgetLedger) (coordinator : ℕ) (quota : ℤ)
    → IsNatural quota
    → IsBounded l
    → IsBounded (reserve_coordinator_quota l coordinator quota).0
unfolding reserve_coordinator_quota quota_of
reserve-IsBounded l coordinator quota n b = elim (Bool-cases (can_spawn l quota)) [
  | inr e ↦ rw (e, reserve_coordinator_quota) b
  | inl e ↦
      rw (e, reserve_coordinator_quota)
        (record {
          in_capacity = ap (λ t. leb_ℤ t (pos l.max_capacity)) total ∙ (can_spawn-room l quota e).1;
          in_budget = b.in_budget;
          quotas = put-AreQuotas l.coordinator_quotas coordinator (held +ℤ quota) b.quotas (
              ground (
                arith,
                n,
                quota_of-IsNatural l.coordinator_quotas coordinator b.quotas,
                add_parts held quota,
              ));
        })
]
  where
    held : ℤ
    held = quota_of l.coordinator_quotas coordinator

    total :
        active_total
          (record l { coordinator_quotas = put l.coordinator_quotas coordinator (held +ℤ quota) })
        ≡ active_total l +ℤ quota
    total =
        unfold active_total in
        ap (λ t. pos (length l.active_workers) +ℤ t)
          (sum-put l.coordinator_quotas coordinator quota)
        ∙ sym (add_assoc (pos (length l.active_workers)) (sum_values l.coordinator_quotas) quota)

frees-IsBounded :
    (l : BudgetLedger) (coordinator : ℕ)
    → IsBounded l
    → IsBounded (release_coordinator_quota l coordinator)
unfolding release_coordinator_quota active_total
frees-IsBounded l coordinator b = record {
  in_capacity = ground (
    arith,
    b.in_capacity,
    sum-remove-le l.coordinator_quotas coordinator b.quotas,
    add_parts (pos (length l.active_workers)) (sum_values l.coordinator_quotas),
    add_parts (pos (length l.active_workers))
        (sum_values (remove l.coordinator_quotas coordinator)),
  );
  in_budget = b.in_budget;
  quotas = remove-AreQuotas l.coordinator_quotas coordinator b.quotas;
}

run-IsBounded :
    (l : BudgetLedger) (c : Call) (rest : List Call)
    → AreNatural (c ∷ rest)
    → IsBounded l
    → IsBounded (run l c) × AreNatural rest
unfolding run
run-IsBounded l (spawns worker) rest n b = (spawn-IsBounded l worker b, n)
run-IsBounded l (releases worker) rest n b = (release-IsBounded l worker b, n)
run-IsBounded l (terminates worker) rest n b = (terminate-IsBounded l worker b, n)
run-IsBounded l (reserves coordinator quota) rest n b =
    (reserve-IsBounded l coordinator quota n.0 b, n.1)
run-IsBounded l (frees coordinator) rest n b = (frees-IsBounded l coordinator b, n)
run-IsBounded l collapses rest n b = (
  unfold collapse_all active_total sum_values ◌+ℤ◌ in
      record { in_capacity = ground arith; in_budget = b.in_budget; quotas = tt },
  n,
)
run-IsBounded l (adjusts delta) rest n b = (
  unfold adjust_capacity active_total in
      record { in_capacity = b.in_capacity; in_budget = b.in_budget; quotas = b.quotas },
  n,
)

-- From a ledger within its bounds, whose quotas are not negative, no sequence of calls but reuses
-- that reserves no negative quota brings the active workers and the coordinators' quotas above the
-- maximal capacity, or the spawned workers above the budget.
pub run_all-IsBounded :
    (l : BudgetLedger) (calls : List Call)
    → AreNatural calls
    → IsBounded l
    → IsBounded (run_all l calls)
unfolding run_all
run_all-IsBounded l [] n b = b
run_all-IsBounded l (c ∷ rest) n b =
    let (kept, later) = run-IsBounded l c rest n b in run_all-IsBounded (run l c) rest later kept
