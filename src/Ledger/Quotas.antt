-- ===== src/Ledger/Quotas.antt =====
-- The sum of the coordinators' quotas.
use adaptive_orchestrator.Base.{
  ℕ, ◌≡◌, refl, sym, ap, ◌∙◌, inl, inr, true, false, none, some, [], ◌∷◌, arith, ◌==◌, Bool-cases,
  Dict, get, put, remove,
}
use adaptive_orchestrator.Base.Int.{
  ℤ, pos, ◌+ℤ◌, leb_ℤ, add_parts, eq_of_parts, add_assoc, add_comm,
}
use adaptive_orchestrator.Ledger.{sum_values}

abbrev pub IsNatural : ℤ → Type 0
IsNatural n = leb_ℤ (pos 0) n ≡ true

-- No quota is negative.
abbrev pub AreQuotas : Dict ℤ → Type 0
AreQuotas [] = Unit
AreQuotas ((k, v) ∷ d) = IsNatural v × AreQuotas d

pub remove-AreQuotas : (d : Dict ℤ) (k : ℕ) → AreQuotas d → AreQuotas (remove d k)
unfolding remove
remove-AreQuotas [] k q = tt
remove-AreQuotas ((j, v) ∷ d) k (n, q) = elim (Bool-cases (j == k)) [
  | inl e ↦ rw e (remove-AreQuotas d k q)
  | inr e ↦ rw e (n, remove-AreQuotas d k q)
]

pub sum-remove-le :
    (d : Dict ℤ) (k : ℕ) → AreQuotas d → leb_ℤ (sum_values (remove d k)) (sum_values d) ≡ true
unfolding sum_values remove
sum-remove-le [] k q = refl
sum-remove-le ((j, v) ∷ d) k (n, q) = ground (
  arith,
  n,
  sum-remove-le d k q,
  add_parts v (sum_values d),
  add_parts v (sum_values (remove d k)),
)

unfoldable pub quota_of : Dict ℤ → ℕ → ℤ
quota_of d k = elim (get d k) [ none ↦ pos 0 | some q ↦ q ]

quota_of-nil : (k : ℕ) → quota_of [] k ≡ pos 0
unfolding quota_of get
quota_of-nil k = refl

quota_of-here : (j : ℕ) (w : ℤ) (d : Dict ℤ) (k : ℕ) → (j == k) ≡ true → quota_of ((j, w) ∷ d) k ≡ w
unfolding quota_of get
quota_of-here j w d k e = ground (arith, e)

quota_of-later :
    (j : ℕ) (w : ℤ) (d : Dict ℤ) (k : ℕ) → (j == k) ≡ false → quota_of ((j, w) ∷ d) k ≡ quota_of d k
unfolding quota_of get
quota_of-later j w d k e = ground (arith, e)

-- What a reservation adds to the sum.
pub sum-put :
    (d : Dict ℤ) (k : ℕ) (v : ℤ) → sum_values (put d k (quota_of d k +ℤ v)) ≡ sum_values d +ℤ v
unfolding sum_values put
sum-put [] k v =
    rw (quota_of-nil k)
      (eq_of_parts _ _ (omega (arith, add_parts (pos 0 +ℤ v) (pos 0), add_parts (pos 0) v)))
sum-put ((j, w) ∷ d) k v = elim (Bool-cases (j == k)) [
  | inl e ↦
      rw (quota_of-here j w d k e, e)
        (add_assoc w v (sum_values d)
          ∙ ap (λ n. w +ℤ n) (add_comm v (sum_values d))
          ∙ sym (add_assoc w (sum_values d) v))
  | inr e ↦
      rw (quota_of-later j w d k e, e)
        (ap (λ n. w +ℤ n) (sum-put d k v) ∙ sym (add_assoc w (sum_values d) v))
]

pub put-AreQuotas : (d : Dict ℤ) (k : ℕ) (v : ℤ) → AreQuotas d → IsNatural v → AreQuotas (put d k v)
unfolding put
put-AreQuotas [] k v q n = (n, tt)
put-AreQuotas ((j, w) ∷ d) k v (m, q) n = elim (Bool-cases (j == k)) [
  | inl e ↦ rw e (n, q)
  | inr e ↦ rw e (m, put-AreQuotas d k v q n)
]

pub quota_of-IsNatural : (d : Dict ℤ) (k : ℕ) → AreQuotas d → IsNatural (quota_of d k)
unfolding quota_of get
quota_of-IsNatural [] k q = refl
quota_of-IsNatural ((j, w) ∷ d) k (m, q) = elim (Bool-cases (j == k)) [
  | inl e ↦ rw (quota_of-here j w d k e) m
  | inr e ↦ rw (quota_of-later j w d k e) (quota_of-IsNatural d k q)
]
