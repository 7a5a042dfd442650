-- ===== src/MergeQueue/Sorting.antt =====
-- The sort of the requests: it orders them and keeps them.
use mathlib.Core.List.{Perm}
use mathlib.Core.List.Perm
use adaptive_orchestrator.Base.{
  ℕ, suc, ◌≡◌, refl, ◌⊎◌, inl, inr, Bool, true, false, ◌||◌, List, [], ◌∷◌, ◌++◌, arith, ◌==◌,
  Bool-cases, is_some, length,
}
use adaptive_orchestrator.MergeQueue.{
  MergeRequest, queued, insert_request, sort_requests, fifo, by_priority,
}

-- Each request may stand before those behind it.
unfoldable pub IsOrdered : (MergeRequest → MergeRequest → Bool) → List MergeRequest → Type 0
IsOrdered before [] = Unit
IsOrdered before (x ∷ []) = Unit
IsOrdered before (x ∷ y ∷ rest) = (before x y ≡ true) × IsOrdered before (y ∷ rest)

pub record IsTotal (before : MergeRequest → MergeRequest → Bool) : Type 0 where
  pub total : (a b : MergeRequest) → before a b ≡ false → before b a ≡ true

module _ (before : MergeRequest → MergeRequest → Bool) (t : IsTotal before) where
  insert-IsOrdered :
      (req : MergeRequest) (xs : List MergeRequest)
      → IsOrdered before xs
      → IsOrdered before (insert_request before req xs)
  unfolding insert_request IsOrdered
  insert-IsOrdered req [] o = tt
  insert-IsOrdered req (x ∷ []) o = elim (Bool-cases (before req x)) [
    | inl e ↦ rw e (e, tt)
    | inr e ↦ rw e (t.total req x e, tt)
  ]
  insert-IsOrdered req (x ∷ y ∷ rest) (xy, o) = elim (Bool-cases (before req x)) [
    | inl e ↦ rw e (e, (xy, o))
    | inr e ↦
        rw e
          (behind (t.total req x e) (Bool-cases (before req y)) (insert-IsOrdered req (y ∷ rest) o))
  ]
    where
      behind :
          before x req ≡ true
          → (before req y ≡ true) ⊎ (before req y ≡ false)
          → IsOrdered before (insert_request before req (y ∷ rest))
          → IsOrdered before (x ∷ insert_request before req (y ∷ rest))
      behind xr (inl p) = rw p (λ o2. (xr, o2))
      behind xr (inr p) = rw p (λ o2. (xy, o2))

  pub sort_requests-IsOrdered :
      (xs : List MergeRequest) → IsOrdered before (sort_requests before xs)
  unfolding sort_requests IsOrdered
  sort_requests-IsOrdered [] = tt
  sort_requests-IsOrdered (x ∷ xs) =
      insert-IsOrdered x (sort_requests before xs) (sort_requests-IsOrdered xs)

pub fifo-IsTotal : IsTotal fifo
unfolding fifo
fifo-IsTotal = record { total = λ a b e. ground (arith, e) }

pub by_priority-IsTotal : IsTotal by_priority
unfolding by_priority
by_priority-IsTotal = record { total = λ a b e. ground (arith, e) }

queued-insert :
    (before : MergeRequest → MergeRequest → Bool) (req : MergeRequest) (xs : List MergeRequest)
    (k : ℕ)
    → is_some (queued (insert_request before req xs) k)
      ≡ (req.task_id == k || is_some (queued xs k))
unfolding queued insert_request
queued-insert before req [] k = ground arith
queued-insert before req (x ∷ xs) k = ground (arith, queued-insert before req xs k)

pub queued-sort :
    (before : MergeRequest → MergeRequest → Bool) (xs : List MergeRequest) (k : ℕ)
    → is_some (queued (sort_requests before xs) k) ≡ is_some (queued xs k)
unfolding queued sort_requests
queued-sort before [] k = refl
queued-sort before (x ∷ xs) k =
    ground (arith, queued-insert before x (sort_requests before xs) k, queued-sort before xs k)

pub queued-append :
    (xs : List MergeRequest) (req : MergeRequest) (k : ℕ)
    → is_some (queued (xs ++ req ∷ []) k) ≡ (req.task_id == k || is_some (queued xs k))
unfolding queued
queued-append [] req k = ground arith
queued-append (x ∷ xs) req k = ground (arith, queued-append xs req k)

length-insert_request :
    (before : MergeRequest → MergeRequest → Bool) (req : MergeRequest) (xs : List MergeRequest)
    → length (insert_request before req xs) ≡ suc (length xs)
unfolding insert_request
length-insert_request before req [] = refl
length-insert_request before req (x ∷ xs) = ground (arith, length-insert_request before req xs)

pub length-sort_requests :
    (before : MergeRequest → MergeRequest → Bool) (xs : List MergeRequest)
    → length (sort_requests before xs) ≡ length xs
unfolding sort_requests
length-sort_requests before [] = refl
length-sort_requests before (x ∷ xs) = ground (
  arith,
  length-insert_request before x (sort_requests before xs),
  length-sort_requests before xs,
)

insert_request-perm :
    (before : MergeRequest → MergeRequest → Bool) (req : MergeRequest) (xs : List MergeRequest)
    → Perm (insert_request before req xs) (req ∷ xs)
unfolding insert_request
insert_request-perm before req [] = Perm.rfl
insert_request-perm before req (x ∷ xs) = elim (Bool-cases (before req x)) [
  | inl e ↦ rw e Perm.rfl
  | inr e ↦ rw e (Perm.trans (Perm.cons x (insert_request-perm before req xs)) (Perm.swap req x xs))
]

pub sort_requests-perm :
    (before : MergeRequest → MergeRequest → Bool) (xs : List MergeRequest)
    → Perm (sort_requests before xs) xs
unfolding sort_requests
sort_requests-perm before [] = Perm.rfl
sort_requests-perm before (x ∷ xs) =
    Perm.trans (insert_request-perm before x (sort_requests before xs))
      (Perm.cons x (sort_requests-perm before xs))

pub snoc-perm : (xs : List MergeRequest) (req : MergeRequest) → Perm (xs ++ req ∷ []) (req ∷ xs)
snoc-perm [] req = Perm.rfl
snoc-perm (x ∷ xs) req = Perm.trans (Perm.cons x (snoc-perm xs req)) (Perm.swap req x xs)
