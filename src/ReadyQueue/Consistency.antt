-- ===== src/ReadyQueue/Consistency.antt =====
-- The abstract queue, and the invariant of the heap with its stale items.
use adaptive_orchestrator.Base.{
  ℕ, ◌+◌, ◌≤◌, sym, ◌≢◌, inl, inr, List, [], ◌∷◌, arith, Bool-cases, keep,
}
use adaptive_orchestrator.ReadyQueue.{QueueItem, item_leb, ReadyQueue, heappush, is_live}
use adaptive_orchestrator.ReadyQueue.View.{IsOrdered}

-- The abstract queue: the live items, in order.
abbrev pub view : ReadyQueue → List QueueItem
view q = keep (is_live q.entry_finder) q.heap

-- Every item has another sequence number than `n`.
abbrev pub Avoids : ℕ → List QueueItem → Type 0
Avoids n [] = Unit
Avoids n (x ∷ xs) = (n ≢ x.entry_seq) × Avoids n xs

abbrev pub Distinct : List QueueItem → Type 0
Distinct [] = Unit
Distinct (x ∷ xs) = Avoids x.entry_seq xs × Distinct xs

abbrev pub UpTo : ℕ → List QueueItem → Type 0
UpTo n [] = Unit
UpTo n (x ∷ xs) = (x.entry_seq ≤ n) × UpTo n xs

-- The heap is ordered, and sequence numbers are used once and lie below the counter.
pub record IsConsistent (q : ReadyQueue) : Type 0 where
  pub ordered : IsOrdered q.heap
  pub distinct : Distinct q.heap
  pub up_to : UpTo q.sequence_counter q.heap

pub Avoids-UpTo : (n : ℕ) (xs : List QueueItem) → UpTo n xs → Avoids (n + 1) xs
Avoids-UpTo n [] u = tt
Avoids-UpTo n (x ∷ xs) u = (omega arith, Avoids-UpTo n xs u.1)

pub UpTo-mono : (n m : ℕ) (xs : List QueueItem) → n ≤ m → UpTo n xs → UpTo m xs
UpTo-mono n m [] h u = tt
UpTo-mono n m (x ∷ xs) h u = (omega arith, UpTo-mono n m xs h u.1)

module _ (item : QueueItem) where
  pub UpTo-heappush :
      (n : ℕ) (xs : List QueueItem) → item.entry_seq ≤ n → UpTo n xs → UpTo n (heappush xs item)
  unfolding heappush
  UpTo-heappush n [] h u = (h, tt)
  UpTo-heappush n (x ∷ xs) h u = elim (Bool-cases (item_leb item x)) [
    | inl e ↦ rw e (h, u)
    | inr e ↦ rw e (u.0, UpTo-heappush n xs h u.1)
  ]

  Avoids-heappush :
      (n : ℕ) (xs : List QueueItem) → n ≢ item.entry_seq → Avoids n xs → Avoids n (heappush xs item)
  unfolding heappush
  Avoids-heappush n [] h u = (h, tt)
  Avoids-heappush n (x ∷ xs) h u = elim (Bool-cases (item_leb item x)) [
    | inl e ↦ rw e (h, u)
    | inr e ↦ rw e (u.0, Avoids-heappush n xs h u.1)
  ]

  pub Distinct-heappush :
      (xs : List QueueItem) → Avoids item.entry_seq xs → Distinct xs → Distinct (heappush xs item)
  unfolding heappush
  Distinct-heappush [] a d = (tt, tt)
  Distinct-heappush (x ∷ xs) a d = elim (Bool-cases (item_leb item x)) [
    | inl e ↦ rw e (a, d)
    | inr e ↦
        rw e (Avoids-heappush x.entry_seq xs (λ p. a.0 (sym p)) d.0, Distinct-heappush xs a.1 d.1)
  ]
