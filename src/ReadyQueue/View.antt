-- ===== src/ReadyQueue/View.antt =====
-- The order of the items, and what insertion and filtering do to an ordered list.
use adaptive_orchestrator.Base.{
  ◌≡◌, refl, inl, inr, Bool, true, false, List, [], ◌∷◌, arith, if◌then◌else◌, Bool-cases, keep,
}
use adaptive_orchestrator.Base.Int.{ℤ, pos}
use adaptive_orchestrator.ReadyQueue.{QueueItem, first_leb, item_leb, heappush, sort_items}

first_leb_trans :
    (a b c : ℤ) (p q r : Bool)
    → (p ≡ true → q ≡ true → r ≡ true)
    → first_leb a b p ≡ true
    → first_leb b c q ≡ true
    → first_leb a c r ≡ true
unfolding first_leb
first_leb_trans a b c p q r h e f = ground arith

first_leb_total :
    (a b : ℤ) (p q : Bool)
    → (p ≡ false → q ≡ true)
    → first_leb a b p ≡ false
    → first_leb b a q ≡ true
unfolding first_leb
first_leb_total a b p q h e = ground arith

pub item_leb_total : (a b : QueueItem) → item_leb a b ≡ false → item_leb b a ≡ true
unfolding item_leb
item_leb_total a b = first_leb_total a.priority_neg b.priority_neg _ _ (
    first_leb_total a.unlock_value_neg b.unlock_value_neg _ _
      (first_leb_total (pos a.entry_seq) (pos b.entry_seq) _ _ (λ h. ground arith)))

pub item_leb_trans :
    (a b c : QueueItem) → item_leb a b ≡ true → item_leb b c ≡ true → item_leb a c ≡ true
unfolding item_leb
item_leb_trans a b c = first_leb_trans a.priority_neg b.priority_neg c.priority_neg _ _ _ (
    first_leb_trans a.unlock_value_neg b.unlock_value_neg c.unlock_value_neg _ _ _ (
      first_leb_trans (pos a.entry_seq) (pos b.entry_seq) (pos c.entry_seq) _ _ _
        (λ h k. ground arith)))

-- No item of the list comes before `a`.
abbrev pub Least : QueueItem → List QueueItem → Type 0
Least a [] = Unit
Least a (x ∷ xs) = (item_leb a x ≡ true) × Least a xs

abbrev pub IsOrdered : List QueueItem → Type 0
IsOrdered [] = Unit
IsOrdered (x ∷ xs) = Least x xs × IsOrdered xs

pub Least-trans :
    (a b : QueueItem) (xs : List QueueItem) → item_leb a b ≡ true → Least b xs → Least a xs
Least-trans a b [] h l = tt
Least-trans a b (x ∷ xs) h l = (item_leb_trans a b x h l.0, Least-trans a b xs h l.1)

Least-heappush :
    (a item : QueueItem) (xs : List QueueItem)
    → item_leb a item ≡ true
    → Least a xs
    → Least a (heappush xs item)
unfolding heappush
Least-heappush a item [] h l = (h, tt)
Least-heappush a item (x ∷ xs) h l = elim (Bool-cases (item_leb item x)) [
  | inl e ↦ rw e (h, l)
  | inr e ↦ rw e (l.0, Least-heappush a item xs h l.1)
]

pub IsOrdered-heappush :
    (item : QueueItem) (xs : List QueueItem) → IsOrdered xs → IsOrdered (heappush xs item)
unfolding heappush
IsOrdered-heappush item [] o = (tt, tt)
IsOrdered-heappush item (x ∷ xs) o = elim (Bool-cases (item_leb item x)) [
  | inl e ↦ rw e ((e, Least-trans item x xs e o.0), o)
  | inr e ↦
      rw e (Least-heappush x item xs (item_leb_total item x e) o.0, IsOrdered-heappush item xs o.1)
]

module _ (p : QueueItem → Bool) where
  pub Least-keep : (a : QueueItem) (xs : List QueueItem) → Least a xs → Least a (keep p xs)
  unfolding keep
  Least-keep a [] l = tt
  Least-keep a (x ∷ xs) l = elim (Bool-cases (p x)) [
    | inl e ↦ rw e (l.0, Least-keep a xs l.1)
    | inr e ↦ rw e (Least-keep a xs l.1)
  ]

  pub IsOrdered-keep : (xs : List QueueItem) → IsOrdered xs → IsOrdered (keep p xs)
  unfolding keep
  IsOrdered-keep [] o = tt
  IsOrdered-keep (x ∷ xs) o = elim (Bool-cases (p x)) [
    | inl e ↦ rw e (Least-keep x xs o.0, IsOrdered-keep xs o.1)
    | inr e ↦ rw e (IsOrdered-keep xs o.1)
  ]

-- An item before all others goes to the front.
pub heappush-Least :
    (item : QueueItem) (xs : List QueueItem) → Least item xs → heappush xs item ≡ item ∷ xs
unfolding heappush
heappush-Least item [] l = refl
heappush-Least item (x ∷ xs) l = rw l.0

-- Sorting an ordered list does nothing.
pub sort_items_ordered : (xs : List QueueItem) → IsOrdered xs → sort_items xs ≡ xs
unfolding sort_items
sort_items_ordered [] o = refl
sort_items_ordered (x ∷ xs) o = rw (sort_items_ordered xs o.1) (heappush-Least x xs o.0)

module _ (p : QueueItem → Bool) (item : QueueItem) where
  -- Insertion and filtering commute on an ordered list.
  pub keep-heappush :
      (xs : List QueueItem)
      → IsOrdered xs
      → keep p (heappush xs item) ≡ (if p item then heappush (keep p xs) item else keep p xs)
  unfolding keep heappush
  keep-heappush [] o = ground arith
  keep-heappush (x ∷ xs) o = ground (arith, keep-heappush xs o.1, front)
    where
      front : item_leb item x ≡ true → heappush (keep p xs) item ≡ item ∷ keep p xs
      front e = heappush-Least item (keep p xs) (Least-keep p item xs (Least-trans item x xs e o.0))
