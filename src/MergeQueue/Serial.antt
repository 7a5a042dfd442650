-- ===== src/MergeQueue/Serial.antt =====
-- The loop of `process_all`.
use mathlib.Core.List.{Sublist}
use mathlib.Core.List.Sublist
use adaptive_orchestrator.Base.{
  ℕ, zero, suc, ◌+◌, ◌≤◌, ◌≡◌, refl, sym, ap, ◌∙◌, ◌⊎◌, inl, inr, false, Option, none, some, List,
  [], ◌∷◌, ◌++◌, arith, length, length-append,
}
use adaptive_orchestrator.MergeQueue.{
  MergeRequest, MergeResult, MergeQueue, Host, process_request, process_next, process_rounds,
  process_all,
}
use adaptive_orchestrator.MergeQueue.Patient.{tasks_of, IsPatient}
use adaptive_orchestrator.MergeQueue.Served.{IsServed, process_request-IsServed}
use adaptive_orchestrator.Errors.{Result, ok, err}

append-snoc : (xs : List ℕ) (a : ℕ) (ys : List ℕ) → (xs ++ a ∷ []) ++ ys ≡ xs ++ a ∷ ys
append-snoc [] a ys = refl
append-snoc (x ∷ xs) a ys = ap (λ l. x ∷ l) (append-snoc xs a ys)

append-nil : (xs : List ℕ) → xs ++ [] ≡ xs
append-nil [] = refl
append-nil (x ∷ xs) = ap (λ l. x ∷ l) (append-nil xs)

requests-cases :
    (xs : List MergeRequest)
    → (xs ≡ []) ⊎ ((req : MergeRequest) × (rest : List MergeRequest) × (xs ≡ req ∷ rest))
requests-cases [] = inl refl
requests-cases (x ∷ xs) = inr (x, xs, refl)

module _ {ℓ} {W : Type ℓ} (host : Host W) where
  -- What the loop has done once it returns the results `rs`, those before it among them: the tasks
  -- that it has served, each with one result, hold all that waited, in the order of the queue.
  pub record IsDrained (q : MergeQueue) (before : List MergeResult)
      (out : MergeQueue × W × Result (List MergeResult)) (rs : List MergeResult) : Type 0 where
    pub nothing_left : out.0.queue ≡ []
    pub idle_again : out.0.is_merging ≡ false
    pub served : List ℕ
    pub remembered : tasks_of out.0.history ≡ tasks_of q.history ++ served
    pub one_each : length rs ≡ length before + length served
    pub in_order : Sublist (tasks_of q.queue) served

  process_rounds-empty :
      (n : ℕ) (q : MergeQueue) (w : W) (before : List MergeResult) (now : ℕ)
      → q.queue ≡ []
      → process_rounds host n q w before now ≡ (q, w, ok before)
  unfolding process_rounds
  process_rounds-empty zero q w before now p = rw p refl
  process_rounds-empty (suc n) q w before now p = rw p refl

  empty-IsDrained :
      (q : MergeQueue) (w : W) (before : List MergeResult)
      → q.queue ≡ []
      → q.is_merging ≡ false
      → IsDrained q before (q, w, ok before) before
  unfolding tasks_of
  empty-IsDrained q w before p idle = record {
    nothing_left = p;
    idle_again = idle;
    served = [];
    remembered = sym (append-nil (tasks_of q.history));
    one_each = omega arith;
    in_order = rw p (Sublist.refl []);
  }

  -- A round of `process_rounds` on an idle queue with a request.
  process_rounds-round :
      (n : ℕ) (q : MergeQueue) (w : W) (before : List MergeResult) (now : ℕ) (req : MergeRequest)
      (rest : List MergeRequest)
      → q.is_merging ≡ false
      → q.queue ≡ req ∷ rest
      → process_rounds host (suc n) q w before now
        ≡ elim ((process_request host q w req rest now).2) [
          | err e ↦ (
            (process_request host q w req rest now).0,
            (process_request host q w req rest now).1,
            err e,
          )
          | ok none ↦ (
            (process_request host q w req rest now).0,
            (process_request host q w req rest now).1,
            ok before,
          )
          | ok (some res) ↦
              process_rounds host n
                (process_request host q w req rest now).0
                (process_request host q w req rest now).1
                (before ++ res ∷ [])
                now
        ]
  unfolding process_rounds process_next
  process_rounds-round n q w before now req rest idle p = rw (p, idle) refl

  -- A round of `process_rounds` that serves a request.
  process_rounds-step :
      (n : ℕ) (q : MergeQueue) (w : W) (before : List MergeResult) (now : ℕ) (req : MergeRequest)
      (rest : List MergeRequest) (res : MergeResult)
      → q.is_merging ≡ false
      → q.queue ≡ req ∷ rest
      → (process_request host q w req rest now).2 ≡ ok (some res)
      → process_rounds host (suc n) q w before now
        ≡ process_rounds host n
            (process_request host q w req rest now).0
            (process_request host q w req rest now).1
            (before ++ res ∷ [])
            now
  process_rounds-step n q w before now req rest res idle p e =
      process_rounds-round n q w before now req rest idle p ∙ rw e refl

  module _ (left : W → ℕ) where
    later-IsDrained :
        (q : MergeQueue) (w : W) (before rs : List MergeResult) (req : MergeRequest)
        (rest : List MergeRequest) (res : MergeResult)
        (mid : MergeQueue × W × Result (Option MergeResult))
        (out : MergeQueue × W × Result (List MergeResult))
        → q.queue ≡ req ∷ rest
        → IsServed host left q w req rest res mid
        → IsDrained mid.0 (before ++ res ∷ []) out rs
        → IsDrained q before out rs
    unfolding tasks_of
    later-IsDrained q w before rs req rest res mid out p s d = record {
      nothing_left = d.nothing_left;
      idle_again = d.idle_again;
      served = req.task_id ∷ d.served;
      remembered =
          d.remembered ∙ rw s.remembered (append-snoc (tasks_of q.history) req.task_id d.served);
      one_each = ground (arith, d.one_each, length-append before (res ∷ []));
      in_order = rw p (Sublist.cons-cons req.task_id (Sublist.trans s.waits d.in_order));
    }

    process_rounds-IsDrained :
        (n : ℕ) (q : MergeQueue) (w : W) (before : List MergeResult) (now : ℕ)
        → IsPatient left host
        → q.is_merging ≡ false
        → length q.queue + left w ≤ n
        → (rs : List MergeResult) × ((process_rounds host n q w before now).2 ≡ ok rs)
          × IsDrained q before (process_rounds host n q w before now) rs
    process_rounds-IsDrained zero q w before now patient idle enough =
        elim (requests-cases q.queue) [
          | inl p ↦ (
            before,
            rw (process_rounds-empty zero q w before now p) refl,
            rw (process_rounds-empty zero q w before now p) (empty-IsDrained q w before p idle),
          )
          | inr (req, rest, p) ↦ ground (arith, p, enough)
        ]
    process_rounds-IsDrained (suc n) q w before now patient idle enough =
        elim (requests-cases q.queue) [
          | inl p ↦ (
            before,
            rw (process_rounds-empty (suc n) q w before now p) refl,
            rw (process_rounds-empty (suc n) q w before now p) (empty-IsDrained q w before p idle),
          )
          | inr (req, rest, p) ↦
              let (res, s) = process_request-IsServed host left q w req rest now patient in
              let mid = process_request host q w req rest now in
              let step = process_rounds-step n q w before now req rest res idle p s.returned in
              let (rs, e, d) =
                process_rounds-IsDrained n mid.0 mid.1 (before ++ res ∷ []) now patient s.idle_again
                  (ground (arith, p, enough, s.room)) in
              (rs, rw step e, rw step (later-IsDrained q w before rs req rest res mid _ p s d))
        ]

    -- Where no call of the host raises an exception, and the calls leave the history and put at most
    -- `left` requests more among those that wait, whose order they keep: `process_all` on an idle
    -- queue, in as many rounds as there are requests and requests left, returns. The queue is then
    -- empty and idle, and the history has grown by the tasks that were served, one for each result,
    -- among them all that waited, in the order of the queue.
    pub process_all_returns :
        (n : ℕ) (q : MergeQueue) (w : W) (now : ℕ)
        → IsPatient left host
        → q.is_merging ≡ false
        → length q.queue + left w ≤ n
        → (rs : List MergeResult) × ((process_all host n q w now).2 ≡ ok rs)
          × IsDrained q [] (process_all host n q w now) rs
    unfolding process_all
    process_all_returns n q w now patient idle enough =
        process_rounds-IsDrained n q w [] now patient idle enough
