-- ===== src/MergeQueue/Served.antt =====
-- One request of the merge queue.
use mathlib.Core.List.{Sublist}
use mathlib.Core.List.Sublist
use adaptive_orchestrator.Base.{
  ℕ, ◌+◌, ◌≤◌, ◌≡◌, refl, ap, ◌∙◌, inl, inr, true, false, Option, none, some, List, [], ◌∷◌, ◌++◌,
  arith, Bool-cases, length, get, get-put_self,
}
use adaptive_orchestrator.MergeQueue.{
  status_merging, MergeRequest, MergeResult, MergeQueue, Host, settled, finish_merge, integrate,
  process_request,
}
use adaptive_orchestrator.MergeQueue.Patient.{
  tasks_of, Adds, Adds-trans, IsPatient, finish_merge-IsPolite,
}
use adaptive_orchestrator.Errors.{Result, ok}
use adaptive_orchestrator.Checkpoint.{merge_started}

tasks_of-append : (xs ys : List MergeRequest) → tasks_of (xs ++ ys) ≡ tasks_of xs ++ tasks_of ys
unfolding tasks_of
tasks_of-append [] ys = refl
tasks_of-append (x ∷ xs) ys = ap (λ l. x.task_id ∷ l) (tasks_of-append xs ys)

settled-task : (req : MergeRequest) (res : MergeResult) → (settled req res).task_id ≡ req.task_id
unfolding settled
settled-task req res = elim (Bool-cases res.success) [ inl e ↦ rw e refl | inr e ↦ rw e refl ]

module _ {ℓ} {W : Type ℓ} (host : Host W) (left : W → ℕ) where
  -- What a request, taken from the queue, leaves once it is served with that result.
  pub record IsServed (q : MergeQueue) (w : W) (req : MergeRequest) (rest : List MergeRequest)
      (res : MergeResult) (out : MergeQueue × W × Result (Option MergeResult)) : Type 0 where
    pub returned : out.2 ≡ ok (some res)
    pub idle_again : out.0.is_merging ≡ false
    pub none_active : out.0.active_request ≡ none
    pub recorded : get out.0.results req.task_id ≡ some res
    pub remembered : tasks_of out.0.history ≡ tasks_of q.history ++ req.task_id ∷ []
    pub waits : Sublist (tasks_of rest) (tasks_of out.0.queue)
    pub room : length out.0.queue + left out.1 ≤ length rest + left w

  integrate-Adds :
      (req : MergeRequest) (now : ℕ) (s : MergeQueue × W)
      → IsPatient left host
      → (res : MergeResult) × ((integrate host req now s).1 ≡ ok res)
        × Adds left s (integrate host req now s).0
  unfolding integrate
  integrate-Adds req now s patient = (
    res,
    rw (integrate, e, finished.0) refl,
    rw (integrate, e) (Adds-trans left s entered _ before finished.1),
  )
    where
      tried : W × Result MergeResult
      tried = host.attempt_merge s.1 req.branch_name s.0.integration_branch req.task_id

      res : MergeResult
      res = (patient.attempts s.1 req.branch_name s.0.integration_branch req.task_id).0

      e : tried.1 ≡ ok res
      e = (patient.attempts s.1 req.branch_name s.0.integration_branch req.task_id).1

      entered : MergeQueue × W
      entered = (record s.0 { active_request = some (settled req res) }, tried.0)

      finished :
          ((finish_merge host req res now entered).1 ≡ ok tt)
          × Adds left entered (finish_merge host req res now entered).0
      finished = finish_merge-IsPolite left host patient req res now entered

      before : Adds left s entered
      before = record {
        lasting = refl;
        waits = Sublist.refl _;
        room =
            omega
              (arith, (patient.attempts s.1 req.branch_name s.0.integration_branch req.task_id).2);
      }

  pub process_request-IsServed :
      (q : MergeQueue) (w : W) (req : MergeRequest) (rest : List MergeRequest) (now : ℕ)
      → IsPatient left host
      → (res : MergeResult) × IsServed q w req rest res (process_request host q w req rest now)
  unfolding process_request tasks_of
  process_request-IsServed q w req rest now patient = (
    res,
    rw (process_request, started.0, done.1)
        (record {
          returned = refl;
          idle_again = refl;
          none_active = refl;
          recorded = get-put_self _ req.task_id res;
          remembered =
              tasks_of-append _ (settled merging res ∷ [])
              ∙ rw (all.lasting, settled-task merging res) refl;
          waits = all.waits;
          room = all.room;
        }),
  )
    where
      merging : MergeRequest
      merging = record req { status = status_merging }

      taken : MergeQueue × W
      taken = (record q { queue = rest; active_request = some merging; is_merging = true }, w)

      started :
          ((host.emit merge_started req.task_id taken).1 ≡ ok tt)
          × Adds left taken (host.emit merge_started req.task_id taken).0
      started = patient.emits merge_started req.task_id taken

      between : MergeQueue × W
      between = (host.emit merge_started req.task_id taken).0

      done :
          (res : MergeResult) × ((integrate host merging now between).1 ≡ ok res)
          × Adds left between (integrate host merging now between).0
      done = integrate-Adds merging now between patient

      res : MergeResult
      res = done.0

      all : Adds left taken (integrate host merging now between).0
      all = Adds-trans left taken between _ started.1 done.2
