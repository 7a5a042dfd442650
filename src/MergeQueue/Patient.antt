-- ===== src/MergeQueue/Patient.antt =====
-- A host whose calls return, and that adds a bounded number of requests to the queue.
use mathlib.Core.List.{Sublist}
use mathlib.Core.List.Sublist
use adaptive_orchestrator.Base.{
  ℕ, ◌+◌, ◌≤◌, String, ◌≡◌, refl, ◌∙◌, inl, inr, Bool, true, false, List, [], ◌∷◌, arith,
  if◌then◌else◌, Bool-cases, Option-cases, length, has,
}
use adaptive_orchestrator.MergeQueue.{
  MergeRequest, MergeResult, MergeQueue, Hook, and_then, Host, merge_task, release_owned,
  merge_object, clean_up, finish_merged, finish_failed, finish_merge,
}
use adaptive_orchestrator.Errors.{ok}
use adaptive_orchestrator.Task.{
  passed, merged, Task, same_state, valid_task_transitions, in_states, allowed, can_transition_to,
  transition_to,
}
use adaptive_orchestrator.Task.Lifecycle.{same_state_iff}
use adaptive_orchestrator.Workspace.{
  ReleaseState, merged_workspace, failed_workspace, WorkspaceRegistry,
}
use adaptive_orchestrator.Checkpoint.{EventType, workspace_released, merge_completed, merge_failed}

merge_task-ok : (t : Task) (now : ℕ) → (moved : Task) × (merge_task t now ≡ ok moved)
unfolding merge_task same_state transition_to can_transition_to allowed in_states
    valid_task_transitions
merge_task-ok t now = elim (Bool-cases (same_state t.status merged)) [
  | inl e ↦ (t, rw e refl)
  | inr e ↦ elim (Bool-cases (same_state t.status passed)) [
    | inl p ↦ rw ((same_state_iff t.status passed).0 p) (_, refl)
    | inr p ↦ rw (e, p) (_, refl)
  ]
]

-- The identifiers of the requests.
unfoldable pub tasks_of : List MergeRequest → List ℕ
tasks_of [] = []
tasks_of (req ∷ rest) = req.task_id ∷ tasks_of rest

module _ {ℓ} {W : Type ℓ} (left : W → ℕ) where
  -- What a call of the host may do: put as many requests as its world has left among those that wait;
  -- these stay in their order, and the history is not touched.
  pub record Adds (s out : MergeQueue × W) : Type 0 where
    pub lasting : out.0.history ≡ s.0.history
    pub waits : Sublist (tasks_of s.0.queue) (tasks_of out.0.queue)
    pub room : length out.0.queue + left out.1 ≤ length s.0.queue + left s.1

  pub Adds-trans : (a b c : MergeQueue × W) → Adds a b → Adds b c → Adds a c
  Adds-trans a b c f g = record {
    lasting = g.lasting ∙ f.lasting;
    waits = Sublist.trans f.waits g.waits;
    room = omega (arith, f.room, g.room);
  }

  -- A change of the world that adds no request.
  pub Adds-world : (q : MergeQueue) (v w : W) → left w ≤ left v → Adds (q, v) (q, w)
  Adds-world q v w h = record { lasting = refl; waits = Sublist.refl _; room = omega (arith, h) }

  -- A call that returns and only adds.
  abbrev pub IsPolite : Hook W → Type ℓ
  IsPolite hook = (s : MergeQueue × W) → ((hook s).1 ≡ ok tt) × Adds s (hook s).0

  and_then-IsPolite : (f g : Hook W) → IsPolite f → IsPolite g → IsPolite (and_then f g)
  unfolding and_then
  and_then-IsPolite f g p r s =
      rw (and_then, (p s).0)
        ((r (f s).0).0, Adds-trans s (f s).0 (g (f s).0).0 (p s).1 (r (f s).0).1)

  if-IsPolite : (b : Bool) (f g : Hook W) → IsPolite f → IsPolite g → IsPolite (if b then f else g)
  if-IsPolite true f g p r = p
  if-IsPolite false f g p r = r

  module _ (host : Host W) where
    -- No call raises an exception, and each adds at most what is left.
    pub record IsPatient : Type ℓ where
      pub attempts :
          (w : W) (source target : String) (task : ℕ)
          → (res : MergeResult) × ((host.attempt_merge w source target task).1 ≡ ok res)
            × (left (host.attempt_merge w source target task).0 ≤ left w)
      pub cleans : (w : W) (req : MergeRequest) → left (host.cleanup_workspace w req) ≤ left w
      pub writes : (w : W) (k : ℕ) (t : Task) → left (host.write_task w k t) ≤ left w
      pub frees : (w : W) (r : WorkspaceRegistry) → left (host.with_workspaces w r) ≤ left w
      pub emits : (type : EventType) (task : ℕ) → IsPolite (host.emit type task)
      pub completes : (task : ℕ) (res : MergeResult) → IsPolite (host.on_merge_completed task res)
      pub fails : (task : ℕ) (res : MergeResult) → IsPolite (host.on_merge_failed task res)

    module _ (patient : IsPatient) where
      release_owned-IsPolite :
          (task : ℕ) (state : ReleaseState) (now : ℕ) → IsPolite (release_owned host task state now)
      unfolding release_owned
      release_owned-IsPolite task state now s =
          elim (Bool-cases (has (host.workspaces s.1).active_by_task task)) [
            | inr e ↦ rw (release_owned, e) (refl, Adds-world s.0 s.1 s.1 (omega arith))
            | inl e ↦
                rw (release_owned, e)
                  (
                    (patient.emits workspace_released task _).0,
                    Adds-trans s _ _ (Adds-world s.0 s.1 _ (patient.frees s.1 _))
                        (patient.emits workspace_released task _).1,
                  )
          ]

      merge_object-IsPolite : (req : MergeRequest) (now : ℕ) → IsPolite (merge_object host req now)
      unfolding merge_object
      merge_object-IsPolite req now s = elim (Bool-cases req.has_task) [
        | inr e ↦ rw (merge_object, e) (refl, same)
        | inl e ↦ elim (Option-cases (host.read_task s.1 req.task_id)) [
          | inl p ↦ rw (merge_object, e, p) (refl, same)
          | inr (t, p) ↦
              rw (merge_object, e, p, (merge_task-ok t now).1)
                (refl, Adds-world s.0 s.1 _ (patient.writes s.1 req.task_id _))
        ]
      ]
        where
          same : Adds s s
          same = Adds-world s.0 s.1 s.1 (omega arith)

      clean_up-IsPolite : (req : MergeRequest) → IsPolite (clean_up host req)
      unfolding clean_up
      clean_up-IsPolite req s = (refl, Adds-world s.0 s.1 _ (patient.cleans s.1 req))

      finish_merged-IsPolite :
          (req : MergeRequest) (res : MergeResult) (now : ℕ)
          → IsPolite (finish_merged host req res now)
      unfolding finish_merged
      finish_merged-IsPolite req res now = and_then-IsPolite _ _ (merge_object-IsPolite req now) (
          and_then-IsPolite _ _ (clean_up-IsPolite req) (
            and_then-IsPolite _ _ (release_owned-IsPolite req.task_id merged_workspace now) (
              and_then-IsPolite _ _ (patient.emits merge_completed req.task_id)
                (patient.completes req.task_id res))))

      finish_failed-IsPolite :
          (req : MergeRequest) (res : MergeResult) (now : ℕ)
          → IsPolite (finish_failed host req res now)
      unfolding finish_failed
      finish_failed-IsPolite req res now =
          and_then-IsPolite _ _ (release_owned-IsPolite req.task_id failed_workspace now) (
            and_then-IsPolite _ _ (patient.emits merge_failed req.task_id)
              (patient.fails req.task_id res))

      pub finish_merge-IsPolite :
          (req : MergeRequest) (res : MergeResult) (now : ℕ)
          → IsPolite (finish_merge host req res now)
      unfolding finish_merge
      finish_merge-IsPolite req res now =
          if-IsPolite res.success _ _ (finish_merged-IsPolite req res now)
            (finish_failed-IsPolite req res now)
