-- ===== src/Engine/Cancelling.antt =====
-- `mark_task_cancelled` on the task and its descendants.
use adaptive_orchestrator.Base.{
  ℕ, ◌≡◌, refl, ap, ◌∙◌, inl, inr, Bool, true, false, ◌||◌, some, List, [], ◌∷◌, arith, ◌==◌,
  Bool-cases, Option-cases, contains, sorted, contains-sorted, get, has, put, get-put,
}
use adaptive_orchestrator.Engine.State.{MissionEngine, ask, when, emit, free_workspace}
use adaptive_orchestrator.Engine.Tasks.{
  status_in, cancel, dequeue_and_cancel, cancel_one, cancel_each, mark_task_cancelled,
}
use adaptive_orchestrator.Engine.Outcomes.{cancel_one-Keeps}
use adaptive_orchestrator.Engine.Sound.{cancel-edges}
use adaptive_orchestrator.Engine.Marks.{mark, mark-put}
use adaptive_orchestrator.Engine.Cancelled.{IsSettled, status-cancel, IsSettled-Guards}
use adaptive_orchestrator.Graph.Descendants.{present-descendants, get_descendants-returns}
use adaptive_orchestrator.Engine.Runs.{run-bind, run-then}
use adaptive_orchestrator.Errors.{ok}
use adaptive_orchestrator.Task.{TaskState, cancelled, Task, same_state, in_states}
use adaptive_orchestrator.Checkpoint.{task_cancelled}
use adaptive_orchestrator.Graph.{get_descendants}
use adaptive_orchestrator.ReadyQueue.{holds}
use adaptive_orchestrator.Workspace.{ReleaseState, cancelled_workspace}

free_workspace-ok :
    (k : ℕ) (state : ReleaseState) (now : ℕ) (s : MissionEngine)
    → ((free_workspace k state now s).1 ≡ ok tt)
      × ((free_workspace k state now s).0.graph ≡ s.graph)
unfolding free_workspace
free_workspace-ok k state now s = elim (Bool-cases (has s.workspace_registry.active_by_task k)) [
  | inl e ↦ rw (free_workspace, e) (refl, refl)
  | inr e ↦ rw (free_workspace, e) (refl, refl)
]

module _ (s : MissionEngine) (now k : ℕ) (t : Task) (e : get s.graph k ≡ some t) where
  status-here :
      (states : List TaskState) → (status_in k states s).1 ≡ ok (in_states t.status states)
  status-here states = ground (arith, e)

  -- The run of a cancellation of a task that is not cancelled yet.
  cancel_one-run :
      in_states t.status (cancelled ∷ []) ≡ false
      → let s1 = (dequeue_and_cancel k now s).0 in
        cancel_one now k s
        ≡ emit task_cancelled (some k) (free_workspace k cancelled_workspace now s1).0
  unfolding cancel_one when
  cancel_one-run c =
      let s1 = (dequeue_and_cancel k now s).0 in
      run-bind (status_in k (cancelled ∷ [])) _ s false (status-here (cancelled ∷ []) ∙ ap ok c)
      ∙ run-then (dequeue_and_cancel k now) _ s tt cancels
      ∙ run-then (free_workspace k cancelled_workspace now) (emit task_cancelled (some k)) s1 tt
          ((free_workspace-ok k cancelled_workspace now s1).0)
    where
      cancels : (dequeue_and_cancel k now s).1 ≡ ok tt
      cancels = unfold dequeue_and_cancel in rw (dequeue_and_cancel, e) refl

  cancel_one-noop : in_states t.status (cancelled ∷ []) ≡ true → cancel_one now k s ≡ (s, ok tt)
  unfolding cancel_one when
  cancel_one-noop c =
      run-bind (status_in k (cancelled ∷ [])) _ s true (status-here (cancelled ∷ []) ∙ ap ok c)

  cancelled-graph : (dequeue_and_cancel k now s).0.graph ≡ put s.graph k (cancel now t)
  unfolding dequeue_and_cancel
  cancelled-graph = rw (dequeue_and_cancel, e) refl

  final-graph :
      let s1 = (dequeue_and_cancel k now s).0 in
      (emit task_cancelled (some k) (free_workspace k cancelled_workspace now s1).0).0.graph
      ≡ put s.graph k (cancel now t)
  unfolding emit
  final-graph =
      (free_workspace-ok k cancelled_workspace now (dequeue_and_cancel k now s).0).1
      ∙ cancelled-graph

  final-mark : t.task_id ≡ k → mark (put s.graph k (cancel now t)) k ≡ some (k, true)
  final-mark i =
      ground
        (arith, mark-put s.graph k (cancel now t) k, (cancel-edges now t).0, status-cancel now t, i)

  final-has : (j : ℕ) → has (put s.graph k (cancel now t)) j ≡ has s.graph j
  unfolding has
  final-has j = ground (arith, get-put s.graph k (cancel now t) j, e, moved)
    where
      moved : k ≡ j → get s.graph k ≡ get s.graph j
      moved p = ap (get s.graph) p

  mark_here : mark s.graph k ≡ some (t.task_id, same_state t.status cancelled)
  unfolding mark
  mark_here = rw (mark, e) refl

-- After a cancellation the task is cancelled, and the graph has the tasks that it had.
cancel_one-step :
    (s : MissionEngine) (now k : ℕ)
    → ((i : ℕ) (c : Bool) → mark s.graph k ≡ some (i, c) → i ≡ k)
    → has s.graph k ≡ true
    → ((cancel_one now k s).1 ≡ ok tt)
      × (mark (cancel_one now k s).0.graph k ≡ some (k, true))
      × ((j : ℕ) → has (cancel_one now k s).0.graph j ≡ has s.graph j)
      × ((already : Bool) × ((status_in k (cancelled ∷ []) s).1 ≡ ok already))
cancel_one-step s now k keyed present = elim (Option-cases (get s.graph k)) [
  | inl e ↦ absurd (unfold has in ground (arith, present, e))
  | inr (t, e) ↦
      let id : t.task_id ≡ k =
        keyed t.task_id (same_state t.status cancelled) (mark_here s now k t e) in
      elim (Bool-cases (in_states t.status (cancelled ∷ []))) [
        | inl c ↦ rw (cancel_one-noop s now k t e c) (
          refl,
          unfold in_states in ground (arith, mark_here s now k t e, id, c),
          λ j. refl,
          (_, status-here s now k t e (cancelled ∷ [])),
        )
        | inr c ↦
            rw (cancel_one-run s now k t e c, final-graph s now k t e)
              (
                unfold emit in refl,
                final-mark s now k t e id,
                final-has s now k t e,
                (_, status-here s now k t e (cancelled ∷ [])),
              )
      ]
]

widen :
    {fixed : ℕ → Bool} (more : ℕ → Bool) (s : MissionEngine)
    → IsSettled fixed s
    → ((j : ℕ) → more j ≡ true → mark s.graph j ≡ some (j, true))
    → IsSettled more s
widen more s h all = record { sound = h.sound; keyed = h.keyed; withheld = h.withheld; stays = all }

-- The loop over the tasks to cancel.
cancel_all-IsSettled :
    (now : ℕ) (ks : List ℕ) (fixed : ℕ → Bool) (s : MissionEngine)
    → IsSettled fixed s
    → ((j : ℕ) → contains ks j ≡ true → has s.graph j ≡ true)
    → ((found : List ℕ) × ((cancel_each now ks s).1 ≡ ok found))
      × IsSettled (λ j. fixed j || contains ks j) (cancel_each now ks s).0
unfolding cancel_each contains
cancel_all-IsSettled now [] fixed s h present =
    (([], refl), widen _ s h (λ j q. h.stays j (ground (arith, q))))
cancel_all-IsSettled now (k ∷ ks) fixed s h present = joined (
    cancel_all-IsSettled now ks (λ j. fixed j || j == k) s1 (widen _ s1 kept settled_here)
      (λ j q. step.2 j ∙ present j (ground (arith, q))))
  where
    s1 : MissionEngine
    s1 = (cancel_one now k s).0

    step :
        ((cancel_one now k s).1 ≡ ok tt)
        × (mark s1.graph k ≡ some (k, true))
        × ((j : ℕ) → has s1.graph j ≡ has s.graph j)
        × ((already : Bool) × ((status_in k (cancelled ∷ []) s).1 ≡ ok already))
    step = cancel_one-step s now k (h.keyed k) (present k (ground arith))

    kept : IsSettled fixed s1
    kept = (cancel_one-Keeps (IsSettled-Guards fixed) now k).keeps s h

    settled_here : (j : ℕ) → (fixed j || j == k) ≡ true → mark s1.graph j ≡ some (j, true)
    settled_here j q = ground (arith, q, kept.stays j, step.1, moved)
      where
        moved : j ≡ k → mark s1.graph j ≡ mark s1.graph k
        moved p = ap (mark s1.graph) p

    joined :
        ((found : List ℕ) × ((cancel_each now ks s1).1 ≡ ok found))
          × IsSettled (λ j. (fixed j || j == k) || contains ks j) (cancel_each now ks s1).0
        → ((found : List ℕ) × ((cancel_each now (k ∷ ks) s).1 ≡ ok found))
          × IsSettled (λ j. fixed j || contains (k ∷ ks) j) (cancel_each now (k ∷ ks) s).0
    joined ((found, q), rest) =
        rw
          (
            run-bind (status_in k (cancelled ∷ [])) _ s step.3.0 step.3.1,
            run-then (cancel_one now k) _ s tt step.0,
            run-bind (cancel_each now ks) _ s1 found q,
          )
          ((_, refl), widen _ _ rest (λ j q. rest.stays j (ground (arith, q))))

-- What `mark_task_cancelled` leaves of the tasks `ks`: all cancelled and none queued.
pub AllCancelled : MissionEngine → List ℕ → Type 0
AllCancelled s ks =
    (j : ℕ)
    → contains ks j ≡ true
    → (mark s.graph j ≡ some (j, true)) × (holds s.ready_queue j ≡ false)

-- The call once the descendants are found.
cancels_descendants :
    {fixed : ℕ → Bool} (s : MissionEngine) (k now : ℕ) (ds : List ℕ)
    → IsSettled fixed s
    → has s.graph k ≡ true
    → get_descendants s.graph k ≡ ok ds
    → ((found : List ℕ) × ((mark_task_cancelled k now s).1 ≡ ok found))
      × AllCancelled (mark_task_cancelled k now s).0 (k ∷ ds)
unfolding mark_task_cancelled AllCancelled contains
cancels_descendants {fixed = fixed} s k now ds h present e =
    rw (run-bind (ask (λ x. get_descendants x.graph k)) _ s ds e) (
      all.0,
      λ j q. (
        all.1.stays j (ground (arith, q, contains-sorted ds j)),
        all.1.withheld j j (all.1.stays j (ground (arith, q, contains-sorted ds j))),
      ),
    )
  where
    here : (j : ℕ) → j ≡ k → has s.graph j ≡ true
    here j p = rw p present

    all :
        ((found : List ℕ) × ((cancel_each now (k ∷ sorted ds) s).1 ≡ ok found))
        × IsSettled
            (λ j. fixed j || contains (k ∷ sorted ds) j)
            (cancel_each now (k ∷ sorted ds) s).0
    all = cancel_all-IsSettled now (k ∷ sorted ds) fixed s h (λ j q.
        ground
          (arith, q, contains-sorted ds j, present-descendants s.graph k ds h.sound e j, here j))

-- In an engine whose graph is linked and acyclic, whose tasks stand under their own identifiers and
-- whose queue holds no cancelled task, `mark_task_cancelled` of a task of the graph returns: the
-- graph finds the descendants of the task, the task and all of these are cancelled then, and none of
-- them is in the ready queue.
pub mark_task_cancelled-AllCancelled :
    {fixed : ℕ → Bool} (s : MissionEngine) (k now : ℕ)
    → IsSettled fixed s
    → has s.graph k ≡ true
    → (ds : List ℕ) × (get_descendants s.graph k ≡ ok ds)
      × ((found : List ℕ) × ((mark_task_cancelled k now s).1 ≡ ok found))
      × AllCancelled (mark_task_cancelled k now s).0 (k ∷ ds)
mark_task_cancelled-AllCancelled s k now h present =
    let (ds, e) = get_descendants-returns s.graph k present in
    let (returns, all) = cancels_descendants s k now ds h present e in (ds, e, returns, all)
