-- ===== src/Engine/Cancelled.antt =====
-- Cancelled tasks of `MissionEngine` under any sequence of its calls.
use adaptive_orchestrator.Base.{
  ℕ, ◌≡◌, refl, sym, ap, ◌∙◌, inl, inr, Bool, true, false, none, some, List, arith, Bool-cases,
  Option-cases, every, get, has, put,
}
use adaptive_orchestrator.Engine.State.{MissionEngine, emit}
use adaptive_orchestrator.Engine.Tasks.{cancel}
use adaptive_orchestrator.Engine.Plan.{TaskFields, build_task}
use adaptive_orchestrator.Engine.Guards.{IsKept, Guards}
use adaptive_orchestrator.Engine.Calls.{EngineCall, after_all, after_all-keeps}
use adaptive_orchestrator.Engine.Sound.{put-IsSound, cancel-edges}
use adaptive_orchestrator.Engine.Marks.{
  mark, mark-put, mark-add_dependency, mark-remove_dependency, mark-link_task, holds-discard,
  holds-push, holds-pop,
}
use adaptive_orchestrator.Errors.{ok}
use adaptive_orchestrator.Task.{ready, cancelled, Task, same_state, can_transition_to}
use adaptive_orchestrator.Task.Lifecycle.{same_state_iff, status-stamp}
use adaptive_orchestrator.Graph.{Graph}
use adaptive_orchestrator.Graph.{link_task, add_task, add_dependency, remove_dependency}
use adaptive_orchestrator.Graph.{detect_cycle}
use adaptive_orchestrator.Graph.Invariant.{
  IsSound, add_dependency-IsSound, remove_dependency-IsSound,
}
use adaptive_orchestrator.Graph.Adding.{add_task-IsAdded, add_task_refused}
use adaptive_orchestrator.ReadyQueue.{ReadyQueue, push, pop_optional, discard, holds}

-- Tasks stand under their own identifiers, no cancelled task is in the ready queue, and those of a
-- fixed set are cancelled.
pub record IsSettled (fixed : ℕ → Bool) (s : MissionEngine) : Type 0 where
  pub sound : IsSound s.graph
  pub keyed : (k i : ℕ) (c : Bool) → mark s.graph k ≡ some (i, c) → i ≡ k
  pub withheld : (k i : ℕ) → mark s.graph k ≡ some (i, true) → holds s.ready_queue k ≡ false
  pub stays : (k : ℕ) → fixed k ≡ true → mark s.graph k ≡ some (k, true)

pub status-cancel : (now : ℕ) (t : Task) → same_state (cancel now t).status cancelled ≡ true
unfolding cancel same_state
status-cancel now t = elim (Bool-cases (can_transition_to t cancelled)) [
  | inl e ↦ rw (cancel, e) (ap (λ x. same_state x cancelled) (status-stamp t now cancelled))
  | inr e ↦ rw (cancel, e) refl
]

add_task-linked :
    (g : Graph) (t : Task)
    → has g t.task_id ≡ false
    → every (λ d. has g d) t.dependencies ≡ true
    → (add_task g t).1 ≡ ok tt
    → (add_task g t).0 ≡ link_task g t
unfolding add_task
add_task-linked g t new known = elim (Option-cases (detect_cycle (link_task g t))) [
  | inl e ↦ rw (new, known, e) (λ q. refl)
  | inr (c, e) ↦ rw (new, known, e) (λ q. ground (arith, q))
]

mark-absent : (g : Graph) (k : ℕ) → has g k ≡ false → mark g k ≡ none
unfolding mark has
mark-absent g k e = ground (arith, e)

module _ {fixed : ℕ → Bool} (s : MissionEngine) (h : IsSettled fixed s) where
  same_marks :
      (g : Graph)
      → IsSound g
      → ((j : ℕ) → mark g j ≡ mark s.graph j)
      → IsSettled fixed (record s { graph = g })
  same_marks g sound same = record {
    sound = sound;
    keyed = λ k i c e. h.keyed k i c (rw (same k) at e);
    withheld = λ k i e. h.withheld k i (rw (same k) at e);
    stays = λ k f. rw (same k) (h.stays k f);
  }

  fewer_queued :
      (q : ReadyQueue)
      → ((j : ℕ) → holds s.ready_queue j ≡ false → holds q j ≡ false)
      → IsSettled fixed (record s { ready_queue = q })
  fewer_queued q fewer = record {
    sound = h.sound;
    keyed = h.keyed;
    withheld = λ k i e. fewer k (h.withheld k i e);
    stays = h.stays;
  }

  module _ (k : ℕ) (t : Task) (e : get s.graph k ≡ some t) where
    mark_here : mark s.graph k ≡ some (t.task_id, same_state t.status cancelled)
    unfolding mark
    mark_here = rw (mark, e) refl

    at_key : t.task_id ≡ k
    at_key = h.keyed k t.task_id (same_state t.status cancelled) mark_here

    kept-mark : (u : Task) → IsKept t u → (j : ℕ) → mark (put s.graph k u) j ≡ mark s.graph j
    kept-mark u kept j =
        ground (arith, mark-put s.graph k u j, mark_here, kept.same_id, kept.same_cancelled, moved)
      where
        moved : k ≡ j → mark s.graph k ≡ mark s.graph j
        moved p = ap (mark s.graph) p

    push-IsSettled :
        (value : ℕ) → IsSettled fixed (record s { ready_queue = (push s.ready_queue t value).0 })
    unfolding same_state
    push-IsSettled value = record {
      sound = h.sound;
      keyed = h.keyed;
      withheld = λ j i q.
          ground (arith, holds-push s.ready_queue t value j, h.withheld j i q, never j i q);
      stays = h.stays;
    }
      where
        never :
            (j i : ℕ)
            → mark s.graph j ≡ some (i, true)
            → t.task_id ≡ j
            → same_state t.status ready ≡ false
        never j i q p =
            let c : same_state t.status cancelled ≡ true =
              ground (arith, mark_here, q, ap (mark s.graph) (sym at_key ∙ p)) in
            rw ((same_state_iff t.status cancelled).0 c) refl

    cancel-IsSettled :
        (now : ℕ)
        → IsSettled fixed (record s {
          ready_queue = (discard s.ready_queue k).0;
          graph = put s.graph k (cancel now t);
        })
    cancel-IsSettled now = record {
      sound =
          put-IsSound s.graph k t (cancel now t) e ((cancel-edges now t).1) ((cancel-edges now t).2)
            h.sound;
      keyed = λ j i c q. ground (
        arith,
        mark-put s.graph k (cancel now t) j,
        (cancel-edges now t).0,
        at_key,
        h.keyed j i c,
        q,
      );
      withheld = λ j i q. ground (
        arith,
        mark-put s.graph k (cancel now t) j,
        holds-discard s.ready_queue k j,
        h.withheld j i,
        q,
      );
      stays = λ j f. ground (
        arith,
        mark-put s.graph k (cancel now t) j,
        (cancel-edges now t).0,
        at_key,
        status-cancel now t,
        h.stays j f,
      );
    }

  add-IsSettled :
      (f : TaskFields) → IsSettled fixed (record s { graph = (add_task s.graph (build_task f)).0 })
  unfolding build_task
  add-IsSettled f = elim (Bool-cases (has s.graph f.identifier)) [
    | inl e ↦ rw (add_task_refused s.graph (build_task f) (inl e)) h
    | inr e ↦ elim (Bool-cases (every (λ d. has s.graph d) f.prerequisites)) [
      | inr q ↦ rw (add_task_refused s.graph (build_task f) (inr q)) h
      | inl q ↦ added e q (
          add_task-linked s.graph (build_task f) e q
            ((add_task-IsAdded s.graph (build_task f) h.sound refl e q).returns))
    ]
  ]
    where
      moved : (k : ℕ) → f.identifier ≡ k → mark s.graph f.identifier ≡ mark s.graph k
      moved k p = ap (mark s.graph) p

      added :
          has s.graph f.identifier ≡ false
          → every (λ d. has s.graph d) f.prerequisites ≡ true
          → (add_task s.graph (build_task f)).0 ≡ link_task s.graph (build_task f)
          → IsSettled fixed (record s { graph = (add_task s.graph (build_task f)).0 })
      added e q p = record {
        sound = (add_task-IsAdded s.graph (build_task f) h.sound refl e q).sound;
        keyed = λ k i c z. ground (arith, mark-link_task s.graph f k, h.keyed k i c, rw p at z);
        withheld = λ k i z. ground (arith, mark-link_task s.graph f k, h.withheld k i, rw p at z);
        stays = λ k z. rw p (
            ground (
              arith,
              mark-link_task s.graph f k,
              h.stays k z,
              mark-absent s.graph f.identifier e,
              moved k,
            ));
      }

pub IsSettled-Guards : (fixed : ℕ → Bool) → Guards (IsSettled fixed)
unfolding emit
IsSettled-Guards fixed = record {
  emits = λ s type task h. record {
    sound = h.sound;
    keyed = h.keyed;
    withheld = h.withheld;
    stays = h.stays;
  };
  missions =
      λ s m h. record { sound = h.sound; keyed = h.keyed; withheld = h.withheld; stays = h.stays };
  writes = λ s k t u e kept h.
      same_marks s h (put s.graph k u)
        (put-IsSound s.graph k t u e kept.same_dependencies kept.same_dependents h.sound)
        (kept-mark s h k t e u kept);
  cancels = λ s k t now e h. cancel-IsSettled s h k t e now;
  pushes = λ s k t value e h. push-IsSettled s h k t e value;
  pops = λ s h. fewer_queued s h ((pop_optional s.ready_queue).0) (holds-pop s.ready_queue);
  discards = λ s k h.
      fewer_queued s h ((discard s.ready_queue k).0)
        (λ j q. ground (arith, holds-discard s.ready_queue k j, q));
  worker_calls =
      λ s c h. record { sound = h.sound; keyed = h.keyed; withheld = h.withheld; stays = h.stays };
  worker_fails = λ s worker now h. record {
    sound = h.sound;
    keyed = h.keyed;
    withheld = h.withheld;
    stays = h.stays;
  };
  frees = λ s k state now h. record {
    sound = h.sound;
    keyed = h.keyed;
    withheld = h.withheld;
    stays = h.stays;
  };
  adds = λ s f h. add-IsSettled s h f;
  adds_edge = λ s a b h.
      same_marks s h ((add_dependency s.graph a b).0) (add_dependency-IsSound s.graph a b h.sound)
        (mark-add_dependency s.graph a b);
  removes_edge = λ s a b h.
      same_marks s h ((remove_dependency s.graph a b).0)
        (remove_dependency-IsSound s.graph a b h.sound) (mark-remove_dependency s.graph a b);
}

-- From an engine whose graph is linked and acyclic, whose tasks stand under their own identifiers and
-- whose queue holds no cancelled task: after any sequence of the engine's calls a task that was
-- cancelled is cancelled, and neither it nor any other cancelled task is in the ready queue.
pub after_all-IsSettled :
    (fixed : ℕ → Bool) (s : MissionEngine) (calls : List EngineCall)
    → IsSettled fixed s
    → IsSettled fixed (after_all s calls)
after_all-IsSettled fixed s calls h =
    after_all-keeps (IsSettled fixed) (IsSettled-Guards fixed) s calls h
