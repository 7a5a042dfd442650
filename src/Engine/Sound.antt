-- ===== src/Engine/Sound.antt =====
-- The components of `MissionEngine` under any sequence of its calls.
use adaptive_orchestrator.Base.{
  ℕ, zero, suc, ◌+◌, ◌≡◌, refl, ap, ◌∙◌, inl, inr, Bool, true, Option, some, List, [], ◌∷◌, ◌++◌,
  arith, Bool-cases, Option-cases, every, get, has, put, get-put,
}
use adaptive_orchestrator.Engine.State.{Event, MissionEngine, new_engine, emit}
use adaptive_orchestrator.Engine.Tasks.{cancel}
use adaptive_orchestrator.Engine.Plan.{TaskFields, build_task}
use adaptive_orchestrator.Engine.Pool.{fail_worker}
use adaptive_orchestrator.Engine.Guards.{Guards}
use adaptive_orchestrator.Engine.Calls.{EngineCall, after_all, after_all-keeps}
use adaptive_orchestrator.Errors.{Result, ok, Result-cases}
use adaptive_orchestrator.Task.{cancelled, Task, can_transition_to}
use adaptive_orchestrator.Mission.{Mission}
use adaptive_orchestrator.Task.Lifecycle.{stamp_keeps}
use adaptive_orchestrator.Checkpoint.{EventType}
use adaptive_orchestrator.Graph.{Graph, dependents_of, dependencies_of}
use adaptive_orchestrator.Graph.{add_task}
use adaptive_orchestrator.Graph.Invariant.{
  IsSound, IsSound-nil, IsAcyclic-sub, add_dependency-IsSound, remove_dependency-IsSound,
}
use adaptive_orchestrator.Graph.Adding.{add_task-IsAdded, add_task_refused}
use adaptive_orchestrator.ReadyQueue.{ReadyQueue, push, pop_optional, discard}
use adaptive_orchestrator.ReadyQueue.Refinement.{
  Pops, nothing, first, pop-Pops, Pushes, not_ready, duplicate, inserted, push-Pushes,
}
use adaptive_orchestrator.WorkerRegistry.Routes.{IsRouted, held-put, run-IsRouted, IsRouted-new}
use adaptive_orchestrator.WorkerRegistry.{WorkerRegistry, store}
use adaptive_orchestrator.Worker.{Worker, transition_worker, mark_failed}
use adaptive_orchestrator.Workspace.Consistency.{new_workspaces-IsConsistent, release-IsConsistent}
use adaptive_orchestrator.ReadyQueue.Consistency.{IsConsistent as IsHeaped}
use adaptive_orchestrator.Workspace.Consistency.{IsConsistent as IsOwned}

-- The sequence numbers of the events.
abbrev pub sequences : List Event → List ℕ
sequences [] = []
sequences (e ∷ es) = e.sequence ∷ sequences es

-- 1 to `n`.
abbrev pub count_up : ℕ → List ℕ
count_up zero = []
count_up (suc n) = count_up n ++ suc n ∷ []

pub record IsWell (s : MissionEngine) : Type 0 where
  pub sound : IsSound s.graph
  pub in_order : IsHeaped s.ready_queue
  pub routed : IsRouted s.workers
  pub owned : IsOwned s.workspace_registry
  pub numbered : sequences s.events ≡ count_up s.sequence_counter

module _ (g : Graph) (k : ℕ) (t u : Task) (e : get g k ≡ some t) where
  dependencies-put :
      u.dependencies ≡ t.dependencies
      → (x : ℕ) → dependencies_of (put g k u) x ≡ dependencies_of g x
  unfolding dependencies_of
  dependencies-put d x = ground (arith, get-put g k u x, e, d, moved)
    where
      moved : k ≡ x → get g k ≡ get g x
      moved p = ap (get g) p

  dependents-put :
      u.dependents ≡ t.dependents → (x : ℕ) → dependents_of (put g k u) x ≡ dependents_of g x
  unfolding dependents_of
  dependents-put d x = ground (arith, get-put g k u x, e, d, moved)
    where
      moved : k ≡ x → get g k ≡ get g x
      moved p = ap (get g) p

  -- A write to a task that leaves its edges alone.
  pub put-IsSound :
      u.dependencies ≡ t.dependencies
      → u.dependents ≡ t.dependents
      → IsSound g
      → IsSound (put g k u)
  put-IsSound d d' s = record {
    linked = λ a b. rw (dependencies-put d b, dependents-put d' a) (s.linked a b);
    acyclic = IsAcyclic-sub g (put g k u) (λ x y q. rw (dependents-put d' x) at q) s.acyclic;
  }

-- The edits.
add_task-IsSound : (g : Graph) (f : TaskFields) → IsSound g → IsSound (add_task g (build_task f)).0
unfolding build_task
add_task-IsSound g f s = elim (Bool-cases (has g f.identifier)) [
  | inl e ↦ rw (add_task_refused g (build_task f) (inl e)) s
  | inr e ↦ elim (Bool-cases (every (λ d. has g d) f.prerequisites)) [
    | inr q ↦ rw (add_task_refused g (build_task f) (inr q)) s
    | inl q ↦ (add_task-IsAdded g (build_task f) s refl e q).sound
  ]
]

-- The queue.
push-IsHeaped : (q : ReadyQueue) (t : Task) (value : ℕ) → IsHeaped q → IsHeaped (push q t value).0
push-IsHeaped q t value c = settle (push-Pushes q t value c)
  where
    settle : {out : ReadyQueue × Result (Unit {0})} → Pushes q t value out → IsHeaped out.0
    settle (not_ready e) = c
    settle (duplicate e) = c
    settle (inserted r e h v d) = d

pop-IsHeaped : (q : ReadyQueue) → IsHeaped q → IsHeaped (pop_optional q).0
unfolding pop_optional
pop-IsHeaped q c = settle (pop-Pops q c)
  where
    settle : {out : ReadyQueue × Result ℕ} → Pops q out → IsHeaped out.0
    settle (nothing r v w d) = d
    settle (first r item v d) = d

discard-IsHeaped : (q : ReadyQueue) (k : ℕ) → IsHeaped q → IsHeaped (discard q k).0
unfolding discard
discard-IsHeaped q k c = elim (Option-cases (get q.entry_finder k)) [
  | inl e ↦ rw (discard, e) c
  | inr (item, e) ↦
      rw (discard, e) (record { ordered = c.ordered; distinct = c.distinct; up_to = c.up_to })
]

-- The workers.
mark_failed-task :
    (w v : Worker) (now : ℕ) → mark_failed w now ≡ ok v → v.current_task_id ≡ w.current_task_id
unfolding mark_failed transition_worker
mark_failed-task w v now e = ground (arith, e)

fail_worker-IsRouted :
    (worker now : ℕ) (r : WorkerRegistry) → IsRouted r → IsRouted (fail_worker worker now r).0
unfolding fail_worker store
fail_worker-IsRouted worker now r h = elim (Option-cases (get r.workers worker)) [
  | inl e ↦ rw (fail_worker, e) h
  | inr (w, e) ↦ elim (Result-cases (mark_failed w now)) [
    | inr (x, q) ↦ rw (fail_worker, e, q) h
    | inl (v, q) ↦
        rw (fail_worker, e, q)
          (λ task k p.
            ground
              (arith, h task k p, held-put r.workers worker v k, mark_failed-task w v now q, e))
  ]
]

-- The events.
sequences-append :
    (es : List Event) (e : Event) → sequences (es ++ e ∷ []) ≡ sequences es ++ e.sequence ∷ []
sequences-append [] e = refl
sequences-append (x ∷ es) e = ap (λ l. x.sequence ∷ l) (sequences-append es e)

emit-numbered :
    (s : MissionEngine) (type : EventType) (task : Option ℕ)
    → sequences s.events ≡ count_up s.sequence_counter
    → sequences (emit type task s).0.events ≡ count_up (emit type task s).0.sequence_counter
unfolding emit
emit-numbered s type task e =
    sequences-append s.events _
    ∙ ap (λ l. l ++ (s.sequence_counter + 1) ∷ []) e
    ∙ counted s.sequence_counter
  where
    counted : (n : ℕ) → count_up n ++ (n + 1) ∷ [] ≡ count_up (n + 1)
    counted n = let p : n + 1 ≡ suc n = omega arith in rw p refl

module _ (s : MissionEngine) where
  with_graph : (h : Graph) → IsWell s → IsSound h → IsWell (record s { graph = h })
  with_graph h w sound = record {
    sound = sound;
    in_order = w.in_order;
    routed = w.routed;
    owned = w.owned;
    numbered = w.numbered;
  }

  with_queue : (q : ReadyQueue) → IsWell s → IsHeaped q → IsWell (record s { ready_queue = q })
  with_queue q w in_order = record {
    sound = w.sound;
    in_order = in_order;
    routed = w.routed;
    owned = w.owned;
    numbered = w.numbered;
  }

  with_workers : (r : WorkerRegistry) → IsWell s → IsRouted r → IsWell (record s { workers = r })
  with_workers r w routed = record {
    sound = w.sound;
    in_order = w.in_order;
    routed = routed;
    owned = w.owned;
    numbered = w.numbered;
  }

pub cancel-edges :
    (now : ℕ) (t : Task)
    → ((cancel now t).task_id ≡ t.task_id)
      × ((cancel now t).dependencies ≡ t.dependencies)
      × ((cancel now t).dependents ≡ t.dependents)
unfolding cancel
cancel-edges now t = elim (Bool-cases (can_transition_to t cancelled)) [
  | inl e ↦ rw (cancel, e) (stamp_keeps t now cancelled)
  | inr e ↦ rw (cancel, e) (refl, refl, refl)
]

IsWell-Guards : Guards IsWell
unfolding emit
IsWell-Guards = record {
  emits = λ s type task w. record {
    sound = w.sound;
    in_order = w.in_order;
    routed = w.routed;
    owned = w.owned;
    numbered = emit-numbered s type task w.numbered;
  };
  missions = λ s m w. record {
    sound = w.sound;
    in_order = w.in_order;
    routed = w.routed;
    owned = w.owned;
    numbered = w.numbered;
  };
  writes = λ s k t u e kept w.
      with_graph s _ w
        (put-IsSound s.graph k t u e kept.same_dependencies kept.same_dependents w.sound);
  cancels = λ s k t now e w. record {
    sound =
        put-IsSound s.graph k t (cancel now t) e ((cancel-edges now t).1) ((cancel-edges now t).2)
          w.sound;
    in_order = discard-IsHeaped s.ready_queue k w.in_order;
    routed = w.routed;
    owned = w.owned;
    numbered = w.numbered;
  };
  pushes = λ s k t value e w. with_queue s _ w (push-IsHeaped s.ready_queue t value w.in_order);
  pops = λ s w. with_queue s _ w (pop-IsHeaped s.ready_queue w.in_order);
  discards = λ s k w. with_queue s _ w (discard-IsHeaped s.ready_queue k w.in_order);
  worker_calls = λ s c w. with_workers s _ w (run-IsRouted s.workers c w.routed);
  worker_fails =
      λ s worker now w. with_workers s _ w (fail_worker-IsRouted worker now s.workers w.routed);
  frees = λ s k state now w. record {
    sound = w.sound;
    in_order = w.in_order;
    routed = w.routed;
    owned = release-IsConsistent s.workspace_registry k state true now w.owned;
    numbered = w.numbered;
  };
  adds = λ s f w. with_graph s _ w (add_task-IsSound s.graph f w.sound);
  adds_edge = λ s a b w. with_graph s _ w (add_dependency-IsSound s.graph a b w.sound);
  removes_edge = λ s a b w. with_graph s _ w (remove_dependency-IsSound s.graph a b w.sound);
}

pub new_engine-IsWell :
    (mission_id : ℕ) (auto : Bool) (audit : Mission → Graph → Bool) (now : ℕ)
    → IsWell (new_engine mission_id auto audit now)
unfolding new_engine
new_engine-IsWell mission_id auto audit now = record {
  sound = IsSound-nil;
  in_order = record { ordered = tt; distinct = tt; up_to = tt };
  routed = IsRouted-new;
  owned = new_workspaces-IsConsistent;
  numbered = refl;
}

-- From an engine whose graph is linked and acyclic, whose ready queue, worker routes and workspaces
-- are consistent and whose events are numbered from 1 without a gap, every sequence of the engine's
-- calls leaves such an engine, whatever the calls return or raise.
pub after_all-IsWell :
    (s : MissionEngine) (calls : List EngineCall) → IsWell s → IsWell (after_all s calls)
after_all-IsWell s calls w = after_all-keeps IsWell IsWell-Guards s calls w
