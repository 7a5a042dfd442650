-- ===== src/Engine/Verdict.antt =====
-- `run_victory_audit` on every branch.
use adaptive_orchestrator.Base.{
  ℕ, ◌+◌, ◌≡◌, refl, sym, ap, ◌∙◌, ◌⊎◌, inl, inr, Bool, true, false, none, List, [], ◌∷◌, ◌++◌,
  if◌then◌else◌,
}
use adaptive_orchestrator.Engine.State.{
  Event, MissionEngine, ◌>>=◌, ◌>>◌, pure, ask, when, emit, set_mission,
}
use adaptive_orchestrator.Engine.Lifecycle.{mission_to, conclude, run_victory_audit}
use adaptive_orchestrator.Engine.Runs.{run-bind, run-then}
use adaptive_orchestrator.Errors.{invalid_state_transition, Result, ok, err}
use adaptive_orchestrator.Mission.{
  MissionState, drafting, plan_approved, executing, integrating, auditing, paused, completed,
  failed, cancelled, Mission, valid_mission_transitions, same_mission_state, in_mission_states,
  transition_mission,
}
use adaptive_orchestrator.Checkpoint.{mission_state_changed_event}

-- The state that an audit needs.
abbrev pub auditable : MissionState → Bool
auditable auditing = true
auditable executing = true
auditable integrating = true
auditable _ = false

-- The mission that is audited.
abbrev pub audited : Mission → ℕ → Mission
audited m now = record m {
  state = auditing;
  updated_at = elim m.state [ auditing ↦ m.updated_at | _ ↦ now ];
}

-- `b` has the mission `m` and all else of `a`, but for events that have come after those of `a`.
pub record IsOnlyMission (a : MissionEngine) (m : Mission) (b : MissionEngine) : Type 0 where
  pub new_mission : b.mission ≡ m
  pub same_graph : b.graph ≡ a.graph
  pub same_queue : b.ready_queue ≡ a.ready_queue
  pub same_workers : b.workers ≡ a.workers
  pub same_workspaces : b.workspace_registry ≡ a.workspace_registry
  pub same_auto_audit : b.auto_audit ≡ a.auto_audit
  pub same_audit : b.audit ≡ a.audit
  pub later_events : (more : List Event) × (b.events ≡ a.events ++ more)

-- A change of the mission that is allowed.
mission_to-run :
    (target : MissionState) (s : MissionEngine) (now : ℕ) (m : Mission)
    → transition_mission s.mission target now ≡ ok m
    → ((mission_to target now s).1 ≡ ok tt) × IsOnlyMission s m (mission_to target now s).0
unfolding mission_to set_mission emit ◌>>◌
mission_to-run target s now m e =
    rw
      (
        run-bind (ask (λ x. transition_mission x.mission target now)) _ s m e,
        run-bind (set_mission m) (λ a. emit mission_state_changed_event none) s tt refl,
      )
      (
        refl,
        record {
          new_mission = refl;
          same_graph = refl;
          same_queue = refl;
          same_workers = refl;
          same_workspaces = refl;
          same_auto_audit = refl;
          same_audit = refl;
          later_events = (_, refl);
        },
      )

-- The mission after the verdict.
abbrev pub judged : Mission → Bool → ℕ → Mission
judged m verdict now = record m { state = if verdict then completed else failed; updated_at = now }

append_nil : (xs : List Event) → xs ++ [] ≡ xs
append_nil [] = refl
append_nil (x ∷ xs) = ap (λ l. x ∷ l) (append_nil xs)

append_assoc : (xs ys zs : List Event) → (xs ++ ys) ++ zs ≡ xs ++ (ys ++ zs)
append_assoc [] ys zs = refl
append_assoc (x ∷ xs) ys zs = ap (λ l. x ∷ l) (append_assoc xs ys zs)

-- What was so after some events is so after more of them.
after_event :
    (a b c : MissionEngine) (m n n' : Mission)
    → IsOnlyMission a m b
    → IsOnlyMission b n c
    → n ≡ n'
    → IsOnlyMission a n' c
after_event a b c m n n' f g p = record {
  new_mission = g.new_mission ∙ p;
  same_graph = g.same_graph ∙ f.same_graph;
  same_queue = g.same_queue ∙ f.same_queue;
  same_workers = g.same_workers ∙ f.same_workers;
  same_workspaces = g.same_workspaces ∙ f.same_workspaces;
  same_auto_audit = g.same_auto_audit ∙ f.same_auto_audit;
  same_audit = g.same_audit ∙ f.same_audit;
  later_events = (
    f.later_events.0 ++ g.later_events.0,
    g.later_events.1
        ∙ ap (λ e. e ++ g.later_events.0) f.later_events.1
        ∙ append_assoc a.events f.later_events.0 g.later_events.0,
  );
}

-- The last step, from either verdict.
ends_as_judged :
    (s : MissionEngine) (verdict : Bool) (now : ℕ)
    → s.mission.state ≡ auditing
    → let out = (conclude verdict now >> pure verdict) s in
      (out.1 ≡ ok verdict) × IsOnlyMission s (judged s.mission verdict now) out.0
unfolding conclude
ends_as_judged s verdict now e =
    let target = if verdict then completed else failed in
    let ran = mission_to-run target s now (judged s.mission verdict now) (may verdict) in
    rw (run-then (conclude verdict now) (pure verdict) s tt ran.0) (refl, ran.1)
  where
    may :
        (v : Bool)
        → transition_mission s.mission (if v then completed else failed) now
          ≡ ok (judged s.mission v now)
    may true =
        unfold transition_mission same_mission_state in_mission_states valid_mission_transitions in
        rw e refl
    may false =
        unfold transition_mission same_mission_state in_mission_states valid_mission_transitions in
        rw e refl

-- What an audit does that is allowed.
pub record IsAudited (s : MissionEngine) (now : ℕ) (out : MissionEngine × Result Bool)
    : Type 0 where
  pub verdict : out.1 ≡ ok (s.audit (audited s.mission now) s.graph)
  pub ended : IsOnlyMission s (judged s.mission (s.audit (audited s.mission now) s.graph) now) out.0

-- The audit, once the mission is the one that is audited.
audits-from :
    (s t : MissionEngine) (now : ℕ)
    → IsOnlyMission s (audited s.mission now) t
    → let verdict = s.audit (audited s.mission now) s.graph in
      IsAudited s now ((conclude verdict now >> pure verdict) t)
audits-from s t now only =
    let verdict = s.audit (audited s.mission now) s.graph in
    let fin = ends_as_judged t verdict now (ap (λ m. m.state) only.new_mission) in
    record {
      verdict = fin.0;
      ended =
          after_event s t _ (audited s.mission now) _ _ only fin.1
            (ap (λ m. judged m verdict now) only.new_mission);
    }

-- An audit of a mission that is neither auditing nor executing nor integrating raises
-- InvalidStateTransitionError and changes nothing. Any other returns the verdict of the verifier on
-- the graph and the mission in AUDITING, and leaves the mission COMPLETED exactly if it is positive
-- and FAILED if it is not, some events more, and all else of the engine as it was.
pub run_victory_audit_lem :
    (s : MissionEngine) (now : ℕ)
    → let out = run_victory_audit now s in
      ((auditable s.mission.state ≡ false) × (out ≡ (s, err invalid_state_transition)))
      ⊎ ((auditable s.mission.state ≡ true) × IsAudited s now out)
unfolding run_victory_audit conclude mission_to transition_mission in_mission_states set_mission
    emit when ◌>>=◌ ◌>>◌ same_mission_state
run_victory_audit_lem s now = by_state s.mission.state refl
  where
    in_state : MissionState → MissionEngine
    in_state st = record s { mission = record s.mission { state = st } }

    advanced : MissionEngine
    advanced = record s {
      mission = record s.mission { state = auditing; updated_at = now };
      events =
          s.events
          ++ record {
            event_type = mission_state_changed_event;
            task_id = none;
            sequence = s.sequence_counter + 1;
          }
            ∷ [];
      sequence_counter = s.sequence_counter + 1;
    }

    starts :
        (st : MissionState)
        → record s.mission { state = auditing; updated_at = now }
          ≡ audited (record s.mission { state = st }) now
        → IsOnlyMission (in_state st) (audited (record s.mission { state = st }) now) advanced
    starts st p = record {
      new_mission = p;
      same_graph = refl;
      same_queue = refl;
      same_workers = refl;
      same_workspaces = refl;
      same_auto_audit = refl;
      same_audit = refl;
      later_events = (_, refl);
    }

    by_state :
        (st : MissionState)
        → s.mission.state ≡ st
        → let out = run_victory_audit now s in
          ((auditable s.mission.state ≡ false) × (out ≡ (s, err invalid_state_transition)))
          ⊎ ((auditable s.mission.state ≡ true) × IsAudited s now out)
    by_state drafting e = rw e (inl (refl, refl))
    by_state plan_approved e = rw e (inl (refl, refl))
    by_state paused e = rw e (inl (refl, refl))
    by_state completed e = rw e (inl (refl, refl))
    by_state failed e = rw e (inl (refl, refl))
    by_state cancelled e = rw e (inl (refl, refl))
    by_state auditing e = rw e (
        inr (
          refl,
          audits-from (in_state auditing) (in_state auditing) now (record {
            new_mission = refl;
            same_graph = refl;
            same_queue = refl;
            same_workers = refl;
            same_workspaces = refl;
            same_auto_audit = refl;
            same_audit = refl;
            later_events = ([], sym (append_nil s.events));
          }),
        ))
    by_state executing e =
        rw e (inr (refl, audits-from (in_state executing) advanced now (starts executing refl)))
    by_state integrating e =
        rw e (inr (refl, audits-from (in_state integrating) advanced now (starts integrating refl)))
