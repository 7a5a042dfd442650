-- ===== src/Checkpoint/Throttle.antt =====
-- How far apart the checkpoints of a policy are.
use adaptive_orchestrator.Base.{
  ℕ, ◌+◌, ◌≤◌, ◌<◌, ◌≡◌, inl, inr, true, false, List, [], ◌∷◌, arith, if◌then◌else◌, Bool-cases,
}
use adaptive_orchestrator.Checkpoint.{
  CheckpointTrigger, explicit, CheckpointPolicy, same_trigger, should_checkpoint,
}

-- The requests that the policy grants, of a sequence of requests with their times.
unfoldable pub granted :
    CheckpointPolicy → List (CheckpointTrigger × ℕ) → List (CheckpointTrigger × ℕ)
unfolding should_checkpoint
granted p [] = []
granted p ((trigger, now) ∷ rest) =
    let out = should_checkpoint p trigger now in
    let later = granted out.0 rest in if out.1 then (trigger, now) ∷ later else later

-- Each checkpoint that was not asked for explicitly comes at least `gap` after the one before.
abbrev pub IsSpaced : ℕ → ℕ → List (CheckpointTrigger × ℕ) → Type 0
IsSpaced gap last [] = Unit
IsSpaced gap last ((trigger, now) ∷ rest) =
    (same_trigger trigger explicit ≡ false → last + gap ≤ now) × IsSpaced gap now rest

module _ (p : CheckpointPolicy) (trigger : CheckpointTrigger) (now : ℕ) where
  refused : (should_checkpoint p trigger now).1 ≡ false → (should_checkpoint p trigger now).0 ≡ p
  unfolding should_checkpoint
  refused e = ground arith

  accepted :
      (should_checkpoint p trigger now).1 ≡ true
      → (should_checkpoint p trigger now).0 ≡ record p { last_checkpoint_time = now }
  unfolding should_checkpoint
  accepted e = ground arith

  spaced :
      0 < p.min_interval
      → (should_checkpoint p trigger now).1 ≡ true
      → same_trigger trigger explicit ≡ false
      → p.last_checkpoint_time + p.min_interval ≤ now
  unfolding should_checkpoint
  spaced h e n = ground arith

-- Whatever is asked of a policy with a positive interval, a checkpoint that is not EXPLICIT comes at
-- least that interval after the last checkpoint of any kind.
pub granted-IsSpaced :
    (p : CheckpointPolicy) (requests : List (CheckpointTrigger × ℕ))
    → 0 < p.min_interval
    → IsSpaced p.min_interval p.last_checkpoint_time (granted p requests)
unfolding granted
granted-IsSpaced p [] h = tt
granted-IsSpaced p ((trigger, now) ∷ rest) h =
    elim (Bool-cases (should_checkpoint p trigger now).1) [
      | inl e ↦
          rw (granted, e, accepted p trigger now e)
            (
              spaced p trigger now h e,
              granted-IsSpaced (record p { last_checkpoint_time = now }) rest h,
            )
      | inr e ↦ rw (granted, e, refused p trigger now e) (granted-IsSpaced p rest h)
    ]
