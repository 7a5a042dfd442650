-- ===== src/Aimd/Recovery.antt =====
-- How the controller recovers: the cooldown holds the capacity, and healthy completions raise it.
use adaptive_orchestrator.Base.{
  ℕ, zero, suc, ◌+◌, ◌≤◌, ◌<◌, min, ◌≡◌, refl, ◌∙◌, ◌⊎◌, inl, inr, arith,
}
use adaptive_orchestrator.Aimd.{AimdController, on_completed}
use adaptive_orchestrator.Aimd.Bounds.{IsWithin, on_completed-IsWithin}

-- `n` completed tasks, none with a capacity error.
unfoldable pub completions : ℕ → AimdController → AimdController
completions zero a = a
completions (suc n) a = completions n (on_completed a)

-- As long as they are no more than the steps of the cooldown that remain, completed tasks do not
-- change the capacity, and each takes one step off.
pub cooldown_holds :
    (n : ℕ) (a : AimdController)
    → n ≤ a.cooldown_remaining
    → ((completions n a).capacity ≡ a.capacity)
      × ((completions n a).cooldown_remaining + n ≡ a.cooldown_remaining)
unfolding completions
cooldown_holds zero a h = (refl, omega arith)
cooldown_holds (suc n) a h =
    let (same, left) = step a (omega arith) in
    let (cap, cool) = cooldown_holds n (on_completed a) (omega arith) in (cap ∙ same, omega arith)
  where
    step :
        (b : AimdController)
        → 0 < b.cooldown_remaining
        → ((on_completed b).capacity ≡ b.capacity)
          × ((on_completed b).cooldown_remaining + 1 ≡ b.cooldown_remaining)
    step b p = unfold on_completed in ground arith

config-on_completed : (a : AimdController) → (on_completed a).config ≡ a.config
unfolding on_completed
config-on_completed a = ground arith

grows : (a : AimdController) → IsWithin a → a.capacity ≤ (on_completed a).capacity
unfolding on_completed
grows a w = ground arith

completions_grow :
    (n : ℕ) (a : AimdController) → IsWithin a → a.capacity ≤ (completions n a).capacity
unfolding completions
completions_grow zero a w = omega arith
completions_grow (suc n) a w =
    omega (arith, grows a w, completions_grow n (on_completed a) (on_completed-IsWithin a w))

-- The capacity that one additive increase aims at.
abbrev pub raised : AimdController → ℕ
raised a = min a.config.max_capacity (a.capacity + a.config.increase_step)

healthy_step :
    (a : AimdController)
    → a.cooldown_remaining ≡ 0
    → (raised a ≤ (on_completed a).capacity)
      ⊎ (((on_completed a).capacity ≡ a.capacity)
          × ((on_completed a).cooldown_remaining ≡ 0)
          × ((on_completed a).consecutive_successes ≡ a.consecutive_successes + 1)
          × (a.consecutive_successes + 1 < a.config.healthy_threshold))
unfolding on_completed
healthy_step a h = ground arith

healthy :
    (n : ℕ) (a : AimdController)
    → IsWithin a
    → a.cooldown_remaining ≡ 0
    → 1 ≤ n
    → a.config.healthy_threshold ≤ a.consecutive_successes + n
    → raised a ≤ (completions n a).capacity
unfolding completions
healthy zero a w c p h = absurd (omega arith)
healthy (suc n) a w c p h = elim (healthy_step a c) [
  | inl up ↦ omega (arith, up, completions_grow n (on_completed a) (on_completed-IsWithin a w))
  | inr (cap, cool, succ, lt) ↦ rw (same cap) (
      healthy n (on_completed a) (on_completed-IsWithin a w) cool (omega arith)
        (rw (config-on_completed a, succ) (omega arith)))
]
  where
    same : (on_completed a).capacity ≡ a.capacity → raised a ≡ raised (on_completed a)
    same cap = rw (config-on_completed a, cap)

completions-config : (n : ℕ) (a : AimdController) → (completions n a).config ≡ a.config
unfolding completions
completions-config zero a = refl
completions-config (suc n) a = completions-config n (on_completed a) ∙ config-on_completed a

completions-IsWithin : (n : ℕ) (a : AimdController) → IsWithin a → IsWithin (completions n a)
unfolding completions
completions-IsWithin zero a w = w
completions-IsWithin (suc n) a w =
    completions-IsWithin n (on_completed a) (on_completed-IsWithin a w)

-- A controller within its bounds recovers: when the cooldown has been served by completed tasks, a number of further
-- completions equal to the healthy threshold raises the capacity by the increase step, or to the
-- maximum.
pub recovers :
    (a : AimdController)
    → IsWithin a
    → raised a
      ≤ (completions a.config.healthy_threshold (completions a.cooldown_remaining a)).capacity
recovers a w =
    let b = completions a.cooldown_remaining a in
    let (cap, cool) = cooldown_holds a.cooldown_remaining a (omega arith) in
    let same : raised a ≡ raised b = rw (completions-config a.cooldown_remaining a, cap) in
    rw same (
      healthy a.config.healthy_threshold b (completions-IsWithin a.cooldown_remaining a w)
        (omega arith) w.valid.threshold_pos
        (rw (completions-config a.cooldown_remaining a) (omega arith)))
