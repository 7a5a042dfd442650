-- ===== src/Aimd/Bounds.antt =====
-- The capacity stays within its bounds.
use native.Mathlib.Nat.{div-le_of_le-mul}
use adaptive_orchestrator.Base.{ℕ, ◌*◌, ◌/◌, ◌≤◌, ◌<◌, ◌≡◌, ◌↔◌, true, List, [], ◌∷◌, arith}
use adaptive_orchestrator.Errors.{ok}
use adaptive_orchestrator.Feedback.{
  FeedbackSignalType, task_completed, task_failed, rate_limit_error, worker_failed, FeedbackSignal,
}
use adaptive_orchestrator.Aimd.{
  AimdConfig, validate, AimdController, initial, apply_additive_increase,
  apply_multiplicative_decrease, on_completed, on_failed, on_kind, process_feedback, force_capacity,
}

pub record IsValid (c : AimdConfig) : Type 0 where
  pub min_pos : 1 ≤ c.min_capacity
  pub initial_ge : c.min_capacity ≤ c.initial_capacity
  pub initial_le : c.initial_capacity ≤ c.max_capacity
  pub step_pos : 1 ≤ c.increase_step
  pub num_pos : 1 ≤ c.decrease_num
  pub num_lt : c.decrease_num < c.decrease_den
  pub threshold_pos : 1 ≤ c.healthy_threshold

-- A configuration that `__post_init__` lets pass is valid, and a valid one passes.
pub validate_iff : (c : AimdConfig) → (validate c ≡ ok tt) ↔ IsValid c
unfolding validate
validate_iff c = (λ h. ground arith, λ v. ground arith)

pub record IsWithin (a : AimdController) : Type 0 where
  pub at_least : a.config.min_capacity ≤ a.capacity
  pub at_most : a.capacity ≤ a.config.max_capacity
  pub valid : IsValid a.config

increase-IsWithin : (a : AimdController) → IsWithin a → IsWithin (apply_additive_increase a)
unfolding apply_additive_increase
increase-IsWithin a w = ground arith

-- The product with a fraction below 1, rounded down, is no more than the number.
scaled_le : (x n d : ℕ) → n < d → x * n / d ≤ x
scaled_le x n d h = div-le_of_le-mul d (grind arith)

decrease-IsWithin : (a : AimdController) → IsWithin a → IsWithin (apply_multiplicative_decrease a)
unfolding apply_multiplicative_decrease
decrease-IsWithin a w =
    ground (arith, scaled_le a.capacity a.config.decrease_num a.config.decrease_den w.valid.num_lt)

pub on_completed-IsWithin : (a : AimdController) → IsWithin a → IsWithin (on_completed a)
unfolding on_completed
on_completed-IsWithin a w = ground arith

on_failed-IsWithin : (a : AimdController) → IsWithin a → IsWithin (on_failed a)
unfolding on_failed
on_failed-IsWithin a w =
    ground (arith, scaled_le a.capacity a.config.decrease_num a.config.decrease_den w.valid.num_lt)

on_kind-IsWithin :
    (kind : FeedbackSignalType) (a : AimdController) → IsWithin a → IsWithin (on_kind kind a)
unfolding on_kind
on_kind-IsWithin rate_limit_error a w = decrease-IsWithin a w
on_kind-IsWithin task_completed a w = on_completed-IsWithin a w
on_kind-IsWithin task_failed a w = on_failed-IsWithin a w
on_kind-IsWithin worker_failed a w = on_failed-IsWithin a w
on_kind-IsWithin _ a w = w

-- A signal of any kind keeps the capacity within its bounds.
process_feedback-IsWithin :
    (a : AimdController) (signal : FeedbackSignal)
    → IsWithin a
    → IsWithin (process_feedback a signal)
unfolding process_feedback
process_feedback-IsWithin a s w =
    ground (arith, decrease-IsWithin a w, on_kind-IsWithin s.signal_type a w)

unfoldable pub process_all : AimdController → List FeedbackSignal → AimdController
process_all a [] = a
process_all a (s ∷ rest) = process_all (process_feedback a s) rest

initial-IsWithin : (c : AimdConfig) → IsValid c → IsWithin (initial c)
unfolding initial
initial-IsWithin c v = record { at_least = v.initial_ge; at_most = v.initial_le; valid = v }

-- From a configuration that the constructor accepts, the capacity lies between the configured
-- minimum and maximum after any sequence of signals, and a forced capacity does too.
pub capacity_bounds :
    (c : AimdConfig) (signals : List FeedbackSignal) (forced : ℕ)
    → validate c ≡ ok tt
    → IsWithin (process_all (initial c) signals)
      × IsWithin (force_capacity (process_all (initial c) signals) forced)
unfolding force_capacity process_all
capacity_bounds c signals forced h =
    let w = all_within (initial c) signals (initial-IsWithin c ((validate_iff c).0 h)) in
    (w, ground arith)
  where
    all_within :
        (a : AimdController) (ss : List FeedbackSignal) → IsWithin a → IsWithin (process_all a ss)
    all_within a [] w = w
    all_within a (s ∷ rest) w =
        all_within (process_feedback a s) rest (process_feedback-IsWithin a s w)

-- In a controller within its bounds, a signal that is a capacity error, of any kind, never raises
-- the capacity and starts the cooldown.
pub capacity_error_lowers :
    (a : AimdController) (signal : FeedbackSignal)
    → IsWithin a
    → signal.is_capacity_error ≡ true
    → ((process_feedback a signal).capacity ≤ a.capacity)
      × ((process_feedback a signal).cooldown_remaining ≡ a.config.cooldown_steps)
unfolding process_feedback
capacity_error_lowers a s w h =
    ground (arith, scaled_le a.capacity a.config.decrease_num a.config.decrease_den w.valid.num_lt)
