-- ===== src/Feedback/Window.antt =====
-- The sliding window of the collector.
use adaptive_orchestrator.Base.{
  ℕ, zero, suc, ◌-◌, ◌≤◌, min, ◌≡◌, refl, ap, ◌∙◌, false, List, [], ◌∷◌, ◌++◌, arith, ◌==◌, length,
  length-append,
}
use adaptive_orchestrator.Base.Int.{ℤ, pos, negsuc}
use adaptive_orchestrator.Feedback.{
  FeedbackSignalType, task_completed, FeedbackSignal, FeedbackCollector, drop_first, slide,
  count_signal, record_signal, drop, recent_signals,
}

length-drop_first : (xs : List FeedbackSignal) → length (drop_first xs) ≡ length xs - 1
unfolding drop_first
length-drop_first [] = omega arith
length-drop_first (x ∷ xs) = omega arith

length-drop : (n : ℕ) (xs : List FeedbackSignal) → length (drop n xs) ≡ length xs - n
unfolding drop
length-drop zero xs = omega arith
length-drop (suc n) [] = omega arith
length-drop (suc n) (x ∷ xs) = omega (arith, length-drop n xs)

length-slide :
    (n : ℕ) (xs : List FeedbackSignal) (s : FeedbackSignal)
    → length xs ≤ n
    → length (slide n xs s) ≤ n
unfolding slide
length-slide n xs s h = ground (arith, length-append xs (s ∷ []), length-drop_first (xs ++ s ∷ []))

signals-count_signal :
    (c : FeedbackCollector) (s : FeedbackSignal) (t : FeedbackSignalType)
    → ((count_signal c s t).signals ≡ c.signals)
      × ((count_signal c s t).window_size ≡ c.window_size)
unfolding count_signal
signals-count_signal c s task_completed = (refl, refl)
signals-count_signal c s _ = (refl, refl)

record_signal-window :
    (c : FeedbackCollector) (s : FeedbackSignal)
    → length c.signals ≤ c.window_size
    → (length (record_signal c s).signals ≤ c.window_size)
      × ((record_signal c s).window_size ≡ c.window_size)
unfolding record_signal
record_signal-window c s h =
    let slid = record c { signals = slide c.window_size c.signals s } in
    let same = signals-count_signal slid s s.signal_type in
    (rw same.0 (length-slide c.window_size c.signals s h), same.1)

-- Signals recorded one after the other.
unfoldable pub record_all : FeedbackCollector → List FeedbackSignal → FeedbackCollector
record_all c [] = c
record_all c (s ∷ rest) = record_all (record_signal c s) rest

-- Whatever is recorded, a collector that holds no more signals than its window holds no more than
-- that afterwards, and the window stays the same.
pub record_all-window :
    (c : FeedbackCollector) (signals : List FeedbackSignal)
    → length c.signals ≤ c.window_size
    → (length (record_all c signals).signals ≤ c.window_size)
      × ((record_all c signals).window_size ≡ c.window_size)
unfolding record_all
record_all-window c [] h = (h, refl)
record_all-window c (s ∷ rest) h =
    let step = record_signal-window c s h in
    let more = record_all-window (record_signal c s) rest (omega arith) in
    (omega (arith, step.1, more.0), more.1 ∙ step.1)

-- How many signals a limit asks for, of `n` signals.
abbrev pub asked : ℤ → ℕ → ℕ
asked (pos zero) n = n
asked (pos (suc m)) n = min (suc m) n
asked (negsuc m) n = n - suc m

-- `recent` is the end of the list, of the given length.
pub record IsEnd (n : ℕ) (all recent : List FeedbackSignal) : Type 0 where
  pub latest : (older : List FeedbackSignal) × (all ≡ older ++ recent)
  pub how_many : length recent ≡ n

drop-latest :
    (n : ℕ) (xs : List FeedbackSignal) → (older : List FeedbackSignal) × (xs ≡ older ++ drop n xs)
unfolding drop
drop-latest zero xs = ([], refl)
drop-latest (suc n) [] = ([], refl)
drop-latest (suc n) (x ∷ xs) = let (older, e) = drop-latest n xs in (x ∷ older, ap (λ l. x ∷ l) e)

-- `recent_signals` returns the latest signals of the window: as many as a positive limit asks for, or
-- the whole window if it holds fewer or the limit is 0, and all but the first n at the limit -n.
pub recent_signals-IsEnd :
    (c : FeedbackCollector) (limit : ℤ)
    → IsEnd (asked limit (length c.signals)) c.signals (recent_signals c limit)
unfolding recent_signals
recent_signals-IsEnd c (pos zero) = record { latest = ([], refl); how_many = refl }
recent_signals-IsEnd c (pos (suc m)) = record {
  latest = rw positive (drop-latest (length c.signals - suc m) c.signals);
  how_many = rw positive (ground (arith, length-drop (length c.signals - suc m) c.signals));
}
  where
    positive : (suc m == 0) ≡ false
    positive = ground arith
recent_signals-IsEnd c (negsuc m) = record {
  latest = drop-latest (suc m) c.signals;
  how_many = length-drop (suc m) c.signals;
}
