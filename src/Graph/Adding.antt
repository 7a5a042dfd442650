-- ===== src/Graph/Adding.antt =====
-- `add_task`: a task with known dependencies and no dependents of its own is always taken in.
use adaptive_orchestrator.Base.{
  ℕ, ◌≡◌, refl, ap, ◌∙◌, ◌≢◌, ◌⊎◌, inl, inr, Bool, true, false, ◌&&◌, ◌||◌, Option, none, List, [],
  ◌∷◌, arith, ◌==◌, if◌then◌else◌, ==_iff, Bool-cases, every, contains, has, put, get-put,
}
use adaptive_orchestrator.Errors.{Result, ok}
use adaptive_orchestrator.Task.{Task}
use adaptive_orchestrator.Graph.Defs.{Graph, dependents_of, dependencies_of, modify, add_dependent}
use adaptive_orchestrator.Graph.Cycles.{detect_cycle}
use adaptive_orchestrator.Graph.Edits.{for_each, link_task, add_task}
use adaptive_orchestrator.Graph.Search.{Reaches, edge, step}
use adaptive_orchestrator.Graph.Acyclic.{
  IsAcyclic, Decides, has_cycle, no_cycle, detect_cycle-Decides,
}
use adaptive_orchestrator.Graph.Writes.{
  has-modify, dependencies-add_dependent, dependents-add_dependent,
}
use adaptive_orchestrator.Graph.Invariant.{IsLinked, IsSound}

every-contains :
    (p : ℕ → Bool) (xs : List ℕ) (x : ℕ) → every p xs ≡ true → contains xs x ≡ true → p x ≡ true
unfolding every contains
every-contains p [] x h e = cc
every-contains p (y ∷ ys) x h e = elim (Bool-cases (x == y)) [
  | inl same ↦ let q : x ≡ y = (==_iff x y).0 same in rw q (ground arith)
  | inr other ↦ every-contains p ys x (ground arith) (rw other at e)
]

-- The loop that adds `id` to the dependents of the tasks `ds`.
module _ (id : ℕ) where
  abbrev link : List ℕ → Graph → Graph
  link = for_each (λ d h. modify h d (add_dependent id))

  dependencies-link :
      (ds : List ℕ) (h : Graph) (x y : ℕ)
      → contains (dependencies_of (link ds h) y) x ≡ contains (dependencies_of h y) x
  unfolding for_each
  dependencies-link [] h x y = refl
  dependencies-link (d ∷ ds) h x y =
      dependencies-link ds (modify h d (add_dependent id)) x y
      ∙ dependencies-add_dependent h d id y x

  dependents-link :
      (ds : List ℕ) (h : Graph) (x y : ℕ)
      → contains (dependents_of (link ds h) x) y
        ≡ ((y == id && (contains ds x && has h x)) || contains (dependents_of h x) y)
  unfolding for_each contains
  dependents-link [] h x y = ground arith
  dependents-link (d ∷ ds) h x y =
      dependents-link ds (modify h d (add_dependent id)) x y
      ∙ ground (
        arith,
        dependents-add_dependent h d id x y,
        has-modify h d id x (add_dependent id),
        same x,
      )
    where
      same : (z : ℕ) → z ≡ d → has h z ≡ has h d
      same z e = ap (has h) e

module _ (g : Graph) (task : Task) (new : has g task.task_id ≡ false)
    (known : every (λ d. has g d) task.dependencies ≡ true) (no_dependents : task.dependents ≡ [])
    (sound : IsSound g) where
  abbrev id : ℕ
  id = task.task_id

  known_dependency : (x : ℕ) → contains task.dependencies x ≡ true → has g x ≡ true
  known_dependency x e = every-contains (λ d. has g d) task.dependencies x known e

  dependencies-link_task :
      (x y : ℕ)
      → contains (dependencies_of (link_task g task) y) x
        ≡ (if id == y then contains task.dependencies x else contains (dependencies_of g y) x)
  unfolding link_task dependencies_of
  dependencies-link_task x y =
      dependencies-link id task.dependencies (put g id task) x y
      ∙ ground (arith, get-put g id task y)

  -- No edge of the graph ends or starts at an identifier that it does not have.
  outside : (x : ℕ) → contains (dependencies_of g id) x ≡ false
  unfolding dependencies_of has contains
  outside x = ground arith

  outside' : (y : ℕ) → contains (dependents_of g id) y ≡ false
  unfolding dependents_of has contains
  outside' y = ground arith

  dependents-link_task :
      (x y : ℕ)
      → contains (dependents_of (link_task g task) x) y
        ≡ ((id == y && contains task.dependencies x) || contains (dependents_of g x) y)
  unfolding link_task dependents_of has contains
  dependents-link_task x y =
      dependents-link id task.dependencies (put g id task) x y
      ∙ ground (arith, get-put g id task x, known_dependency x, outside' y)

  IsLinked-link_task : IsLinked (link_task g task)
  IsLinked-link_task x y = ground (
    arith,
    dependencies-link_task x y,
    dependents-link_task x y,
    sound.linked x y,
    outside x,
    sound.linked x id,
  )

  no_way_out : (y : ℕ) → contains (dependents_of (link_task g task) id) y ≡ false
  no_way_out y = ground (arith, dependents-link_task id y, outside' y, known_dependency id)

  old_edge :
      (x y : ℕ)
      → contains (dependents_of (link_task g task) x) y ≡ true
      → id ≢ y
      → contains (dependents_of g x) y ≡ true
  old_edge x y e n = ground (arith, dependents-link_task x y)

  -- A path that does not end at the new task was there before.
  old_path :
      {x y : ℕ}
      → Reaches (dependents_of (link_task g task)) x y
      → id ≢ y
      → Reaches (dependents_of g) x y
  old_path (edge {a = a} {b = b} e) n = edge (old_edge a b e n)
  old_path (step {a = a} {b = b} e r) n = step (old_edge a b e (leaves r)) (old_path r n)
    where
      leaves : {u v : ℕ} → Reaches (dependents_of (link_task g task)) u v → id ≢ u
      leaves (edge {a = u} {b = v} q) p = cc (no_way_out v, rw (← p) at q)
      leaves (step {a = u} {b = v} q s) p = cc (no_way_out v, rw (← p) at q)

  IsAcyclic-link_task : IsAcyclic (link_task g task)
  IsAcyclic-link_task k loop = sound.acyclic k (old_path loop (leaves loop))
    where
      leaves : {u v : ℕ} → Reaches (dependents_of (link_task g task)) u v → id ≢ u
      leaves (edge {a = u} {b = v} q) p = cc (no_way_out v, rw (← p) at q)
      leaves (step {a = u} {b = v} q s) p = cc (no_way_out v, rw (← p) at q)

  IsSound-link_task : IsSound (link_task g task)
  IsSound-link_task = record { linked = IsLinked-link_task; acyclic = IsAcyclic-link_task }

  no_cycle_found : detect_cycle (link_task g task) ≡ none
  no_cycle_found = settle (detect_cycle-Decides (link_task g task))
    where
      settle : {c : Option (List ℕ)} → Decides (link_task g task) c → c ≡ none
      settle (has_cycle c v r) = absurd (IsAcyclic-link_task v r)
      settle (no_cycle h) = refl

-- The outcome of `add_task` for a task that is taken in.
pub record IsAdded (g : Graph) (task : Task) (outcome : Graph × Result (Unit {0})) : Type 0 where
  pub returns : outcome.1 ≡ ok tt
  pub sound : IsSound outcome.0
  pub edges :
      (x y : ℕ)
      → contains (dependencies_of outcome.0 y) x ≡ (
          if task.task_id == y
          then contains task.dependencies x
          else contains (dependencies_of g y) x)

-- In a linked and acyclic graph `add_task` takes a task that has a new identifier, known
-- dependencies and no dependents of its own: it returns, the task has its dependencies, those of
-- the other tasks are as before, and the graph is linked and acyclic again.
pub add_task-IsAdded :
    (g : Graph) (task : Task)
    → IsSound g
    → task.dependents ≡ []
    → has g task.task_id ≡ false
    → every (λ d. has g d) task.dependencies ≡ true
    → IsAdded g task (add_task g task)
unfolding add_task
add_task-IsAdded g task s fresh new known =
    rw (new, known, no_cycle_found g task new known fresh s)
      (record {
        returns = refl;
        sound = IsSound-link_task g task new known fresh s;
        edges = dependencies-link_task g task new known fresh s;
      })

-- A refused `add_task` leaves the graph as it was: the guards stand before every write.
pub add_task_refused :
    (g : Graph) (task : Task)
    → (has g task.task_id ≡ true) ⊎ (every (λ d. has g d) task.dependencies ≡ false)
    → (add_task g task).0 ≡ g
unfolding add_task
add_task_refused g task h = ground arith
