-- ===== src/Engine/Runs.antt =====
-- How a sequence of calls runs.
use adaptive_orchestrator.Base.{ℕ, ◌≡◌, refl, some, get, put}
use adaptive_orchestrator.Engine.State.{MissionEngine, Action, ◌>>=◌, ◌>>◌, update}
use adaptive_orchestrator.Errors.{Error, Result, ok, err}
use adaptive_orchestrator.Task.{Task}

pub run-bind {ℓ κ} :
    {A : Type ℓ} {B : Type κ} (m : Action A) (f : A → Action B) (s : MissionEngine) (a : A)
    → (m s).1 ≡ ok a
    → (m >>= f) s ≡ f a (m s).0
unfolding ◌>>=◌
run-bind m f s a e = rw (◌>>=◌, e) refl

pub run-then {ℓ κ} :
    {A : Type ℓ} {B : Type κ} (m : Action A) (n : Action B) (s : MissionEngine) (a : A)
    → (m s).1 ≡ ok a
    → (m >> n) s ≡ n (m s).0
unfolding ◌>>◌
run-then m n s a e = run-bind m (λ x. n) s a e

-- The first call raises.
pub run-raises {ℓ κ} :
    {A : Type ℓ} {B : Type κ} (m : Action A) (f : A → Action B) (s : MissionEngine) (x : Error)
    → (m s).1 ≡ err x
    → (m >>= f) s ≡ ((m s).0, err x)
unfolding ◌>>=◌
run-raises m f s x e = rw (◌>>=◌, e) refl

pub run-stops {ℓ κ} :
    {A : Type ℓ} {B : Type κ} (m : Action A) (n : Action B) (s : MissionEngine) (x : Error)
    → (m s).1 ≡ err x
    → (m >> n) s ≡ ((m s).0, err x)
unfolding ◌>>◌
run-stops m n s x e = run-raises m (λ a. n) s x e

-- A change of a task that is there.
pub run-update :
    (k : ℕ) (f : Task → Result Task) (s : MissionEngine) (t u : Task)
    → get s.graph k ≡ some t
    → f t ≡ ok u
    → update k f s ≡ (record s { graph = put s.graph k u }, ok u)
unfolding update
run-update k f s t u e q = rw (update, e, q) refl

pub run-refused :
    (k : ℕ) (f : Task → Result Task) (s : MissionEngine) (t : Task) (x : Error)
    → get s.graph k ≡ some t
    → f t ≡ err x
    → update k f s ≡ (s, err x)
unfolding update
run-refused k f s t x e q = rw (update, e, q) refl
