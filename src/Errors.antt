-- ===== src/Errors.antt =====
-- orchestrator/exceptions.py: the exceptions that the modelled code raises, with Python's own
-- IndexError, KeyError and NameError where the code can meet them, and a result that is a value or
-- an exception.
use adaptive_orchestrator.Base.{◌≡◌, refl, ◌⊎◌, inl, inr, Bool, true, false}

pub data Error : Type 0 where
  duplicate_task task_not_found invalid_state_transition : Error
  dependency self_dependency cycle_detected unknown_dependency : Error
  duplicate_queue_entry task_not_ready : Error
  duplicate_worker worker_not_found invalid_worker_state : Error
  workspace_conflict workspace_acquisition workspace_not_found : Error
  value_error index_error key_error name_error : Error
  -- No exception of the program: the fuel that the model gives a loop is used up.
  out_of_fuel : Error

pub data Result {ℓ} (A : Type ℓ) : Type ℓ where
  ok : A → Result A
  err : Error → Result A

infixl 5 ◌>>=◌ ◌>>◌
abbrev pub ◌>>=◌ {ℓ κ} : {A : Type ℓ} {B : Type κ} → Result A → (A → Result B) → Result B
ok a >>= f = f a
err e >>= f = err e

abbrev pub ◌>>◌ {ℓ κ} : {A : Type ℓ} {B : Type κ} → Result A → Result B → Result B
m >> k = m >>= λ _. k

-- `if test: raise e`
abbrev pub raise_if : Bool → Error → Result (Unit {0})
raise_if true e = err e
raise_if false e = ok tt

pub Result-cases {ℓ} :
    {A : Type ℓ} (m : Result A) → ((a : A) × (m ≡ ok a)) ⊎ ((e : Error) × (m ≡ err e))
Result-cases (ok a) = inl (a, refl)
Result-cases (err e) = inr (e, refl)
