-- ===== src/WorkerRegistry/Routes.antt =====
-- The task-to-worker routes of `WorkerRegistry` under any sequence of calls.
use adaptive_orchestrator.Base.{
  ℕ, ◌≡◌, refl, ◌≢◌, ◌↔◌, inl, inr, Bool, true, false, Option, none, some, List, [], ◌∷◌, arith,
  ◌==◌, if◌then◌else◌, Bool-cases, Option-cases, Dict, get, has, put, remove, get-put, get-remove,
}
use adaptive_orchestrator.Base.Int.{ℤ}
use adaptive_orchestrator.Errors.{ok, Result-cases}
use adaptive_orchestrator.Worker.{
  Worker, is_available, transition_worker, assign_task, same_task, retire,
}
use adaptive_orchestrator.WorkerRegistry.{
  WorkerRegistry, new_registry, route, unroute, register_worker, unregister_worker, store,
  retire_worker, assign_worker, finish_task, release_worker, get_worker_for_task,
  record_worker_reuse,
}

-- The task that the worker registered under an identifier holds.
abbrev pub held : Dict Worker → ℕ → Option ℕ
held ws k = elim (get ws k) [ none ↦ none | some w ↦ w.current_task_id ]

-- Each route leads from a task to a registered worker that holds the task.
abbrev pub IsRouted : WorkerRegistry → Type 0
IsRouted r = (task k : ℕ) → get r.task_to_worker task ≡ some k → held r.workers k ≡ some task

-- The calls that change a registry.
pub data Call : Type 0 where
  registers : Worker → Call
  unregisters : ℕ → Call
  retires : ℕ → ℕ → Call
  assigns : ℕ → ℕ → ℕ → Call
  releases : ℕ → Bool → ℤ → Bool → ℕ → Call
  records_reuse : Bool → Call

abbrev pub run : WorkerRegistry → Call → WorkerRegistry
run r (registers w) = (register_worker r w).0
run r (unregisters k) = (unregister_worker r k).0
run r (retires k now) = (retire_worker r k now).0
run r (assigns k task now) = (assign_worker r k task now).0
run r (releases k success duration worker_failed now) =
    (release_worker r k success duration worker_failed now).0
run r (records_reuse is_native) = record_worker_reuse r is_native

unfoldable pub run_all : WorkerRegistry → List Call → WorkerRegistry
run_all r [] = r
run_all r (c ∷ cs) = run_all (run r c) cs

pub held-put :
    (ws : Dict Worker) (k : ℕ) (w : Worker) (j : ℕ)
    → held (put ws k w) j ≡ (if k == j then w.current_task_id else held ws j)
held-put ws k w j = ground (arith, get-put ws k w j)

held-remove :
    (ws : Dict Worker) (k j : ℕ) → held (remove ws k) j ≡ (if k == j then none else held ws j)
held-remove ws k j = ground (arith, get-remove ws k j)

get-unroute :
    (d : Dict ℕ) (o : Option ℕ) (task : ℕ)
    → get (unroute d o) task ≡ (if same_task o task then none else get d task)
unfolding unroute same_task
get-unroute d none task = refl
get-unroute d (some t) task = get-remove d t task

get-route :
    (d : Dict ℕ) (o : Option ℕ) (k task : ℕ)
    → get (route d o k) task ≡ (if same_task o task then some k else get d task)
unfolding route same_task
get-route d none k task = refl
get-route d (some t) k task = get-put d t k task

same_task_lem : (o : Option ℕ) (task : ℕ) → (same_task o task ≡ true) ↔ (o ≡ some task)
unfolding same_task
same_task_lem none task = ground arith
same_task_lem (some t) task = ground arith

absent : (ws : Dict Worker) (k : ℕ) → has ws k ≡ false → held ws k ≡ none
unfolding has
absent ws k new = ground arith

module _ (r : WorkerRegistry) (h : IsRouted r) where
  register_worker-IsRouted : (w : Worker) → IsRouted (register_worker r w).0
  unfolding register_worker
  register_worker-IsRouted w task k = elim (Bool-cases (has r.workers w.worker_id)) [
    | inl old ↦ rw old (h task k)
    | inr new ↦ rw new (
        ground (
          arith,
          get-route r.task_to_worker w.current_task_id w.worker_id task,
          held-put r.workers w.worker_id w k,
          same_task_lem w.current_task_id task,
          h task k,
          absent r.workers w.worker_id new,
        ))
  ]

  module _ (j : ℕ) (w : Worker) (e : get r.workers j ≡ some w) where
    holds : held r.workers j ≡ w.current_task_id
    holds = ground arith

    -- Once the route of the task of the worker at `j` is gone, no route leads to `j`.
    cut :
        (task k : ℕ)
        → get (unroute r.task_to_worker w.current_task_id) task ≡ some k
        → (held r.workers k ≡ some task) × (j ≢ k)
    cut task k q = ground (
      arith,
      get-unroute r.task_to_worker w.current_task_id task,
      same_task_lem w.current_task_id task,
      h task k,
      holds,
    )

    IsRouted-cut :
        IsRouted (record r { task_to_worker = unroute r.task_to_worker w.current_task_id })
    IsRouted-cut task k q = (cut task k q).0

    IsRouted-remove : IsRouted (record r {
      workers = remove r.workers j;
      task_to_worker = unroute r.task_to_worker w.current_task_id;
    })
    IsRouted-remove task k q = ground (arith, cut task k q, held-remove r.workers j k)

    IsRouted-store :
        (v : Worker)
        → IsRouted
            (store (record r { task_to_worker = unroute r.task_to_worker w.current_task_id }) j v)
    unfolding store
    IsRouted-store v task k q = ground (arith, cut task k q, held-put r.workers j v k)

    IsRouted-finish :
        (t : ℕ)
        → w.current_task_id ≡ some t
        → (v : Worker)
        → IsRouted (store (record r { task_to_worker = unroute r.task_to_worker (some t) }) j v)
    IsRouted-finish t q v = rw q at (IsRouted-store v)

    free : (task now : ℕ) (u : Worker) → assign_task w task now ≡ ok u → w.current_task_id ≡ none
    unfolding assign_task is_available
    free task now u q = ground arith

    takes :
        (task now : ℕ) (u : Worker) → assign_task w task now ≡ ok u → u.current_task_id ≡ some task
    unfolding assign_task transition_worker
    takes task now u q = ground arith

    IsRouted-take :
        (t now : ℕ) (u : Worker)
        → assign_task w t now ≡ ok u
        → IsRouted (record (store r j u) { task_to_worker = put r.task_to_worker t j })
    unfolding store
    IsRouted-take t now u p task k q = ground (
      arith,
      free t now u p,
      takes t now u p,
      holds,
      h task k,
      get-put r.task_to_worker t j task,
      held-put r.workers j u k,
    )

  unregister_worker-IsRouted : (j : ℕ) → IsRouted (unregister_worker r j).0
  unfolding unregister_worker
  unregister_worker-IsRouted j = elim (Option-cases (get r.workers j)) [
    | inl gone ↦ rw (unregister_worker, gone) h
    | inr (w, e) ↦ rw (unregister_worker, e) (IsRouted-remove j w e)
  ]

  retire_worker-IsRouted : (j now : ℕ) → IsRouted (retire_worker r j now).0
  unfolding retire_worker
  retire_worker-IsRouted j now = elim (Option-cases (get r.workers j)) [
    | inl gone ↦ rw (retire_worker, gone) h
    | inr (w, e) ↦ elim (Result-cases (retire w now)) [
      | inl (u, p) ↦ rw (retire_worker, e, p) (IsRouted-store j w e u)
      | inr (x, p) ↦ rw (retire_worker, e, p) (IsRouted-cut j w e)
    ]
  ]

  assign_worker-IsRouted : (j t now : ℕ) → IsRouted (assign_worker r j t now).0
  unfolding assign_worker
  assign_worker-IsRouted j t now = elim (Option-cases (get r.workers j)) [
    | inl gone ↦ rw (assign_worker, gone) h
    | inr (w, e) ↦ elim (Result-cases (assign_task w t now)) [
      | inl (u, p) ↦ rw (assign_worker, e, p) (IsRouted-take j w e t now u p)
      | inr (x, p) ↦ rw (assign_worker, e, p) h
    ]
  ]

  release_worker-IsRouted :
      (j : ℕ) (success : Bool) (duration : ℤ) (worker_failed : Bool) (now : ℕ)
      → IsRouted (release_worker r j success duration worker_failed now).0
  unfolding release_worker
  release_worker-IsRouted j success duration worker_failed now =
      elim (Option-cases (get r.workers j)) [
        | inl gone ↦ rw (release_worker, gone) h
        | inr (w, e) ↦ elim (Option-cases w.current_task_id) [
          | inl vacant ↦ rw (release_worker, e, vacant) h
          | inr (t, q) ↦
              rw (release_worker, e, q)
                (IsRouted-finish j w e t q (finish_task w t success duration worker_failed now).0)
        ]
      ]

pub run-IsRouted : (r : WorkerRegistry) (c : Call) → IsRouted r → IsRouted (run r c)
unfolding record_worker_reuse
run-IsRouted r (registers w) h = register_worker-IsRouted r h w
run-IsRouted r (unregisters k) h = unregister_worker-IsRouted r h k
run-IsRouted r (retires k now) h = retire_worker-IsRouted r h k now
run-IsRouted r (assigns k task now) h = assign_worker-IsRouted r h k task now
run-IsRouted r (releases k success duration worker_failed now) h =
    release_worker-IsRouted r h k success duration worker_failed now
run-IsRouted r (records_reuse true) h = h
run-IsRouted r (records_reuse false) h = h

run_all-IsRouted : (r : WorkerRegistry) (cs : List Call) → IsRouted r → IsRouted (run_all r cs)
unfolding run_all
run_all-IsRouted r [] h = h
run_all-IsRouted r (c ∷ cs) h = run_all-IsRouted (run r c) cs (run-IsRouted r c h)

pub IsRouted-new : IsRouted new_registry
unfolding get
IsRouted-new task k e = ground arith

-- After any sequence of calls on a new registry, those that raise included, the worker that
-- `get_worker_for_task` finds for a task is one that holds this task.
pub get_worker_for_task-holds :
    (cs : List Call) (task : ℕ) (w : Worker)
    → get_worker_for_task (run_all new_registry cs) task ≡ some w
    → w.current_task_id ≡ some task
unfolding get_worker_for_task
get_worker_for_task-holds cs task w e =
    split (get (run_all new_registry cs).task_to_worker task) refl
  where
    split :
        (o : Option ℕ)
        → get (run_all new_registry cs).task_to_worker task ≡ o
        → w.current_task_id ≡ some task
    split none p = ground arith
    split (some k) p = ground (arith, run_all-IsRouted new_registry cs IsRouted-new task k p)
