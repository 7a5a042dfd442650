-- ===== src/WorkerRegistry.antt =====
-- orchestrator/workers/registry.py: `WorkerRegistry`. The worker objects are the values of the
-- registry's dictionary, and every write to one goes through the registry. The native sessions are
-- left out. Identifiers are numbers in the order of the strings, none of them empty. The names of
-- the errors, which only a log shows, are left out.
pub mod Routes
use adaptive_orchestrator.Base.{
  ℕ, ◌+◌, str_eq, String, Bool, true, false, not, ◌&&◌, Option, none, some, List, [], ◌∷◌, leb,
  if◌then◌else◌, length, keep, Dict, get, has, put, remove, values,
}
use adaptive_orchestrator.Base.Int.{ℤ, pos}
use adaptive_orchestrator.Errors.{duplicate_worker, worker_not_found, Result, ok, err, ◌>>=◌}
use adaptive_orchestrator.Worker.{
  Worker, is_idle, is_busy, assign_task, complete_task, fail_task, retire,
}

pub record WorkerRegistry : Type 0 where
  pub workers : Dict Worker
  pub task_to_worker : Dict ℕ
  pub internal_reuse_count : ℕ
  pub native_reuse_count : ℕ

abbrev pub new_registry : WorkerRegistry
new_registry = record {
  workers = [];
  task_to_worker = [];
  internal_reuse_count = 0;
  native_reuse_count = 0;
}

-- `self._task_to_worker[task] = worker_id`, for a task that may be None.
unfoldable pub route : Dict ℕ → Option ℕ → ℕ → Dict ℕ
route d none worker_id = d
route d (some task) worker_id = put d task worker_id

-- `if task and task in d: del d[task]`
unfoldable pub unroute : Dict ℕ → Option ℕ → Dict ℕ
unroute d none = d
unroute d (some task) = remove d task

unfoldable pub register_worker : WorkerRegistry → Worker → WorkerRegistry × Result (Unit {0})
unfolding route
register_worker r w = if has r.workers w.worker_id then (r, err duplicate_worker) else (
  record r {
    workers = put r.workers w.worker_id w;
    task_to_worker = route r.task_to_worker w.current_task_id w.worker_id;
  },
  ok tt,
)

unfoldable pub unregister_worker : WorkerRegistry → ℕ → WorkerRegistry × Result Worker
unfolding unroute
unregister_worker r worker_id = elim (get r.workers worker_id) [
  | none ↦ (r, err worker_not_found)
  | some w ↦ (
    record r {
      workers = remove r.workers worker_id;
      task_to_worker = unroute r.task_to_worker w.current_task_id;
    },
    ok w,
  )
]

unfoldable pub get_worker : WorkerRegistry → ℕ → Result Worker
get_worker r worker_id = elim (get r.workers worker_id) [
  | none ↦ err worker_not_found
  | some w ↦ ok w
]

unfoldable pub has_worker : WorkerRegistry → ℕ → Bool
has_worker r worker_id = has r.workers worker_id

-- The registry with the worker object written.
unfoldable pub store : WorkerRegistry → ℕ → Worker → WorkerRegistry
store r worker_id w = record r { workers = put r.workers worker_id w }

-- The route goes before the call of `worker.retire`; the worker's own task identifier stays.
unfoldable pub retire_worker : WorkerRegistry → ℕ → ℕ → WorkerRegistry × Result Worker
unfolding unroute store
retire_worker r worker_id now = elim (get r.workers worker_id) [
  | none ↦ (r, err worker_not_found)
  | some w ↦
      let cut = record r { task_to_worker = unroute r.task_to_worker w.current_task_id } in
      elim (retire w now) [
        | err e ↦ (cut, err e)
        | ok moved ↦ (store cut worker_id moved, ok moved)
      ]
]

-- `registry.assign_task`
unfoldable pub assign_worker : WorkerRegistry → ℕ → ℕ → ℕ → WorkerRegistry × Result Worker
unfolding store
assign_worker r worker_id task now = elim (get r.workers worker_id) [
  | none ↦ (r, err worker_not_found)
  | some w ↦ elim (assign_task w task now) [
    | err e ↦ (r, err e)
    | ok moved ↦ (
      record (store r worker_id moved) { task_to_worker = put r.task_to_worker task worker_id },
      ok moved,
    )
  ]
]

-- The call of `complete_task` or `fail_task` in `release_worker`, for a worker that has a task.
unfoldable pub finish_task : Worker → ℕ → Bool → ℤ → Bool → ℕ → Worker × Result (Unit {0})
finish_task w task success duration worker_failed now =
    if success
    then complete_task w task duration now
    else fail_task w task duration worker_failed now

unfoldable pub release_worker :
    WorkerRegistry → ℕ → Bool → ℤ → Bool → ℕ → WorkerRegistry × Result Worker
unfolding unroute store finish_task
release_worker r worker_id success duration worker_failed now = elim (get r.workers worker_id) [
  | none ↦ (r, err worker_not_found)
  | some w ↦ elim w.current_task_id [
    | none ↦ (r, ok w)
    | some task ↦
        let cut = record r { task_to_worker = unroute r.task_to_worker (some task) } in
        let done = finish_task w task success duration worker_failed now in
        (store cut worker_id done.0, done.1 >>= λ u. ok done.0)
  ]
]

-- `release`: no worker is no error.
unfoldable pub release : WorkerRegistry → ℕ → Bool → ℕ → WorkerRegistry × Result (Option Worker)
unfolding release_worker
release r worker_id success now =
    if not (has r.workers worker_id)
    then (r, ok none)
    else let out = release_worker r worker_id success (pos 0) false now in
      (out.0, out.1 >>= λ w. ok (some w))

unfoldable pub get_worker_for_task : WorkerRegistry → ℕ → Option Worker
get_worker_for_task r task = elim (get r.task_to_worker task) [
  | none ↦ none
  | some worker_id ↦ get r.workers worker_id
]

-- `sorted(workers, key=lambda w: w.worker_id)`
unfoldable pub insert_worker : Worker → List Worker → List Worker
insert_worker w [] = w ∷ []
insert_worker w (x ∷ xs) =
    let rest = insert_worker w xs in if leb w.worker_id x.worker_id then w ∷ x ∷ xs else x ∷ rest

unfoldable pub sort_workers : List Worker → List Worker
unfolding insert_worker
sort_workers [] = []
sort_workers (w ∷ ws) = insert_worker w (sort_workers ws)

unfoldable pub in_domain : Option String → Worker → Bool
in_domain none w = true
in_domain (some d) w = str_eq w.domain d

unfoldable pub get_idle_workers : WorkerRegistry → Option String → List Worker
unfolding sort_workers in_domain
get_idle_workers r domain =
    sort_workers (keep (λ w. is_idle w && in_domain domain w) (values r.workers))

unfoldable pub get_busy_workers : WorkerRegistry → List Worker
unfolding sort_workers
get_busy_workers r = sort_workers (keep is_busy (values r.workers))

unfoldable pub get_workers_by_domain : WorkerRegistry → String → List Worker
unfolding sort_workers in_domain
get_workers_by_domain r domain = sort_workers (keep (in_domain (some domain)) (values r.workers))

unfoldable pub all_workers : WorkerRegistry → List Worker
unfolding sort_workers
all_workers r = sort_workers (values r.workers)

unfoldable pub worker_count : WorkerRegistry → ℕ
worker_count r = length r.workers

unfoldable pub idle_count : WorkerRegistry → ℕ
idle_count r = length (keep is_idle (values r.workers))

unfoldable pub busy_count : WorkerRegistry → ℕ
busy_count r = length (keep is_busy (values r.workers))

unfoldable pub record_worker_reuse : WorkerRegistry → Bool → WorkerRegistry
record_worker_reuse r is_native =
    if is_native
    then record r { native_reuse_count = r.native_reuse_count + 1 }
    else record r { internal_reuse_count = r.internal_reuse_count + 1 }

unfoldable pub total_reuse_count : WorkerRegistry → ℕ
total_reuse_count r = r.internal_reuse_count + r.native_reuse_count
