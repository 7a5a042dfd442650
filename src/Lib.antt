-- ===== src/Lib.antt =====
-- A verification library for the core of the adaptive orchestrator: the task and mission state
-- machines, the dependency graph, the readiness of tasks, the ready queue, the capacity control, the
-- pool of workers, the exclusive workspaces, the merge queue, the mission engine that drives them, and
-- the policies for routing, verification and checkpoints.
--
-- How the program works. A mission is a graph of tasks (orchestrator/graph/dag.py). The resolver
-- (orchestrator/resolver.py) makes READY the tasks whose dependencies have succeeded; the ready queue
-- (orchestrator/scheduler/ready_queue.py) orders them; the affinity policy
-- (orchestrator/workers/affinity.py) chooses an idle worker of the registry
-- (orchestrator/workers/registry.py) for the next one; the feedback of the runs
-- (orchestrator/scheduler/feedback.py) moves the capacity of the controller
-- (orchestrator/scheduler/aimd.py). A task that runs owns a workspace
-- (orchestrator/workspace/registry.py), which is refused where its write set overlaps that of another
-- (orchestrator/workspace/collision.py); its branch is merged by the merge queue
-- (orchestrator/integration/queue.py), one at a time. The mission engine (orchestrator/engine.py)
-- keeps the mission, the graph, the queue, the workers, the workspaces and the events, and its calls
-- move all of these together. The budget ledger (scripts/budget_ledger.py) keeps the physical workers
-- within a capacity and a budget.
--
-- Base             helpers: tests on numbers, lists, dictionaries as association lists, integers.
-- Errors           orchestrator/exceptions.py as one type, and results that are a value or an error.
-- Task, Mission    orchestrator/models.py: states, transition tables and transition_to.
-- Graph            orchestrator/graph/dag.py. Defs holds the look-ups and closures, Cycles the
--                  search of detect_cycle, Edits the writing methods and validate_integrity, Order
--                  topological_sort; the other children are proofs.
-- Mutations        orchestrator/graph/mutations.py: invalidate_task.
-- Resolver         orchestrator/resolver.py.
-- ReadyQueue       orchestrator/scheduler/ready_queue.py; `discard` is its method remove.
-- Feedback, Aimd   orchestrator/scheduler/feedback.py and aimd.py.
-- Ledger           scripts/budget_ledger.py.
-- VerificationPolicy
--                  orchestrator/verification/policy.py.
-- Repair           orchestrator/verification/repair.py, and the evidence and the truncation of
--                  orchestrator/verification/models.py. The children are proofs.
-- Router           orchestrator/routing/router.py and models.py.
-- Checkpoint       orchestrator/persistence/checkpoint.py.
-- Worker, WorkerRegistry, Affinity
--                  orchestrator/workers/models.py, registry.py and affinity.py; the method
--                  assign_task of the registry is `assign_worker`, and its record_reuse is
--                  `record_worker_reuse`.
-- FilePaths, Collision
--                  orchestrator/workspace/collision.py: normalize_path, and the overlaps of paths and
--                  of write sets.
-- Workspace        orchestrator/workspace/registry.py and models.py; its method release is
--                  `release_workspace`. The children are proofs.
-- MergeQueue       orchestrator/integration/queue.py and models.py; enqueue is `enqueue_task` for a
--                  task and `enqueue_request` for a request. The children are proofs.
-- Engine           orchestrator/engine.py. State holds the engine and the calls' monad, Lifecycle the
--                  phases of the mission, Tasks mark_task_assigned to mark_task_cancelled, Plan
--                  add_task (`create_task`), add_dependency (`depend_on`), remove_dependency
--                  (`drop_dependency`) and invalidate_task (`invalidate`), Pool register_worker
--                  (`join`), assign_next and handle_worker_failure. Calls lists all calls, and what
--                  each single change keeps (Guards) carries over to every sequence of them.
-- Scenarios        concrete inputs, and the theorems at them.
--
-- Conventions. Identifiers are natural numbers in the order of the strings. A time is a number of
-- ticks and is an argument where the code asks the clock. A method that writes returns the state as
-- it leaves it beside a result, so that what a raised exception leaves behind is visible. Sets of
-- identifiers are lists that are looked at only through membership or sorted. A path is the list of
-- its code points, which are made lower case for ASCII only, and fnmatch is a parameter. A call of the
-- engine takes the engine to the engine that it leaves and a value or an error; the verdict of the
-- victory audit is a field of the engine, and whether an error text looks transient is an argument.
-- What the merge queue calls is the interface Host: the merge adapter, the emitter, the task objects,
-- the workspaces and the callbacks. The emitter and the callbacks take the queue and give it back, so
-- that a callback may enqueue, and may raise. The items of the ready queue are kept in order, as a heap
-- gives them out; the snapshot is taken of them in any arrangement. The quotas of the ledger and the
-- limit of recent_signals are integers, negative ones included.
--
-- Fuel. The depth-first search has one more than the number of tasks for its depth and for the climb
-- along the parents, and topological_sort one more than the number of tasks for its rounds. The
-- closures have one more than the number of the edges and the first neighbours, since every round
-- takes one entry off the stack and each edge is pushed at most once. process_all takes
-- its number of rounds as an argument, since a callback may enqueue for ever: the requests that wait
-- and those that the callbacks may still add are enough.
--
-- Not modelled: the event-driven scheduler, the saving and loading of a mission, verification runs and
-- telemetry; the engine with a scheduler, an integration manager, a worktree adapter or a verification
-- engine attached, its listeners, and add_task of a task object; the texts that a workspace record
-- and a merge request only carry; the adapters of git and of the agent runtime, the installers and the
-- acceptance scripts, which are input and output; logs, the messages of exceptions, serialisation and
-- the native sessions of workers.
pub mod Base
pub mod Errors
pub mod Task
pub mod Mission
pub mod FilePaths
pub mod Collision
pub mod Workspace
pub mod MergeQueue
pub mod Engine
pub mod Graph
pub mod Mutations
pub mod Resolver
pub mod Scenarios
pub mod ReadyQueue
pub mod Feedback
pub mod Aimd
pub mod Ledger
pub mod Router
pub mod VerificationPolicy
pub mod Checkpoint
pub mod Worker
pub mod Affinity
pub mod WorkerRegistry
pub mod Repair
