-- ===== src/Engine.antt =====
-- orchestrator/engine.py: `MissionEngine` with no scheduler, integration manager, verification engine
-- or worktree adapter attached. State holds the state and the calls that change it, Lifecycle the
-- mission, Tasks the life of a task, Plan the edits of the graph, Pool the workers. A call is a
-- function from the engine to the engine that it leaves and a result or an exception; `now` is the
-- time of the call. The payloads of the events and the listeners, whose exceptions the code swallows,
-- are left out.
pub mod State
pub mod Lifecycle
pub mod Tasks
pub mod Plan
pub mod Pool
pub mod Guards
pub mod Chains
pub mod Steady
pub mod Outcomes
pub mod Edits
pub mod Calls
pub mod Sound
pub mod Marks
pub mod Cancelled
pub mod Cancelling
pub mod Runs
pub mod Verdict
pub mod Gaps
