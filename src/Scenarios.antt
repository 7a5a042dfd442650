-- ===== src/Scenarios.antt =====
-- Concrete tasks, graphs, queues, controllers and workers, and the theorems at them.
pub mod Tasks
mod Missions
mod Graphs
mod Queues
mod Control
mod Budget
mod Workers
mod Pool
mod Checkpoints
mod Policies
mod Routing
mod Workspaces
mod Merges
mod Engines
mod Repairs
