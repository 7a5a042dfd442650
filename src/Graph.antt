-- ===== src/Graph.antt =====
-- orchestrator/graph/dag.py: `DependencyGraph`. The graph is the dictionary `_tasks`; a method
-- that writes returns the dictionary as it leaves it, also beside an exception.
mod Defs
mod Cycles
mod Edits
mod Colours
pub mod Search
mod Loop
mod Detect
mod Starts
pub mod Acyclic
mod Order
pub mod Rounds
pub mod Closures
pub mod Writes
pub mod Invariant
pub mod Adding
pub mod Descendants
unfoldable pub use Defs.*
unfoldable pub use Cycles.*
unfoldable pub use Edits.*
unfoldable pub use Order.*
