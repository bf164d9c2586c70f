-- ===== src/Core.antt =====
-- Package core (internal/core): the lifecycle states, the dependency graph, start and stop
-- transactions and their execution.
pub mod Names
pub mod StartLimit
pub mod Restart
pub mod Lifecycle
pub mod Graph
pub mod Cycle
pub mod Transaction
pub mod Execute
