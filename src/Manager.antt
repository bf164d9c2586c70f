-- ===== src/Manager.antt =====
-- Package manager (internal/manager): the starts of a unit, and the record of operations.
pub mod StartGate
pub mod Backoff
pub mod Operations
