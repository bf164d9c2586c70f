-- ===== src/Unit.antt =====
-- Package unit (internal/unit): the names of units, and the lines and values of unit files.
pub mod Name
pub mod Ini
pub mod Command
pub mod Environment
pub mod Limits
pub mod Account
