-- ===== src/Timers.antt =====
-- Package timers (internal/timers), so far the choice of the next deadline.
pub mod Schedule
