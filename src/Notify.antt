-- ===== src/Notify.antt =====
-- Package notify (internal/notify): what a service tells its manager.
pub mod Protocol
