-- ===== src/Servicing.antt =====
-- Package servicing (internal/servicing): releases, and the compatibility floor that a build must
-- meet.
pub mod Release
pub mod Floor
