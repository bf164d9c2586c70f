-- ===== src/Journal.antt =====
-- Package journal (internal/journal): captured output on its way to a journal file, what is lost of it,
-- and the names of the files.
pub mod Buffer
pub mod FairQueue
pub mod Name
pub mod Fragments
pub mod Statistics
