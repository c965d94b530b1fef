-- ===== src/Store.antt =====
-- src/persist.rs: the data directory and its operations.
pub mod Files
pub mod State
pub mod Jobs
pub mod Printers
pub mod Recovery
pub mod Paging
pub mod Atomic
pub mod Refines
