-- ===== src/Media.antt =====
-- src/media.rs, and the label accounting of src/worker.rs and src/main.rs.
pub mod Validate
pub mod Accounting
pub mod Operations
pub mod Conservation
pub mod Ledger
pub mod Errors
