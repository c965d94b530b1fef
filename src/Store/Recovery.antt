-- ===== src/Store/Recovery.antt =====
-- `recover_jobs` of src/persist.rs: what a restart makes of the jobs that it finds. The directory is
-- listed once; `now` is the clock of the whole pass.
pub mod Order
pub mod Entries
pub mod Fate
pub mod Files
pub mod Jobs
