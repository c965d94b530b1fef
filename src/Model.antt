-- ===== src/Model.antt =====
-- src/model.rs: jobs, events and media. Times and UUIDs are numbers; a JSON value that the code only
-- carries is its text.
pub mod Job
pub mod Media
pub mod Snapshot
