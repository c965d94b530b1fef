-- ===== src/Worker.antt =====
-- src/worker.rs: the thread that owns one printer, its queue and its transport.
pub mod Machine
pub mod Delivery
pub mod Process
pub mod Queue
pub mod Retry
pub mod Verdict
pub mod Commands
pub mod Drain
