-- ===== src/Lifecycle.antt =====
-- runtime/lifecycle.rs and the lifecycle part of runtime/storage.rs: leases with fences, guarded
-- writes and the queue of scheduled jobs.
pub mod Records
pub mod Leases
pub mod Fencing
pub mod Exclusion
pub mod PlainLeases
pub mod PlainHistories
pub mod JobQueue
