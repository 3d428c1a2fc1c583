-- ===== src/Storage.antt =====
-- src/core/storage.rs: what the coordinator persists, and the operations on it. The backend is taken
-- as reliable: each key holds the value that was set last, and no call of it fails.
pub mod Db
pub mod News
pub mod Speedups
pub mod Records
pub mod Pending
pub mod Evict
pub mod Stored
pub mod WellFormed
pub mod Funding
