-- ===== src/Invariant.antt =====
-- The invariant of Storage/WellFormed.antt through src/engines and src/coordinator.rs, whatever the
-- node, the monitor and the protocol builder answer.
pub mod Snapshot
pub mod Failure
pub mod Outcome
pub mod Sending
pub mod Review
pub mod Build
pub mod Batch
pub mod Growth
pub mod Single
pub mod Tick
pub mod Api
pub mod Session
pub mod Errors
