-- ===== src/Engine.antt =====
-- src/engines: the services that both engines share, and the two engines.
pub mod Failure
pub mod Common
pub mod Review
pub mod Transactions
pub mod Build
pub mod Speedup
