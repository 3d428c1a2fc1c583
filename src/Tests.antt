-- ===== src/Tests.antt =====
-- Concrete runs of the modelled code: each property applied to values on which it has something to
-- say.
mod Data
mod Storing
mod Charging
mod Queueing
mod Running
mod Sessions
mod Funds
mod Replacing
