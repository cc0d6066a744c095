-- ===== src/Session.antt =====
-- One session over a port: crates/mango-protocol/src/session/.
pub mod State
pub mod Shared
pub mod Dispatch
pub mod Driver
pub mod Teardown
pub mod Emit
pub mod Handlers
pub mod Options
pub mod Open
