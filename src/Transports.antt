-- ===== src/Transports.antt =====
-- The transports of crates/mango-protocol/src/transports/.
pub mod Exit
pub mod Ssh
pub mod Ndjson
