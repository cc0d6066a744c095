-- ===== src/Wire.antt =====
-- The wire vocabulary of crates/mango-protocol/src: version.rs, close.rs, error.rs and frame.rs.
pub mod Version
pub mod Error
pub mod Close
pub mod Frame
