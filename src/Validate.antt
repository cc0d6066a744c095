-- ===== src/Validate.antt =====
-- The rules serde cannot express: crates/mango-protocol/src/validate.rs. `Grammar` and `Checks`
-- hold its functions; `Names` and `Schema` say which texts and frames they accept.
pub mod Grammar
pub mod Checks
pub mod Names
pub mod Schema
