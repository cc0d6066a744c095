-- ===== src/Codec.antt =====
-- The framings of crates/mango-protocol/src/codec. `Limits`, `Serde`, `Ndjson`, `Decoder` and
-- `Chunk` hold the definitions; the other modules prove things of them.
pub mod Limits
pub mod Serde
pub mod Ndjson
pub mod Decoder
pub mod Chunk
pub mod Reassembler
