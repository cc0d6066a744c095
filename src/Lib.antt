-- ===== src/Lib.antt =====
-- Verification of the Rust crate crates/mango-protocol: the frames of the Mango Protocol, their
-- validation, the two codecs that carry them, and the session that speaks them over a port.
--
-- The program's parts and the files that model them:
--
-- Wire/ models error.rs, close.rs, version.rs and frame.rs of crates/mango-protocol/src: the frame
-- types, the error types with their texts, the close codes and the version negotiation.
-- Validate/ models validate.rs: Grammar the constants and the name tests, Checks the member rules
-- with their messages in the order the code applies them. Names and Schema state the documented
-- patterns and rules without the tests.
-- Codec/ models codec/: Limits the floors (a function that panics returns `none`), Ndjson one record
-- (encode_frame_bytes, encode_line, decode_line), Decoder the incremental LineDecoder (`push` and
-- `finish`), Chunk the cutting into chunk messages, Reassembler the other direction
-- (`push_message` is `ChunkReassembler::push`).
-- Session/ models session/: State the records that the handle and the driver share, Shared the
-- operations on them, Dispatch inbound requests (`on_request`, `on_cancel`, `on_handler_settled`),
-- Driver the branches of the `select!` loop as events with `step` for one round, Teardown the
-- teardown, Options the options and their setters, Open `Session::open`, Emit `Session::emit`,
-- Handlers the registration of handlers and its guard. Driver/Runs has the rounds that follow one
-- another.
-- Port/ models port.rs and port/pair.rs: Channel is the mpsc channel that the crate uses, Pair the
-- in-process pair with its two directions, Pipe what a port promises in one direction.
-- Transports/ models the pure parts of transports/: Ndjson the receive half of ndjson.rs over the
-- reads to come (`recv`) and the close line, Ndjson/Writer the shared writer (the parts of
-- `write_frame`, `write_close` and `shut_down` under the lock are jobs), Ssh the argv of ssh.rs with
-- its quoting and the reading of an exit status, Exit the exit status of spawn.rs.
-- Catalog models catalog.rs, with its rules stated apart in Catalog/Rules. Contract and Contract/
-- model contract.rs and contract/: the contract with its compiled schemas and the checks of
-- parameters and results, Serve the registration and the pipeline of one request (`serve`, `answer`),
-- Client the client and the typed events.
-- Common/ has the shared helpers, Libs and Codec/Serde what the crate takes from other libraries, and
-- Examples/ concrete runs.
--
-- How the state corresponds: a struct is a record with the source's fields, an enum a data type with
-- its constructors, a HashMap an association list whose order nothing observes, a String the list of
-- its characters, a byte a number below 256. `&mut self` is a state that goes in and comes out. A
-- method that sends on a channel or enqueues for the writer appends to a list of the driver, so that
-- the order of what was sent is part of the state. Channels, tokens, tasks and handlers are named by
-- numbers. `usize` is taken as 64 bits wide; the counters keep their wrap-around, except that the
-- overflow check which a debug build adds to `+` is left out.
--
-- What is a parameter: JSON values and maps, the rendering of numbers and quoted texts, and the lossy
-- reading of UTF-8 are the record Libs; reading and writing frames with serde_json is the record
-- Serde. The laws that a theorem needs of them are its hypotheses: IsCompact (the compact writer
-- emits no control character and begins an object with a brace) and ReadsBack (the reader gives back
-- what the writer wrote of this frame). In Session the runtime chooses which event comes next, which
-- task id and token a spawned handler gets, what a handler returns, which subscribers still listen,
-- and which handlers end within the grace.
--
-- In Contract the schemas are the record JsonSchema (building a validator, the first violation of a
-- value, joining a pointer), the types of a handler with their decoding are a TypedHandler, and the
-- shape of a JSON value in Catalog is the record Shapes.
--
-- In Port the channel is the record Mpsc, and IsFifo says that it is first in, first out. In
-- Transports the peer and the runtime choose what a read gives and how a write ends; the lock is
-- taken in the order in which it was asked for.
--
-- Loops and fuel: the `while` loop of `LineDecoder::push` runs on fuel, as many rounds as the buffer
-- has bytes. Each round but the last takes a line and its newline off the buffer, so this is enough.
-- The other loops are over a list or a count.
--
-- Not modelled: `request_with` and its guard in session/handle.rs, the call context, the writer's
-- task and the hello that `SessionDriver::run` sends before its loop, the launcher of
-- transports/spawn.rs and the other files of transports/. Sockets, processes and timers are the
-- operating system's and the runtime's, schema.rs embeds files, and testing.rs is for other crates'
-- tests.
pub mod Common
pub mod Libs
pub mod Wire
pub mod Validate
pub mod Codec
pub mod Session
pub mod Port
pub mod Transports
pub mod Catalog
pub mod Contract
pub mod Examples
