-- ===== src/Transports/Ndjson/Writer.antt =====
-- The writer that both halves of an NDJSON port and its closers share: `SharedWriter` of
-- crates/mango-protocol/src/transports/ndjson.rs. The parts of its methods that hold the lock are
-- jobs, which the lock takes in the order in which they asked for it. How a write ends is up to the
-- peer and the runtime.
pub mod Order
pub mod Runs
pub mod Ending
pub mod Keeps
pub mod Over
pub mod Silence
pub mod Whole
use mango_protocol.Common.{
  ℕ, zero, suc, ◌≡◌, Text, Bytes, List, [], ◌∷◌, ◌++◌, Bool, true, false, not, ◌||◌, if◌then◌else◌,
  take, Option, none, some, Result, ok, err,
}
use mango_protocol.Libs.{Libs}
use mango_protocol.Wire.Error.{CodecError}
use mango_protocol.Wire.Frame.{Frame}
use mango_protocol.Codec.Serde.{Serde}
use mango_protocol.Codec.Ndjson.{encode_line}
use mango_protocol.Session.Driver.{SendOutcome, sent}
use mango_protocol.Transports.Ndjson.{close_line}

-- A caller that waits for the lock or holds it: `write_frame` and `write_close` with their line, and
-- `shut_down`.
pub data Job (L : Libs) : Type 0 where
  writing saying : Frame L → Bytes → Job L
  shutting : Job L

-- A line that is out: one of `write_frame`, or a farewell.
pub data Line (L : Libs) : Type 0 where
  framed farewell : Frame L → Line L

-- `open` is whether the handle is there, `wire` the bytes that are out, `lines` the complete lines
-- among them and `reports` what `write_frame` returned, in order.
pub record SharedWriter (L : Libs) : Type 0 where
  pub open_ : Bool
  pub writable : Bool
  pub ending : Bool
  pub jobs : List (Job L)
  pub max_frame_bytes : ℕ
  pub wire : Bytes
  pub lines : List (Line L)
  pub reports : List (Frame L × SendOutcome)

-- How the write of a line ends: it lands, the write fails, `ended` comes first, or the grace of a
-- farewell runs out; but for the first, with the bytes that are out by then.
pub data Fate : Type 0 where
  landed : Fate
  broke evicted expired : ℕ → Fate

pub data Event (L : Libs) : Type 0 where
  write_frame : Frame L → Event L
  write_close : ℕ → Option Text → Event L
  shut_down : Event L
  -- the first job, with the fate of its line
  proceed : Fate → Event L
  -- the grace of a farewell that still waits runs out
  give_up : ℕ → Event L

module _ {L : Libs} where
  abbrev pub new_writer : ℕ → SharedWriter L
  new_writer max_frame_bytes = record {
    open_ = true;
    writable = true;
    ending = false;
    jobs = [];
    max_frame_bytes = max_frame_bytes;
    wire = [];
    lines = [];
    reports = [];
  }

  abbrev pub report : Frame L → SendOutcome → SharedWriter L → SharedWriter L
  report f outcome w = record w { reports = w.reports ++ (f, outcome) ∷ [] }

  abbrev pub ask : Job L → SharedWriter L → SharedWriter L
  ask job w = record w { jobs = w.jobs ++ job ∷ [] }

  -- `write_frame` with the line of the frame, up to the lock.
  unfoldable pub ask_write : Frame L → Result Bytes CodecError → SharedWriter L → SharedWriter L
  ask_write f (err error) w = report f (SendOutcome.refused error) w
  ask_write f (ok line) w =
      if w.ending then report f SendOutcome.closed w else ask (writing f line) w

  unfoldable pub ask_close : Option (Frame L × Bytes) → SharedWriter L → SharedWriter L
  ask_close none w = w
  ask_close (some (f, line)) w = ask (saying f line) w

  abbrev pub put_out : Bytes → Line L → SharedWriter L → SharedWriter L
  put_out line l w = record w { wire = w.wire ++ line; lines = w.lines ++ l ∷ [] }

  -- A write that did not land: no later one can follow the part of it that is out.
  abbrev pub tear : Bytes → SharedWriter L → SharedWriter L
  tear part w = record w { wire = w.wire ++ part; writable = false }

  -- `write_frame` under the lock.
  unfoldable pub write_record : Frame L → Bytes → Fate → SharedWriter L → Option (SharedWriter L)
  write_record f line landed w = some (report f sent (put_out line (framed f) w))
  write_record f line (broke n) w = some (report f SendOutcome.closed (tear (take n line) w))
  write_record f line (evicted n) w =
      if w.ending then some (report f SendOutcome.closed (tear (take n line) w)) else none
  write_record f line (expired n) w = none

  -- `write_close` under the lock; where its grace runs out, `writable` stays as it is.
  unfoldable pub write_farewell : Frame L → Bytes → Fate → SharedWriter L → Option (SharedWriter L)
  write_farewell f line landed w = some (put_out line (farewell f) w)
  write_farewell f line (broke n) w = some (tear (take n line) w)
  write_farewell f line (evicted n) w = none
  write_farewell f line (expired n) w = some (record w { wire = w.wire ++ take n line })

  unfoldable pub do_job : Job L → Fate → SharedWriter L → Option (SharedWriter L)
  unfolding write_record write_farewell
  do_job (writing f line) fate w =
      if not w.writable || not w.open_
      then some (report f SendOutcome.closed w)
      else write_record f line fate w
  do_job (saying f line) fate w =
      if not w.writable || not w.open_ then some w else write_farewell f line fate w
  do_job shutting fate w = some (record w { writable = false; open_ = false })

  unfoldable pub next_job : List (Job L) → Fate → SharedWriter L → Option (SharedWriter L)
  unfolding do_job
  next_job [] fate w = none
  next_job (job ∷ jobs) fate w = do_job job fate (record w { jobs = jobs })

  -- The jobs without a farewell that gave up; other jobs do not.
  unfoldable pub without : ℕ → List (Job L) → Option (List (Job L))
  without n [] = none
  without zero (saying f line ∷ jobs) = some jobs
  without zero (writing f line ∷ jobs) = none
  without zero (shutting ∷ jobs) = none
  without (suc n) (job ∷ jobs) = elim (without n jobs) [
    | none ↦ none
    | some rest ↦ some (job ∷ rest)
  ]

  unfoldable pub let_go : Option (List (Job L)) → SharedWriter L → Option (SharedWriter L)
  let_go none w = none
  let_go (some jobs) w = some (record w { jobs = jobs })

module _ ⦃L : Libs⦄ ⦃S : Serde L⦄ where
  -- One event; `none` where it cannot happen.
  unfoldable pub writer_step : Event L → SharedWriter L → Option (SharedWriter L)
  unfolding ask_write ask_close next_job let_go
  writer_step (write_frame f) w = some (ask_write f (encode_line f w.max_frame_bytes) w)
  writer_step (write_close code reason) w =
      some (ask_close (close_line code reason w.max_frame_bytes) w)
  writer_step shut_down w = some (ask shutting (record w { ending = true }))
  writer_step (proceed fate) w = next_job w.jobs fate w
  writer_step (give_up n) w = let_go (without n w.jobs) w

  -- A run of the writer: events that can happen, one after the other.
  pub data WriterRun (w : SharedWriter L) : List (Event L) → SharedWriter L → Type 0 where
    start : WriterRun w [] w
    then_ :
        {events : List (Event L)} {v : SharedWriter L} (e : Event L) (u : SharedWriter L)
        → WriterRun w events v
        → writer_step e v ≡ some u
        → WriterRun w (e ∷ events) u
