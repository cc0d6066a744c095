-- ===== src/Examples/Wires.antt =====
-- Runs of the shared writer of an NDJSON port, and reads of the receive half.
use mango_protocol.Common.{
  ◌≡◌, refl, List, [], ◌∷◌, ◌++◌, map, Bytes, take, drop, true, false, none, some, arith, ◌≤◌,
  length,
}
use mango_protocol.Wire.Frame.{Frame}
use mango_protocol.Validate.Checks.{validate}
use mango_protocol.Codec.Ndjson.{encode_frame_bytes, encode_line}
use mango_protocol.Codec.Decoder.{LineDecoder, new_decoder}
use mango_protocol.Session.Driver.{sent, closed}
use mango_protocol.Transports.Ndjson.{Read, chunk, NdjsonRx, new_rx, recv_all, close_line}
use mango_protocol.Transports.Ndjson.Delivery.{inbounds, tell, recv_all-tell}
use mango_protocol.Transports.Ndjson.Farewell.{WritesBare, IsCloseCode, Farewell, close_line_lem}
use mango_protocol.Transports.Ndjson.Writer.{
  writing, shutting, framed, SharedWriter, Fate, landed, Event, new_writer, ask_write, do_job,
  write_record, next_job, writer_step, WriterRun, start, then_,
}
use mango_protocol.Transports.Ndjson.Writer.Order.{IsOrdered}
use mango_protocol.Transports.Ndjson.Writer.Runs.{WriterRun-IsOrdered}
use mango_protocol.Transports.Ndjson.Writer.Ending.{IsOver, proceed_all}
use mango_protocol.Transports.Ndjson.Writer.Over.{WriterRun-IsOver}
use mango_protocol.Transports.Ndjson.Writer.Silence.{IsSilent, writer_step-IsSilent}
use mango_protocol.Examples.{toy_libs, toy_serde, ping_bytes}

abbrev ping_line : Bytes
ping_line = ping_bytes ++ 10 ∷ []

-- `write_frame` waits for the lock, and then the line lands.
abbrev waiting : SharedWriter toy_libs
waiting = record (new_writer 4096) { jobs = writing Frame.ping ping_line ∷ [] }

abbrev written : SharedWriter toy_libs
written = record (new_writer 4096) {
  wire = [] ++ ping_line;
  lines = framed Frame.ping ∷ [];
  reports = (Frame.ping, sent) ∷ [];
}

asked : writer_step (Event.write_frame Frame.ping) (new_writer 4096) ≡ some waiting
unfolding writer_step ask_write encode_line encode_frame_bytes validate ping_bytes
asked = refl

done : writer_step (Event.proceed landed) waiting ≡ some written
unfolding writer_step next_job do_job write_record
done = refl

abbrev one_write : List (Event toy_libs)
one_write = Event.proceed landed ∷ Event.write_frame Frame.ping ∷ []

run : WriterRun (new_writer 4096) one_write written
run = then_ _ _ (then_ _ _ start asked) done

WriterRun-IsOrdered_example : IsOrdered 4096 written
WriterRun-IsOrdered_example = WriterRun-IsOrdered 4096 one_write written run (tt, (tt, tt))

-- A `shut_down` that begins while the write waits.
abbrev shutting_down : SharedWriter toy_libs
shutting_down = record waiting {
  ending = true;
  jobs = writing Frame.ping ping_line ∷ shutting ∷ [];
}

began : writer_step Event.shut_down waiting ≡ some shutting_down
unfolding writer_step
began = refl

WriterRun-IsOver_example :
    IsOver shutting_down
    × ((fates : List Fate) (u : SharedWriter toy_libs)
        → proceed_all fates shutting_down ≡ some u
        → length shutting_down.jobs ≤ length fates
        → u.open_ ≡ false)
WriterRun-IsOver_example =
    WriterRun-IsOver 4096 (Event.shut_down ∷ Event.write_frame Frame.ping ∷ []) shutting_down
      (then_ _ _ (then_ _ _ start asked) began) refl

-- A write that waits while the handle goes is answered, and nothing goes out.
abbrev ended : SharedWriter toy_libs
ended = record waiting { open_ = false; writable = false; ending = true }

abbrev answered : SharedWriter toy_libs
answered = record (new_writer 4096) {
  open_ = false;
  writable = false;
  ending = true;
  reports = (Frame.ping, closed) ∷ [];
}

answers : writer_step (Event.proceed landed) ended ≡ some answered
unfolding writer_step next_job do_job
answers = refl

writer_step-IsSilent_example : IsSilent ended answered
writer_step-IsSilent_example =
    writer_step-IsSilent (Event.proceed landed) ended answered refl answers

abbrev decoder : LineDecoder
decoder = record { max_frame_bytes = 4096; buffer = []; failure = none }

abbrev rx : NdjsonRx toy_libs
rx = record {
  decoder = decoder;
  pending = [];
  closure = none;
  calls = [];
  max_frame_bytes = 4096;
  terminal = false;
}

made : new_rx 4096 ≡ some rx
unfolding new_rx new_decoder
made = refl

-- The line in two reads.
abbrev pieces : List Bytes
unfolding ping_bytes
pieces = take 6 ping_line ∷ drop 6 ping_line ∷ []

abbrev reads : List Read
reads = map chunk pieces ++ chunk [] ∷ []

recv_all-tell_example : recv_all 3 rx reads ≡ tell 3 (inbounds decoder reads)
recv_all-tell_example = recv_all-tell 4096 rx reads 3 made

-- After the write, the port ends.
abbrev closing : SharedWriter toy_libs
closing = record written { ending = true; jobs = shutting ∷ [] }

abbrev over : SharedWriter toy_libs
over = record written { writable = false; open_ = false; ending = true }

bare_small : WritesBare ⦃L = toy_libs⦄
bare_small code h = (123 ∷ 125 ∷ [], refl, omega arith)

close_line_lem_example :
    (IsCloseCode 4400 → Farewell ⦃L = toy_libs⦄ 4400 (some (98 ∷ [])) 4096)
    × ((IsCloseCode 4400 → ⊥) → close_line ⦃L = toy_libs⦄ 4400 (some (98 ∷ [])) 4096 ≡ none)
close_line_lem_example = close_line_lem 4400 4096 (some (98 ∷ [])) bare_small (omega arith)
