-- ===== src/Transports/Ndjson/Writer/Whole.antt =====
-- The wire of a shared writer on which no line is cut.
use mango_protocol.Common.{
  ℕ, ◌≡◌, sym, ap, ◌∙◌, subst, Bytes, List, [], ◌∷◌, ◌++◌, map, map-append, append-nil, not, ◌||◌,
  take, Option, none, some, Bool-cases, Result, ok, err, inl, inr, All, arith,
}
use mango_protocol.Libs.{Libs}
use mango_protocol.Wire.Error.{CodecError}
use mango_protocol.Wire.Frame.{Frame}
use mango_protocol.Codec.Serde.{Serde}
use mango_protocol.Codec.Ndjson.{encode_line}
use mango_protocol.Codec.Decoder.Streams.{IsStream}
use mango_protocol.Session.Driver.{SendOutcome}
use mango_protocol.Transports.Ndjson.{close_line}
use mango_protocol.Transports.Ndjson.Writer.{
  Job, writing, saying, shutting, Line, framed, farewell, SharedWriter, Fate, landed, broke,
  evicted, expired, Event, new_writer, ask_write, ask_close, report, tear, write_record,
  write_farewell, do_job, next_job, without, let_go, writer_step, WriterRun, start, then_,
}
use mango_protocol.Transports.Ndjson.Writer.Order.{
  InTime, JobEncodes, frame_of, stream_snoc, some_injective,
}
use mango_protocol.Transports.Ndjson.Writer.Runs.{WriterRun-IsOrdered}

module _ {L : Libs} where
  -- A write that does not land leaves no byte of its line on the wire.
  abbrev pub LeavesNothing : Event L → Type 0
  LeavesNothing (Event.proceed (broke n)) = n ≡ 0
  LeavesNothing (Event.proceed (evicted n)) = n ≡ 0
  LeavesNothing (Event.proceed (expired n)) = ⊥
  LeavesNothing _ = Unit {0}

  in_time : (e : Event L) → LeavesNothing e → InTime e
  in_time (Event.write_frame f) h = tt
  in_time (Event.write_close code reason) h = tt
  in_time Event.shut_down h = tt
  in_time (Event.give_up n) h = tt
  in_time (Event.proceed landed) h = tt
  in_time (Event.proceed (broke n)) h = tt
  in_time (Event.proceed (evicted n)) h = tt
  in_time (Event.proceed (expired n)) h = h

  all-InTime : (events : List (Event L)) → All LeavesNothing events → All InTime events
  all-InTime [] h = tt
  all-InTime (e ∷ events) (h, hs) = (in_time e h, all-InTime events hs)

nothing_out : (wire line : Bytes) (n : ℕ) → n ≡ 0 → wire ++ take n line ≡ wire
nothing_out wire line n h = ap (λ (k : ℕ). wire ++ take k line) h ∙ append-nil wire

module _ ⦃L : Libs⦄ ⦃S : Serde L⦄ (max : ℕ) where
  -- The wire is the complete lines and nothing else.
  abbrev pub IsWhole : SharedWriter L → Type 0
  IsWhole w = IsStream max (map frame_of w.lines) w.wire

  landed-IsWhole :
      (w : SharedWriter L) (l : Line L) (line : Bytes)
      → IsWhole w
      → encode_line (frame_of l) max ≡ ok line
      → IsStream max (map frame_of (w.lines ++ l ∷ [])) (w.wire ++ line)
  landed-IsWhole w l line v e =
      subst (λ (x : List (Frame L)). IsStream max x (w.wire ++ line))
        (sym (map-append frame_of w.lines (l ∷ []))) (stream_snoc max (frame_of l) line e v)

  cut-IsWhole :
      (w : SharedWriter L) (line : Bytes) (n : ℕ)
      → IsWhole w
      → n ≡ 0
      → IsStream max (map frame_of w.lines) (w.wire ++ take n line)
  cut-IsWhole w line n v h =
      subst (IsStream max (map frame_of w.lines)) (sym (nothing_out w.wire line n h)) v

  record-IsWhole :
      (w u : SharedWriter L) (f : Frame L) (line : Bytes) (fate : Fate)
      → IsWhole w
      → encode_line f max ≡ ok line
      → LeavesNothing {L = L} (Event.proceed fate)
      → write_record f line fate w ≡ some u
      → IsWhole u
  unfolding write_record
  record-IsWhole w u f line landed v e h s =
      subst IsWhole (some_injective s) (landed-IsWhole w (framed f) line v e)
  record-IsWhole w u f line (broke n) v e h s =
      subst IsWhole (some_injective s) (cut-IsWhole w line n v h)
  record-IsWhole w u f line (evicted n) v e h s = elim (Bool-cases w.ending) [
    | inl on ↦
        let e : report f SendOutcome.closed (tear (take n line) w) ≡ u = ground (arith, on) in
        subst IsWhole e (cut-IsWhole w line n v h)
    | inr off ↦ absurd (ground (arith, off))
  ]
  record-IsWhole w u f line (expired n) v e h s = absurd h

  farewell-IsWhole :
      (w u : SharedWriter L) (f : Frame L) (line : Bytes) (fate : Fate)
      → IsWhole w
      → encode_line f max ≡ ok line
      → LeavesNothing {L = L} (Event.proceed fate)
      → write_farewell f line fate w ≡ some u
      → IsWhole u
  unfolding write_farewell
  farewell-IsWhole w u f line landed v e h s =
      subst IsWhole (some_injective s) (landed-IsWhole w (farewell f) line v e)
  farewell-IsWhole w u f line (broke n) v e h s =
      subst IsWhole (some_injective s) (cut-IsWhole w line n v h)
  farewell-IsWhole w u f line (evicted n) v e h s = absurd cc
  farewell-IsWhole w u f line (expired n) v e h s = absurd h

  do_job-IsWhole :
      (job : Job L) (fate : Fate) (w u : SharedWriter L)
      → IsWhole w
      → JobEncodes max job
      → LeavesNothing {L = L} (Event.proceed fate)
      → do_job job fate w ≡ some u
      → IsWhole u
  unfolding do_job
  do_job-IsWhole (writing f line) fate w u v e h s =
      elim (Bool-cases (not w.writable || not w.open_)) [
        | inl over ↦
            let same : u.wire ≡ w.wire = ground (arith, over) in
            let lines : u.lines ≡ w.lines = ground (arith, over) in rw (same, lines) v
        | inr on ↦ record-IsWhole w u f line fate v e h (ground (arith, on))
      ]
  do_job-IsWhole (saying f line) fate w u v e h s =
      elim (Bool-cases (not w.writable || not w.open_)) [
        | inl over ↦ let e : w ≡ u = ground (arith, over) in subst IsWhole e v
        | inr on ↦ farewell-IsWhole w u f line fate v e h (ground (arith, on))
      ]
  do_job-IsWhole shutting fate w u v e h s = subst IsWhole (some_injective s) v

  next_job-IsWhole :
      (jobs : List (Job L)) (fate : Fate) (w u : SharedWriter L)
      → IsWhole w
      → All (JobEncodes max) jobs
      → LeavesNothing {L = L} (Event.proceed fate)
      → next_job jobs fate w ≡ some u
      → IsWhole u
  unfolding next_job
  next_job-IsWhole [] fate w u v e h s = absurd cc
  next_job-IsWhole (job ∷ jobs) fate w u v (e, es) h s =
      do_job-IsWhole job fate (record w { jobs = jobs }) u v e h s

  ask_write-IsWhole :
      (f : Frame L) (r : Result Bytes CodecError) (w : SharedWriter L)
      → IsWhole w
      → IsWhole (ask_write f r w)
  unfolding ask_write
  ask_write-IsWhole f (err error) w v = v
  ask_write-IsWhole f (ok line) w v = elim (Bool-cases w.ending) [
    | inl on ↦ rw (on, ask_write) v
    | inr off ↦ rw (off, ask_write) v
  ]

  ask_close-IsWhole :
      (o : Option (Frame L × Bytes)) (w : SharedWriter L) → IsWhole w → IsWhole (ask_close o w)
  unfolding ask_close
  ask_close-IsWhole none w v = v
  ask_close-IsWhole (some (f, line)) w v = v

  let_go-IsWhole :
      (o : Option (List (Job L))) (w u : SharedWriter L)
      → IsWhole w
      → let_go o w ≡ some u
      → IsWhole u
  unfolding let_go
  let_go-IsWhole none w u v s = absurd cc
  let_go-IsWhole (some jobs) w u v s = subst IsWhole (some_injective s) v

  step-IsWhole :
      (e : Event L) (w u : SharedWriter L)
      → IsWhole w
      → All (JobEncodes max) w.jobs
      → LeavesNothing e
      → writer_step e w ≡ some u
      → IsWhole u
  unfolding writer_step
  step-IsWhole (Event.write_frame f) w u v e h s =
      subst IsWhole (some_injective s) (ask_write-IsWhole f (encode_line f w.max_frame_bytes) w v)
  step-IsWhole (Event.write_close code reason) w u v e h s =
      subst IsWhole (some_injective s)
        (ask_close-IsWhole (close_line code reason w.max_frame_bytes) w v)
  step-IsWhole Event.shut_down w u v e h s = subst IsWhole (some_injective s) v
  step-IsWhole (Event.proceed fate) w u v e h s = next_job-IsWhole w.jobs fate w u v e h s
  step-IsWhole (Event.give_up n) w u v e h s = let_go-IsWhole (without n w.jobs) w u v s

  pub WriterRun-IsWhole :
      (events : List (Event L)) (w : SharedWriter L)
      → WriterRun (new_writer max) events w
      → All LeavesNothing events
      → IsWhole w
  WriterRun-IsWhole _ _ start h = IsStream.done
  WriterRun-IsWhole _ _ (then_ {events} {v} e u run s) (h, hs) =
      step-IsWhole e v u (WriterRun-IsWhole events v run hs)
        (WriterRun-IsOrdered max events v run (all-InTime events hs)).encoded h s
