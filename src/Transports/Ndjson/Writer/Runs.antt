-- ===== src/Transports/Ndjson/Writer/Runs.antt =====
-- What every run of the shared writer puts on the wire.
use mango_protocol.Common.{
  ℕ, zero, suc, ◌≡◌, refl, sym, ap, subst, Bytes, List, [], ◌∷◌, ◌++◌, false, not, ◌||◌, Option,
  none, some, Option-cases, Bool-cases, Result, ok, err, inl, inr, All, All-append, arith,
}
use mango_protocol.Libs.{Libs}
use mango_protocol.Wire.Error.{CodecError}
use mango_protocol.Wire.Frame.{Frame}
use mango_protocol.Codec.Serde.{Serde}
use mango_protocol.Codec.Ndjson.{encode_line}
use mango_protocol.Codec.Decoder.Streams.{IsStream}
use mango_protocol.Session.Driver.{SendOutcome}
use mango_protocol.Transports.Ndjson.{close_line, or_bare}
use mango_protocol.Transports.Ndjson.Writer.{
  Job, writing, saying, shutting, SharedWriter, Fate, Event, new_writer, ask_write, ask_close,
  do_job, next_job, without, let_go, writer_step, WriterRun, start, then_,
}
use mango_protocol.Transports.Ndjson.Writer.Order.{
  InTime, JobEncodes, IsOrdered, report-IsOrdered, jobs-IsOrdered, shut-IsOrdered, ending-IsOrdered,
  not-false, write-IsOrdered, farewell-IsOrdered, some_injective,
}

module _ ⦃L : Libs⦄ ⦃S : Serde L⦄ (max : ℕ) where
  do_job-IsOrdered :
      (job : Job L) (fate : Fate) (w u : SharedWriter L)
      → IsOrdered max w
      → JobEncodes max job
      → InTime {L = L} (Event.proceed fate)
      → do_job job fate w ≡ some u
      → IsOrdered max u
  unfolding do_job
  do_job-IsOrdered (writing f line) fate w u v e t s =
      elim (Bool-cases (not w.writable || not w.open_)) [
        | inl over ↦
            subst (IsOrdered max) (ground (arith, over))
              (report-IsOrdered v f SendOutcome.closed refl)
        | inr on ↦
            let h = not-false w.writable w.open_ on in
            write-IsOrdered max w u f line fate v h e (ground (arith, on))
      ]
  do_job-IsOrdered (saying f line) fate w u v e t s =
      elim (Bool-cases (not w.writable || not w.open_)) [
        | inl over ↦ subst (IsOrdered max) (ground (arith, over)) v
        | inr on ↦
            let h = not-false w.writable w.open_ on in
            farewell-IsOrdered max w u f line fate v h e t (ground (arith, on))
      ]
  do_job-IsOrdered shutting fate w u v e t s =
      subst (IsOrdered max) (some_injective s) (shut-IsOrdered v false w.ending w.jobs v.encoded)

  next_job-IsOrdered :
      (jobs : List (Job L)) (fate : Fate) (w u : SharedWriter L)
      → IsOrdered max w
      → All (JobEncodes max) jobs
      → InTime {L = L} (Event.proceed fate)
      → next_job jobs fate w ≡ some u
      → IsOrdered max u
  unfolding next_job
  next_job-IsOrdered [] fate w u v h t s = absurd cc
  next_job-IsOrdered (job ∷ jobs) fate w u v (h, hs) t s =
      do_job-IsOrdered job fate (record w { jobs = jobs }) u (jobs-IsOrdered v jobs hs) h t s

  without-All :
      (n : ℕ) (jobs rest : List (Job L))
      → All (JobEncodes max) jobs
      → without n jobs ≡ some rest
      → All (JobEncodes max) rest
  unfolding without
  without-All n [] rest h s = absurd cc
  without-All zero (saying f line ∷ jobs) rest h s =
      let same : jobs ≡ rest = ground arith in subst (All (JobEncodes max)) same h.1
  without-All zero (writing f line ∷ jobs) rest h s = absurd cc
  without-All zero (shutting ∷ jobs) rest h s = absurd cc
  without-All (suc n) (job ∷ jobs) rest h s = elim (Option-cases (without n jobs)) [
    | inl e ↦ absurd (ground (arith, e))
    | inr (others, e) ↦
        let same : job ∷ others ≡ rest = ground (arith, e) in
        subst (All (JobEncodes max)) same (h.0, without-All n jobs others h.1 e)
  ]

  ask_write-IsOrdered :
      (f : Frame L) (r : Result Bytes CodecError) (w : SharedWriter L)
      → IsOrdered max w
      → encode_line f max ≡ r
      → IsOrdered max (ask_write f r w)
  unfolding ask_write
  ask_write-IsOrdered f (err error) w v e = report-IsOrdered v f (SendOutcome.refused error) refl
  ask_write-IsOrdered f (ok line) w v e = elim (Bool-cases w.ending) [
    | inl on ↦
        subst (IsOrdered max) (sym (ground (arith, on)))
          (report-IsOrdered v f SendOutcome.closed refl)
    | inr off ↦ subst (IsOrdered max) (sym (ground (arith, off))) (
        jobs-IsOrdered v (w.jobs ++ writing f line ∷ [])
          (All-append (JobEncodes max) w.jobs (writing f line ∷ []) v.encoded (e, tt)))
  ]

  or_bare_encodes :
      (full bare : Frame L) (r s : Result Bytes CodecError) (f : Frame L) (line : Bytes)
      → encode_line full max ≡ r
      → encode_line bare max ≡ s
      → or_bare full bare r s ≡ some (f, line)
      → encode_line f max ≡ ok line
  unfolding or_bare
  or_bare_encodes full bare (ok l) s f line e g h = cc
  or_bare_encodes full bare (err x) (ok l) f line e g h = cc
  or_bare_encodes full bare (err x) (err y) f line e g h = absurd cc

  ask_close-IsOrdered :
      (o : Option (Frame L × Bytes)) (w : SharedWriter L)
      → IsOrdered max w
      → ((f : Frame L) (line : Bytes) → o ≡ some (f, line) → encode_line f max ≡ ok line)
      → IsOrdered max (ask_close o w)
  unfolding ask_close
  ask_close-IsOrdered none w v h = v
  ask_close-IsOrdered (some (f, line)) w v h =
      jobs-IsOrdered v (w.jobs ++ saying f line ∷ [])
        (All-append (JobEncodes max) w.jobs (saying f line ∷ []) v.encoded (h f line refl, tt))

  let_go-IsOrdered :
      (o : Option (List (Job L))) (w u : SharedWriter L)
      → IsOrdered max w
      → ((jobs : List (Job L)) → o ≡ some jobs → All (JobEncodes max) jobs)
      → let_go o w ≡ some u
      → IsOrdered max u
  unfolding let_go
  let_go-IsOrdered none w u v h s = absurd cc
  let_go-IsOrdered (some jobs) w u v h s =
      subst (IsOrdered max) (some_injective s) (jobs-IsOrdered v jobs (h jobs refl))

  step-IsOrdered :
      (e : Event L) (w u : SharedWriter L)
      → IsOrdered max w
      → InTime e
      → writer_step e w ≡ some u
      → IsOrdered max u
  unfolding writer_step close_line
  step-IsOrdered (Event.write_frame f) w u v t s = subst (IsOrdered max) (some_injective s) (
      ask_write-IsOrdered f (encode_line f w.max_frame_bytes) w v
        (ap (encode_line f) (sym v.ceiling)))
  step-IsOrdered (Event.write_close code reason) w u v t s =
      subst (IsOrdered max) (some_injective s) (
        ask_close-IsOrdered (close_line code reason w.max_frame_bytes) w v (λ f line h.
          or_bare_encodes _ _ _ _ f line (ap (encode_line _) (sym v.ceiling))
            (ap (encode_line _) (sym v.ceiling)) h))
  step-IsOrdered Event.shut_down w u v t s = subst (IsOrdered max) (some_injective s) (
      ending-IsOrdered v (w.jobs ++ shutting ∷ [])
        (All-append (JobEncodes max) w.jobs (shutting ∷ []) v.encoded (tt, tt)))
  step-IsOrdered (Event.proceed fate) w u v t s = next_job-IsOrdered w.jobs fate w u v v.encoded t s
  step-IsOrdered (Event.give_up n) w u v t s =
      let_go-IsOrdered (without n w.jobs) w u v (λ jobs h. without-All n w.jobs jobs v.encoded h) s

  -- In every run of the shared writer in which no farewell runs out of its grace while it is being
  -- written, the wire holds complete lines, each that `encode_line` wrote of a frame, and behind
  -- them either nothing or the first bytes (all of them at most) of one line that `encode_line`
  -- wrote, with which the port is no longer writable; the frames that `write_frame` reported as sent
  -- are, in order, those of the lines that are no farewell.
  pub WriterRun-IsOrdered :
      (events : List (Event L)) (w : SharedWriter L)
      → WriterRun (new_writer max) events w
      → All InTime events
      → IsOrdered max w
  WriterRun-IsOrdered _ _ start h = record {
    ceiling = refl;
    encoded = tt;
    out = [];
    part = [];
    stream = IsStream.done;
    wire = refl;
    torn = inl refl;
    reported = refl;
  }
  WriterRun-IsOrdered _ _ (then_ {events} {v} e u run s) (h, hs) =
      step-IsOrdered e v u (WriterRun-IsOrdered events v run hs) h s
