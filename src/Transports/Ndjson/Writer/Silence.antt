-- ===== src/Transports/Ndjson/Writer/Silence.antt =====
-- A port that has ended writes nothing.
use mango_protocol.Common.{
  ◌≡◌, refl, sym, ◌∙◌, append-nil, subst, Bytes, List, [], ◌∷◌, false, Option, none, some,
  Bool-cases, Result, ok, err, inl, inr, arith,
}
use mango_protocol.Libs.{Libs}
use mango_protocol.Wire.Error.{CodecError}
use mango_protocol.Wire.Frame.{Frame}
use mango_protocol.Codec.Serde.{Serde}
use mango_protocol.Codec.Ndjson.{encode_line}
use mango_protocol.Session.Driver.{SendOutcome}
use mango_protocol.Transports.Ndjson.{close_line}
use mango_protocol.Transports.Ndjson.Writer.{
  Job, writing, SharedWriter, Fate, Event, report, ask, ask_write, ask_close, next_job, without,
  let_go, writer_step,
}
use mango_protocol.Transports.Ndjson.Writer.Order.{sent_of, sent_of-append, some_injective}
use mango_protocol.Transports.Ndjson.Writer.Keeps.{unsent, do_job_Keeps}

module _ ⦃L : Libs⦄ ⦃S : Serde L⦄ where
  -- What an ended port leaves as it was.
  pub record IsSilent (w u : SharedWriter L) : Type 0 where
    pub still : u.open_ ≡ false
    pub wire : u.wire ≡ w.wire
    pub unsent : sent_of u.reports ≡ sent_of w.reports

  ask_write-IsSilent :
      (f : Frame L) (r : Result Bytes CodecError) (w : SharedWriter L)
      → w.open_ ≡ false
      → IsSilent w (ask_write f r w)
  unfolding ask_write
  ask_write-IsSilent f (err error) w n = record {
    still = n;
    wire = refl;
    unsent =
        sent_of-append w.reports ((f, SendOutcome.refused error) ∷ [])
        ∙ append-nil (sent_of w.reports);
  }
  ask_write-IsSilent f (ok line) w n = elim (Bool-cases w.ending) [
    | inl on ↦
        let e : ask_write f (ok line) w ≡ report f SendOutcome.closed w = ground (arith, on) in
        subst (IsSilent w) (sym e) (record { still = n; wire = refl; unsent = unsent w.reports f })
    | inr off ↦
        let e : ask_write f (ok line) w ≡ ask (writing f line) w = ground (arith, off) in
        subst (IsSilent w) (sym e) (record { still = n; wire = refl; unsent = refl })
  ]

  ask_close-IsSilent :
      (o : Option (Frame L × Bytes)) (w : SharedWriter L)
      → w.open_ ≡ false
      → IsSilent w (ask_close o w)
  unfolding ask_close
  ask_close-IsSilent none w n = record { still = n; wire = refl; unsent = refl }
  ask_close-IsSilent (some (f, line)) w n = record { still = n; wire = refl; unsent = refl }

  next_job-IsSilent :
      (jobs : List (Job L)) (fate : Fate) (w u : SharedWriter L)
      → w.open_ ≡ false
      → next_job jobs fate w ≡ some u
      → IsSilent w u
  unfolding next_job
  next_job-IsSilent [] fate w u n s = absurd cc
  next_job-IsSilent (job ∷ jobs) fate w u n s =
      let k = do_job_Keeps job fate (record w { jobs = jobs }) u s in
      record { still = k.closed n; wire = k.wire n; unsent = k.sent_frames n }

  let_go-IsSilent :
      (o : Option (List (Job L))) (w u : SharedWriter L)
      → w.open_ ≡ false
      → let_go o w ≡ some u
      → IsSilent w u
  unfolding let_go
  let_go-IsSilent none w u n s = absurd cc
  let_go-IsSilent (some rest) w u n s = record {
    still = ground arith;
    wire = ground arith;
    unsent = ground arith;
  }

  -- Once the handle is gone it stays so, and no event puts a byte on the wire or lets `write_frame`
  -- report a frame as sent.
  pub writer_step-IsSilent :
      (e : Event L) (w u : SharedWriter L)
      → w.open_ ≡ false
      → writer_step e w ≡ some u
      → IsSilent w u
  unfolding writer_step
  writer_step-IsSilent (Event.write_frame f) w u n s =
      subst (IsSilent w) (some_injective s)
        (ask_write-IsSilent f (encode_line f w.max_frame_bytes) w n)
  writer_step-IsSilent (Event.write_close code reason) w u n s =
      subst (IsSilent w) (some_injective s)
        (ask_close-IsSilent (close_line code reason w.max_frame_bytes) w n)
  writer_step-IsSilent Event.shut_down w u n s =
      subst (IsSilent w) (some_injective s) (record { still = n; wire = refl; unsent = refl })
  writer_step-IsSilent (Event.proceed fate) w u n s = next_job-IsSilent w.jobs fate w u n s
  writer_step-IsSilent (Event.give_up n') w u n s = let_go-IsSilent (without n' w.jobs) w u n s
