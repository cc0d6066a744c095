-- ===== src/Transports/Ndjson/Writer/Keeps.antt =====
-- What a job of the shared writer leaves as it was.
use mango_protocol.Common.{
  ◌≡◌, refl, ◌∙◌, append-nil, subst, Bytes, List, [], ◌∷◌, ◌++◌, Bool, true, false, not, ◌||◌, some,
  Bool-cases, inl, inr, arith,
}
use mango_protocol.Libs.{Libs}
use mango_protocol.Wire.Frame.{Frame}
use mango_protocol.Session.Driver.{SendOutcome}
use mango_protocol.Transports.Ndjson.Writer.{
  Job, writing, saying, shutting, SharedWriter, Fate, landed, broke, evicted, expired, report,
  write_record, write_farewell, do_job,
}
use mango_protocol.Transports.Ndjson.Writer.Order.{sent_of, sent_of-append}

is_open : (a b : Bool) → (not a || not b) ≡ false → b ≡ true
is_open a b h = ground arith

module _ {L : Libs} where
  -- What no job changes, and what every job of an ended port leaves alone.
  pub record Keeps (w u : SharedWriter L) : Type 0 where
    pub jobs : u.jobs ≡ w.jobs
    pub ending : u.ending ≡ w.ending
    pub closed : w.open_ ≡ false → u.open_ ≡ false
    pub wire : w.open_ ≡ false → u.wire ≡ w.wire
    pub sent_frames : w.open_ ≡ false → sent_of u.reports ≡ sent_of w.reports

  pub unsent :
      (reports : List (Frame L × SendOutcome)) (f : Frame L)
      → sent_of (reports ++ (f, SendOutcome.closed) ∷ []) ≡ sent_of reports
  unsent reports f =
      sent_of-append reports ((f, SendOutcome.closed) ∷ []) ∙ append-nil (sent_of reports)

  write_Keeps :
      (f : Frame L) (line : Bytes) (fate : Fate) (w u : SharedWriter L)
      → w.open_ ≡ true
      → write_record f line fate w ≡ some u
      → Keeps w u
  unfolding write_record
  write_Keeps f line landed w u h s = record {
    jobs = ground arith;
    ending = ground arith;
    closed = λ n. absurd cc;
    wire = λ n. absurd cc;
    sent_frames = λ n. absurd cc;
  }
  write_Keeps f line (broke n) w u h s = record {
    jobs = ground arith;
    ending = ground arith;
    closed = λ n. absurd cc;
    wire = λ n. absurd cc;
    sent_frames = λ n. absurd cc;
  }
  write_Keeps f line (evicted n) w u h s = record {
    jobs = ground arith;
    ending = ground arith;
    closed = λ n. absurd cc;
    wire = λ n. absurd cc;
    sent_frames = λ n. absurd cc;
  }
  write_Keeps f line (expired n) w u h s = absurd cc

  farewell_Keeps :
      (f : Frame L) (line : Bytes) (fate : Fate) (w u : SharedWriter L)
      → w.open_ ≡ true
      → write_farewell f line fate w ≡ some u
      → Keeps w u
  unfolding write_farewell
  farewell_Keeps f line fate w u h s = record {
    jobs = jobs_at fate s;
    ending = ending_at fate s;
    closed = λ n. absurd cc;
    wire = λ n. absurd cc;
    sent_frames = λ n. absurd cc;
  }
    where
      jobs_at : (fate' : Fate) → write_farewell f line fate' w ≡ some u → u.jobs ≡ w.jobs
      jobs_at landed s' = ground arith
      jobs_at (broke n) s' = ground arith
      jobs_at (evicted n) s' = absurd cc
      jobs_at (expired n) s' = ground arith

      ending_at : (fate' : Fate) → write_farewell f line fate' w ≡ some u → u.ending ≡ w.ending
      ending_at landed s' = ground arith
      ending_at (broke n) s' = ground arith
      ending_at (evicted n) s' = absurd cc
      ending_at (expired n) s' = ground arith

  same_Keeps : (w : SharedWriter L) → Keeps w w
  same_Keeps w = record {
    jobs = refl;
    ending = refl;
    closed = λ n. n;
    wire = λ n. refl;
    sent_frames = λ n. refl;
  }

  report_Keeps : (f : Frame L) (w : SharedWriter L) → Keeps w (report f SendOutcome.closed w)
  report_Keeps f w = record {
    jobs = refl;
    ending = refl;
    closed = λ n. n;
    wire = λ n. refl;
    sent_frames = λ n. unsent w.reports f;
  }

  pub do_job_Keeps :
      (job : Job L) (fate : Fate) (w u : SharedWriter L) → do_job job fate w ≡ some u → Keeps w u
  unfolding do_job
  do_job_Keeps (writing f line) fate w u s = elim (Bool-cases (not w.writable || not w.open_)) [
    | inl over ↦
        let e : report f SendOutcome.closed w ≡ u = ground (arith, over) in
        subst (Keeps w) e (report_Keeps f w)
    | inr on ↦ write_Keeps f line fate w u (is_open w.writable w.open_ on) (ground (arith, on))
  ]
  do_job_Keeps (saying f line) fate w u s = elim (Bool-cases (not w.writable || not w.open_)) [
    | inl over ↦ let e : w ≡ u = ground (arith, over) in subst (Keeps w) e (same_Keeps w)
    | inr on ↦ farewell_Keeps f line fate w u (is_open w.writable w.open_ on) (ground (arith, on))
  ]
  do_job_Keeps shutting fate w u s = record {
    jobs = ground arith;
    ending = ground arith;
    closed = λ n. ground arith;
    wire = λ n. ground arith;
    sent_frames = λ n. ground arith;
  }
