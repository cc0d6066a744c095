-- ===== src/Transports/Ndjson/Writer/Order.antt =====
-- What the shared writer puts on the wire, and what it reports of it.
use mango_protocol.Common.{
  ℕ, ◌≡◌, refl, sym, ap, ◌∙◌, subst, Bytes, List, [], ◌∷◌, ◌++◌, map, map-append, append-nil,
  append_assoc, Bool, true, false, not, ◌||◌, take, Option, some, Bool-cases, ok, ◌⊎◌, inl, inr,
  All, arith,
}
use mango_protocol.Libs.{Libs}
use mango_protocol.Wire.Frame.{Frame}
use mango_protocol.Codec.Serde.{Serde}
use mango_protocol.Codec.Ndjson.{encode_line}
use mango_protocol.Codec.Decoder.Streams.{IsStream}
use mango_protocol.Session.Driver.{SendOutcome, sent}
use mango_protocol.Transports.Ndjson.Writer.{
  Job, writing, saying, shutting, Line, framed, farewell, SharedWriter, Fate, landed, broke,
  evicted, expired, Event, report, put_out, tear, write_record, write_farewell,
}

module _ {L : Libs} where
  abbrev pub frame_of : Line L → Frame L
  frame_of (framed f) = f
  frame_of (farewell f) = f

  -- The frames of `write_frame` among the complete lines.
  abbrev pub framed_of : List (Line L) → List (Frame L)
  framed_of [] = []
  framed_of (framed f ∷ lines) = f ∷ framed_of lines
  framed_of (farewell f ∷ lines) = framed_of lines

  -- The frames of which `write_frame` said that they were sent.
  abbrev pub sent_of : List (Frame L × SendOutcome) → List (Frame L)
  sent_of [] = []
  sent_of ((f, SendOutcome.sent) ∷ reports) = f ∷ sent_of reports
  sent_of ((f, SendOutcome.closed) ∷ reports) = sent_of reports
  sent_of ((f, SendOutcome.refused e) ∷ reports) = sent_of reports

  -- An event other than a farewell whose grace runs out while it is written.
  abbrev pub InTime : Event L → Type 0
  InTime (Event.proceed (Fate.expired n)) = ⊥
  InTime _ = Unit {0}

  framed_of-append : (a b : List (Line L)) → framed_of (a ++ b) ≡ framed_of a ++ framed_of b
  framed_of-append [] b = refl
  framed_of-append (framed f ∷ a) b = ap (◌∷◌ f) (framed_of-append a b)
  framed_of-append (farewell f ∷ a) b = framed_of-append a b

  pub sent_of-append :
      (a b : List (Frame L × SendOutcome)) → sent_of (a ++ b) ≡ sent_of a ++ sent_of b
  sent_of-append [] b = refl
  sent_of-append ((f, SendOutcome.sent) ∷ a) b = ap (◌∷◌ f) (sent_of-append a b)
  sent_of-append ((f, SendOutcome.closed) ∷ a) b = sent_of-append a b
  sent_of-append ((f, SendOutcome.refused e) ∷ a) b = sent_of-append a b

module _ ⦃L : Libs⦄ ⦃S : Serde L⦄ where
  pub stream_snoc :
      (max : ℕ) {fs : List (Frame L)} {bytes : Bytes} (f : Frame L) (out : Bytes)
      → encode_line f max ≡ ok out
      → IsStream max fs bytes
      → IsStream max (fs ++ f ∷ []) (bytes ++ out)
  stream_snoc max f out e IsStream.done =
      subst (IsStream max (f ∷ [])) (append-nil out) (IsStream.line f [] out [] e IsStream.done)
  stream_snoc max f out e (IsStream.line g fs record_bytes rest eg s) =
      subst (IsStream max (g ∷ (fs ++ f ∷ []))) (sym (append_assoc record_bytes rest out))
        (IsStream.line g (fs ++ f ∷ []) record_bytes (rest ++ out) eg (stream_snoc max f out e s))

  abbrev pub JobEncodes : ℕ → Job L → Type 0
  JobEncodes max (writing f line) = encode_line f max ≡ ok line
  JobEncodes max (saying f line) = encode_line f max ≡ ok line
  JobEncodes max shutting = Unit {0}

  -- The first bytes of one line.
  pub record IsPart (max : ℕ) (part : Bytes) : Type 0 where
    pub frame : Frame L
    pub line : Bytes
    pub cut : ℕ
    pub encoded : encode_line frame max ≡ ok line
    pub begins : part ≡ take cut line

  -- The wire holds the complete lines, in order, and then perhaps the first bytes of one more, with
  -- which the port is no longer writable; the frames that were reported as sent are those of the
  -- lines.
  pub record IsOrdered (max : ℕ) (w : SharedWriter L) : Type 0 where
    pub ceiling : w.max_frame_bytes ≡ max
    pub encoded : All (JobEncodes max) w.jobs
    pub out : Bytes
    pub part : Bytes
    pub stream : IsStream max (map frame_of w.lines) out
    pub wire : w.wire ≡ out ++ part
    pub torn : (part ≡ []) ⊎ ((w.writable ≡ false) × IsPart max part)
    pub reported : sent_of w.reports ≡ framed_of w.lines

  pub some_injective : {a b : SharedWriter L} → Option.some a ≡ some b → a ≡ b
  some_injective h = cc

  reports_nil :
      (w : SharedWriter L) (line : Bytes) (f : Frame L)
      → record (put_out line (farewell f) w) { reports = w.reports ++ [] }
        ≡ put_out line (farewell f) w
  reports_nil w line f =
      ap
        (λ (r : List (Frame L × SendOutcome)). record (put_out line (farewell f) w) { reports = r })
        (append-nil w.reports)

  module _ {max : ℕ} {w : SharedWriter L} (v : IsOrdered max w) where
    pub report-IsOrdered :
        (f : Frame L) (o : SendOutcome) → sent_of ((f, o) ∷ []) ≡ [] → IsOrdered max (report f o w)
    report-IsOrdered f o n = record {
      ceiling = v.ceiling;
      encoded = v.encoded;
      out = v.out;
      part = v.part;
      stream = v.stream;
      wire = v.wire;
      torn = v.torn;
      reported =
          sent_of-append w.reports ((f, o) ∷ [])
          ∙ (ap (◌++◌ (sent_of w.reports)) n ∙ (append-nil (sent_of w.reports) ∙ v.reported));
    }

    pub jobs-IsOrdered :
        (jobs : List (Job L)) → All (JobEncodes max) jobs → IsOrdered max (record w { jobs = jobs })
    jobs-IsOrdered jobs h = record {
      ceiling = v.ceiling;
      encoded = h;
      out = v.out;
      part = v.part;
      stream = v.stream;
      wire = v.wire;
      torn = v.torn;
      reported = v.reported;
    }

    whole_wire : w.writable ≡ true → w.wire ≡ v.out
    whole_wire h = elim v.torn [
      | inl e ↦ v.wire ∙ (ap (◌++◌ v.out) e ∙ append-nil v.out)
      | inr e ↦ absurd (ground (arith, e.0))
    ]

    tear-IsOrdered :
        (f : Frame L) (line : Bytes) (n : ℕ)
        → w.writable ≡ true
        → encode_line f max ≡ ok line
        → IsOrdered max (tear (take n line) w)
    tear-IsOrdered f line n h e = record {
      ceiling = v.ceiling;
      encoded = v.encoded;
      out = v.out;
      part = take n line;
      stream = v.stream;
      wire = ap (λ (x : Bytes). x ++ take n line) (whole_wire h);
      torn = inr (refl, record { frame = f; line = line; cut = n; encoded = e; begins = refl });
      reported = v.reported;
    }

    put-IsOrdered :
        (line : Bytes) (l : Line L) (reports : List (Frame L × SendOutcome))
        → w.writable ≡ true
        → encode_line (frame_of l) max ≡ ok line
        → sent_of reports ≡ framed_of (l ∷ [])
        → IsOrdered max (record (put_out line l w) { reports = w.reports ++ reports })
    put-IsOrdered line l reports h e r = record {
      ceiling = v.ceiling;
      encoded = v.encoded;
      out = v.out ++ line;
      part = [];
      stream =
          subst (λ (x : List (Frame L)). IsStream max x (v.out ++ line))
            (sym (map-append frame_of w.lines (l ∷ [])))
            (stream_snoc max (frame_of l) line e v.stream);
      wire = ap (λ (x : Bytes). x ++ line) (whole_wire h) ∙ sym (append-nil (v.out ++ line));
      torn = inl refl;
      reported =
          sent_of-append w.reports reports
          ∙ (cc (v.reported, r) ∙ sym (framed_of-append w.lines (l ∷ [])));
    }

    pub shut-IsOrdered :
        (o e : Bool) (jobs : List (Job L))
        → All (JobEncodes max) jobs
        → IsOrdered max (record w { writable = false; open_ = o; ending = e; jobs = jobs })
    shut-IsOrdered o e jobs h = record {
      ceiling = v.ceiling;
      encoded = h;
      out = v.out;
      part = v.part;
      stream = v.stream;
      wire = v.wire;
      torn = shut v.torn;
      reported = v.reported;
    }
      where
        shut :
            (v.part ≡ []) ⊎ ((w.writable ≡ false) × IsPart max v.part)
            → (v.part ≡ []) ⊎ ((false ≡ false) × IsPart max v.part)
        shut (inl none_out) = inl none_out
        shut (inr (off, part)) = inr (refl, part)

    pub ending-IsOrdered :
        (jobs : List (Job L))
        → All (JobEncodes max) jobs
        → IsOrdered max (record w { ending = true; jobs = jobs })
    ending-IsOrdered jobs h = record {
      ceiling = v.ceiling;
      encoded = h;
      out = v.out;
      part = v.part;
      stream = v.stream;
      wire = v.wire;
      torn = v.torn;
      reported = v.reported;
    }

  pub not-false : (a b : Bool) → (not a || not b) ≡ false → a ≡ true
  not-false a b h = ground arith

  pub write-IsOrdered :
      (max : ℕ) (w u : SharedWriter L) (f : Frame L) (line : Bytes) (fate : Fate)
      → IsOrdered max w
      → w.writable ≡ true
      → encode_line f max ≡ ok line
      → write_record f line fate w ≡ some u
      → IsOrdered max u
  unfolding write_record
  write-IsOrdered max w u f line landed v h e s =
      subst (IsOrdered max) (some_injective s)
        (put-IsOrdered v line (framed f) ((f, sent) ∷ []) h e refl)
  write-IsOrdered max w u f line (broke n) v h e s =
      subst (IsOrdered max) (some_injective s)
        (report-IsOrdered (tear-IsOrdered v f line n h e) f SendOutcome.closed refl)
  write-IsOrdered max w u f line (evicted n) v h e s = elim (Bool-cases w.ending) [
    | inl on ↦
        subst (IsOrdered max) (ground (arith, on))
          (report-IsOrdered (tear-IsOrdered v f line n h e) f SendOutcome.closed refl)
    | inr off ↦ absurd (ground (arith, off))
  ]
  write-IsOrdered max w u f line (expired n) v h e s = absurd cc

  pub farewell-IsOrdered :
      (max : ℕ) (w u : SharedWriter L) (f : Frame L) (line : Bytes) (fate : Fate)
      → IsOrdered max w
      → w.writable ≡ true
      → encode_line f max ≡ ok line
      → InTime {L = L} (Event.proceed fate)
      → write_farewell f line fate w ≡ some u
      → IsOrdered max u
  unfolding write_farewell
  farewell-IsOrdered max w u f line landed v h e t s =
      subst (IsOrdered max) (reports_nil w line f ∙ some_injective s)
        (put-IsOrdered v line (farewell f) [] h e refl)
  farewell-IsOrdered max w u f line (broke n) v h e t s =
      subst (IsOrdered max) (some_injective s) (tear-IsOrdered v f line n h e)
  farewell-IsOrdered max w u f line (evicted n) v h e t s = absurd cc
  farewell-IsOrdered max w u f line (expired n) v h e t s = absurd t
