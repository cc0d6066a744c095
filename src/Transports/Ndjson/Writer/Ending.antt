-- ===== src/Transports/Ndjson/Writer/Ending.antt =====
-- Ending a port: it is over whatever the peer does, and then nothing is written.
use mango_protocol.Common.{
  ◌≤◌, ◌≡◌, refl, ap, ◌∙◌, List, [], ◌∷◌, ◌++◌, append-nil, true, false, not, ◌||◌, Option, none,
  some, Bool-cases, ◌⊎◌, inl, inr, Bool, length, arith,
}
use mango_protocol.Libs.{Libs}
use mango_protocol.Session.Driver.{SendOutcome}
use mango_protocol.Transports.Ndjson.Writer.{
  Job, writing, saying, shutting, SharedWriter, Fate, landed, evicted, expired, report,
  write_record, write_farewell, do_job, next_job,
}

module _ {L : Libs} where
  -- A `shut_down` that waits for the lock.
  abbrev pub HasShutting : List (Job L) → Type 0
  HasShutting [] = ⊥
  HasShutting (shutting ∷ jobs) = Unit {0}
  HasShutting (writing f line ∷ jobs) = HasShutting jobs
  HasShutting (saying f line ∷ jobs) = HasShutting jobs

  -- A port that is being ended will be: its handle is gone, or a `shut_down` waits for the lock.
  abbrev pub IsEnding : SharedWriter L → Type 0
  IsEnding w = (w.ending ≡ true) × ((w.open_ ≡ false) ⊎ HasShutting w.jobs)

  -- The fates that need nothing of the peer, and do not put a byte on the wire.
  abbrev pub way_out : Job L → Fate
  way_out (writing f line) = evicted 0
  way_out (saying f line) = expired 0
  way_out shutting = landed

  abbrev pub ways_out : List (Job L) → List Fate
  ways_out [] = []
  ways_out (shutting ∷ jobs) = landed ∷ []
  ways_out (writing f line ∷ jobs) = evicted 0 ∷ ways_out jobs
  ways_out (saying f line ∷ jobs) = expired 0 ∷ ways_out jobs

  -- The jobs, one after the other, with these fates.
  unfoldable pub proceed_all : List Fate → SharedWriter L → Option (SharedWriter L)
  proceed_all [] w = some w
  proceed_all (fate ∷ fates) w = elim (next_job w.jobs fate w) [
    | none ↦ none
    | some u ↦ proceed_all fates u
  ]

  -- A job that goes its way out, while the port is being ended.
  record Passed (job : Job L) (jobs : List (Job L)) (w : SharedWriter L) : Type 0 where
    next : SharedWriter L
    reached : do_job job (way_out job) (record w { jobs = jobs }) ≡ some next
    jobs_left : next.jobs ≡ jobs
    still : next.ending ≡ w.ending
    wire : next.wire ≡ w.wire
    closed : w.open_ ≡ false → next.open_ ≡ false

  pass :
      (job : Job L) (jobs : List (Job L)) (w : SharedWriter L) → w.ending ≡ true → Passed job jobs w
  unfolding do_job write_record write_farewell
  pass shutting jobs w on = record {
    next = _;
    reached = refl;
    jobs_left = refl;
    still = refl;
    wire = refl;
    closed = λ gone. refl;
  }
  pass (writing f line) jobs w on = elim (Bool-cases (not w.writable || not w.open_)) [
    | inl over ↦ record {
      next = report f SendOutcome.closed (record w { jobs = jobs });
      reached = ground (arith, over);
      jobs_left = refl;
      still = refl;
      wire = refl;
      closed = λ gone. gone;
    }
    | inr there ↦ record {
      next =
          report f SendOutcome.closed
            (record w { jobs = jobs; wire = w.wire ++ []; writable = false });
      reached = ground (arith, there, on);
      jobs_left = refl;
      still = refl;
      wire = append-nil w.wire;
      closed = λ gone. gone;
    }
  ]
  pass (saying f line) jobs w on = elim (Bool-cases (not w.writable || not w.open_)) [
    | inl over ↦ record {
      next = record w { jobs = jobs };
      reached = ground (arith, over);
      jobs_left = refl;
      still = refl;
      wire = refl;
      closed = λ gone. gone;
    }
    | inr there ↦ record {
      next = record w { jobs = jobs; wire = w.wire ++ [] };
      reached = ground (arith, there);
      jobs_left = refl;
      still = refl;
      wire = append-nil w.wire;
      closed = λ gone. gone;
    }
  ]

  proceeds :
      (job : Job L) (jobs : List (Job L)) (w u : SharedWriter L) (fate : Fate) (fates : List Fate)
      → w.jobs ≡ job ∷ jobs
      → do_job job fate (record w { jobs = jobs }) ≡ some u
      → proceed_all (fate ∷ fates) w ≡ proceed_all fates u
  unfolding proceed_all next_job
  proceeds job jobs w u fate fates e s =
      let first : next_job w.jobs fate w ≡ some u =
        ap (λ (l : List (Job L)). next_job l fate w) e ∙ s in
      rw (first, proceed_all) refl

  -- The jobs ahead of the end of a port, or of one whose handle is gone already.
  abbrev Going : Bool → List (Job L) → Type 0
  Going open_ jobs = (open_ ≡ false) ⊎ HasShutting jobs

  passed :
      (jobs : List (Job L)) (a b : Bool) → (a ≡ false → b ≡ false) → Going a jobs → Going b jobs
  passed jobs a b k (inl gone) = inl (k gone)
  passed jobs a b k (inr h) = inr h

  -- What is left of the handle and the wire where every job goes its way out.
  drain_out :
      (jobs : List (Job L)) (w : SharedWriter L)
      → w.jobs ≡ jobs
      → w.ending ≡ true
      → Going w.open_ jobs
      → (u : SharedWriter L) × (proceed_all (ways_out jobs) w ≡ some u)
        × (u.open_ ≡ false)
        × (u.wire ≡ w.wire)
  unfolding proceed_all do_job
  drain_out [] w e on (inl gone) = (w, refl, gone, refl)
  drain_out [] w e on (inr h) = absurd h
  drain_out (shutting ∷ jobs) w e on h =
      let u = record w { jobs = jobs; writable = false; open_ = false } in
      (u, proceeds shutting jobs w u landed [] e refl, refl, refl)
  drain_out (writing f line ∷ jobs) w e on h =
      let p = pass (writing f line) jobs w on in
      let (u, s, gone, wire) =
        drain_out jobs p.next p.jobs_left (p.still ∙ on)
          (passed jobs w.open_ p.next.open_ p.closed h) in
      (u, proceeds _ jobs w p.next (evicted 0) _ e p.reached ∙ s, gone, wire ∙ p.wire)
  drain_out (saying f line ∷ jobs) w e on h =
      let p = pass (saying f line) jobs w on in
      let (u, s, gone, wire) =
        drain_out jobs p.next p.jobs_left (p.still ∙ on)
          (passed jobs w.open_ p.next.open_ p.closed h) in
      (u, proceeds _ jobs w p.next (expired 0) _ e p.reached ∙ s, gone, wire ∙ p.wire)

  length-ways_out : (jobs : List (Job L)) → length (ways_out jobs) ≤ length jobs
  length-ways_out [] = omega arith
  length-ways_out (shutting ∷ jobs) = omega arith
  length-ways_out (writing f line ∷ jobs) = omega (arith, length-ways_out jobs)
  length-ways_out (saying f line ∷ jobs) = omega (arith, length-ways_out jobs)

  -- The end of a port that is being ended while the peer reads nothing: a write that waits is
  -- evicted, and the grace of a farewell runs out.
  pub record IsOver (w : SharedWriter L) : Type 0 where
    pub final : SharedWriter L
    pub reached : proceed_all (ways_out w.jobs) w ≡ some final
    pub soon : length (ways_out w.jobs) ≤ length w.jobs
    pub gone : final.open_ ≡ false
    pub untouched : final.wire ≡ w.wire

  pub IsEnding-IsOver : (w : SharedWriter L) → IsEnding w → IsOver w
  IsEnding-IsOver w (on, h) =
      let (u, s, gone, wire) = drain_out w.jobs w refl on h in
      record {
        final = u;
        reached = s;
        soon = length-ways_out w.jobs;
        gone = gone;
        untouched = wire;
      }
