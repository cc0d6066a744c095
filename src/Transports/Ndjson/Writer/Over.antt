-- ===== src/Transports/Ndjson/Writer/Over.antt =====
-- Along the runs of the shared writer, a port that is being ended stays so, until it is over.
use mango_protocol.Common.{
  ℕ, zero, suc, ◌≡◌, refl, sym, ◌∙◌, subst, Bytes, List, [], ◌∷◌, ◌++◌, true, false, Option, none,
  some, Option-cases, ap, length, ◌≤◌, Result, ok, err, ◌⊎◌, inl, inr, arith,
}
use mango_protocol.Libs.{Libs}
use mango_protocol.Wire.Error.{CodecError}
use mango_protocol.Wire.Frame.{Frame}
use mango_protocol.Codec.Serde.{Serde}
use mango_protocol.Codec.Ndjson.{encode_line}
use mango_protocol.Session.Driver.{SendOutcome}
use mango_protocol.Transports.Ndjson.{close_line}
use mango_protocol.Transports.Ndjson.Writer.{
  Job, writing, saying, shutting, SharedWriter, Fate, Event, new_writer, report, ask_write,
  ask_close, do_job, next_job, without, let_go, writer_step, WriterRun, start, then_,
}
use mango_protocol.Transports.Ndjson.Writer.Order.{some_injective}
use mango_protocol.Transports.Ndjson.Writer.Ending.{
  HasShutting, IsEnding, IsOver, IsEnding-IsOver, proceed_all,
}
use mango_protocol.Transports.Ndjson.Writer.Keeps.{Keeps, do_job_Keeps}

module _ {L : Libs} where
  shut_open :
      (jobs : List (Job L)) (fate : Fate) (w u : SharedWriter L)
      → do_job shutting fate (record w { jobs = jobs }) ≡ some u
      → u.open_ ≡ false
  unfolding do_job
  shut_open jobs fate w u s = ground arith

  HasShutting-left : (a b : List (Job L)) → HasShutting a → HasShutting (a ++ b)
  HasShutting-left [] b h = absurd h
  HasShutting-left (shutting ∷ a) b h = tt
  HasShutting-left (writing f line ∷ a) b h = HasShutting-left a b h
  HasShutting-left (saying f line ∷ a) b h = HasShutting-left a b h

  HasShutting-last : (a : List (Job L)) → HasShutting (a ++ shutting ∷ [])
  HasShutting-last [] = tt
  HasShutting-last (shutting ∷ a) = tt
  HasShutting-last (writing f line ∷ a) = HasShutting-last a
  HasShutting-last (saying f line ∷ a) = HasShutting-last a

  HasShutting-without :
      (n : ℕ) (jobs rest : List (Job L))
      → without n jobs ≡ some rest
      → HasShutting jobs
      → HasShutting rest
  unfolding without
  HasShutting-without n [] rest s h = absurd h
  HasShutting-without zero (saying f line ∷ jobs) rest s h =
      let same : jobs ≡ rest = ground arith in subst HasShutting same h
  HasShutting-without zero (writing f line ∷ jobs) rest s h = absurd cc
  HasShutting-without zero (shutting ∷ jobs) rest s h = absurd cc
  HasShutting-without (suc n) (job ∷ jobs) rest s h = elim (Option-cases (without n jobs)) [
    | inl e ↦ absurd (ground (arith, e))
    | inr (others, e) ↦
        let same : job ∷ others ≡ rest = ground (arith, e) in
        subst HasShutting same (behind job others (HasShutting-without n jobs others e) h)
  ]
    where
      behind :
          (j : Job L) (others : List (Job L))
          → (HasShutting jobs → HasShutting others)
          → HasShutting (j ∷ jobs)
          → HasShutting (j ∷ others)
      behind shutting others k g = tt
      behind (writing f line) others k g = k g
      behind (saying f line) others k g = k g

  -- A port that is not being ended, or will be.
  abbrev EndsWell : SharedWriter L → Type 0
  EndsWell w = (w.ending ≡ false) ⊎ IsEnding w

  ask_write-EndsWell :
      (f : Frame L) (r : Result Bytes CodecError) (w : SharedWriter L)
      → EndsWell w
      → EndsWell (ask_write f r w)
  unfolding ask_write
  ask_write-EndsWell f (err error) w h = h
  ask_write-EndsWell f (ok line) w (inl off) = inl (ground (arith, off))
  ask_write-EndsWell f (ok line) w (inr (on, h)) =
      let e : ask_write f (ok line) w ≡ report f SendOutcome.closed w = ground (arith, on) in
      subst EndsWell (sym e) (inr (on, h))

  ask_close-EndsWell :
      (o : Option (Frame L × Bytes)) (w : SharedWriter L) → EndsWell w → EndsWell (ask_close o w)
  unfolding ask_close
  ask_close-EndsWell none w h = h
  ask_close-EndsWell (some (f, line)) w (inl off) = inl off
  ask_close-EndsWell (some (f, line)) w (inr (on, inl gone)) = inr (on, inl gone)
  ask_close-EndsWell (some (f, line)) w (inr (on, inr h)) =
      inr (on, inr (HasShutting-left w.jobs (saying f line ∷ []) h))

  -- The first job, while the port is being ended.
  next_job-EndsWell :
      (jobs : List (Job L)) (fate : Fate) (w u : SharedWriter L)
      → EndsWell w
      → w.jobs ≡ jobs
      → next_job jobs fate w ≡ some u
      → EndsWell u
  unfolding next_job
  next_job-EndsWell [] fate w u h e s = absurd cc
  next_job-EndsWell (job ∷ jobs) fate w u h e s =
      passes (do_job_Keeps job fate (record w { jobs = jobs }) u s) h
    where
      left :
          (j : Job L)
          → Keeps (record w { jobs = jobs }) u
          → do_job j fate (record w { jobs = jobs }) ≡ some u
          → HasShutting (j ∷ jobs)
          → (u.open_ ≡ false) ⊎ HasShutting u.jobs
      left shutting k s' g = inl (shut_open jobs fate w u s')
      left (writing f line) k s' g = inr (subst HasShutting (sym k.jobs) g)
      left (saying f line) k s' g = inr (subst HasShutting (sym k.jobs) g)

      passes : Keeps (record w { jobs = jobs }) u → EndsWell w → EndsWell u
      passes k (inl off) = inl (k.ending ∙ off)
      passes k (inr (on, inl gone)) = inr (k.ending ∙ on, inl (k.closed gone))
      passes k (inr (on, inr waits)) = inr (k.ending ∙ on, left job k s (subst HasShutting e waits))

  let_go-EndsWell :
      (o : Option (List (Job L))) (w u : SharedWriter L)
      → EndsWell w
      → ((rest : List (Job L)) → o ≡ some rest → HasShutting w.jobs → HasShutting rest)
      → let_go o w ≡ some u
      → EndsWell u
  unfolding let_go
  let_go-EndsWell none w u h k s = absurd cc
  let_go-EndsWell (some rest) w u h k s =
      let e : record w { jobs = rest } ≡ u = ground arith in subst EndsWell e (keeps h)
    where
      keeps : EndsWell w → EndsWell (record w { jobs = rest })
      keeps (inl off) = inl off
      keeps (inr (on, inl gone)) = inr (on, inl gone)
      keeps (inr (on, inr waits)) = inr (on, inr (k rest refl waits))

module _ ⦃L : Libs⦄ ⦃S : Serde L⦄ where
  no_jobs :
      (w : SharedWriter L) (jobs : List (Job L))
      → w.jobs ≡ jobs
      → length jobs ≤ 0
      → IsEnding w
      → w.open_ ≡ false
  no_jobs w [] e n (on, inl gone) = gone
  no_jobs w [] e n (on, inr h) = absurd (subst HasShutting e h)
  no_jobs w (job ∷ jobs) e n h = absurd (ground arith)

  -- A job of a port that is being ended, whatever its fate.
  one_turn :
      (fate : Fate) (w v : SharedWriter L) (jobs : List (Job L))
      → w.jobs ≡ jobs
      → IsEnding w
      → next_job jobs fate w ≡ some v
      → IsEnding v × (length jobs ≡ suc (length v.jobs))
  unfolding next_job
  one_turn fate w v [] e h s = absurd cc
  one_turn fate w v (job ∷ jobs) e h s =
      let k = do_job_Keeps job fate (record w { jobs = jobs }) v s in
      (
        ends k (next_job-EndsWell (job ∷ jobs) fate w v (inr h) e s),
        ap (λ (l : List (Job L)). suc (length l)) (sym k.jobs),
      )
    where
      ends : Keeps (record w { jobs = jobs }) v → EndsWell v → IsEnding v
      ends k (inl off) = absurd (ground (arith, k.ending, h.0, off))
      ends k (inr ending) = ending

  always_over :
      (fates : List Fate) (w u : SharedWriter L)
      → IsEnding w
      → proceed_all fates w ≡ some u
      → length w.jobs ≤ length fates
      → u.open_ ≡ false
  unfolding proceed_all
  always_over [] w u h s n =
      subst (λ (x : SharedWriter L). x.open_ ≡ false) (some_injective s) (no_jobs w w.jobs refl n h)
  always_over (fate ∷ fates) w u h s n = elim (Option-cases (next_job w.jobs fate w)) [
    | inl e ↦ absurd (ground (arith, e))
    | inr (v, e) ↦
        let (ending, fewer) = one_turn fate w v w.jobs refl h e in
        always_over fates v u ending (ground (arith, e)) (omega (arith, fewer, n))
  ]

  step_EndsWell :
      (e : Event L) (w u : SharedWriter L) → EndsWell w → writer_step e w ≡ some u → EndsWell u
  unfolding writer_step
  step_EndsWell (Event.write_frame f) w u h s =
      subst EndsWell (some_injective s) (ask_write-EndsWell f (encode_line f w.max_frame_bytes) w h)
  step_EndsWell (Event.write_close code reason) w u h s =
      subst EndsWell (some_injective s)
        (ask_close-EndsWell (close_line code reason w.max_frame_bytes) w h)
  step_EndsWell Event.shut_down w u h s =
      subst EndsWell (some_injective s) (inr (refl, inr (HasShutting-last w.jobs)))
  step_EndsWell (Event.proceed fate) w u h s = next_job-EndsWell w.jobs fate w u h refl s
  step_EndsWell (Event.give_up n) w u h s =
      let_go-EndsWell (without n w.jobs) w u h (HasShutting-without n w.jobs) s

  run_EndsWell :
      (max : ℕ) (events : List (Event L)) (w : SharedWriter L)
      → WriterRun (new_writer max) events w
      → EndsWell w
  run_EndsWell max _ _ start = inl refl
  run_EndsWell max _ _ (then_ {events} {v} e u run s) =
      step_EndsWell e v u (run_EndsWell max events v run) s

  -- From every state of the shared writer that a run reaches in which a `shut_down` has begun:
  -- whatever the fates of the writes, the handle is gone once as many jobs have had their turn as
  -- wait; and the peer need not read a byte for them to have it, since where `ended` evicts each
  -- write that waits and the grace of each farewell runs out, the jobs up to the `shut_down` have
  -- their turns, the handle is gone and the wire is as it was.
  pub WriterRun-IsOver :
      (max : ℕ) (events : List (Event L)) (w : SharedWriter L)
      → WriterRun (new_writer max) events w
      → w.ending ≡ true
      → IsOver w
        × ((fates : List Fate) (u : SharedWriter L)
            → proceed_all fates w ≡ some u
            → length w.jobs ≤ length fates
            → u.open_ ≡ false)
  WriterRun-IsOver max events w run on = over (run_EndsWell max events w run)
    where
      over :
          EndsWell w
          → IsOver w
            × ((fates : List Fate) (u : SharedWriter L)
                → proceed_all fates w ≡ some u
                → length w.jobs ≤ length fates
                → u.open_ ≡ false)
      over (inl off) = absurd cc
      over (inr h) = (IsEnding-IsOver w h, λ fates u s n. always_over fates w u h s n)
