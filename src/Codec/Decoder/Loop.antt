-- ===== src/Codec/Decoder/Loop.antt =====
-- The loop of `LineDecoder::push`: its fuel, what it leaves, and how it resumes on more bytes.
use mango_protocol.Common.{
  ℕ, zero, suc, ◌≤◌, ◌<◌, ◌≡◌, refl, sym, ap, ◌∙◌, Bytes, [], ◌∷◌, ◌++◌, none, some, ltb, ◌⊎◌, true,
  length, length-append, Bool-cases, Option-cases, Result-cases, inl, inr, arith,
}
use mango_protocol.Libs.{Libs}
use mango_protocol.Wire.Error.{CodecError}
use mango_protocol.Wire.Frame.{Frame}
use mango_protocol.Codec.Serde.{Serde}
use mango_protocol.Codec.Ndjson.{strip_carriage_return, is_blank, decode_line, too_large_error}
use mango_protocol.Codec.Decoder.{Drained, take_line, drain_line, drain}
use mango_protocol.Codec.Decoder.Lines.{
  take_line-append, take_line-append_none, prepend, take_line_shorter, strip-append-le,
}

module _ ⦃L : Libs⦄ ⦃S : Serde L⦄ where
  pub take_line-nil : take_line [] ≡ none
  unfolding take_line
  take_line-nil = refl

  pub drain-none :
      (max fuel : ℕ) (a : Bytes)
      → take_line a ≡ none
      → drain max fuel a ≡ record { frames = []; refused = none; rest = a }
  unfolding drain
  drain-none max zero a e = refl
  drain-none max (suc fuel) a e = rw (e, drain)

  pub drain-some :
      (max fuel : ℕ) (a line rest : Bytes)
      → take_line a ≡ some (line, rest)
      → drain max (suc fuel) a ≡ drain_line max line rest (drain max fuel rest)
  unfolding drain
  drain-some max fuel a line rest e = rw (e, drain)

  -- Once the fuel reaches the number of bytes, more of it changes nothing.
  pub drain_fuel :
      (max f g : ℕ) (a : Bytes) → length a ≤ f → length a ≤ g → drain max f a ≡ drain max g a
  drain_fuel max zero g [] hf hg =
      drain-none max zero [] take_line-nil ∙ sym (drain-none max g [] take_line-nil)
  drain_fuel max zero g (x ∷ a) hf hg = absurd (omega arith)
  drain_fuel max (suc f) zero [] hf hg =
      drain-none max (suc f) [] take_line-nil ∙ sym (drain-none max zero [] take_line-nil)
  drain_fuel max (suc f) zero (x ∷ a) hf hg = absurd (omega arith)
  drain_fuel max (suc f) (suc g) a hf hg = elim (Option-cases (take_line a)) [
    | inl e ↦ drain-none max (suc f) a e ∙ sym (drain-none max (suc g) a e)
    | inr ((line, rest), e) ↦
        let shorter = take_line_shorter a line rest e in
        drain-some max f a line rest e
        ∙ ap (drain_line max line rest) (drain_fuel max f g rest (omega arith) (omega arith))
        ∙ sym (drain-some max g a line rest e)
  ]

  abbrev refusing : CodecError → Bytes → Drained L
  refusing error rest = record { frames = []; refused = some error; rest = rest }

  abbrev adding : Frame L → Drained L → Drained L
  adding frame more = record more { frames = frame ∷ more.frames }

  -- A line is refused, skipped or decoded, whatever follows it.
  drain_line_cases :
      (max : ℕ) (line : Bytes)
      → ((error : CodecError) × ((rest : Bytes) (more : Drained L)
            → drain_line max line rest more ≡ refusing error rest))
        ⊎ (((rest : Bytes) (more : Drained L) → drain_line max line rest more ≡ more)
            ⊎ ((frame : Frame L) × ((rest : Bytes) (more : Drained L)
                  → drain_line max line rest more ≡ adding frame more)))
  unfolding drain_line
  drain_line_cases max line = elim (Bool-cases (ltb max (length (strip_carriage_return line)))) [
    | inl over ↦
        inl (too_large_error (length (strip_carriage_return line)) max, λ rest more. rw over refl)
    | inr fits ↦ elim (Bool-cases (is_blank (strip_carriage_return line))) [
      | inl blank ↦ inr (inl (λ rest more. rw (fits, blank) refl))
      | inr text ↦ elim (Result-cases (decode_line line max)) [
        | inl (frame, e) ↦ inr (inr (frame, λ rest more. rw (fits, text, e, drain_line) refl))
        | inr (error, e) ↦ inl (error, λ rest more. rw (fits, text, e, drain_line) refl)
      ]
    ]
  ]

  -- Where no record is refused, the loop ends at a rest without a terminator.
  pub drain_rest :
      (max f : ℕ) (a : Bytes)
      → length a ≤ f
      → (drain max f a).refused ≡ none
      → take_line (drain max f a).rest ≡ none
  drain_rest max zero [] h e = rw (drain-none max zero [] take_line-nil) take_line-nil
  drain_rest max zero (x ∷ a) h e = absurd (omega arith)
  drain_rest max (suc f) a h e = elim (Option-cases (take_line a)) [
    | inl n ↦ rw (drain-none max (suc f) a n) n
    | inr ((line, rest), s) ↦
        let shorter = take_line_shorter a line rest s in
        let step = drain-some max f a line rest s in
        let ih = drain_rest max f rest (omega arith) in
        elim (drain_line_cases max line) [
          | inl (error, c) ↦ ground (arith, step, c rest (drain max f rest))
          | inr (inl c) ↦ ground (arith, step, c rest (drain max f rest), ih)
          | inr (inr (frame, c)) ↦ ground (arith, step, c rest (drain max f rest), ih)
        ]
  ]

  -- Two runs that a caller of `push` cannot tell apart: the rest counts only without a refusal.
  pub record Same (x y : Drained L) : Type 0 where
    pub frames : x.frames ≡ y.frames
    pub refused : x.refused ≡ y.refused
    pub rest : x.refused ≡ none → x.rest ≡ y.rest

  -- The loop run again on what the first run left and the bytes `b` behind it.
  abbrev pub resumed : ℕ → Drained L → Bytes → Drained L
  resumed max first b = elim first.refused [
    | some error ↦ first
    | none ↦
        let next = drain max (length (first.rest ++ b)) (first.rest ++ b) in
        record next { frames = first.frames ++ next.frames }
  ]

  Same-refl : (x : Drained L) → Same x x
  Same-refl x = record { frames = refl; refused = refl; rest = λ h. refl }

  Same-adding :
      (max : ℕ) (frame : Frame L) (b : Bytes) (x y : Drained L)
      → Same y (resumed max x b)
      → Same (adding frame y) (resumed max (adding frame x) b)
  Same-adding max frame b x y s = elim (Option-cases x.refused) [
    | inl e ↦ record {
      frames = ground (arith, s.frames);
      refused = ground (arith, s.refused);
      rest = λ h. ground (arith, s.rest h);
    }
    | inr (error, e) ↦ record {
      frames = ground (arith, s.frames);
      refused = ground (arith, s.refused);
      rest = λ h. ground (arith, s.rest h);
    }
  ]

  -- Nothing was complete in `a`: the second run starts from all of it.
  drain-append_none :
      (max f g : ℕ) (a b : Bytes)
      → length (a ++ b) ≤ g
      → take_line a ≡ none
      → Same (drain max g (a ++ b)) (resumed max (drain max f a) b)
  drain-append_none max f g a b hg n =
      rw (drain-none max f a n)
        (rw (drain_fuel max g (length (a ++ b)) (a ++ b) hg (omega arith)) (Same-refl _))

  -- Draining `a` and then the rest with `b` is draining `a ++ b`.
  pub drain-append :
      (max f g : ℕ) (a b : Bytes)
      → length a ≤ f
      → length (a ++ b) ≤ g
      → Same (drain max g (a ++ b)) (resumed max (drain max f a) b)
  drain-append max zero g [] b hf hg = drain-append_none max zero g [] b hg take_line-nil
  drain-append max zero g (x ∷ a) b hf hg = absurd (omega arith)
  drain-append max (suc f) zero [] b hf hg =
      drain-append_none max (suc f) zero [] b hg take_line-nil
  drain-append max (suc f) zero (x ∷ a) b hf hg = absurd (omega arith)
  drain-append max (suc f) (suc g) a b hf hg = elim (Option-cases (take_line a)) [
    | inl n ↦ drain-append_none max (suc f) (suc g) a b hg n
    | inr ((line, rest), s) ↦
        let shorter = take_line_shorter a line rest s in
        let step = drain-some max f a line rest s in
        let step' = drain-some max g (a ++ b) line (rest ++ b) (take_line-append a b line rest s) in
        let ih =
          drain-append max f g rest b (omega arith)
            (omega (arith, length-append rest b, length-append a b)) in
        elim (drain_line_cases max line) [
          | inl (error, c) ↦
              rw (step, step', c rest (drain max f rest), c (rest ++ b) (drain max g (rest ++ b)))
                (record { frames = refl; refused = refl; rest = λ h. cc })
          | inr (inl c) ↦
              rw (step, step', c rest (drain max f rest), c (rest ++ b) (drain max g (rest ++ b)))
                ih
          | inr (inr (frame, c)) ↦
              rw (step, step', c rest (drain max f rest), c (rest ++ b) (drain max g (rest ++ b)))
                (Same-adding max frame b (drain max f rest) (drain max g (rest ++ b)) ih)
        ]
  ]

  -- The record that more bytes complete is no shorter than its unfinished part.
  completed-le :
      (t b line rest : Bytes)
      → take_line t ≡ none
      → take_line (t ++ b) ≡ some (line, rest)
      → length (strip_carriage_return t) ≤ length (strip_carriage_return line)
  completed-le t b line rest n s = elim (Option-cases (take_line b)) [
    | inl m ↦ cc (take_line-append_none t b n, ap (prepend t) m)
    | inr ((l, r), m) ↦
        let e : line ≡ t ++ l = ground (arith, take_line-append_none t b n, ap (prepend t) m) in
        rw e (strip-append-le t l)
  ]

  drain_line_over :
      (max : ℕ) (line rest : Bytes) (more : Drained L)
      → max < length (strip_carriage_return line)
      → drain_line max line rest more
        ≡ refusing (too_large_error (length (strip_carriage_return line)) max) rest
  unfolding drain_line
  drain_line_over max line rest more over =
      let test : ltb max (length (strip_carriage_return line)) ≡ true = ground arith in rw test

  -- An unfinished record over the ceiling is refused as well when more bytes complete it or extend
  -- it, and gives no frame.
  pub record Overflows (max : ℕ) (all : Bytes) (d : Drained L) : Type 0 where
    pub silent : d.frames ≡ []
    pub outcome :
        ((d.refused ≡ none) × (d.rest ≡ all))
        ⊎ ((n : ℕ) × (d.refused ≡ some (too_large_error n max)))

  pub drain-Overflows :
      (max : ℕ) (t b : Bytes)
      → take_line t ≡ none
      → max < length (strip_carriage_return t)
      → Overflows max (t ++ b) (drain max (length (t ++ b)) (t ++ b))
  unfolding strip_carriage_return
  drain-Overflows max [] b n over = absurd (omega arith)
  drain-Overflows max (x ∷ t) b n over = elim (Option-cases (take_line ((x ∷ t) ++ b))) [
    | inl m ↦
        rw (drain-none max _ ((x ∷ t) ++ b) m)
          (record { silent = refl; outcome = inl (refl, refl) })
    | inr ((line, rest), s) ↦
        let le = completed-le (x ∷ t) b line rest n s in
        let fuel = length (t ++ b) in
        rw
          (
            drain-some max fuel ((x ∷ t) ++ b) line rest s,
            drain_line_over max line rest (drain max fuel rest) (omega (arith, le)),
          )
          (record { silent = refl; outcome = inr (length (strip_carriage_return line), refl) })
  ]
