-- ===== src/Grading/Builder/Total.antt =====
-- evaluation_input_builder.py: the exceptions of the builder.
use luve.Prelude.{
  ◌⊎◌, Bool, true, false, not, ◌&&◌, refl, raise, Result, if◌then◌else◌, if_both, All, ℕ, suc, ◌≡◌,
  ◌≢◌, arith, Option, none, some, List, [], ◌∷◌, Result-cases, NoRaise, NoRaise-bind, NoRaise-ok,
  inl, inr, ok,
}
use luve.Python.Text.{is_empty}
use luve.Python.Json.{
  string, get, get_either, Converted, number, rejected, Value, obj, null, Runtime, Floats, overflow,
  Fields,
}
use luve.Grading.Events.{get_event_payload, parse_raw_backup_events}
use luve.Grading.Timing.{
  BuildError, bad_number, timestamps, audio_ms, coerce_optional_int, word_spans, round_number,
  extract_timing_ms,
}
use luve.Grading.Input.{SessionRow, EvaluationInput, Builder}
use luve.Grading.Builder.{empty_builder, add_event, add_events, build_evaluation_input}
use luve.Grading.Builder.Agrees.{coerce-parse}

module _ {N : Type 0} (fl : Floats N) where
  -- The number is negative, and so no time, or an integer stands for it: it is neither infinite nor `nan`.
  abbrev pub IsRoundable : N → Type 0
  IsRoundable n =
      (fl.is_negative n ≡ true)
      ⊎ ((fl.round_int n ≢ none) × (fl.below_60 n ≡ true → fl.round_int (fl.times_1000 n) ≢ none))

  -- What `float` makes of a time can be rounded, if it makes anything of it.
  abbrev pub IsTime : Converted N → Type 0
  IsTime (number n) = IsRoundable n
  IsTime rejected = Unit
  IsTime overflow = ⊥

  abbrev pub HasTime : Value N → Type 0
  HasTime v = IsTime (fl.to_float v)

  abbrev pub HasSpan : Value N → Type 0
  HasSpan (obj w) =
      HasTime (get_either "start_ms" "start" w) × HasTime (get_either "end_ms" "end" w)
  HasSpan word = Unit

  abbrev pub HasAudioTime : Value N → Type 0
  HasAudioTime (obj audio) = HasTime (get "audio_ms" audio)
  HasAudioTime v = Unit

  -- The times of a payload and of its words can be rounded.
  pub record HasTimes (payload : Fields N) : Type 0 where
    pub start : HasTime (get "start_ms" payload)
    pub end : HasTime (get "end_ms" payload)
    pub duration : HasTime (get "duration_ms" payload)
    pub words : All HasSpan (timestamps fl payload)
    pub audio : HasAudioTime (get "audio" payload)

  scaled_rounds :
      (n : N) (scales : Bool)
      → (fl.round_int n ≢ none) × (fl.below_60 n ≡ true → fl.round_int (fl.times_1000 n) ≢ none)
      → (scales ≡ true → fl.below_60 n ≡ true)
      → fl.round_int (if scales then fl.times_1000 n else n) ≢ none
  scaled_rounds n true (rounds, scaled) small = scaled (small refl)
  scaled_rounds n false (rounds, scaled) small = rounds

  rounded-ne-raise :
      (o : Option ℕ)
      → o ≢ none
      → NoRaise (elim o as (λ _. Result BuildError (Option ℕ)) [
        | none ↦ raise bad_number
        | some ms ↦ ok (some ms)
      ])
  rounded-ne-raise none there e h = there refl
  rounded-ne-raise (some ms) there e h = cc h

  round_number-ne-raise : (n : N) → IsRoundable n → NoRaise (round_number fl n)
  unfolding round_number
  round_number-ne-raise n (inl negative) = λ e h. cc (rw negative at h)
  round_number-ne-raise n (inr rounds) =
      if_both NoRaise (fl.is_negative n) (λ e h. cc h)
        (rounded-ne-raise _ (
          scaled_rounds n (fl.below_60 n && not (fl.is_integer n)) rounds (λ h. ground (arith, h))))

  converted-ne-raise :
      (c : Converted N)
      → IsTime c
      → NoRaise (elim c as (λ _. Result BuildError (Option ℕ)) [
        | number n ↦ round_number fl n
        | rejected ↦ ok none
        | overflow ↦ raise bad_number
      ])
  converted-ne-raise (number n) h = round_number-ne-raise n h
  converted-ne-raise rejected h = λ e e'. cc e'
  converted-ne-raise overflow h = absurd h

  coerce_optional_int-ne-raise : (v : Value N) → HasTime v → NoRaise (coerce_optional_int fl v)
  unfolding coerce_optional_int
  coerce_optional_int-ne-raise null t = λ e h. cc h
  coerce_optional_int-ne-raise v t =
      if_both NoRaise (elim v as (λ _. Bool) [ string s ↦ is_empty s | _ ↦ false ]) {x = ok none}
        (NoRaise-ok none) (converted-ne-raise (fl.to_float v) t)

  word_spans-ne-raise : (words : List (Value N)) → All HasSpan words → NoRaise (word_spans fl words)
  unfolding word_spans
  word_spans-ne-raise [] hs = λ e h. cc h
  word_spans-ne-raise (obj w ∷ words) ((start, end), hs) =
      NoRaise-bind _ _ (coerce_optional_int-ne-raise _ start) λ _.
        NoRaise-bind _ _ (coerce_optional_int-ne-raise _ end)
          λ _. NoRaise-bind _ _ (word_spans-ne-raise words hs) λ _. NoRaise-ok _
  word_spans-ne-raise (word ∷ words) (_, hs) = word_spans-ne-raise words hs

  audio-ne-raise :
      (v : Value N)
      → HasAudioTime v
      → NoRaise (elim v as (λ _. Result BuildError (Option ℕ)) [
        | obj audio ↦ coerce_optional_int fl (get "audio_ms" audio)
        | _ ↦ ok none
      ])
  audio-ne-raise (obj audio) t = coerce_optional_int-ne-raise (get "audio_ms" audio) t
  audio-ne-raise v t = λ e h. cc h

  audio_ms-ne-raise : (m : Fields N) (d : Option ℕ) → HasTimes m → NoRaise (audio_ms fl m d)
  audio_ms-ne-raise m (some d) t = λ e h. cc h
  audio_ms-ne-raise m none t = audio-ne-raise (get "audio" m) t.audio

  extract_timing_ms-ne-raise : (m : Fields N) → HasTimes m → NoRaise (extract_timing_ms fl m)
  unfolding extract_timing_ms
  extract_timing_ms-ne-raise m t =
      let coerced = coerce_optional_int-ne-raise in
      NoRaise-bind _ _ (coerced _ t.start) λ start. NoRaise-bind _ _ (coerced _ t.end) λ end.
        NoRaise-bind _ _ (coerced _ t.duration) λ duration.
          NoRaise-bind _ _ (word_spans-ne-raise _ t.words)
            λ spans. NoRaise-bind _ _ (audio_ms-ne-raise m duration t) λ known. NoRaise-ok _

module _ {N : Type 0} (rt : Runtime N) (fl : Floats N) where
  -- An event is no mapping, or the times of its payload can be rounded.
  abbrev pub HasTimesIf : Value N → Type 0
  HasTimesIf (obj m) = HasTimes fl (get_event_payload rt (obj m))
  HasTimesIf event = Unit

  add_event-ne-raise :
      (event : Value N) (b : Builder) → HasTimesIf event → NoRaise (add_event rt fl event b)
  unfolding add_event
  add_event-ne-raise (obj m) b t e h =
      grind (arith, extract_timing_ms-ne-raise fl (get_event_payload rt (obj m)) t)
  add_event-ne-raise event b t e h = cc h

  add_events-ne-raise :
      (events : List (Value N)) (b : Builder)
      → All HasTimesIf events
      → NoRaise (add_events rt fl events b)
  unfolding add_events
  add_events-ne-raise [] b ts e h = cc
  add_events-ne-raise (event ∷ events) b (t, ts) e h =
      elim (Result-cases (add_event rt fl event b)) [
        | inl (b', p) ↦ add_events-ne-raise events b' ts e (rw p at h)
        | inr (e', p) ↦ add_event-ne-raise event b t e' p
      ]

  -- If the eligibility check can read the log and every time of its events can be rounded (none is
  -- infinite, no number or too large for a float), the builder returns an input; two calls of the
  -- coercion are enough.
  pub build-total :
      (depth : ℕ) (row : SessionRow N) (events : List (Value N))
      → parse_raw_backup_events rt row.raw_backup_json ≡ some events
      → All HasTimesIf events
      → (input : EvaluationInput) × (build_evaluation_input rt fl (suc (suc depth)) row ≡ ok input)
  unfolding build_evaluation_input
  build-total depth row events p ts =
      elim (Result-cases (build_evaluation_input rt fl (suc (suc depth)) row)) [
        | inl done ↦ done
        | inr (e, h) ↦ absurd (
            ground (
              arith,
              coerce-parse rt depth row.raw_backup_json events p,
              add_events-ne-raise events empty_builder ts e,
            ))
      ]
