-- ===== src/Grading/Builder/Student.antt =====
-- The turns that the builder keeps, against the counts of the eligibility check.
use luve.Prelude.{
  ℕ, ◌+◌, ◌≡◌, ◌↔◌, Bool, true, false, arith, none, some, List, [], ◌∷◌, ◌++◌, length,
  length-append, All, Bool-cases, Option-cases, Result-cases, inl, inr, if◌then◌else◌, ok,
}
use luve.Python.Text.{is_empty, strip, upper, word_count}
use luve.Python.Json.{Value, obj, Fields, Runtime, Floats, get, truthy}
use luve.Grading.Events.{
  get_event_payload, get_event_kind, is_user_turn, decode_event, get_event_grading_text,
  is_reliable_student_event,
}
use luve.Grading.Input.{
  user_turn, ai_turn, EvaluationTurn, is_student, Builder, count_if, total_student_words,
  event_source, turn_text,
}
use luve.Grading.Timing.{extract_timing_ms}
use luve.Grading.Builder.{add_turn, add_event, add_events, make_turn}
use luve.Grading.Events.Decode.{reliable-is_user_turn}
use luve.Grading.Eligibility.Totals.{reliable_turns, words_of, event_words}

count_if-append :
    (p : EvaluationTurn → Bool) (xs ys : List EvaluationTurn)
    → count_if p (xs ++ ys) ≡ count_if p xs + count_if p ys
count_if-append p [] ys = omega arith
count_if-append p (x ∷ xs) ys = omega (arith, count_if-append p xs ys)

total_student_words-append :
    (xs ys : List EvaluationTurn)
    → total_student_words (xs ++ ys) ≡ total_student_words xs + total_student_words ys
unfolding total_student_words
total_student_words-append [] ys = omega arith
total_student_words-append (x ∷ xs) ys = omega (arith, total_student_words-append xs ys)

module _ {N : Type 0} (rt : Runtime N) where
  no_source :
      (m : Fields N)
      → truthy rt (get "type" m) ≡ false
      → truthy rt (get "event" m) ≡ false
      → event_source rt m ≡ none
  unfolding event_source upper strip
  no_source m h k = rw (h, k)

  -- The builder's own reading of an event's kind agrees with the eligibility check's.
  pub event_source-user_turn :
      (m : Fields N) → (event_source rt m ≡ some user_turn) ↔ (is_user_turn rt (obj m) ≡ true)
  unfolding event_source get_event_kind
  event_source-user_turn m = elim (Bool-cases (truthy rt (get "type" m))) [
    | inl typed ↦ ground arith
    | inr untyped ↦ elim (Bool-cases (truthy rt (get "event" m))) [
      | inl named ↦ ground arith
      | inr unnamed ↦ ground (arith, no_source m untyped unnamed)
    ]
  ]

  -- A reliable turn has a text.
  reliable-text :
      (m : Fields N)
      → is_reliable_student_event rt (obj m) ≡ true
      → is_empty (get_event_grading_text rt (obj m)) ≡ false
  unfolding is_reliable_student_event decode_event
  reliable-text m h = ground arith

-- What one round, or the loop, adds to the student's turns and words, and to all turns and ignored events.
pub record Adds (b b' : Builder) (turns words events : ℕ) : Type 0 where
  pub student_turns : count_if is_student b'.turns ≡ count_if is_student b.turns + turns
  pub student_words : total_student_words b'.turns ≡ total_student_words b.turns + words
  pub accounted : b'.ignored + length b'.turns ≡ b.ignored + length b.turns + events

module _ {N : Type 0} (rt : Runtime N) (fl : Floats N) where
  -- The three sums over the list with one more turn.
  kept :
      (ts : List EvaluationTurn) (t : EvaluationTurn)
      → (count_if is_student (ts ++ t ∷ [])
          ≡ count_if is_student ts + (if is_student t then 1 else 0))
        × (total_student_words (ts ++ t ∷ [])
            ≡ total_student_words ts + (if is_student t then word_count t.text else 0))
        × (length (ts ++ t ∷ []) ≡ length ts + 1)
  unfolding total_student_words
  kept ts t = (
    omega (arith, count_if-append is_student ts (t ∷ [])),
    omega (arith, total_student_words-append ts (t ∷ [])),
    omega (arith, length-append ts (t ∷ [])),
  )

  add_turn-student :
      (m : Fields N) (b b' : Builder)
      → add_turn rt fl user_turn m b ≡ ok b'
      → Adds b b' (if is_reliable_student_event rt (obj m) then 1 else 0) (event_words rt (obj m)) 1
  unfolding add_turn turn_text event_words
  add_turn-student m b b' h =
      elim (Result-cases (extract_timing_ms fl (get_event_payload rt (obj m)))) [
        | inl (timing, e) ↦ ground (
          arith,
          e,
          reliable-text rt m,
          kept b.turns (make_turn rt fl (length b.turns) user_turn m timing),
        )
        | inr (_, e) ↦ ground (arith, e, reliable-text rt m)
      ]

  add_turn-assistant :
      (m : Fields N) (b b' : Builder) → add_turn rt fl ai_turn m b ≡ ok b' → Adds b b' 0 0 1
  unfolding add_turn
  add_turn-assistant m b b' h =
      elim (Result-cases (extract_timing_ms fl (get_event_payload rt (obj m)))) [
        | inl (timing, e) ↦
            ground (arith, e, kept b.turns (make_turn rt fl (length b.turns) ai_turn m timing))
        | inr (_, e) ↦ ground (arith, e)
      ]

  -- An event that is no USER_TURN adds nothing to the reliable counts.
  not_user :
      (event : Value N)
      → decode_event rt event ≡ event
      → is_user_turn rt event ≡ false
      → (is_reliable_student_event rt (decode_event rt event) ≡ false)
        × (event_words rt (decode_event rt event) ≡ 0)
  unfolding event_words
  not_user event d u = ground (arith, reliable-is_user_turn rt event)

  add_event-Adds :
      (event : Value N) (b b' : Builder)
      → decode_event rt event ≡ event
      → add_event rt fl event b ≡ ok b'
      → Adds b b'
          (if is_reliable_student_event rt (decode_event rt event) then 1 else 0)
          (event_words rt (decode_event rt event))
          1
  unfolding add_event get_event_kind
  add_event-Adds (obj m) b b' d h = elim (Option-cases (event_source rt m)) [
    | inl e ↦ ground (arith, e, event_source-user_turn rt m, not_user (obj m) d)
    | inr (user_turn, e) ↦ ground (arith, e, d, add_turn-student m b b')
    | inr (ai_turn, e) ↦
        ground
          (arith, e, event_source-user_turn rt m, not_user (obj m) d, add_turn-assistant m b b')
  ]
  add_event-Adds event b b' d h = ground (arith, not_user event d)

  -- The builder's loop over events none of which is itself the text of an object.
  pub add_events-Adds :
      (events : List (Value N)) (b b' : Builder)
      → All (λ e. decode_event rt e ≡ e) events
      → add_events rt fl events b ≡ ok b'
      → Adds b b' (reliable_turns rt events) (words_of rt events) (length events)
  unfolding add_events words_of
  add_events-Adds [] b b' d h = ground arith
  add_events-Adds (event ∷ events) b b' d h = elim (Result-cases (add_event rt fl event b)) [
    | inl (b₁, e) ↦
        ground (arith, e, add_event-Adds event b b₁ d.0 e, add_events-Adds events b₁ b' d.1)
    | inr (_, e) ↦ ground (arith, e)
  ]
