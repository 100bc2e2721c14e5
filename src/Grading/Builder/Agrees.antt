-- ===== src/Grading/Builder/Agrees.antt =====
-- evaluation_input_builder.py against session_eligibility.py, on the same log.
use luve.Prelude.{
  ℕ, suc, ◌+◌, ◌≤◌, ◌<◌, ◌≡◌, true, arith, some, List, length, All, Result-cases, inl, inr, ok,
}
use luve.Python.Json.{Value, arr, string, null, Runtime, Floats}
use luve.Grading.Events.{parse_raw_backup_events, decode_event}
use luve.Grading.Input.{total_student_words, SessionRow, EvaluationInput, coerce_event_list}
use luve.Grading.Builder.{empty_builder, add_events, build_evaluation_input}
use luve.Grading.Builder.Student.{add_events-Adds}
use luve.Grading.Eligibility.{evaluate_grading_eligibility, reliable_words}
use luve.Grading.Eligibility.Totals.{reliable_turns, reliable_words-eq}
use luve.Grading.Eligibility.Decides.{evaluate-is_eligible_iff}

module _ {N : Type 0} (rt : Runtime N) where
  -- A log that the eligibility check can read is coerced to the same events.
  pub coerce-parse :
      (depth : ℕ) (raw : Value N) (events : List (Value N))
      → parse_raw_backup_events rt raw ≡ some events
      → coerce_event_list rt (suc (suc depth)) raw ≡ ok events
  unfolding parse_raw_backup_events coerce_event_list
  coerce-parse depth null events h = cc
  coerce-parse depth (arr vs) events h = ground arith
  coerce-parse depth (string s) events h = ground arith
  coerce-parse depth raw events h = ground arith

  -- No event is itself the text of a JSON object.
  abbrev pub IsDecoded : List (Value N) → Type 0
  IsDecoded = All (λ e. decode_event rt e ≡ e)

module _ {N : Type 0} (rt : Runtime N) (fl : Floats N) where
  -- The builder's counts are those of the eligibility check, for a log that the check can read and
  -- whose events are decoded: as many student turns as reliable turns, as many student words as
  -- reliable words, and every event a turn or ignored.
  pub build-counts :
      (depth : ℕ) (row : SessionRow N) (events : List (Value N)) (input : EvaluationInput)
      → parse_raw_backup_events rt row.raw_backup_json ≡ some events
      → IsDecoded rt events
      → build_evaluation_input rt fl (suc (suc depth)) row ≡ ok input
      → (input.quality_signals.user_turn_count ≡ reliable_turns rt events)
        × (input.quality_signals.student_word_count ≡ reliable_words rt 0 events)
        × (input.quality_signals.ignored_events_count + length input.turns ≡ input.raw_event_count)
  unfolding build_evaluation_input total_student_words
  build-counts depth row events input p d h =
      elim (Result-cases (add_events rt fl events empty_builder)) [
        | inl (b, e) ↦
            let adds = add_events-Adds rt fl events empty_builder b d e in
            ground (
              arith,
              e,
              coerce-parse rt depth row.raw_backup_json events p,
              reliable_words-eq rt 0 events,
              adds,
            )
        | inr (_, e) ↦ ground (arith, e, coerce-parse rt depth row.raw_backup_json events p)
      ]

  -- So the grader of an eligible session is handed a student turn, and at least the minimum of words.
  pub build-eligible :
      (depth m : ℕ) (row : SessionRow N) (events : List (Value N)) (input : EvaluationInput)
      → parse_raw_backup_events rt row.raw_backup_json ≡ some events
      → IsDecoded rt events
      → build_evaluation_input rt fl (suc (suc depth)) row ≡ ok input
      → (evaluate_grading_eligibility rt row.raw_backup_json m).is_eligible ≡ true
      → (0 < input.quality_signals.user_turn_count) × (m ≤ input.quality_signals.student_word_count)
  build-eligible depth m row events input p d h eligible =
      let (es, p', turn, enough) = (evaluate-is_eligible_iff rt row.raw_backup_json m).0 eligible in
      let counts = build-counts depth row events input p d h in
      ground (arith, counts, p, p', turn, enough)
