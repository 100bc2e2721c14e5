-- ===== src/Tests/Grading.antt =====
-- The grading worker's definitions at the test data.
use Prim.Native.String.{String}
use luve.Prelude.{
  inr, All, ℕ, ◌+◌, ◌≤◌, ◌<◌, ◌≡◌, ◌↔◌, refl, none, some, List, [], ◌∷◌, true, false, ok, length,
}
use luve.Python.Json.{get, Value, num, string, arr, obj, nil, cons}
use luve.Grading.Events.{
  parse_raw_backup_events, get_event_kind, decode_event, is_reliable_student_event,
  get_event_grading_text,
}
use luve.Python.Text.{upper, strip, is_space}
use luve.Grading.Eligibility.{evaluate_grading_eligibility, reliable_words}
use luve.Grading.Eligibility.Totals.{reliable_turns}
use luve.Grading.Eligibility.Decides.{evaluate-is_eligible_iff}
use luve.Grading.Events.{get_event_text, get_event_payload, has_hard_reason}
use luve.Python.Text.{is_in, lower, word_count}
use luve.Python.Json.{Fields, field, end}
use luve.Grading.Input.{SessionRow, EvaluationInput}
use luve.Grading.Builder.{build_evaluation_input}
use luve.Grading.Builder.Total.{HasTimes, IsRoundable, HasTimesIf, build-total}
use luve.Grading.Builder.Agrees.{IsDecoded, build-counts, build-eligible}
use luve.Grading.Builder.Encoded.{encoded_log}
use luve.Grading.Skills.{Scores, filter_skill_feedback}
use luve.Python.Json.{has}
use luve.Grading.Llm.{
  validate_score, validate_optional_score, filter_corrections, LlmGrade, with_pronunciation,
  weighted_overall_score, parse_grading_response, load_object,
}
use luve.Grading.Llm.Reply.{IsGrade, parse_grading_response-IsGrade}
use luve.Tests.Data.{said, answered_turn, rt, fl, log, row}

abbrev reply_scores : Scores ℕ
reply_scores = record { fluency = 700; grammar = 800; vocab = 650; pronunciation = none }

abbrev short_log : Value ℕ
short_log = arr (cons said nil)

pub log-eligible : (evaluate_grading_eligibility rt log 3).is_eligible ≡ true
unfolding evaluate_grading_eligibility parse_raw_backup_events get_event_kind decode_event get upper
    strip is_space is_reliable_student_event get_event_grading_text get_event_text get_event_payload
    is_in lower has_hard_reason word_count
log-eligible = refl

short_log-eligible : (evaluate_grading_eligibility rt short_log 3).is_eligible ≡ true
unfolding evaluate_grading_eligibility parse_raw_backup_events get_event_kind decode_event get upper
    strip is_space is_reliable_student_event get_event_grading_text get_event_text get_event_payload
    is_in lower has_hard_reason word_count
short_log-eligible = refl

log-too_short : (evaluate_grading_eligibility rt log 4).is_eligible ≡ false
unfolding evaluate_grading_eligibility parse_raw_backup_events get_event_kind decode_event get upper
    strip is_space is_reliable_student_event get_event_grading_text get_event_text get_event_payload
    is_in lower has_hard_reason word_count
log-too_short = refl

pub log-events : parse_raw_backup_events rt log ≡ some (said ∷ answered_turn ∷ [])
unfolding parse_raw_backup_events
log-events = refl

evaluate-is_eligible_iff_example : ((evaluate_grading_eligibility rt log 3).is_eligible ≡ true) ↔ (
    (events : List (Value ℕ)) × (parse_raw_backup_events rt log ≡ some events)
    × (0 < reliable_turns rt events)
    × (3 ≤ reliable_words rt 0 events))
evaluate-is_eligible_iff_example = evaluate-is_eligible_iff rt log 3

abbrev timed : Value ℕ
timed = obj (
    field "type" (string "user_turn") (
      field "payload"
        (obj (
          field "text" (string "I like dogs") (
            field "start_ms" (num 250) (
              field "word_timestamps" (arr (cons (obj (field "end_ms" (num 900000) end)) nil))
                end))))
        end))

abbrev timed_row : SessionRow ℕ
timed_row = record {
  id = 7;
  user_id = none;
  lesson_id = none;
  raw_backup_json = arr (cons timed nil);
}

timed-events : parse_raw_backup_events rt (arr (cons timed nil)) ≡ some (timed ∷ [])
unfolding parse_raw_backup_events
timed-events = refl

any_rounds : (n : ℕ) → IsRoundable fl n
any_rounds n = inr (λ h. cc h, λ _ h. cc h)

timed-HasTimes : All (HasTimesIf rt fl) (timed ∷ [])
unfolding get get_event_payload has
timed-HasTimes = (
  record {
    start = any_rounds 250;
    end = tt;
    duration = tt;
    words = ((tt, any_rounds 900000), tt);
    audio = tt;
  },
  tt,
)

build-total_example :
    (input : EvaluationInput) × (build_evaluation_input rt fl 9 timed_row ≡ ok input)
build-total_example = build-total rt fl 7 timed_row (timed ∷ []) timed-events timed-HasTimes

untimed : (text : String) → HasTimes fl (field "text" (string text) end)
unfolding get
untimed text = record { start = tt; end = tt; duration = tt; words = tt; audio = tt }

pub log-HasTimes : All (HasTimesIf rt fl) (said ∷ answered_turn ∷ [])
unfolding get_event_payload get
log-HasTimes = (untimed "I like dogs", (untimed "Why", tt))

abbrev pub input : EvaluationInput
input = (build-total rt fl 7 row (said ∷ answered_turn ∷ []) log-events log-HasTimes).0

pub row-builds : build_evaluation_input rt fl 9 row ≡ ok input
row-builds = (build-total rt fl 7 row (said ∷ answered_turn ∷ []) log-events log-HasTimes).1

log-IsDecoded : IsDecoded rt (said ∷ answered_turn ∷ [])
unfolding decode_event
log-IsDecoded = (refl, (refl, tt))

build-counts_example :
    (input.quality_signals.user_turn_count ≡ reliable_turns rt (said ∷ answered_turn ∷ []))
    × (input.quality_signals.student_word_count ≡ reliable_words rt 0 (said ∷ answered_turn ∷ []))
    × (input.quality_signals.ignored_events_count + length input.turns ≡ input.raw_event_count)
build-counts_example =
    build-counts rt fl 7 row (said ∷ answered_turn ∷ []) input log-events log-IsDecoded row-builds

build-eligible_example :
    (0 < input.quality_signals.user_turn_count) × (3 ≤ input.quality_signals.student_word_count)
build-eligible_example =
    build-eligible rt fl 7 3 row (said ∷ answered_turn ∷ []) input log-events log-IsDecoded
      row-builds log-eligible

abbrev encoded_row : SessionRow ℕ
encoded_row = record {
  id = 8;
  user_id = none;
  lesson_id = none;
  raw_backup_json = arr (cons (string "said") nil);
}

abbrev said_fields : Fields ℕ
said_fields =
    field "type" (string "user_turn")
      (field "payload" (obj (field "text" (string "I like dogs") end)) end)

encoded_log_example :
    (evaluate_grading_eligibility rt encoded_row.raw_backup_json 3
      ≡ evaluate_grading_eligibility rt short_log 3)
    × ((input : EvaluationInput) × (build_evaluation_input rt fl 9 encoded_row ≡ ok input)
        × (input.turns ≡ []))
unfolding parse_raw_backup_events
encoded_log_example =
    encoded_log rt fl 7 3 encoded_row short_log ("said" ∷ []) (said_fields ∷ []) (refl, tt) refl
      refl

abbrev full_scores : Scores ℕ
full_scores = record { fluency = 700; grammar = 800; vocab = 650; pronunciation = some 600 }

abbrev reply_grade : LlmGrade ℕ
reply_grade = record {
  session_id = 7;
  overall_score = weighted_overall_score rt fl full_scores;
  scores = full_scores;
  ai_summary_feedback = "Good.";
  detailed_corrections = [];
  score_schema_version = with_pronunciation;
  skill_feedback = filter_skill_feedback rt fl (arr nil) full_scores;
}

reply-accepted : parse_grading_response rt fl "reply" 7 ≡ ok reply_grade
unfolding parse_grading_response load_object strip is_space has validate_score get
    validate_optional_score filter_corrections
reply-accepted = refl

parse_grading_response-IsGrade_example : IsGrade rt fl 7 reply_grade
parse_grading_response-IsGrade_example =
    parse_grading_response-IsGrade rt fl "reply" 7 reply_grade reply-accepted
