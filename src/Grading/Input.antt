-- ===== src/Grading/Input.antt =====
-- evaluation_input_builder.py: the grading input, built from a session's row.
use Prim.Native.String.{String}
use text.Mathlib.Text.{◌==◌ as str_eq}
use luve.Prelude.{
  ℕ, zero, suc, ◌+◌, Bool, true, false, not, ◌&&◌, Option, none, some, List, [], ◌∷◌, ◌++◌,
  if◌then◌else◌, Result, ok, raise,
}
use luve.Python.Text.{is_empty, is_in, strip, upper, lower, word_count}
use luve.Python.Json.{
  Value, string, arr, obj, Fields, loaded, decode_error, value_error, Runtime, to_list, get, has,
  truthy, or_else, str,
}
use luve.Grading.Events.{get_event_grading_text, get_event_payload}
use luve.Grading.Timing.{BuildError, bad_json, recursion_error, Timing}

-- contracts.py: the literals of `EvaluationTurn`.
pub data Source : Type 0 where
  user_turn ai_turn : Source

abbrev pub is_user : Source → Bool
is_user user_turn = true
is_user ai_turn = false

pub data SttQuality : Type 0 where
  confident uncertain : SttQuality

pub record EvaluationTurn : Type 0 where
  pub seq : ℕ
  pub source : Source
  pub text : String
  pub timing : Timing
  pub stt_quality : Option SttQuality
  pub stt_uncertainty_reasons : List String
  pub possible_stt_autocorrection : Bool

-- `speaker == "student"`: the builder derives the speaker from the source.
abbrev pub is_student : EvaluationTurn → Bool
is_student turn = is_user turn.source

pub record QualitySignals : Type 0 where
  pub ignored_events_count : ℕ
  pub empty_text_events_count : ℕ
  pub unreliable_student_turn_count : ℕ
  pub excluded_student_turn_count : ℕ
  pub missing_timestamp_count : ℕ
  pub user_turn_count : ℕ
  pub assistant_turn_count : ℕ
  pub uncertain_student_turn_count : ℕ
  pub student_word_count : ℕ
  pub has_student_turns : Bool
  pub has_assistant_turns : Bool

-- `fetch_session_row` gives the ids as UUIDs, numbers here.
pub record SessionRow (N : Type 0) : Type 0 where
  pub id : ℕ
  pub user_id : Option ℕ
  pub lesson_id : Option ℕ
  pub raw_backup_json : Value N

pub record EvaluationInput : Type 0 where
  pub session_id : ℕ
  pub user_id : Option ℕ
  pub lesson_id : Option ℕ
  pub raw_event_count : ℕ
  pub turns : List EvaluationTurn
  pub quality_signals : QualitySignals

-- The loop's counters and its list of turns.
pub record Builder : Type 0 where
  pub ignored : ℕ
  pub empty_text : ℕ
  pub missing_timestamp : ℕ
  pub unreliable : ℕ
  pub turns : List EvaluationTurn

abbrev pub count_if : (EvaluationTurn → Bool) → List EvaluationTurn → ℕ
count_if p [] = 0
count_if p (t ∷ ts) = (if p t then 1 else 0) + count_if p ts

abbrev pub is_uncertain : EvaluationTurn → Bool
is_uncertain turn = is_student turn && elim turn.stt_quality [
  | none ↦ false
  | some q ↦ elim q [ confident ↦ false | uncertain ↦ true ]
]

-- The words of the student's turns.
unfoldable pub total_student_words : List EvaluationTurn → ℕ
total_student_words [] = 0
total_student_words (t ∷ ts) =
    (if is_student t then word_count t.text else 0) + total_student_words ts

module _ {N : Type 0} where
  unfoldable pub coerce_string_list : List (Value N) → List String
  coerce_string_list [] = []
  coerce_string_list (item ∷ items) =
      let rest = coerce_string_list items in
      elim item [ string s ↦ if is_empty (strip s) then rest else strip s ∷ rest | _ ↦ rest ]

module _ {N : Type 0} (rt : Runtime N) where
  -- `event.get("type") or event.get("event") or ""`, as the source reads it
  unfoldable pub event_source : Fields N → Option Source
  event_source m =
      let kind =
        upper
          (strip (str rt (or_else rt (get "type" m) (or_else rt (get "event" m) (string ""))))) in
      if str_eq kind "USER_TURN"
      then some user_turn
      else if str_eq kind "AI_TURN"
      then some ai_turn
      else none

  unfoldable pub coerce_stt_quality : Value N → Option SttQuality
  coerce_stt_quality value =
      let normalized = lower (strip (str rt (or_else rt value (string "")))) in
      if str_eq normalized "confident"
      then some confident
      else if str_eq normalized "uncertain"
      then some uncertain
      else none

  -- The text of an event that is a mapping.
  unfoldable pub turn_text : Source → Fields N → String
  turn_text user_turn m = get_event_grading_text rt (obj m)
  turn_text ai_turn m = strip (
      str rt (
        or_else rt (get "text" (get_event_payload rt (obj m)))
          (or_else rt (get "text" m) (string ""))))

  abbrev listed_reasons : Fields N → List String
  listed_reasons payload = elim (get "uncertainty_reasons" payload) [
    | arr vs ↦ coerce_string_list (to_list vs)
    | _ ↦ []
  ]

  -- The reasons, with the soft one appended where a student's turn may be hallucinated.
  unfoldable pub uncertainty_reasons : Source → Fields N → List String
  unfolding coerce_string_list
  uncertainty_reasons source payload =
      if is_user source
        && truthy rt (get "possible_hallucination" payload)
        && not (is_in "possible_hallucination_soft" (listed_reasons payload))
      then listed_reasons payload ++ "possible_hallucination_soft" ∷ []
      else listed_reasons payload

  -- `_coerce_event_list`, with the calls that Python's stack still has room for.
  unfoldable pub coerce_event_list : ℕ → Value N → Result BuildError (List (Value N))
  coerce_event_list zero value = raise recursion_error
  coerce_event_list (suc depth) value = elim value [
    | arr vs ↦ ok (to_list vs)
    | string s ↦ elim (rt.loads s) [
      | loaded v ↦ coerce_event_list depth v
      | decode_error ↦ ok []
      | value_error ↦ raise bad_json
    ]
    | obj m ↦
        elim (if has "logs" m
          then some (get "logs" m)
          else if has "events" m
          then some (get "events" m)
          else if has "raw_backup_json" m
          then some (get "raw_backup_json" m)
          else none) [
            | none ↦ ok []
            | some nested ↦ elim nested [
              | string s ↦ elim (rt.loads s) [
                | loaded v ↦ coerce_event_list depth v
                | decode_error ↦ ok []
                | value_error ↦ raise bad_json
              ]
              | other ↦ coerce_event_list depth other
            ]
          ]
    | _ ↦ ok []
  ]
