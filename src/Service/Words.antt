-- ===== src/Service/Words.antt =====
-- services/session_service.py: the student's words in a session's log.
use Prim.Native.String.{String}
use text.Mathlib.Text.{◌==◌ as str_eq}
use luve.Prelude.{ℕ, ◌+◌, Bool, false, Option, none, some, List, [], ◌∷◌, if◌then◌else◌, ltb}
use luve.Python.Text.{is_empty, strip, word_count}
use luve.Python.Json.{
  Value, null, string, arr, obj, Fields, end, loaded, decode_error, value_error, Runtime, to_list,
  get, or_else, str,
}
use luve.Grading.Events.{is_false}

module _ {N : Type 0} (rt : Runtime N) where
  unfoldable pub parse_events : Value N → List (Value N)
  parse_events (arr events) = to_list events
  parse_events (string s) = elim (rt.loads s) [
    | loaded v ↦ elim v [ arr events ↦ to_list events | _ ↦ [] ]
    | decode_error ↦ []
    | value_error ↦ []
  ]
  parse_events _ = []

  -- The event as a mapping; `none` where the loop goes on to the next one.
  unfoldable pub event_fields : Value N → Option (Fields N)
  event_fields (obj m) = some m
  event_fields (string s) = elim (rt.loads s) [
    | loaded v ↦ elim v [ obj m ↦ some m | _ ↦ none ]
    | decode_error ↦ none
    | value_error ↦ none
  ]
  event_fields _ = none

  -- `(event.get("type") or event.get("event")) == "USER_TURN"`
  unfoldable pub is_exact_user_turn : Fields N → Bool
  is_exact_user_turn m = elim (or_else rt (get "type" m) (get "event" m)) [
    | string s ↦ str_eq s "USER_TURN"
    | _ ↦ false
  ]

  abbrev pub payload_of : Fields N → Fields N
  payload_of m = elim (get "payload" m) [ obj payload ↦ payload | _ ↦ end ]

  unfoldable pub text_value : Fields N → String
  text_value payload = strip (
      str rt
        (or_else rt (get "english_segment" payload) (or_else rt (get "text" payload) (string ""))))

  -- What one event adds to the total.
  unfoldable pub turn_words : Fields N → ℕ
  turn_words m =
      let payload = payload_of m in
      if is_exact_user_turn m
      then if is_false rt (get "grading_eligible" payload)
        then 0
        else if is_empty (text_value payload)
        then 0
        else word_count (text_value payload)
      else 0

  unfoldable pub total_words : List (Value N) → ℕ
  total_words [] = 0
  total_words (event ∷ events) =
      (elim (event_fields event) [ none ↦ 0 | some m ↦ turn_words m ]) + total_words events

  unfoldable pub compute_student_word_count : Value N → Option ℕ
  compute_student_word_count null = none
  compute_student_word_count raw = some (total_words (parse_events raw))

  unfoldable pub session_has_student_content : Value N → Bool
  session_has_student_content raw = elim (compute_student_word_count raw) [
    | none ↦ false
    | some words ↦ ltb 0 words
  ]
