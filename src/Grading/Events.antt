-- ===== src/Grading/Events.antt =====
-- session_eligibility.py: how the events of a session's log are read, and which student turns count.
pub mod Decode
use Prim.Native.String.{String}
use luve.Prelude.{Bool, false, not, ◌||◌, Option, none, some, List, [], ◌∷◌, if◌then◌else◌}
use text.Mathlib.Text.{◌==◌ as str_eq}
use luve.Python.Text.{is_empty, is_in, strip, upper, lower}
use luve.Python.Json.{
  Value, bool, string, arr, obj, Fields, end, loaded, decode_error, value_error, Runtime, to_list,
  get, truthy, or_else, str,
}

abbrev pub hard_exclude_stt_reasons : List String
hard_exclude_stt_reasons =
    "verification_language_mismatch" ∷ "non_english_verification_failed" ∷ "non_target_language"
    ∷ "mixed_non_english" ∷ "hallucination_suspected" ∷ "empty_transcript" ∷ "no_speech_detected"
    ∷ "background_noise" ∷ "weak_mixed_language_english" ∷ []

module _ {N : Type 0} (rt : Runtime N) where
  unfoldable pub parse_raw_backup_events : Value N → Option (List (Value N))
  parse_raw_backup_events (arr events) = some (to_list events)
  parse_raw_backup_events (string s) = elim (rt.loads s) [
    | loaded v ↦ elim v [ arr events ↦ some (to_list events) | _ ↦ none ]
    | decode_error ↦ none
    | value_error ↦ none
  ]
  parse_raw_backup_events _ = none

  unfoldable pub get_event_kind : Value N → Option String
  get_event_kind (obj m) =
      let raw = or_else rt (get "type" m) (get "event" m) in
      if truthy rt raw then some (upper (strip (str rt raw))) else none
  get_event_kind _ = none

  -- `payload.get("text")`, if it is a text
  abbrev payload_text : Fields N → String
  payload_text payload = elim (get "text" payload) [ string s ↦ strip s | _ ↦ "" ]

  unfoldable pub get_event_text : Value N → String
  unfolding strip get
  get_event_text (obj m) = elim (get "payload" m) [ obj payload ↦ payload_text payload | _ ↦ "" ]
  get_event_text _ = ""

  -- `payload.get("english_segment")`, if it is a text with something in it
  abbrev english_segment : Fields N → String
  english_segment payload = elim (get "english_segment" payload) [ string s ↦ strip s | _ ↦ "" ]

  unfoldable pub get_event_grading_text : Value N → String
  get_event_grading_text (obj m) = elim (get "payload" m) [
    | obj payload ↦
        if is_empty (english_segment payload)
        then get_event_text (obj m)
        else english_segment payload
    | _ ↦ ""
  ]
  get_event_grading_text _ = ""

  unfoldable pub get_event_payload : Value N → Fields N
  get_event_payload (obj m) = elim (get "payload" m) [ obj payload ↦ payload | _ ↦ end ]
  get_event_payload _ = end

  unfoldable pub decode_event : Value N → Value N
  decode_event (string s) = elim (rt.loads s) [
    | loaded v ↦ elim v [ obj m ↦ obj m | _ ↦ string s ]
    | decode_error ↦ string s
    | value_error ↦ string s
  ]
  decode_event event = event

  -- `get_event_kind(event) == kind`
  abbrev pub has_kind : String → Value N → Bool
  has_kind kind event = elim (get_event_kind event) [ none ↦ false | some k ↦ str_eq k kind ]

  abbrev pub is_user_turn : Value N → Bool
  is_user_turn = has_kind "USER_TURN"

  -- `reasons.intersection(HARD_EXCLUDE_STT_REASONS)` is not empty. An item that strips to the empty
  -- text is left out by the source, and is no hard reason.
  unfoldable pub has_hard_reason : List (Value N) → Bool
  has_hard_reason [] = false
  has_hard_reason (item ∷ items) =
      elim item [ string s ↦ is_in (strip s) hard_exclude_stt_reasons | _ ↦ false ]
      || has_hard_reason items

  -- `raw_reasons` read as the list that the source builds the set from
  abbrev pub raw_reasons : Fields N → List (Value N)
  raw_reasons payload = elim (get "uncertainty_reasons" payload) [ arr vs ↦ to_list vs | _ ↦ [] ]

  -- `str(payload.get(key) or "").strip()`
  abbrev pub text_or_empty : String → Fields N → String
  text_or_empty key payload = strip (str rt (or_else rt (get key payload) (string "")))

  -- `payload.get("grading_eligible") is False`
  abbrev pub is_false : Value N → Bool
  is_false (bool b) = not b
  is_false _ = false

  unfoldable pub is_reliable_student_event : Value N → Bool
  is_reliable_student_event raw_event =
      let event = decode_event raw_event in
      let payload = get_event_payload event in
      if not (is_user_turn event)
      then false
      else if is_empty (get_event_grading_text event)
      then false
      else if is_false (get "grading_eligible" payload)
      then false
      else if not (is_empty (text_or_empty "excluded_from_grading_reason" payload))
      then false
      else if is_in (lower (text_or_empty "turn_language_type" payload))
          ("vietnamese" ∷ "noise" ∷ [])
      then false
      else not (has_hard_reason (raw_reasons payload))
