-- ===== src/Grading/Eligibility.antt =====
-- session_eligibility.py: the counts over an event log, and whether the session is submitted for
-- grading.
pub mod Totals
pub mod Decides
use luve.Prelude.{
  ℕ, ◌+◌, Bool, true, false, not, ◌&&◌, ◌||◌, Option, none, some, List, [], ◌∷◌, ltb, ◌==◌,
  if◌then◌else◌,
}
use luve.Python.Text.{is_empty, word_count}
use luve.Python.Json.{Value, null, Runtime}
use luve.Grading.Events.{
  parse_raw_backup_events, get_event_text, get_event_grading_text, decode_event, is_user_turn,
  is_reliable_student_event,
}

abbrev pub default_min_student_words : ℕ
default_min_student_words = 15

pub data Reason : Type 0 where
  no_raw_backup invalid_raw_backup no_user_turns insufficient_words eligible : Reason

pub record GradingEligibility : Type 0 where
  pub is_eligible : Bool
  pub reason : Reason
  pub user_turn_count : ℕ
  pub student_word_count : Option ℕ
  pub reliable_student_word_count : Option ℕ

module _ {N : Type 0} (rt : Runtime N) where
  unfoldable pub user_turns : List (Value N) → ℕ
  user_turns [] = 0
  user_turns (event ∷ events) =
      (if is_user_turn rt (decode_event rt event) then 1 else 0) + user_turns events

  unfoldable pub count_user_turns : Value N → Option ℕ
  unfolding user_turns
  count_user_turns raw_backup_json = elim (parse_raw_backup_events rt raw_backup_json) [
    | none ↦ none
    | some events ↦ some (user_turns events)
  ]

  -- The loop of `count_student_words`. A text with nothing in it adds nothing.
  unfoldable pub student_words : ℕ → List (Value N) → ℕ
  student_words total [] = total
  student_words total (raw_event ∷ events) =
      let event = decode_event rt raw_event in
      let words = get_event_text rt event in
      student_words
        (if is_user_turn rt event && not (is_empty words) then total + word_count words else total)
        events

  unfoldable pub count_student_words : Value N → Option ℕ
  unfolding student_words
  count_student_words raw_backup_json = elim (parse_raw_backup_events rt raw_backup_json) [
    | none ↦ none
    | some events ↦ some (student_words 0 events)
  ]

  -- The loop of `count_reliable_student_words`.
  unfoldable pub reliable_words : ℕ → List (Value N) → ℕ
  reliable_words total [] = total
  reliable_words total (raw_event ∷ events) =
      let event = decode_event rt raw_event in
      let words = get_event_grading_text rt event in
      reliable_words
        (if is_reliable_student_event rt event && not (is_empty words)
          then total + word_count words
          else total)
        events

  unfoldable pub count_reliable_student_words : Value N → Option ℕ
  unfolding reliable_words
  count_reliable_student_words raw_backup_json = elim (parse_raw_backup_events rt raw_backup_json) [
    | none ↦ none
    | some events ↦ some (reliable_words 0 events)
  ]

-- The three counters of `evaluate_grading_eligibility`.
pub record Tally : Type 0 where
  pub user_turn_count : ℕ
  pub reliable_student_word_count : ℕ
  pub reliable_user_turn_count : ℕ

abbrev pub no_events : Tally
no_events = record {
  user_turn_count = 0;
  reliable_student_word_count = 0;
  reliable_user_turn_count = 0;
}

-- What the evaluation says once the events are counted.
unfoldable pub verdict : ℕ → Tally → GradingEligibility
verdict min_student_words t =
    if t.user_turn_count == 0
    then record {
      is_eligible = false;
      reason = no_user_turns;
      user_turn_count = 0;
      student_word_count = some 0;
      reliable_student_word_count = some 0;
    }
    else if t.reliable_user_turn_count == 0 || ltb t.reliable_student_word_count min_student_words
    then record {
      is_eligible = false;
      reason = insufficient_words;
      user_turn_count = t.user_turn_count;
      student_word_count = some t.reliable_student_word_count;
      reliable_student_word_count = some t.reliable_student_word_count;
    }
    else record {
      is_eligible = true;
      reason = eligible;
      user_turn_count = t.user_turn_count;
      student_word_count = some t.reliable_student_word_count;
      reliable_student_word_count = some t.reliable_student_word_count;
    }

-- No events could be read, for the given reason.
abbrev pub unread : Reason → GradingEligibility
unread reason = record {
  is_eligible = false;
  reason = reason;
  user_turn_count = 0;
  student_word_count = none;
  reliable_student_word_count = none;
}

module _ {N : Type 0} (rt : Runtime N) where
  -- One event of the loop.
  unfoldable pub tally_event : Tally → Value N → Tally
  tally_event t raw_event =
      let event = decode_event rt raw_event in
      let words = get_event_grading_text rt event in
      if not (is_user_turn rt event)
      then t
      else if not (is_reliable_student_event rt event)
      then record t { user_turn_count = t.user_turn_count + 1 }
      else record t {
        user_turn_count = t.user_turn_count + 1;
        reliable_user_turn_count = t.reliable_user_turn_count + 1;
        reliable_student_word_count =
            if is_empty words
            then t.reliable_student_word_count
            else t.reliable_student_word_count + word_count words;
      }

  unfoldable pub tally : Tally → List (Value N) → Tally
  tally t [] = t
  tally t (event ∷ events) = tally (tally_event t event) events

  -- A negative minimum of the source's tests like 0.
  unfoldable pub evaluate_grading_eligibility : Value N → ℕ → GradingEligibility
  unfolding verdict tally tally_event
  evaluate_grading_eligibility null min_student_words = unread no_raw_backup
  evaluate_grading_eligibility raw_backup_json min_student_words =
      elim (parse_raw_backup_events rt raw_backup_json) [
        | none ↦ unread invalid_raw_backup
        | some events ↦ verdict min_student_words (tally no_events events)
      ]
