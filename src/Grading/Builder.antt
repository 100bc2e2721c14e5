-- ===== src/Grading/Builder.antt =====
-- evaluation_input_builder.py: `build_evaluation_input`.
pub mod Student
pub mod Agrees
pub mod Total
pub mod Encoded
use Prim.Native.String.{String}
use luve.Prelude.{
  arith, ◌≡◌, ℕ, ◌+◌, Bool, true, false, not, ◌&&◌, Option, none, some, List, [], ◌∷◌, ◌++◌,
  if◌then◌else◌, length, ltb, Result, ok, raise, ◌>>=◌,
}
use luve.Python.Text.{is_empty}
use luve.Python.Json.{Value, obj, Fields, Runtime, Floats, get, truthy}
use luve.Grading.Events.{get_event_payload, is_reliable_student_event}
use luve.Grading.Timing.{BuildError, Timing, extract_timing_ms}
use luve.Grading.Input.{
  Source, user_turn, ai_turn, EvaluationTurn, is_student, QualitySignals, SessionRow,
  EvaluationInput, Builder, count_if, is_uncertain, total_student_words, event_source,
  coerce_stt_quality, turn_text, is_user, uncertainty_reasons, coerce_event_list,
}

abbrev pub empty_builder : Builder
empty_builder = record {
  ignored = 0;
  empty_text = 0;
  missing_timestamp = 0;
  unreliable = 0;
  turns = [];
}

-- No time of the turn is known.
abbrev pub has_no_time : Timing → Bool
has_no_time t = elim t.start_ms [
  | some _ ↦ false
  | none ↦ elim t.end_ms [
    | some _ ↦ false
    | none ↦ elim t.duration_ms [ some _ ↦ false | none ↦ true ]
  ]
]

abbrev ignore : Builder → Builder
ignore b = record b { ignored = b.ignored + 1 }

module _ {N : Type 0} (rt : Runtime N) (fl : Floats N) where
  -- The turn of an event that passed the filters, once its times are known.
  unfoldable pub make_turn : ℕ → Source → Fields N → Timing → EvaluationTurn
  make_turn seq source m timing =
      let payload = get_event_payload rt (obj m) in
      record {
        seq = seq;
        source = source;
        text = turn_text rt source m;
        timing = timing;
        stt_quality = coerce_stt_quality rt (get "stt_quality" payload);
        stt_uncertainty_reasons = uncertainty_reasons rt source payload;
        possible_stt_autocorrection = truthy rt (get "possible_stt_autocorrection" payload);
      }

  -- A mapping whose source is known.
  unfoldable pub add_turn : Source → Fields N → Builder → Result BuildError Builder
  unfolding make_turn
  add_turn source m b =
      if is_empty (turn_text rt source m)
      then ok (record b { empty_text = b.empty_text + 1; ignored = b.ignored + 1 })
      else if is_user source && not (is_reliable_student_event rt (obj m))
      then ok (record b { unreliable = b.unreliable + 1; ignored = b.ignored + 1 })
      else do
        timing ← extract_timing_ms fl (get_event_payload rt (obj m))
        ok (record b {
          missing_timestamp =
              if has_no_time timing then b.missing_timestamp + 1 else b.missing_timestamp;
          turns = b.turns ++ make_turn (length b.turns) source m timing ∷ [];
        })

  -- One event of the loop.
  unfoldable pub add_event : Value N → Builder → Result BuildError Builder
  unfolding add_turn
  add_event event b = elim event [
    | obj m ↦ elim (event_source rt m) [ none ↦ ok (ignore b) | some source ↦ add_turn source m b ]
    | _ ↦ ok (ignore b)
  ]

  unfoldable pub add_events : List (Value N) → Builder → Result BuildError Builder
  add_events [] b = ok b
  add_events (event ∷ events) b = do b' ← add_event event b; add_events events b'

-- The counts that the builder reports.
unfoldable pub quality_signals : Builder → QualitySignals
quality_signals b =
    let users = count_if is_student b.turns in
    let assistants = count_if (λ t. not (is_student t)) b.turns in
    record {
      ignored_events_count = b.ignored;
      empty_text_events_count = b.empty_text;
      unreliable_student_turn_count = b.unreliable;
      excluded_student_turn_count = b.unreliable;
      missing_timestamp_count = b.missing_timestamp;
      user_turn_count = users;
      assistant_turn_count = assistants;
      uncertain_student_turn_count = count_if is_uncertain b.turns;
      student_word_count = total_student_words b.turns;
      has_student_turns = ltb 0 users;
      has_assistant_turns = ltb 0 assistants;
    }

module _ {N : Type 0} (rt : Runtime N) (fl : Floats N) where
  unfoldable pub build_evaluation_input : ℕ → SessionRow N → Result BuildError EvaluationInput
  unfolding add_events quality_signals
  build_evaluation_input depth row = do
    raw_events ← coerce_event_list rt depth row.raw_backup_json
    b ← add_events rt fl raw_events empty_builder
    ok (record {
      session_id = row.id;
      user_id = row.user_id;
      lesson_id = row.lesson_id;
      raw_event_count = length raw_events;
      turns = b.turns;
      quality_signals = quality_signals b;
    })

  -- The input is for the row's session.
  pub build-session_id :
      (depth : ℕ) (row : SessionRow N) (input : EvaluationInput)
      → build_evaluation_input depth row ≡ ok input
      → input.session_id ≡ row.id
  unfolding build_evaluation_input
  build-session_id depth row input e = ground (arith, e)
