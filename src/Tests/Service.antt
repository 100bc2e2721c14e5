-- ===== src/Tests/Service.antt =====
-- The session service at small data.
use luve.Prelude.{
  Bool, Option, if◌then◌else◌, ◌==◌, ltb, inl, pos, ℕ, ◌≤◌, ◌≡◌, ◌≢◌, refl, arith, true, false,
  none, some, List, [], ◌∷◌, subst, ok,
}
use luve.Python.Text.{strip, upper, is_space, is_in, lower, word_count}
use luve.Python.Json.{
  Value, Fields, null, num, string, arr, obj, nil, cons, field, end, get, loaded,
}
use luve.Grading.Events.{
  parse_raw_backup_events, get_event_kind, decode_event, is_reliable_student_event,
  get_event_grading_text, get_event_text, get_event_payload, has_hard_reason,
}
use luve.Grading.Eligibility.{no_raw_backup, evaluate_grading_eligibility}
use luve.Grading.World.{World, call}
use luve.Grading.Worker.{process_session_completed_job, process_session, process_row}
use luve.Grading.Store.{fetch_session_row, log_grading_skip}
use luve.Grading.Message.{
  ack, process_payload_with_retries, attempt, after_attempt, settle, give_up, handle_queue_message,
}
use luve.Service.Words.{event_fields, compute_student_word_count, session_has_student_content}
use luve.Service.Forms.{IsWritten, IsCanonical}
use luve.Service.Canonical.{eligible-has_content}
use luve.Service.Create.{SessionCreateRequest}
use luve.Service.Listing.{insert_row, HistoryRow, select_user_rows, kept_rows, list_user_sessions}
use luve.Service.Pages.{pages, pages-history}
use luve.Service.Status.{
  GradingStatusRead, insufficient_evidence, pending, live_session, row_status, skipped_status,
  get_session_grading_status,
}
use luve.Service.Settled.{acked-read_status}
use luve.Tests.Data.{rt, fl, uni, calls, cfg, row}

abbrev spoken_words : Fields ℕ
spoken_words = field "text" (string "I like dogs") end

abbrev written_turn : Fields ℕ
written_turn = field "type" (string "USER_TURN") (field "payload" (obj spoken_words) end)

abbrev written_log : Value ℕ
written_log = arr (cons (obj written_turn) nil)

turn-IsWritten : IsWritten rt written_turn
unfolding get strip is_space upper
turn-IsWritten = record {
  kind = "USER_TURN";
  payload = spoken_words;
  words = "I like dogs";
  has_kind = refl;
  kind_there = refl;
  kind_upper = refl;
  has_payload = refl;
  has_words = refl;
  segment = inl (inl refl);
}

same_turn : (m : Fields ℕ) → event_fields rt (obj written_turn) ≡ some m → written_turn ≡ m
unfolding event_fields
same_turn m h = cc

written-IsCanonical : IsCanonical rt (obj written_turn ∷ [])
written-IsCanonical = (λ m h. subst (IsWritten rt) (same_turn m h) turn-IsWritten, tt)

written-eligible : (evaluate_grading_eligibility rt written_log 3).is_eligible ≡ true
unfolding evaluate_grading_eligibility parse_raw_backup_events get_event_kind decode_event get upper
    strip is_space is_reliable_student_event get_event_grading_text get_event_text get_event_payload
    is_in lower has_hard_reason word_count
written-eligible = refl

written-events : parse_raw_backup_events rt written_log ≡ some (obj written_turn ∷ [])
unfolding parse_raw_backup_events
written-events = refl

eligible-has_content_example :
    (n : ℕ) × (compute_student_word_count rt written_log ≡ some n)
    × (3 ≤ n)
    × (session_has_student_content rt written_log ≡ ltb 0 n)
eligible-has_content_example =
    eligible-has_content rt written_log 3 (obj written_turn ∷ []) written-events written-IsCanonical
      written-eligible

abbrev history_row : ℕ → ℕ → Value ℕ → HistoryRow ℕ
history_row id started_at log = record {
  id = id;
  user_id = 1;
  started_at = started_at;
  raw_backup_json = log;
  is_deleted = false;
}

abbrev table : List (HistoryRow ℕ)
table = history_row 1 10 written_log ∷ history_row 2 20 null ∷ history_row 3 30 written_log ∷ []

pages-history_example : pages rt 1 2 true table 2 ≡ kept_rows rt true (select_user_rows 1 table)
unfolding list_user_sessions kept_rows select_user_rows insert_row
pages-history_example = pages-history rt 1 2 true table 2 (omega arith) (omega arith) (omega arith)

-- The session has no log.
abbrev blank_world : World ℕ
blank_world = record {
  db = record {
    sessions =
        λ _. some (record { row = record row { raw_backup_json = null }; is_deleted = false });
    results = λ _. none;
    skips = λ _. none;
  };
  outcomes = [];
  answers = [];
}

abbrev read : GradingStatusRead
read = record {
  session_id = 7;
  status = insufficient_evidence;
  error_code = none;
  student_word_count = none;
  reason = some no_raw_backup;
}

blank-acked : (handle_queue_message rt fl uni calls cfg (loaded (num 7)) blank_world).0 ≡ ack
unfolding handle_queue_message process_payload_with_retries attempt after_attempt
    process_session_completed_job process_session process_row call fetch_session_row
    log_grading_skip settle evaluate_grading_eligibility give_up
blank-acked = refl

blank-read :
    get_session_grading_status rt
      (pos 15)
      7
      1
      (handle_queue_message rt fl uni calls cfg (loaded (num 7)) blank_world).1.db
    ≡ ok read
unfolding handle_queue_message process_payload_with_retries attempt after_attempt
    process_session_completed_job process_session process_row call fetch_session_row
    log_grading_skip settle evaluate_grading_eligibility give_up get_session_grading_status
    live_session row_status skipped_status
blank-read = refl

acked-read_status_example : read.status ≢ pending
acked-read_status_example =
    acked-read_status rt fl uni calls cfg (num 7) 7 blank_world (pos 15) 1 read (λ e. cc) refl
      blank-acked blank-read

abbrev lessons : ℕ → Option Bool
lessons n = if n == 3 then some false else none

abbrev request : SessionCreateRequest ℕ
request = record { lesson_id = some 3; metadata = field "level" (num 2) end }
