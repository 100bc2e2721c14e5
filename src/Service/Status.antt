-- ===== src/Service/Status.antt =====
-- services/session_service.py: `get_session_grading_status`, `get_session_grading`, and whether a
-- grade is a preview. Both read the tables that the grading worker writes.
use Prim.Native.String.{String}
use text.Mathlib.Text.{◌==◌ as str_eq, starts_with}
use luve.Prelude.{
  ℤ, pos, negsuc, ℕ, Bool, true, false, ◌&&◌, not, Option, none, some, [], ◌∷◌, if◌then◌else◌, ltb,
  ◌==◌, Result, ok, raise,
}
use luve.Python.Text.{is_empty, strip, lower, is_in}
use luve.Python.Json.{Value, Runtime}
use luve.Grading.Eligibility.{Reason}
use luve.Grading.Store.{Db, Session, GradingStatus, GradingRow, SkipRow, is_graded}
use luve.Service.Words.{compute_student_word_count}
use luve.Service.Listing.{ServiceError, not_found, forbidden, not_ready}

pub data ReadStatus : Type 0 where
  graded processing failed insufficient_evidence pending : ReadStatus

pub record GradingStatusRead : Type 0 where
  pub session_id : ℕ
  pub status : ReadStatus
  pub error_code : Option String
  pub student_word_count : Option ℕ
  pub reason : Option Reason

pub record GradingRead (N : Type 0) : Type 0 where
  pub row : GradingRow N
  pub is_dev_preview : Bool

abbrev pub blank : Option String → String
blank none = ""
blank (some s) = s

unfoldable pub is_dev_preview_grading : Option String → Option String → Bool
is_dev_preview_grading provider grader_version =
    let normalized_provider = lower (strip (blank provider)) in
    let normalized_grader_version = lower (strip (blank grader_version)) in
    if str_eq normalized_provider "fake"
    then true
    else if starts_with normalized_grader_version "fake_"
    then true
    else if str_eq normalized_grader_version "legacy"
    then true
    else if is_in normalized_provider ("" ∷ "unknown" ∷ [])
    then true
    else not (str_eq normalized_provider "llm" && not (is_empty normalized_grader_version))

-- `word_count is not None and word_count < min_words`
abbrev pub is_below : Option ℕ → ℤ → Bool
is_below none min_words = false
is_below (some n) (pos m) = ltb n m
is_below (some n) (negsuc m) = false

-- `user_id` of a session against that of the reader
abbrev pub is_owner : Option ℕ → ℕ → Bool
is_owner none user_id = false
is_owner (some owner) user_id = owner == user_id

module _ {N : Type 0} where
  unfoldable pub live_session : ℕ → Db N → Option (Session N)
  live_session id db = elim (db.sessions id) [
    | none ↦ none
    | some s ↦ if s.is_deleted then none else some s
  ]

  -- The column of the joined row, empty where there is no such row.
  abbrev pub version_of : GradingRow N → Option String
  version_of row = elim row.result [ none ↦ none | some result ↦ some result.grader_version ]

  abbrev pub read_grading : Option (GradingRow N) → Result ServiceError (GradingRead N)
  read_grading none = raise not_ready
  read_grading (some row) =
      if is_graded row.status
      then ok (record {
        row = row;
        is_dev_preview = is_dev_preview_grading (some row.provider) (version_of row);
      })
      else raise not_ready

  unfoldable pub get_session_grading : ℕ → ℕ → Db N → Result ServiceError (GradingRead N)
  get_session_grading id user_id db = elim (live_session id db) [
    | none ↦ raise not_found
    | some s ↦
        if not (is_owner s.row.user_id user_id)
        then raise forbidden
        else read_grading (db.results id)
  ]

module _ {N : Type 0} (rt : Runtime N) (min_words : ℤ) where
  -- The status where no grading result and no skip decides.
  unfoldable pub inferred_status : ℕ → Value N → GradingStatusRead
  inferred_status id raw =
      let word_count = compute_student_word_count rt raw in
      record {
        session_id = id;
        status = if is_below word_count min_words then insufficient_evidence else pending;
        error_code = none;
        student_word_count = word_count;
        reason = none;
      }

  unfoldable pub skipped_status : ℕ → Option SkipRow → Value N → GradingStatusRead
  skipped_status id (some skip) raw = record {
    session_id = id;
    status = insufficient_evidence;
    error_code = none;
    student_word_count = skip.student_word_count;
    reason = some skip.skipped_reason;
  }
  skipped_status id none raw = inferred_status id raw

  abbrev pub result_status : ReadStatus → Option String → ℕ → GradingStatusRead
  result_status status error_code id = record {
    session_id = id;
    status = status;
    error_code = error_code;
    student_word_count = none;
    reason = none;
  }

  unfoldable pub row_status :
      ℕ → Option (GradingRow N) → Option SkipRow → Value N → GradingStatusRead
  row_status id none skip raw = skipped_status id skip raw
  row_status id (some row) skip raw = elim row.status [
    | GradingStatus.graded ↦ result_status graded none id
    | GradingStatus.processing ↦ result_status processing none id
    | GradingStatus.failed ↦ result_status failed row.error_code id
  ]

  unfoldable pub get_session_grading_status : ℕ → ℕ → Db N → Result ServiceError GradingStatusRead
  get_session_grading_status id user_id db = elim (live_session id db) [
    | none ↦ raise not_found
    | some s ↦
        if not (is_owner s.row.user_id user_id)
        then raise forbidden
        else ok (row_status id (db.results id) (db.skips id) s.row.raw_backup_json)
  ]
