-- ===== src/Grading/Store.antt =====
-- grading_repository.py: the tables that the worker reads and writes, and its statements. Each table
-- has at most one row a session, as its unique constraint demands. Time stamps are left out.
use Prim.Native.String.{String}
use luve.Prelude.{ℕ, ◌+◌, Bool, true, false, Option, none, some, List, ◌==◌, if◌then◌else◌}
use luve.Python.Lines.{prefix}
use luve.Python.Json.{Value}
use luve.Grading.Eligibility.{Reason}
use luve.Grading.Input.{SessionRow, QualitySignals}
use luve.Grading.Skills.{Scores, SkillFeedback}

-- contracts.py
pub record GradingResult (N : Type 0) : Type 0 where
  pub session_id : ℕ
  pub overall_score : N
  pub scores : Scores N
  pub detailed_corrections : List (Value N)
  pub ai_summary_feedback : String
  pub grader_version : String
  pub provider : String
  pub score_schema_version : String
  pub skill_feedback : List (SkillFeedback N)
  -- `none` is the empty dictionary.
  pub input_quality : Option QualitySignals

pub data GradingStatus : Type 0 where
  processing graded failed : GradingStatus

-- A row of grading_results; `result` is what `upsert_grading_result` wrote last.
pub record GradingRow (N : Type 0) : Type 0 where
  pub status : GradingStatus
  pub provider : String
  pub attempt_count : ℕ
  pub error_code : Option String
  pub error_message : Option String
  pub result : Option (GradingResult N)

pub data SkipSource : Type 0 where
  worker scanner backfill manual : SkipSource

-- A row of grading_skip_log.
pub record SkipRow : Type 0 where
  pub skipped_reason : Reason
  pub source : SkipSource
  pub student_word_count : Option ℕ
  pub min_words_threshold : Option ℕ

-- A row of sessions; the table's key is the row's id.
pub record Session (N : Type 0) : Type 0 where
  pub row : SessionRow N
  pub is_deleted : Bool

pub record Db (N : Type 0) : Type 0 where
  pub sessions : ℕ → Option (Session N)
  pub results : ℕ → Option (GradingRow N)
  pub skips : ℕ → Option SkipRow

abbrev pub update {ℓ} : {A : Type ℓ} → (ℕ → A) → ℕ → A → ℕ → A
update f k v j = if j == k then v else f j

abbrev pub is_graded : GradingStatus → Bool
is_graded graded = true
is_graded _ = false

module _ {N : Type 0} where
  unfoldable pub fetch_session_row : ℕ → Db N → Option (SessionRow N)
  fetch_session_row id db = elim (db.sessions id) [
    | none ↦ none
    | some s ↦ if s.is_deleted then none else some (record s.row { id = id })
  ]

  unfoldable pub log_grading_skip : ℕ → SkipRow → Db N → Db N
  log_grading_skip id skip db = record db { skips = update db.skips id (some skip) }

  -- Inserts a row, or takes over one that is not graded; `false` if the row is graded.
  unfoldable pub mark_grading_processing : ℕ → String → Db N → Bool × Db N
  mark_grading_processing id provider db = elim (db.results id) [
    | none ↦ (
      true,
      record db {
        results = update db.results id (
            some (record {
              status = processing;
              provider = provider;
              attempt_count = 1;
              error_code = none;
              error_message = none;
              result = none;
            }));
      },
    )
    | some r ↦ if is_graded r.status then (false, db) else (
      true,
      record db {
        results = update db.results id (
            some (record r {
              status = processing;
              provider = provider;
              attempt_count = r.attempt_count + 1;
              error_code = none;
              error_message = none;
            }));
      },
    )
  ]

  unfoldable pub mark_grading_failed : ℕ → String → String → String → Db N → Db N
  mark_grading_failed id provider error_code error_message db = elim (db.results id) [
    | none ↦ record db {
      results = update db.results id (
          some (record {
            status = failed;
            provider = provider;
            attempt_count = 1;
            error_code = some error_code;
            error_message = some (prefix 500 error_message);
            result = none;
          }));
    }
    | some r ↦ if is_graded r.status then db else record db {
      results = update db.results id (
          some (record r {
            status = failed;
            provider = provider;
            error_code = some error_code;
            error_message = some (prefix 500 error_message);
          }));
    }
  ]

  -- The attempt count of a row that is there stays; that of a new row is the column's default.
  unfoldable pub upsert_grading_result : GradingResult N → Db N → Db N
  upsert_grading_result result db =
      let attempts : ℕ = elim (db.results result.session_id) [
        | none ↦ 0
        | some r ↦ r.attempt_count
      ] in
      record db {
        results = update db.results result.session_id (
            some (record {
              status = graded;
              provider = result.provider;
              attempt_count = attempts;
              error_code = none;
              error_message = none;
              result = some result;
            }));
      }
