-- ===== src/Grading/Worker.antt =====
-- worker.py: one session.completed job.
pub mod Graded
pub mod Settled
use Prim.Native.String.{String}
use luve.Prelude.{
  ℕ, zero, suc, Bool, true, false, not, ◌&&◌, Option, none, some, List, [], ◌∷◌, if◌then◌else◌, ltb,
  Result, ok, raise,
}
use luve.Python.Json.{Value, Runtime, Floats, Unicode, obj, field, string, end}
use luve.Grading.Eligibility.{
  Reason, no_raw_backup, invalid_raw_backup, no_user_turns, insufficient_words, eligible,
  GradingEligibility, evaluate_grading_eligibility,
}
use luve.Grading.Timing.{BuildError}
use luve.Grading.Input.{SessionRow, EvaluationInput, is_student, count_if}
use luve.Grading.Builder.{build_evaluation_input}
use luve.Grading.Llm.{
  LlmError, llm_grader_error, LlmGrade, legacy, with_pronunciation, parse_grading_response,
}
use luve.Grading.Store.{
  Db, GradingResult, SkipRow, worker, fetch_session_row, log_grading_skip, mark_grading_processing,
  mark_grading_failed, upsert_grading_result,
}
use luve.Grading.Fake.{fake_grade}
use luve.Grading.World.{
  Exc, validation_error, db_error, build_error, llm_error, Answer, refused, answered, World, M,
  pure, fail, bind, call, ask,
}

pub data Provider : Type 0 where
  fake llm : Provider

abbrev pub provider_name : Provider → String
provider_name fake = "fake"
provider_name llm = "llm"

-- The settings, as the functions `_get_…` read them.
pub record Config : Type 0 where
  pub provider : Provider
  pub fake_fallback : Bool
  pub min_student_words : ℕ
  pub max_attempts : ℕ
  -- the calls that Python's stack has room for when a log is coerced
  pub stack_depth : ℕ

-- What the worker calls of other code: the validation of a job's payload, which gives its session's
-- id, and the name and message of an exception.
pub record Calls (N : Type 0) : Type 0 where
  pub model_validate : Value N → Option ℕ
  pub type_name : Exc → String
  pub message : Exc → String

abbrev pub min_words_threshold_for_skip : Reason → ℕ → Option ℕ
min_words_threshold_for_skip insufficient_words min_student_words = some min_student_words
min_words_threshold_for_skip _ _ = none

module _ {N : Type 0} where
  abbrev schema_name : LlmGrade N → String
  schema_name g = elim g.score_schema_version [
    | legacy ↦ "grading.v1"
    | with_pronunciation ↦ "grading.v2"
  ]

  abbrev grader_info : Value N
  grader_info = obj (
      field "type" (string "grader_info")
        (field "grader_version" (string "llm_grader.v1") (field "message" (string "") end)))

  -- The result of the language model's grade, with the quality signals and the notice put in.
  unfoldable pub llm_result : EvaluationInput → LlmGrade N → GradingResult N
  llm_result input g = record {
    session_id = g.session_id;
    overall_score = g.overall_score;
    scores = g.scores;
    detailed_corrections = grader_info ∷ g.detailed_corrections;
    ai_summary_feedback = g.ai_summary_feedback;
    grader_version = "llm_grader.v1";
    provider = "llm";
    score_schema_version = schema_name g;
    skill_feedback = g.skill_feedback;
    input_quality = some input.quality_signals;
  }

module _ {N : Type 0} (rt : Runtime N) (fl : Floats N) (uni : Unicode) (calls : Calls N)
    (cfg : Config) where
  -- `llm_grade_with_client`, and what the worker makes of its result
  unfoldable pub llm_grade : EvaluationInput → Answer → Result Exc (GradingResult N)
  llm_grade input refused = raise (llm_error llm_grader_error)
  llm_grade input (answered reply) =
      if ltb 0 (count_if is_student input.turns)
      then elim (parse_grading_response rt fl reply input.session_id) [
        | ok g ↦ ok (llm_result input g)
        | raise e ↦ raise (llm_error e)
      ]
      else raise (llm_error llm_grader_error)

  unfoldable pub mark_failed : ℕ → Exc → Db N → Unit {0} × Db N
  mark_failed id e db = (
    tt,
    mark_grading_failed id (provider_name cfg.provider) (calls.type_name e) (calls.message e) db,
  )

  -- `_mark_grading_failed_if_supported`: a failure of the call itself is only logged.
  unfoldable pub mark_failed_if_supported : ℕ → Exc → M N (Unit {0})
  unfolding mark_failed
  mark_failed_if_supported id e w = let (r, w') = call (mark_failed id e) w in (ok tt, w')

  -- What the worker does with the model's grade, or with the exception that came instead.
  unfoldable pub finish : ℕ → EvaluationInput → Result Exc (GradingResult N) → M N (GradingResult N)
  finish id input (ok result) w = (ok result, w)
  finish id input (raise e) w =
      if cfg.fake_fallback
      then (ok (fake_grade fl uni input), w)
      else bind (mark_failed_if_supported id e) (λ _. fail e) w

  -- The grade of a provider.
  unfoldable pub grade : Provider → ℕ → EvaluationInput → M N (GradingResult N)
  grade fake id input w = (ok (fake_grade fl uni input), w)
  grade llm id input w = let (answer, w') = ask w in finish id input (llm_grade input answer) w'

  -- `if not result.input_quality`
  unfoldable pub with_quality : EvaluationInput → GradingResult N → GradingResult N
  with_quality input result = elim result.input_quality [
    | none ↦ record result { input_quality = some input.quality_signals }
    | some _ ↦ result
  ]

  abbrev pub store : GradingResult N → Db N → Unit {0} × Db N
  store result db = (tt, upsert_grading_result result db)

  -- What follows the mark, which says whether the row may be graded.
  unfoldable pub after_mark : ℕ → EvaluationInput → Bool → M N (Unit {0})
  after_mark id input true =
      bind (grade cfg.provider id input) (λ result. call (store (with_quality input result)))
  after_mark id input false = pure tt

  abbrev pub mark_processing_if_supported : ℕ → M N Bool
  mark_processing_if_supported id = call (mark_grading_processing id (provider_name cfg.provider))

  -- The row is marked, graded and written.
  unfoldable pub grade_session : ℕ → EvaluationInput → M N (Unit {0})
  grade_session id input = bind (mark_processing_if_supported id) (after_mark id input)

  abbrev pub skip : ℕ → GradingEligibility → Db N → Unit {0} × Db N
  skip id e db = (
    tt,
    log_grading_skip id
        (record {
          skipped_reason = e.reason;
          source = worker;
          student_word_count = e.student_word_count;
          min_words_threshold = min_words_threshold_for_skip e.reason cfg.min_student_words;
        })
        db,
  )

  -- The input of an eligible session is built before its row is marked.
  unfoldable pub grade_built : ℕ → Result BuildError EvaluationInput → M N (Unit {0})
  grade_built id (ok input) = grade_session id input
  grade_built id (raise e) = fail (build_error e)

  -- What follows the fetch of the session's row.
  unfoldable pub process_row : ℕ → Option (SessionRow N) → M N (Unit {0})
  process_row id none = pure tt
  process_row id (some row) =
      let eligibility = evaluate_grading_eligibility rt row.raw_backup_json cfg.min_student_words in
      if eligibility.is_eligible
      then grade_built id (build_evaluation_input rt fl cfg.stack_depth row)
      else call (skip id eligibility)

  abbrev pub fetch : ℕ → Db N → Option (SessionRow N) × Db N
  fetch id db = (fetch_session_row id db, db)

  unfoldable pub process_session : Option ℕ → M N (Unit {0})
  process_session none = fail validation_error
  process_session (some id) = bind (call (fetch id)) (process_row id)

  unfoldable pub process_session_completed_job : Value N → M N (Unit {0})
  process_session_completed_job payload = process_session (calls.model_validate payload)
