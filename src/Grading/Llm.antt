-- ===== src/Grading/Llm.antt =====
-- llm_grader.py: reading the reply of the language model.
pub mod Reply
pub mod Feedback
use Prim.Native.String.{String}
use text.Mathlib.Text.{starts_with}
use luve.Prelude.{
  ℕ, Bool, true, false, not, ◌&&◌, Option, none, some, List, [], ◌∷◌, if◌then◌else◌, Result, ok,
  raise, ◌>>=◌, ◌>>◌,
}
use luve.Python.Text.{is_empty, strip}
use luve.Python.Lines.{split_lines, join}
use luve.Python.Json.{
  Value, null, string, arr, obj, Fields, end, field, loaded, decode_error, value_error, Runtime,
  Floats, number, rejected, overflow, to_list, get, get_either, has, str,
}
use luve.Grading.Skills.{Scores, SkillFeedback, filter_skill_feedback}

-- An `LLMGraderError`, or the `ValueError` or `OverflowError` that escapes beside it.
pub data LlmError : Type 0 where
  llm_grader_error bad_value too_large : LlmError

pub data SchemaVersion : Type 0 where
  legacy with_pronunciation : SchemaVersion

-- What `parse_grading_response` fills in of `GradingResult`; the grader version and the provider are
-- constants.
pub record LlmGrade (N : Type 0) : Type 0 where
  pub session_id : ℕ
  pub overall_score : N
  pub scores : Scores N
  pub ai_summary_feedback : String
  pub detailed_corrections : List (Value N)
  pub score_schema_version : SchemaVersion
  pub skill_feedback : List (SkillFeedback N)

abbrev fence : String
fence = "```"

drop_fences : List String → List String
drop_fences [] = []
drop_fences (l ∷ ls) = let rest = drop_fences ls in if starts_with l fence then rest else l ∷ rest

-- Strips a markdown code fence.
unfoldable pub unfence : String → String
unfolding drop_fences
unfence raw =
    let stripped = strip raw in
    if starts_with stripped fence
    then strip (join "\n" (drop_fences (split_lines stripped)))
    else stripped

abbrev pub required : List String
required = "fluency_score" ∷ "grammar_score" ∷ "vocab_score" ∷ "summary" ∷ "corrections" ∷ []

abbrev pub correction_keys : List String
correction_keys = "turn_seq" ∷ "original" ∷ "corrected" ∷ "error_type" ∷ "explanation" ∷ []

module _ {N : Type 0} where
  abbrev pub has_all : List String → Fields N → Bool
  has_all [] m = true
  has_all (k ∷ ks) m = has k m && has_all ks m

  -- The entries of `m` under the keys, in their order.
  abbrev pub pick : List String → Fields N → Fields N
  pick [] m = end
  pick (k ∷ ks) m = field k (get k m) (pick ks m)

  unfoldable pub filter_corrections : List (Value N) → List (Value N)
  filter_corrections [] = []
  filter_corrections (item ∷ items) =
      let rest = filter_corrections items in
      elim item [
        | obj m ↦ if has_all correction_keys m then obj (pick correction_keys m) ∷ rest else rest
        | _ ↦ rest
      ]

abbrev pub guard : Bool → Result LlmError (Unit {0})
guard true = ok tt
guard false = raise llm_grader_error

module _ {N : Type 0} (rt : Runtime N) (fl : Floats N) where
  unfoldable pub validate_score : Value N → Result LlmError N
  validate_score value = elim (fl.to_float value) [
    | number score ↦
        if fl.at_most (fl.hundredths 0) score && fl.at_most score (fl.hundredths 1000)
        then ok score
        else raise llm_grader_error
    | rejected ↦ raise llm_grader_error
    | overflow ↦ raise too_large
  ]

  unfoldable pub validate_optional_score : Value N → Result LlmError (Option N)
  validate_optional_score null = ok none
  validate_optional_score value =
      if elim value [ string s ↦ is_empty s | _ ↦ false ]
      then ok none
      else do score ← validate_score value; ok (some score)

  abbrev weigh : ℕ → N → N
  weigh percent score = fl.times score (fl.hundredths percent)

  unfoldable pub weighted_overall_score : Scores N → N
  weighted_overall_score s = elim s.pronunciation [
    | none ↦
        fl.round2 (fl.add (fl.add (weigh 30 s.fluency) (weigh 35 s.grammar)) (weigh 35 s.vocab))
    | some p ↦ fl.round2 (
        fl.add (fl.add (fl.add (weigh 25 s.fluency) (weigh 30 s.grammar)) (weigh 25 s.vocab))
          (weigh 20 p))
  ]

  unfoldable pub load_object : String → Result LlmError (Fields N)
  unfolding unfence
  load_object raw_json = elim (rt.loads (unfence raw_json)) [
    | loaded v ↦ elim v [ obj m ↦ ok m | _ ↦ raise llm_grader_error ]
    | decode_error ↦ raise llm_grader_error
    | value_error ↦ raise bad_value
  ]

  abbrev pub list_of : Value N → Result LlmError (List (Value N))
  list_of (arr vs) = ok (to_list vs)
  list_of _ = raise llm_grader_error

  unfoldable pub parse_grading_response : String → ℕ → Result LlmError (LlmGrade N)
  parse_grading_response raw_json session_id = do
    m ← load_object raw_json
    guard (has_all required m)
    fluency ← validate_score (get "fluency_score" m)
    grammar ← validate_score (get "grammar_score" m)
    vocab ← validate_score (get "vocab_score" m)
    pronunciation ←
        validate_optional_score (get_either "pronunciation_clarity_score" "pronunciation_score" m)
    let summary = strip (str rt (get "summary" m))
    guard (not (is_empty summary))
    corrections ← list_of (get "corrections" m)
    let scores : Scores N = record {
      fluency = fluency;
      grammar = grammar;
      vocab = vocab;
      pronunciation = pronunciation;
    }
    ok (record {
      session_id = session_id;
      overall_score = weighted_overall_score scores;
      scores = scores;
      ai_summary_feedback = summary;
      detailed_corrections = filter_corrections corrections;
      score_schema_version = elim pronunciation [ none ↦ legacy | some _ ↦ with_pronunciation ];
      skill_feedback = filter_skill_feedback rt fl (get "skill_feedback" m) scores;
    })
