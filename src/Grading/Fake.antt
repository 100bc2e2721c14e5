-- ===== src/Grading/Fake.antt =====
-- fake_grader.py: the deterministic grader that stands in for the language model.
use Prim.Native.String.{String}
use luve.Prelude.{ℕ, ◌*◌, none, some, List, [], ◌∷◌, if◌then◌else◌, length, min, ◌==◌, ◌||◌}
use luve.Python.Text.{is_empty, is_in}
use luve.Python.Json.{Value, num, string, obj, field, end, Floats, Unicode}
use luve.Python.Lines.{split_words}
use luve.Grading.Input.{EvaluationInput, EvaluationTurn, is_student, total_student_words, count_if}
use luve.Grading.Skills.{
  Scores, SkillFeedback, scored, insufficient_evidence, fluency, grammar, vocabulary,
  pronunciation_clarity,
}
use luve.Grading.Store.{GradingResult}

module _ {N : Type 0} (fl : Floats N) (uni : Unicode) where
  -- `"".join(ch for ch in word if ch.isalpha())`
  letters : String → String
  letters String.[] = ""
  letters (String.◌∷◌ c s) =
      let rest = letters s in if uni.is_alpha c then String.◌∷◌ c rest else rest

  -- The set of cleaned words, as a list with no word twice.
  collect : List String → List String → List String
  collect [] words = words
  collect (w ∷ ws) words =
      let cleaned = letters w in
      collect ws (if is_empty cleaned || is_in cleaned words then words else cleaned ∷ words)

  student_word_set : List EvaluationTurn → List String → List String
  student_word_set [] words = words
  student_word_set (t ∷ ts) words =
      student_word_set ts
        (if is_student t then collect (split_words (uni.lower_all t.text)) words else words)

  unfoldable pub unique_student_words : List EvaluationTurn → ℕ
  unfolding student_word_set collect letters
  unique_student_words turns = length (student_word_set turns [])

  -- `round(max(0.0, min(10.0, value)), 2)`; Python's `min` and `max` keep their first argument unless
  -- the second is smaller, or larger.
  unfoldable pub clamp_score : N → N
  clamp_score value =
      let ten = fl.of_nat 10 in
      let zero = fl.of_nat 0 in
      let low = if fl.at_most ten value then ten else value in
      fl.round2 (if fl.at_most low zero then zero else low)

  abbrev tenths : ℕ → N
  tenths n = fl.hundredths (n * 10)

  unfoldable pub fake_scores : EvaluationInput → Scores N
  unfolding unique_student_words clamp_score
  fake_scores input =
      let turns = count_if is_student input.turns in
      let words = total_student_words input.turns in
      let ignored = input.quality_signals.ignored_events_count in
      let uncertain = input.quality_signals.uncertain_student_turn_count in
      let flow = clamp_score (fl.add (tenths 50) (fl.times (fl.of_nat (min turns 5)) (tenths 6))) in
      record {
        fluency =
            if ignored == 0
            then flow
            else clamp_score (fl.minus flow (fl.times (fl.of_nat (min ignored 5)) (tenths 1)));
        grammar =
            clamp_score (fl.add (tenths 60) (fl.over (fl.of_nat (min words 40)) (tenths 200)));
        vocab = clamp_score (
            fl.add (tenths 55)
              (fl.over (fl.of_nat (min (unique_student_words input.turns) 30)) (tenths 150)));
        pronunciation =
            if turns == 0
            then none
            else some (
                clamp_score
                  (fl.minus (tenths 70) (fl.times (fl.of_nat (min uncertain 4)) (tenths 4))));
      }

  build_fake_skill_feedback : Scores N → List (SkillFeedback N)
  build_fake_skill_feedback s =
      record {
        skill = fluency;
        score = some s.fluency;
        status = scored;
        summary = "Basic fluency estimate from turn count and ignored event volume.";
        suggestion = "Use the LLM grader before showing this as a learner-facing fluency grade.";
      }
      ∷ record {
        skill = grammar;
        score = some s.grammar;
        status = scored;
        summary = "Basic grammar estimate from transcript length only.";
        suggestion = "Use the LLM grader for sentence-level grammar feedback.";
      }
      ∷ record {
        skill = vocabulary;
        score = some s.vocab;
        status = scored;
        summary = "Basic vocabulary estimate from unique word count.";
        suggestion = "Use the LLM grader for vocabulary range and word-choice coaching.";
      }
      ∷ record {
        skill = pronunciation_clarity;
        score = s.pronunciation;
        status = elim s.pronunciation [ none ↦ insufficient_evidence | some _ ↦ scored ];
        summary = elim s.pronunciation [
          | none ↦ "No reliable pronunciation evidence was available."
          | some _ ↦ "Estimated from STT uncertainty signals."
        ];
        suggestion =
            "Use audio/STT confidence signals only as pronunciation evidence, not grammar text alone.";
      }
      ∷ []

  abbrev count : ℕ → Value N
  count n = num (fl.of_nat n)

  unfoldable pub fake_grade : EvaluationInput → GradingResult N
  unfolding fake_scores build_fake_skill_feedback
  fake_grade input =
      let s = fake_scores input in
      record {
        session_id = input.session_id;
        overall_score =
            fl.round2 (fl.over (fl.add (fl.add s.fluency s.grammar) s.vocab) (tenths 30));
        scores = s;
        detailed_corrections =
            obj (
              field "type" (string "fake_grader_notice") (
                field "message"
                  (string "Deterministic placeholder only; no LLM grading was performed.") end))
            ∷ obj (
                field "type" (string "input_quality") (
                  field "raw_event_count" (count input.raw_event_count) (
                    field "turn_count" (count (length input.turns)) (
                      field "ignored_events_count"
                        (count input.quality_signals.ignored_events_count) end))))
            ∷ [];
        ai_summary_feedback =
            "Fake grading completed. Replace fake_grader.v1 with a real LLM-backed grader after the worker flow is verified.";
        grader_version = "fake_grader.v1";
        provider = "fake";
        score_schema_version = "grading.v1";
        skill_feedback = build_fake_skill_feedback s;
        input_quality = some input.quality_signals;
      }
