-- ===== src/Grading/Llm/Reply.antt =====
-- llm_grader.py: the replies that are accepted.
use Prim.Native.String.{String}
use luve.Prelude.{
  Ensures-ok, inr, Ensures-bind, inl, Bool-cases, ◌≡◌, refl, true, false, arith, Option, none, some,
  List, [], ◌∷◌, All, ok, Ensures-ok, inr,
}
use luve.Python.Text.{strip, is_empty}
use luve.Python.Json.{get, get_either, str, Value, null, obj, Fields, Runtime, Floats}
use luve.Grading.Llm.{
  required, not, Bool, ℕ, LlmGrade, has_all, correction_keys, pick, filter_corrections, guard,
  validate_score, validate_optional_score, list_of, load_object, parse_grading_response,
}

module _ {N : Type 0} (rt : Runtime N) (fl : Floats N) where
  -- A number of the range 0 to 10.
  abbrev pub IsScore : N → Type 0
  IsScore n = (fl.at_most (fl.hundredths 0) n ≡ true) × (fl.at_most n (fl.hundredths 1000) ≡ true)

  abbrev pub IsOptionalScore : Option N → Type 0
  IsOptionalScore none = Unit
  IsOptionalScore (some n) = IsScore n

  -- A correction has exactly the five keys.
  abbrev pub IsCorrection : Value N → Type 0
  IsCorrection c =
      (m : Fields N) × (has_all correction_keys m ≡ true) × (c ≡ obj (pick correction_keys m))

  validate_score-IsScore : (v : Value N) (n : N) → validate_score rt fl v ≡ ok n → IsScore n
  unfolding validate_score
  validate_score-IsScore v n h = ground arith

  validate_optional_score-IsScore :
      (v : Value N) (o : Option N) → validate_optional_score rt fl v ≡ ok o → IsOptionalScore o
  unfolding validate_optional_score
  validate_optional_score-IsScore v none h = tt
  validate_optional_score-IsScore null (some n) h = cc
  validate_optional_score-IsScore v (some n) h = ground (arith, validate_score-IsScore v n)

  filter_corrections-IsCorrection :
      (items : List (Value N)) → All IsCorrection (filter_corrections items)
  unfolding filter_corrections
  filter_corrections-IsCorrection [] = tt
  filter_corrections-IsCorrection (obj m ∷ items) = elim (Bool-cases (has_all correction_keys m)) [
    | inl all ↦ rw all ((m, all, refl), filter_corrections-IsCorrection items)
    | inr missing ↦ rw missing (filter_corrections-IsCorrection items)
  ]
  filter_corrections-IsCorrection (item ∷ items) = filter_corrections-IsCorrection items

  -- The kept part of a grade.
  pub record IsGrade (session_id : ℕ) (g : LlmGrade N) : Type 0 where
    pub session : g.session_id ≡ session_id
    pub fluency : IsScore g.scores.fluency
    pub grammar : IsScore g.scores.grammar
    pub vocab : IsScore g.scores.vocab
    pub pronunciation : IsOptionalScore g.scores.pronunciation
    pub summary : is_empty g.ai_summary_feedback ≡ false
    pub corrections : All IsCorrection g.detailed_corrections

  not-true : (b : Bool) → not b ≡ true → b ≡ false
  not-true b h = ground arith

  guard-true : (b : Bool) (u : Unit {0}) → guard b ≡ ok u → b ≡ true
  guard-true b u h = ground arith

  abbrev summary_of : Fields N → String
  summary_of m = strip (str rt (get "summary" m))

  abbrev pronunciation_of : Fields N → Value N
  pronunciation_of = get_either "pronunciation_clarity_score" "pronunciation_score"

  -- A reply that is accepted gives scores of the range, a summary that is not empty, and corrections
  -- with exactly the five keys.
  pub parse_grading_response-IsGrade :
      (raw : String) (session_id : ℕ) (g : LlmGrade N)
      → parse_grading_response rt fl raw session_id ≡ ok g
      → IsGrade session_id g
  unfolding parse_grading_response
  parse_grading_response-IsGrade raw session_id =
      Ensures-bind (IsGrade session_id) (load_object rt fl raw) _ λ m _.
        Ensures-bind (IsGrade session_id) (guard (has_all required m)) _ λ _ _.
          Ensures-bind (IsGrade session_id) (validate_score rt fl (get "fluency_score" m)) _ λ f ef.
            Ensures-bind (IsGrade session_id) (validate_score rt fl (get "grammar_score" m)) _
              λ gr eg.
                Ensures-bind (IsGrade session_id) (validate_score rt fl (get "vocab_score" m)) _
                  λ v ev.
                    Ensures-bind (IsGrade session_id)
                      (validate_optional_score rt fl (pronunciation_of m)) _
                      λ p ep.
                        Ensures-bind (IsGrade session_id) (guard (not (is_empty (summary_of m)))) _
                          λ u eu.
                            Ensures-bind (IsGrade session_id) (list_of rt fl (get "corrections" m))
                              _
                              λ cs _. Ensures-ok (IsGrade session_id) _ (record {
                                session = refl;
                                fluency = validate_score-IsScore _ f ef;
                                grammar = validate_score-IsScore _ gr eg;
                                vocab = validate_score-IsScore _ v ev;
                                pronunciation = validate_optional_score-IsScore _ p ep;
                                summary = not-true _ (guard-true _ u eu);
                                corrections = filter_corrections-IsCorrection cs;
                              })
