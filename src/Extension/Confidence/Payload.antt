-- ===== src/Extension/Confidence/Payload.antt =====
-- luve_extension.py: the parts of the metadata of a turn.
use Prim.Native.String.{String}
use text.Mathlib.Text.{◌==◌ as str_eq}
use luve.Prelude.{
  Bool, true, false, not, ◌&&◌, Option, none, some, List, [], ◌∷◌, ◌++◌, if◌then◌else◌,
}
use luve.Python.Text.{is_empty, is_in}
use luve.Python.Json.{
  Value, null, bool, num, string, arr, obj, Items, nil, cons, Fields, end, field,
}
use luve.Recognition.Segments.{SttAnalysis, WordPoint}
use luve.Extension.Confidence.{Scale, SttSettings, ConfidenceSummary}
use luve.Extension.Confidence.Second.{Verification, suppressed, verified}

-- `if condition: reasons.append(reason)`
abbrev pub when : Bool → String → List String
when condition reason = if condition then reason ∷ [] else []

abbrev pub is_none_yet : List String → Bool
is_none_yet [] = true
is_none_yet (_ ∷ _) = false

-- What the split of the transcript has said: its text and the reasons; the text before it.
pub record Split : Type 0 where
  pub original_text : String
  pub mixed_language_filtered : Bool
  pub mixed_language_reasons : List String

abbrev pub append_once : String → List String → List String
append_once reason reasons = if is_in reason reasons then reasons else reasons ++ reason ∷ []

-- The split has left a part of the text.
abbrev pub is_part : Split → String → Bool
is_part s raw_text =
    s.mixed_language_filtered
    && not (is_empty s.original_text)
    && not (str_eq s.original_text raw_text)

abbrev pub is_weak : Split → String → Bool
is_weak s raw_text =
    is_part s raw_text && is_in "weak_mixed_language_english" s.mixed_language_reasons

abbrev pub weak_field : {N : Type 0} → Bool → Fields N → Fields N
weak_field false rest = rest
weak_field true rest =
    field "excluded_from_grading_reason" (string "weak_mixed_language_english") rest

abbrev pub part_fields : {N : Type 0} → Bool → Bool → String → String → Fields N → Fields N
part_fields false weak original_text raw_text rest = rest
part_fields true weak original_text raw_text rest =
    field "original_stt_text" (string original_text) (
      field "english_segment" (string (if weak then "" else raw_text)) (
        field "mixed_language" (bool true)
          (field "removed_non_english" (bool true) (weak_field weak rest))))

-- The list that the payload has in the end.
abbrev pub told_reasons : Split → String → List String → List String
told_reasons s raw_text reasons =
    if is_weak s raw_text then append_once "weak_mixed_language_english" reasons else reasons

unfoldable pub add_borderline : Bool → List String → List String
add_borderline condition reasons =
    if condition then reasons ++ "borderline_learner_english" ∷ [] else reasons

unfoldable pub add_fragment : Bool → List String → List String
add_fragment is_fragment reasons =
    if is_fragment
    then append_once "incomplete_fragment" (append_once "short_utterance" reasons)
    else reasons

module _ {N : Type 0} where
  abbrev pub text_or_null : Option String → Value N
  text_or_null none = null
  text_or_null (some s) = string s

  abbrev pub num_or_null : Option N → Value N
  num_or_null none = null
  num_or_null (some n) = num n

  unfoldable pub items_of : List String → Items N
  items_of [] = nil
  items_of (s ∷ texts) = cons (string s) (items_of texts)

module _ {N : Type 0} (sc : Scale N) (cfg : SttSettings N) where
  abbrev pub second_language : Verification N → Option String
  second_language (verified v) = v.detected_language
  second_language (suppressed v) = v.detected_language
  second_language _ = none

  abbrev pub second_probability : Verification N → Option N
  second_probability (verified v) = v.detected_language_probability
  second_probability (suppressed v) = v.detected_language_probability
  second_probability _ = none

  -- The dictionary of `_stt_confidence_summary`.
  abbrev pub summary_value : SttAnalysis N → ConfidenceSummary N → Verification N → Value N
  summary_value analysis confidence verification = obj (
      field "confidence_score" null (
        field "avg_logprob" (num_or_null analysis.avg_logprob) (
          field "no_speech_prob" (num_or_null analysis.no_speech_prob) (
            field "compression_ratio" (num_or_null analysis.compression_ratio) (
              field "segment_count" (num (sc.of_nat analysis.segment_count)) (
                field "word_count" (num (sc.of_nat confidence.word_count)) (
                  field "low_confidence_word_count"
                    (num (sc.of_nat confidence.low_confidence_word_count))
                    (field "low_confidence_word_ratio" (num confidence.low_confidence_word_ratio) (
                      field "min_word_confidence" (num cfg.stt_min_word_confidence) (
                        field "detected_language" (text_or_null analysis.detected_language) (
                          field "detected_language_probability"
                            (num_or_null analysis.detected_language_probability)
                            (field "verification_language"
                              (text_or_null (second_language verification))
                              (field "verification_language_probability"
                                (num_or_null (second_probability verification)) end)))))))))))))

  abbrev pub word_items : List (WordPoint N) → Items N
  word_items [] = nil
  word_items (w ∷ words) =
      cons
        (obj (
          field "word" (string w.word) (
            field "probability" (num w.confidence) (
              field "start_ms" (num (sc.of_nat w.start_ms))
                (field "end_ms" (num (sc.of_nat w.end_ms)) end)))))
        (word_items words)

  -- `if analysis.all_words:`
  abbrev pub words_field : List (WordPoint N) → Fields N
  words_field [] = end
  words_field (w ∷ words) = field "words" (arr (word_items (w ∷ words))) end
