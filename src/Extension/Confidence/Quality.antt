-- ===== src/Extension/Confidence/Quality.antt =====
-- luve_extension.py: what is told of a final transcript that is accepted, in the log and to the tutor.
pub mod Doubts
use Prim.Native.String.{String}
use text.Mathlib.Text.{◌==◌ as str_eq}
use luve.Prelude.{
  Bool, true, false, not, ◌&&◌, ◌||◌, Option, none, some, List, [], ◌∷◌, ◌++◌, if◌then◌else◌,
}
use luve.Python.Text.{is_empty, strip}
use luve.Python.Json.{Value, bool, num, string, arr, Fields, field, get, to_list}
use luve.Recognition.Segments.{SttAnalysis}
use luve.Extension.Queue.{AudioStats}
use luve.Extension.Transcript.{Alphabet, Lexicon, has_learner_english_evidence}
use luve.Extension.Confidence.{
  Scale, SttSettings, ConfidenceSummary, is_below, is_above, is_at_least, minus_hundredths,
  speech_ms, has_ratio_above, stt_confidence_summary,
}
use luve.Extension.Confidence.Short.{
  is_plausible_short_english_utterance, is_acoustically_plausible_incomplete_fragment,
  is_possible_stt_autocorrection,
}
use luve.Extension.Confidence.Second.{Verification, unavailable, verified}
use luve.Extension.Confidence.Rejects.{is_exceptionally_high_confidence, is_strong_acoustic_ascii}
use luve.Extension.Confidence.Payload.{
  when, is_none_yet, is_part, is_weak, part_fields, told_reasons, add_borderline, add_fragment,
  items_of, summary_value, words_field, Split,
}

module _ {N : Type 0} (abc : Alphabet) (lex : Lexicon) (sc : Scale N) (cfg : SttSettings N) where
  -- `verification_language` with what follows `and`
  abbrev pub is_other_language : Option String → Option N → Bool
  is_other_language none probability = false
  is_other_language (some language) probability =
      not (is_empty language)
      && not (str_eq (abc.lower language) "en")
      && is_at_least sc probability (sc.hundredths 35)

  abbrev pub verification_reasons : Verification N → List String
  verification_reasons unavailable = "verification_unavailable" ∷ []
  verification_reasons (verified v) =
      when (is_other_language v.detected_language v.detected_language_probability)
        "verification_language_mismatch"
  verification_reasons _ = []

  -- The reasons of the sound.
  unfoldable pub acoustic_reasons :
      SttAnalysis N → Option (AudioStats N) → ConfidenceSummary N → Bool → List String
  acoustic_reasons analysis audio_stats confidence is_strong_short =
      when (is_below sc analysis.avg_logprob (minus_hundredths sc 55)) "low_average_logprob"
      ++ (when (is_above sc analysis.no_speech_prob (sc.hundredths 25)) "high_no_speech_probability"
          ++ (when (has_ratio_above sc confidence (sc.hundredths 25)) "many_low_confidence_words"
              ++ when
                  (not is_strong_short && is_below sc (speech_ms sc audio_stats) (sc.of_nat 500))
                  "short_utterance"))

  unfoldable pub stt_uncertainty_reasons :
      SttAnalysis N
      → Option (AudioStats N)
      → ConfidenceSummary N
      → Bool
      → Bool
      → Bool
      → Bool
      → Verification N
      → Bool
      → List String
  stt_uncertainty_reasons analysis audio_stats confidence is_strong_short has_phrase_evidence
        is_ascii_like possible_stt_autocorrection verification mixed_language_filtered =
      let reasons = acoustic_reasons analysis audio_stats confidence is_strong_short in
      reasons
      ++ (when
            (not has_phrase_evidence
              && not is_strong_short
              && is_ascii_like
              && not (is_none_yet reasons))
            "borderline_learner_english"
          ++ (when possible_stt_autocorrection "possible_stt_autocorrection"
              ++ (when mixed_language_filtered "mixed_language_filtered"
                  ++ verification_reasons verification)))

  -- The reasons before the split's, which decide on the quality.
  unfoldable pub assessed_reasons :
      SttAnalysis N → Option (AudioStats N) → Verification N → Bool → List String
  assessed_reasons analysis audio_stats verification mixed_language_filtered =
      let text = analysis.raw_text in
      let confidence = stt_confidence_summary sc cfg analysis in
      let short =
        is_plausible_short_english_utterance abc lex sc cfg analysis audio_stats confidence in
      let evidence = has_learner_english_evidence abc lex text in
      let ascii_like = is_strong_acoustic_ascii abc lex sc cfg analysis confidence in
      let reasons =
        stt_uncertainty_reasons analysis audio_stats confidence short evidence ascii_like
          (is_possible_stt_autocorrection abc lex sc cfg analysis confidence evidence short)
          verification mixed_language_filtered in
      add_fragment
        (is_acoustically_plausible_incomplete_fragment abc lex sc cfg analysis audio_stats
          confidence)
        (add_borderline
          (is_none_yet reasons
            && not short
            && not (is_exceptionally_high_confidence abc lex sc cfg analysis audio_stats confidence)
            && not evidence
            && ascii_like)
          reasons)

  -- The payload, and what the caller adds to it; `audio` is the dictionary of the statistics.
  unfoldable pub stt_quality_assessment :
      SttAnalysis N → Option (AudioStats N) → Value N → N → Verification N → Split → Fields N
  stt_quality_assessment analysis audio_stats audio inference_ms verification s =
      let text = analysis.raw_text in
      let confidence = stt_confidence_summary sc cfg analysis in
      let reasons = assessed_reasons analysis audio_stats verification s.mixed_language_filtered in
      let short =
        is_plausible_short_english_utterance abc lex sc cfg analysis audio_stats confidence in
      let fragment =
        is_acoustically_plausible_incomplete_fragment abc lex sc cfg analysis audio_stats
          confidence in
      let weak = is_weak s text in
      field "confidence" (num (sc.of_nat 1)) (
        field "stt_quality" (string (if is_none_yet reasons then "confident" else "uncertain")) (
          field "stt_confidence" (summary_value sc cfg analysis confidence verification) (
            field "uncertainty_reasons" (arr (items_of (told_reasons s text reasons))) (
              field "possible_hallucination" (bool false) (
                field "possible_stt_autocorrection"
                  (bool (
                    is_possible_stt_autocorrection abc lex sc cfg analysis confidence
                      (has_learner_english_evidence abc lex text) short))
                  (field "tutor_visible" (bool true) (
                    field "grading_eligible" (bool (not (fragment || weak))) (
                      field "turn_language_type"
                        (string (if s.mixed_language_filtered then "mixed" else "english"))
                        (field "stt_inference_ms" (num (sc.round2 inference_ms)) (
                          field "audio" audio (
                            part_fields (is_part s text) weak s.original_text text
                              (words_field sc cfg analysis.all_words))))))))))))

-- The reasons of a payload, as the set that the source builds.
abbrev pub has_reason : {N : Type 0} → String → List (Value N) → Bool
has_reason reason [] = false
has_reason reason (string s ∷ items) = str_eq (strip s) reason || has_reason reason items
has_reason reason (_ ∷ items) = has_reason reason items

abbrev pub reason_items : {N : Type 0} → Value N → List (Value N)
reason_items (arr items) = to_list items
reason_items _ = []

unfoldable pub final_stt_acceptance_rejection_reason :
    {N : Type 0} → SttAnalysis N → Fields N → Option String
final_stt_acceptance_rejection_reason analysis turn_metadata =
    if is_empty (strip analysis.raw_text)
    then some "empty_transcript"
    else if has_reason "verification_language_mismatch"
        (reason_items (get "uncertainty_reasons" turn_metadata))
    then some "verification_language_mismatch"
    else none
