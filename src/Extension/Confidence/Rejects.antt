-- ===== src/Extension/Confidence/Rejects.antt =====
-- luve_extension.py: why a final transcript is rejected.
pub mod Order
pub mod Bounded
use Prim.Native.String.{String}
use luve.Prelude.{
  ℕ, Bool, true, false, not, ◌&&◌, ◌||◌, Option, none, some, List, [], ◌∷◌, length, if◌then◌else◌,
  leb, ltb,
}
use luve.Python.Text.{is_empty}
use luve.Python.Lines.{split_words}
use luve.Recognition.Segments.{SttAnalysis}
use luve.Extension.Queue.{AudioStats}
use luve.Extension.Transcript.{
  Alphabet, Lexicon, is_ascii, normalize_stt_text, contains_vietnamese_text,
  is_controlled_short_english_candidate, is_incomplete_short_english_fragment,
  has_learner_english_evidence, has_strong_learner_english_attempt,
}
use luve.Extension.Confidence.{
  Scale, SttSettings, ConfidenceSummary, has_canned_phrase, is_below, is_above, is_at_least,
  at_least_if, minus_hundredths, speech_ms, has_ratio_above, greater, smaller,
  stt_confidence_summary,
}
use luve.Extension.Confidence.Short.{
  is_plausible_short_english_utterance, is_acoustically_plausible_incomplete_fragment,
}

-- The bounds that a transcript has to keep.
pub record Bounds (N : Type 0) : Type 0 where
  pub max_no_speech : N
  pub min_avg_logprob : N
  pub max_low_conf_ratio : N

-- A chain of tests that return their reason.
unfoldable pub first_reason : List (Bool × String) → Option String
first_reason [] = none
first_reason ((test, reason) ∷ checks) =
    let rest = first_reason checks in if test then some reason else rest

module _ {N : Type 0} (abc : Alphabet) (lex : Lexicon) (sc : Scale N) (cfg : SttSettings N) where
  unfoldable pub is_exceptionally_high_confidence :
      SttAnalysis N → Option (AudioStats N) → ConfidenceSummary N → Bool
  is_exceptionally_high_confidence analysis audio_stats confidence =
      is_at_least sc analysis.avg_logprob (minus_hundredths sc 40)
      && sc.at_most confidence.low_confidence_word_ratio (sc.hundredths 15)
      && at_least_if sc (speech_ms sc audio_stats) (sc.of_nat 500)

  unfoldable pub is_strong_acoustic_ascii : SttAnalysis N → ConfidenceSummary N → Bool
  is_strong_acoustic_ascii analysis confidence =
      not (contains_vietnamese_text abc lex analysis.raw_text)
      && is_ascii analysis.raw_text
      && is_at_least sc analysis.avg_logprob (minus_hundredths sc 50)
      && sc.at_most confidence.low_confidence_word_ratio (sc.hundredths 20)

  unfoldable pub is_plausible_short_or_fragment :
      SttAnalysis N → Option (AudioStats N) → ConfidenceSummary N → Bool
  is_plausible_short_or_fragment analysis audio_stats confidence =
      is_plausible_short_english_utterance abc lex sc cfg analysis audio_stats confidence
      || is_acoustically_plausible_incomplete_fragment abc lex sc cfg analysis audio_stats
          confidence

  unfoldable pub is_eligible_learner_english :
      SttAnalysis N → Option (AudioStats N) → ConfidenceSummary N → Bool
  is_eligible_learner_english analysis audio_stats confidence =
      (is_plausible_short_or_fragment analysis audio_stats confidence
        || has_learner_english_evidence abc lex analysis.raw_text
        || has_strong_learner_english_attempt abc lex analysis.raw_text
        || is_exceptionally_high_confidence analysis audio_stats confidence
        || is_strong_acoustic_ascii analysis confidence)
      && not (contains_vietnamese_text abc lex analysis.raw_text)

  unfoldable pub min_speech_ms : SttAnalysis N → Option (AudioStats N) → ConfidenceSummary N → N
  min_speech_ms analysis audio_stats confidence =
      if is_plausible_short_or_fragment analysis audio_stats confidence
      then sc.of_nat 300
      else if is_eligible_learner_english analysis audio_stats confidence
      then greater sc cfg.final_min_speech_ms (sc.of_nat 500)
      else cfg.stt_min_speech_ms_for_final

  abbrev pub strict_bounds : Bounds N
  strict_bounds = record {
    max_no_speech = cfg.stt_max_no_speech_prob;
    min_avg_logprob = cfg.stt_min_avg_logprob;
    max_low_conf_ratio = cfg.stt_max_low_confidence_word_ratio;
  }

  abbrev pub relaxed_bounds : Bounds N
  relaxed_bounds = record {
    max_no_speech = sc.hundredths 80;
    min_avg_logprob = minus_hundredths sc 115;
    max_low_conf_ratio = sc.hundredths 75;
  }

  abbrev pub relax : ℕ → ℕ → ℕ → Bounds N → Bounds N
  relax no_speech logprob ratio b = record {
    max_no_speech = greater sc b.max_no_speech (sc.hundredths no_speech);
    min_avg_logprob = smaller sc b.min_avg_logprob (minus_hundredths sc logprob);
    max_low_conf_ratio = greater sc b.max_low_conf_ratio (sc.hundredths ratio);
  }

  -- The relaxations: of eligible English, of a short answer, of a strong attempt.
  unfoldable pub bounds_for : Bool → Bool → Bool → Bounds N
  bounds_for is_eligible is_short is_strong =
      let first = if is_eligible then relaxed_bounds else strict_bounds in
      let second = if is_short then relax 35 78 45 first else first in
      if is_strong then relax 90 130 85 second else second

  abbrev pub bounds_of : SttAnalysis N → Option (AudioStats N) → ConfidenceSummary N → Bounds N
  bounds_of analysis audio_stats confidence =
      let text = analysis.raw_text in
      bounds_for (is_eligible_learner_english analysis audio_stats confidence)
        (is_controlled_short_english_candidate abc lex text
          && not (has_learner_english_evidence abc lex text))
        (has_strong_learner_english_attempt abc lex text)

  -- Confident words are wanted where a phrase is one that the model makes up.
  unfoldable pub is_doubtful : SttAnalysis N → ConfidenceSummary N → Bool
  is_doubtful analysis confidence =
      is_below sc analysis.avg_logprob (minus_hundredths sc 45)
      || has_ratio_above sc confidence (sc.hundredths 15)

  -- The tests in turn, the first four on the text and the time, with their reasons.
  abbrev pub rejection_checks :
      SttAnalysis N → Option (AudioStats N) → ConfidenceSummary N → List (Bool × String)
  rejection_checks analysis audio_stats confidence =
      let text = analysis.raw_text in
      let normalized = normalize_stt_text abc text in
      let word_count = length (split_words normalized) in
      let bounds = bounds_of analysis audio_stats confidence in
      (is_empty normalized, "empty_transcript")
      ∷ (
        is_incomplete_short_english_fragment abc lex text
            && not (
                is_acoustically_plausible_incomplete_fragment abc lex sc cfg analysis audio_stats
                  confidence),
        "incomplete_short_fragment",
      )
      ∷ (has_canned_phrase normalized && is_doubtful analysis confidence, "probable_hallucination")
      ∷ (
        is_below sc (speech_ms sc audio_stats) (min_speech_ms analysis audio_stats confidence),
        "low_speech_duration",
      )
      ∷ (
        ltb word_count (
            if is_plausible_short_or_fragment analysis audio_stats confidence
            then 1
            else cfg.stt_min_words_for_llm),
        "too_few_words",
      )
      ∷ (
        is_above sc analysis.compression_ratio cfg.stt_max_compression_ratio,
        "high_compression_ratio",
      )
      ∷ (is_above sc analysis.no_speech_prob bounds.max_no_speech, "high_no_speech_probability")
      ∷ (is_below sc analysis.avg_logprob bounds.min_avg_logprob, "low_average_logprob")
      ∷ (has_ratio_above sc confidence bounds.max_low_conf_ratio, "too_many_low_confidence_words")
      ∷ (
        not (is_eligible_learner_english analysis audio_stats confidence)
            && not
                (not (contains_vietnamese_text abc lex text) && is_ascii text && leb 2 word_count),
        "no_english_evidence",
      )
      ∷ []

  unfoldable pub stt_rejection_reason : SttAnalysis N → Bool → Option (AudioStats N) → Option String
  stt_rejection_reason analysis is_final audio_stats =
      if not is_final || not cfg.stt_reject_low_confidence
      then none
      else first_reason
          (rejection_checks analysis audio_stats (stt_confidence_summary sc cfg analysis))
