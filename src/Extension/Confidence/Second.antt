-- ===== src/Extension/Confidence/Second.antt =====
-- luve_extension.py: the second transcription, which tells whether the speech was English.
use Prim.Native.String.{String}
use text.Mathlib.Text.{◌==◌ as str_eq}
use luve.Prelude.{
  ℕ, ◌+◌, Bool, true, false, not, ◌&&◌, ◌||◌, Option, none, some, length, if◌then◌else◌, leb, ltb,
  ◌==◌,
}
use luve.Python.Text.{is_empty, strip}
use luve.Python.Lines.{split_words}
use luve.Recognition.Segments.{SttAnalysis}
use luve.Extension.Queue.{AudioStats}
use luve.Extension.Transcript.{
  Alphabet, Lexicon, is_ascii, normalize_stt_text, contains_vietnamese_text,
  has_learner_english_evidence, has_strong_learner_english_attempt,
}
use luve.Extension.Confidence.{
  Scale, SttSettings, ConfidenceSummary, is_below, is_above, at_least_if, at_most_if,
  minus_hundredths, speech_ms, has_ratio_above,
}
use luve.Extension.Confidence.Short.{
  is_plausible_short_english_utterance, is_possible_stt_autocorrection,
}

-- How the verification ends; the second transcription stands where there is one.
pub data Verification (N : Type 0) : Type 0 where
  skipped unavailable : Verification N
  suppressed verified : SttAnalysis N → Verification N

-- `if condition: suspicious_signals += 1`
abbrev signal : Bool → ℕ
signal b = if b then 1 else 0

module _ {N : Type 0} (abc : Alphabet) (lex : Lexicon) (sc : Scale N) (cfg : SttSettings N) where
  -- The two early exits for a transcript that is beyond doubt.
  unfoldable pub is_clearly_english :
      SttAnalysis N → Option (AudioStats N) → ConfidenceSummary N → Bool → Bool
  is_clearly_english analysis audio_stats confidence possible_stt_autocorrection =
      let words = length (split_words (normalize_stt_text abc analysis.raw_text)) in
      let speech = speech_ms sc audio_stats in
      if leb words 2
        && is_plausible_short_english_utterance abc lex sc cfg analysis audio_stats confidence
        && at_least_if sc speech (sc.of_nat 450)
        && at_most_if sc analysis.no_speech_prob (sc.hundredths 18)
        && at_least_if sc analysis.avg_logprob (minus_hundredths sc 45)
        && sc.at_most confidence.low_confidence_word_ratio (sc.hundredths 20)
      then true
      else ltb 2 words
        && has_strong_learner_english_attempt abc lex analysis.raw_text
        && has_learner_english_evidence abc lex analysis.raw_text
        && not possible_stt_autocorrection
        && at_least_if sc speech (sc.of_nat 1000)
        && at_most_if sc analysis.no_speech_prob (sc.hundredths 22)
        && at_least_if sc analysis.avg_logprob (minus_hundredths sc 60)
        && sc.at_most confidence.low_confidence_word_ratio (sc.hundredths 40)

  unfoldable pub suspicious_signals :
      SttAnalysis N → Option (AudioStats N) → ConfidenceSummary N → Bool → ℕ
  suspicious_signals analysis audio_stats confidence possible_stt_autocorrection =
      let text = analysis.raw_text in
      let plausible =
        is_plausible_short_english_utterance abc lex sc cfg analysis audio_stats confidence in
      signal (
        not (has_learner_english_evidence abc lex text)
        && not (has_strong_learner_english_attempt abc lex text))
      + signal (is_below sc analysis.avg_logprob (minus_hundredths sc 55))
      + signal (is_above sc analysis.no_speech_prob (sc.hundredths 20))
      + signal (is_above sc analysis.compression_ratio (sc.hundredths 160))
      + signal (has_ratio_above sc confidence (sc.hundredths 25))
      + signal possible_stt_autocorrection
      + signal (leb (length (split_words (normalize_stt_text abc text))) 2 && not plausible)
      + signal (is_below sc (speech_ms sc audio_stats) (sc.of_nat 700))

  unfoldable pub should_run_non_english_verification :
      SttAnalysis N → Option (AudioStats N) → ConfidenceSummary N → Bool
  should_run_non_english_verification analysis audio_stats confidence =
      let text = analysis.raw_text in
      let normalized = normalize_stt_text abc text in
      let words = length (split_words normalized) in
      let possible =
        is_possible_stt_autocorrection abc lex sc cfg analysis confidence
          (has_learner_english_evidence abc lex text)
          (is_plausible_short_english_utterance abc lex sc cfg analysis audio_stats confidence) in
      if is_empty normalized || contains_vietnamese_text abc lex text
      then false
      else if not (is_ascii text)
      then false
      else if words == 0 || ltb 6 words
      then false
      else if is_clearly_english analysis audio_stats confidence possible
      then false
      else leb (if leb words 2 then 1 else 2)
          (suspicious_signals analysis audio_stats confidence possible)

  abbrev language_of : Option String → String
  language_of none = ""
  language_of (some language) = abc.lower (strip language)

  abbrev is_sure : Option N → N → Bool
  is_sure none bound = false
  is_sure (some probability) bound = sc.at_most bound probability

  unfoldable pub verification_indicates_non_english : SttAnalysis N → Bool
  verification_indicates_non_english verification =
      let language = language_of verification.detected_language in
      if is_empty language || str_eq language "en"
      then false
      else is_sure verification.detected_language_probability (sc.hundredths 60)

  abbrev judge_second : Option (SttAnalysis N) → Verification N
  judge_second none = unavailable
  judge_second (some verification) =
      if verification_indicates_non_english verification
      then suppressed verification
      else verified verification

  -- `second` is what the second transcription returns in time; `none` is an exception.
  unfoldable pub verify_non_english_if_suspicious :
      SttAnalysis N
      → Option (AudioStats N)
      → ConfidenceSummary N
      → Option (SttAnalysis N)
      → Verification N
  verify_non_english_if_suspicious analysis audio_stats confidence second =
      if not cfg.verifies
      then skipped
      else if not (should_run_non_english_verification analysis audio_stats confidence)
      then skipped
      else judge_second second
