-- ===== src/Extension/Confidence/Short.antt =====
-- luve_extension.py: when the sound of a short transcript makes it plausible.
use luve.Prelude.{Bool, false, not, ◌&&◌, ◌||◌, Option, length, if◌then◌else◌, ltb, ◌==◌}
use luve.Python.Lines.{split_words}
use luve.Recognition.Segments.{SttAnalysis}
use luve.Extension.Queue.{AudioStats}
use luve.Extension.Transcript.{
  Alphabet, Lexicon, is_ascii, normalize_stt_text, contains_vietnamese_text,
  is_plausible_short_english_text, is_controlled_short_english_candidate,
  is_incomplete_short_english_fragment,
}
use luve.Extension.Confidence.{
  Scale, SttSettings, ConfidenceSummary, has_canned_phrase, is_below, is_above, minus_hundredths,
  speech_ms, has_ratio_above,
}

module _ {N : Type 0} (abc : Alphabet) (lex : Lexicon) (sc : Scale N) (cfg : SttSettings N) where
  unfoldable pub is_plausible_short_english_utterance :
      SttAnalysis N → Option (AudioStats N) → ConfidenceSummary N → Bool
  is_plausible_short_english_utterance analysis audio_stats confidence =
      let boosted = is_controlled_short_english_candidate abc lex analysis.raw_text in
      if not (is_plausible_short_english_text abc lex analysis.raw_text)
      then false
      else if is_below sc (speech_ms sc audio_stats) (sc.of_nat 300)
      then false
      else if is_above sc analysis.no_speech_prob (sc.hundredths (if boosted then 35 else 30))
      then false
      else if is_below sc analysis.avg_logprob (minus_hundredths sc (if boosted then 78 else 70))
      then false
      else if has_ratio_above sc confidence (sc.hundredths (if boosted then 45 else 35))
      then false
      else not (is_above sc analysis.compression_ratio cfg.stt_max_compression_ratio)

  unfoldable pub is_acoustically_plausible_incomplete_fragment :
      SttAnalysis N → Option (AudioStats N) → ConfidenceSummary N → Bool
  is_acoustically_plausible_incomplete_fragment analysis audio_stats confidence =
      let text = analysis.raw_text in
      if not (is_incomplete_short_english_fragment abc lex text)
      then false
      else if contains_vietnamese_text abc lex text || not (is_ascii text)
      then false
      else if has_canned_phrase (normalize_stt_text abc text)
      then false
      else if is_below sc (speech_ms sc audio_stats) (sc.of_nat 300)
      then false
      else if is_above sc analysis.no_speech_prob (sc.hundredths 35)
      then false
      else if is_below sc analysis.avg_logprob (minus_hundredths sc 80)
      then false
      else not (has_ratio_above sc confidence (sc.hundredths 45))

  unfoldable pub is_possible_stt_autocorrection :
      SttAnalysis N → ConfidenceSummary N → Bool → Bool → Bool
  is_possible_stt_autocorrection analysis confidence has_phrase_evidence is_strong_short =
      if is_strong_short || not has_phrase_evidence
      then false
      else if not (is_ascii analysis.raw_text)
      then false
      else if ltb (length (split_words (normalize_stt_text abc analysis.raw_text))) 3
      then false
      else (confidence.word_count == 0
          || sc.at_most confidence.low_confidence_word_ratio (sc.hundredths 25))
        && is_below sc analysis.avg_logprob (minus_hundredths sc 55)
