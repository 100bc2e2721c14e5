-- ===== src/Extension/Confidence/Final.antt =====
-- luve_extension.py: what _inference_loop makes of a transcription that has returned, up to the log.
pub mod Judged
pub mod Reasons
pub mod Counted
pub mod Graded
use Prim.Native.String.{String}
use text.Mathlib.Text.{◌==◌ as str_eq}
use luve.Prelude.{
  ℕ, Bool, true, false, not, ◌&&◌, ◌||◌, Option, none, some, List, [], ◌∷◌, length, if◌then◌else◌,
}
use luve.Python.Text.{is_empty, is_in, strip}
use luve.Python.Json.{Value, string, obj, Fields, end, field}
use luve.Media.Postprocess.{sanitize_transcript}
use luve.Recognition.Segments.{SttAnalysis}
use luve.Extension.Queue.{AudioStats, InferenceJob}
use luve.Extension.Transcript.{Alphabet, Lexicon}
use luve.Extension.Transcript.Mixed.{split_mixed_language_transcript}
use luve.Extension.Confidence.{Scale, SttSettings, stt_confidence_summary}
use luve.Extension.Confidence.Second.{
  Verification, skipped, unavailable, suppressed, verified, verify_non_english_if_suspicious,
}
use luve.Extension.Confidence.Repeats.{is_probable_stt_hallucination}
use luve.Extension.Confidence.Rejects.{stt_rejection_reason}
use luve.Extension.Confidence.Quality.{
  stt_quality_assessment, final_stt_acceptance_rejection_reason,
}
use luve.Extension.Confidence.Payload.{Split}

-- `stt_result_suppressed` with its reason, `stt_result` alone (of a partial, or of a final with no
-- text), or `stt_result` with a turn of the log and its metadata.
pub data Judgement (N : Type 0) : Type 0 where
  withheld : String → Judgement N
  told : SttAnalysis N → Judgement N
  logged : SttAnalysis N → Fields N → Judgement N

-- What the loop reads besides the first transcription: the second, if it is made, the time that the
-- first took, and the statistics as a dictionary.
pub record Heard (N : Type 0) : Type 0 where
  pub job : InferenceJob N
  pub second : Option (SttAnalysis N)
  pub inference_ms : N
  pub audio : Value N

-- `if reason is not None:` with its `continue`
abbrev pub unless_withheld : {N : Type 0} → Option String → Judgement N → Judgement N
unless_withheld none judgement = judgement
unless_withheld (some reason) judgement = withheld reason

module _ {N : Type 0} (abc : Alphabet) (lex : Lexicon) (sc : Scale N) (cfg : SttSettings N) where
  unfoldable pub accept : Heard N → Verification N → Split → SttAnalysis N → Judgement N
  accept h verification s analysis =
      let turn_metadata =
        stt_quality_assessment abc lex sc cfg analysis h.job.audio_stats h.audio h.inference_ms
          verification s in
      if not h.job.is_final || is_empty (strip analysis.raw_text)
      then told analysis
      else unless_withheld (final_stt_acceptance_rejection_reason analysis turn_metadata)
          (logged analysis turn_metadata)

  unfoldable pub after_verification : Heard N → Split → SttAnalysis N → Verification N → Judgement N
  after_verification h s analysis (suppressed _) = withheld "non_english_verification_failed"
  after_verification h s analysis verification =
      unless_withheld
        (stt_rejection_reason abc lex sc cfg analysis h.job.is_final h.job.audio_stats)
        (accept h verification s analysis)

  abbrev pub verification_of : Heard N → Split → SttAnalysis N → Verification N
  verification_of h s analysis =
      if h.job.is_final && not (is_empty (strip analysis.raw_text)) && not s.mixed_language_filtered
      then verify_non_english_if_suspicious abc lex sc cfg analysis h.job.audio_stats
          (stt_confidence_summary sc cfg analysis) h.second
      else skipped

  unfoldable pub after_split : Heard N → Split → SttAnalysis N → Judgement N
  after_split h s analysis =
      if is_probable_stt_hallucination abc sc analysis.raw_text h.job.is_final h.job.audio_stats
        (length h.job.pcm_bytes)
      then withheld "probable_hallucination"
      else after_verification h s analysis (verification_of h s analysis)

  -- The text that is left of a mixed one takes its place.
  abbrev pub prepared : Heard N → SttAnalysis N → String × List String → Judgement N
  prepared h analysis (text, reasons) =
      let is_new = not (is_empty text) && not (str_eq text analysis.raw_text) in
      if is_in "mixed_non_english" reasons
      then withheld "mixed_non_english"
      else after_split h
          (record {
            original_text = analysis.raw_text;
            mixed_language_filtered = is_new;
            mixed_language_reasons = reasons;
          })
          (if is_new then record analysis { raw_text = text } else analysis)

  abbrev pub unsplit : SttAnalysis N → Split
  unsplit analysis = record {
    original_text = analysis.raw_text;
    mixed_language_filtered = false;
    mixed_language_reasons = [];
  }

  unfoldable pub judge_sanitized : Heard N → SttAnalysis N → Judgement N
  judge_sanitized h analysis =
      if h.job.is_final && not (is_empty (strip analysis.raw_text))
      then prepared h analysis (split_mixed_language_transcript abc lex analysis.raw_text)
      else after_split h (unsplit analysis) analysis

  -- From the return of `transcribe_audio_bytes` on.
  unfoldable pub judge : Heard N → SttAnalysis N → Judgement N
  judge h analysis =
      judge_sanitized h (record analysis { raw_text = sanitize_transcript analysis.raw_text })

-- The event that the loop appends to the log.
unfoldable pub user_turn_event : {N : Type 0} → String → SttAnalysis N → Fields N → Value N
user_turn_event timestamp analysis turn_metadata = obj (
    field "type" (string "USER_TURN") (
      field "timestamp" (string timestamp)
        (field "payload" (obj (field "text" (string analysis.raw_text) turn_metadata)) end)))
