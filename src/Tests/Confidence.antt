-- ===== src/Tests/Confidence.antt =====
-- The rules on transcripts at small data; a number n / 100 is 1000 + n.
use Prim.Native.String.{String}
use luve.Prelude.{
  if◌then◌else◌, ℕ, ◌+◌, ◌-◌, ◌*◌, ◌/◌, ◌≡◌, ◌↔◌, refl, arith, true, false, Option, none, some,
  List, [], ◌∷◌, ltb, leb,
}
use luve.Python.Text.{is_space, is_in, lower, map_chars, strip, lstrip, rstrip}
use luve.Python.Lines.{find, join, split_words, length_text}
use luve.Media.Postprocess.{
  sanitize_transcript, is_hallucinated, filter_repetitions, split_sentences,
}
use luve.Extension.Transcript.{
  normalize_stt_text, spaced, is_incomplete_short_english_fragment, is_plausible_short_english_text,
  contains_vietnamese_text, any_word, count_words, has_learner_english_evidence,
  has_strong_learner_english_attempt, is_controlled_short_english_candidate,
  token_contains_vietnamese_marker,
}
use luve.Extension.Transcript.Mixed.{
  split_mixed_language_transcript, english_segment_from_mixed_text, best_of, mixed_english_runs,
  runs_from, is_no_segment, rstrip_marks, lstrip_marks, score_of,
}
use luve.Extension.Confidence.Short.{
  is_plausible_short_english_utterance, is_acoustically_plausible_incomplete_fragment,
  is_possible_stt_autocorrection,
}
use luve.Python.Json.{null, string, Fields, get}
use luve.Recognition.Segments.{SttAnalysis}
use luve.Extension.Queue.{AudioStats}
use luve.Extension.Confidence.{
  Scale, SttSettings, has_any_text, has_text, count_below, stt_confidence_summary,
}
use luve.Extension.Confidence.Repeats.{
  has_repeated_phrase, any_below, eq_words, is_probable_stt_hallucination, is_forced_phrase,
}
use luve.Extension.Confidence.Repeats.Phrases.{HasRepeat, has_repeated_phrase_iff}
use luve.Extension.Confidence.Rejects.{
  stt_rejection_reason, first_reason, min_speech_ms, is_plausible_short_or_fragment, bounds_for,
  is_doubtful, is_eligible_learner_english, is_exceptionally_high_confidence,
  is_strong_acoustic_ascii,
}
use luve.Extension.Confidence.Rejects.Order.{IsOrdered}
use luve.Extension.Confidence.Rejects.Bounded.{KeepsBounds, accepted-KeepsBounds}
use luve.Extension.Confidence.Payload.{Split, add_borderline, add_fragment, items_of}
use luve.Extension.Confidence.Quality.{
  stt_quality_assessment, reason_items, assessed_reasons, stt_uncertainty_reasons, acoustic_reasons,
  final_stt_acceptance_rejection_reason,
}
use luve.Extension.Confidence.Quality.Doubts.{has_nothing, stt_quality-doubts}
use luve.Extension.Confidence.Second.{
  skipped, verify_non_english_if_suspicious, should_run_non_english_verification,
  is_clearly_english, suspicious_signals,
}
use luve.Extension.Confidence.Final.{
  Heard, Judgement, logged, judge, judge_sanitized, after_split, after_verification, accept,
}
use luve.Extension.Confidence.Final.Judged.{IsJudged, judge-IsJudged}
use luve.Extension.Confidence.Final.Graded.{IsCounted, judge-IsCounted}
use luve.Tests.Voice.{alphabet, lexicon}
use luve.Tests.Data.{rt}

abbrev scale : Scale ℕ
scale = record {
  less = λ a b. ltb a b;
  at_most = λ a b. leb a b;
  of_nat = λ n. 1000 + 100 * n;
  hundredths = λ n. 1000 + n;
  negative = λ n. 2000 - n;
  times = λ a b. 1000 + (a - 1000) * (b - 1000) / 100;
  over = λ a b. 1000 + (a - 1000) * 100 / (b - 1000);
  to_int = λ n. (n - 1000) / 100;
  round2 = λ n. n;
  round4 = λ n. n;
}

scale_irrefl : (a : ℕ) → ltb a a ≡ false
scale_irrefl a = ground arith

scale_asym : (a b : ℕ) → ltb a b ≡ true → ltb b a ≡ false
scale_asym a b h = ground arith

scale_trans : (a b c : ℕ) → ltb a b ≡ false → ltb b c ≡ false → ltb a c ≡ false
scale_trans a b c h h' = ground arith

scale-IsOrdered : IsOrdered scale
scale-IsOrdered = record { irrefl = scale_irrefl; asym = scale_asym; not_less_trans = scale_trans }

abbrev stt_settings : SttSettings ℕ
stt_settings = record {
  stt_reject_low_confidence = true;
  stt_min_word_confidence = 1055;
  stt_max_compression_ratio = 1240;
  stt_min_speech_ms_for_final = 101000;
  stt_min_words_for_llm = 2;
  stt_max_no_speech_prob = 1060;
  stt_min_avg_logprob = 900;
  stt_max_low_confidence_word_ratio = 1050;
  final_min_speech_ms = 19000;
  verifies = true;
}

abbrev analysis : String → SttAnalysis ℕ
analysis text = record {
  raw_text = text;
  all_words = [];
  avg_logprob = some 970;
  no_speech_prob = some 1010;
  compression_ratio = some 1100;
  segment_count = 1;
  detected_language = some "en";
  detected_language_probability = some 1090;
}

abbrev stats : AudioStats ℕ
stats = record {
  audio_ms = 201000;
  speech_ms = 151000;
  trigger = "silence";
  frames = 100;
  speech_frames = 80;
  silence_frames = 20;
  assistant_speech_frames = 0;
  dbfs_min = none;
  dbfs_avg = none;
  dbfs_max = none;
  noise_floor_db = 0;
  effective_threshold_db = 0;
}

abbrev heard : Heard ℕ
heard = record {
  job = record {
    is_final = true;
    trigger = "silence";
    queued_at = 0;
    pcm_bytes = 0 ∷ 0 ∷ [];
    session_id = none;
    audio_stats = some stats;
    suppress_response = false;
  };
  second = none;
  inference_ms = 1012;
  audio = null;
}

abbrev repeated : List String
repeated = "so" ∷ "i" ∷ "like" ∷ "it" ∷ "i" ∷ "like" ∷ "it" ∷ []

has_repeated_phrase_iff_example : (has_repeated_phrase repeated ≡ true) ↔ HasRepeat repeated
has_repeated_phrase_iff_example = has_repeated_phrase_iff repeated

has_repeated_phrase_runs : has_repeated_phrase repeated ≡ true
unfolding has_repeated_phrase any_below eq_words
has_repeated_phrase_runs = refl

liked_accepted :
    stt_rejection_reason alphabet lexicon scale stt_settings
      (analysis "i like it")
      true
      (some stats)
    ≡ none
unfolding stt_rejection_reason first_reason normalize_stt_text join split_words spaced lower
    is_space is_incomplete_short_english_fragment is_in has_any_text has_text find min_speech_ms
    is_plausible_short_or_fragment is_plausible_short_english_utterance
    is_plausible_short_english_text contains_vietnamese_text bounds_for is_doubtful
    is_eligible_learner_english is_exceptionally_high_confidence is_strong_acoustic_ascii
    is_acoustically_plausible_incomplete_fragment count_below stt_confidence_summary any_word
    count_words has_learner_english_evidence has_strong_learner_english_attempt
    is_controlled_short_english_candidate length_text map_chars
liked_accepted = refl

accepted-KeepsBounds_example :
    KeepsBounds alphabet lexicon scale stt_settings scale-IsOrdered
      (analysis "i like it")
      (some stats)
accepted-KeepsBounds_example =
    accepted-KeepsBounds alphabet lexicon scale stt_settings scale-IsOrdered (analysis "i like it")
      (some stats) refl liked_accepted

judge-IsJudged_example :
    IsJudged alphabet lexicon scale stt_settings heard
      (judge alphabet lexicon scale stt_settings heard (analysis "toi i like it"))
judge-IsJudged_example =
    judge-IsJudged alphabet lexicon scale stt_settings heard (analysis "toi i like it")

judge-IsCounted_example :
    IsCounted alphabet lexicon scale stt_settings rt "now"
      (judge alphabet lexicon scale stt_settings heard (analysis "toi i like it"))
judge-IsCounted_example =
    judge-IsCounted alphabet lexicon scale stt_settings rt "now" heard (analysis "toi i like it")

abbrev split : Split
split = record {
  original_text = "toi i like it";
  mixed_language_filtered = true;
  mixed_language_reasons = "mixed_language_filtered" ∷ [];
}

abbrev liked_metadata : Fields ℕ
liked_metadata =
    stt_quality_assessment alphabet lexicon scale stt_settings (analysis "i like it") (some stats)
      null 1012 skipped split

stt_quality-doubts_example :
    get "stt_quality" liked_metadata
    ≡ string (
        if has_nothing (reason_items (get "uncertainty_reasons" liked_metadata))
        then "confident"
        else "uncertain")
stt_quality-doubts_example =
    stt_quality-doubts alphabet lexicon scale stt_settings (analysis "i like it") (some stats)
      skipped null 1012 split

-- The text of a turn that is logged.
abbrev logged_text : Judgement ℕ → Option String
logged_text (logged a _) = some a.raw_text
logged_text _ = none

judge_runs :
    logged_text (judge alphabet lexicon scale stt_settings heard (analysis "toi i like it"))
    ≡ some "i like it"
unfolding stt_rejection_reason first_reason normalize_stt_text join split_words spaced lower
    is_space is_incomplete_short_english_fragment is_in has_any_text has_text find min_speech_ms
    is_plausible_short_or_fragment is_plausible_short_english_utterance
    is_plausible_short_english_text contains_vietnamese_text bounds_for is_doubtful
    is_eligible_learner_english is_exceptionally_high_confidence is_strong_acoustic_ascii
    is_acoustically_plausible_incomplete_fragment count_below stt_confidence_summary any_word
    count_words has_learner_english_evidence has_strong_learner_english_attempt
    is_controlled_short_english_candidate length_text map_chars judge judge_sanitized after_split
    after_verification accept is_probable_stt_hallucination is_forced_phrase has_repeated_phrase
    any_below verify_non_english_if_suspicious should_run_non_english_verification
    is_clearly_english suspicious_signals is_possible_stt_autocorrection
    split_mixed_language_transcript english_segment_from_mixed_text best_of mixed_english_runs
    runs_from token_contains_vietnamese_marker is_no_segment rstrip_marks lstrip_marks score_of
    sanitize_transcript strip lstrip rstrip stt_quality_assessment assessed_reasons
    stt_uncertainty_reasons acoustic_reasons add_borderline add_fragment
    final_stt_acceptance_rejection_reason get items_of is_hallucinated filter_repetitions
    split_sentences
judge_runs = refl
