-- ===== src/Tests/Voice.antt =====
-- The voice activity detection and the rules for a transcript at small data.
use luve.Prelude.{
  ℕ, ◌+◌, ◌-◌, ◌*◌, ◌/◌, ◌≡◌, refl, arith, true, false, ◌&&◌, none, some, List, [], ◌∷◌, length,
  ltb, leb,
}
use luve.Extension.Voice.{Voice, VoiceSettings}
use luve.Extension.Voice.Frames.{Signal}
use luve.Extension.Voice.Heard.{IsSound}
use Prim.Native.Char.{code}
use luve.Python.Text.{lower, map_chars, is_space, is_in}
use luve.Python.Lines.{join, split_words, length_text}
use luve.Extension.Transcript.{
  is_incomplete_short_english_fragment, has_strong_learner_english_attempt,
  has_learner_english_evidence, count_words, any_word, token_contains_vietnamese_marker, spaced,
  normalize_stt_text, Alphabet, Lexicon, contains_vietnamese_text,
}
use luve.Extension.Transcript.Mixed.{
  score_of, lstrip_marks, rstrip_marks, is_no_segment, runs_from, mixed_english_runs, best_of,
  english_segment_from_mixed_text, split_mixed_language_transcript,
}
use luve.Extension.Voice.Recent.{frame, flush, Input, audio, run, run-recent}

abbrev pub sig : Signal ℕ
sig = record {
  of_nat = λ n. n;
  hundredths = λ n. n;
  plus = λ a b. a + b;
  minus = λ a b. a - b;
  times = λ a b. a * b;
  over = λ a b. a / b;
  less = λ a b. ltb a b;
  at_least = λ a b. leb b a;
  round2 = λ n. n;
  to_int = λ n. n;
  rms = λ pcm. some (length pcm);
  decibels = λ n. n;
}

abbrev pub voice_settings : VoiceSettings ℕ
voice_settings = record {
  vad_energy_threshold_db = 2;
  vad_adaptive_margin_db = 1;
  vad_hysteresis_db = 0;
  vad_speech_start_frames = 1;
  vad_silence_timeout_seconds = 1;
  vad_pre_roll_bytes = 3;
  stt_final_min_speech_ms = 1;
  stt_partial_min_speech_ms = 1;
  stt_partial_emit_interval_seconds = 1;
  stt_partial_min_audio_bytes = 100;
  stt_partial_window_bytes = 100;
  stt_max_utterance_seconds = 1;
  assistant_barge_in_enabled = true;
}

abbrev pub quiet : Voice ℕ
quiet = record {
  utterance_pcm = [];
  pre_roll_pcm = [];
  is_speaking = false;
  is_assistant_speaking = false;
  silence_duration_seconds = 0;
  last_partial_emit_at = 0;
  pending_speech_frames = 0;
  current_utterance_stats = none;
  vad_noise_floor_db = 0;
  session_id = some "s";
  stt_inference_busy = false;
  inference_queue = some (record { jobs = []; unfinished = 0 });
  has_tts_processor = false;
  llm_tasks = 0;
  sent = [];
}

abbrev heard : List (Input ℕ)
heard = frame (1 ∷ 2 ∷ []) 5 ∷ frame (3 ∷ 4 ∷ []) 6 ∷ flush false 7 ∷ []

quiet-IsSound : IsSound voice_settings [] quiet
quiet-IsSound = record {
  pre_roll = refl;
  heard = (refl, refl);
  room = omega arith;
  pending = omega arith;
}

run-recent_example : IsSound voice_settings (2 ∷ 3 ∷ 4 ∷ []) (run sig voice_settings heard quiet)
unfolding audio
run-recent_example = run-recent sig voice_settings (omega arith) heard [] quiet quiet-IsSound

abbrev pub alphabet : Alphabet
alphabet = record {
  lower = λ s. lower s;
  is_alnum = λ c. leb b'0' (code c) && leb (code c) b'z';
  is_alpha = λ c. leb b'A' (code c) && leb (code c) b'z';
}

abbrev pub lexicon : Lexicon
lexicon = record {
  common_english_words = "i" ∷ "like" ∷ "it" ∷ [];
  controlled_short_english_utterances = "hello" ∷ [];
  low_information_short_tokens = "it" ∷ [];
  vietnamese_phonetic_tokens = "toi" ∷ "it" ∷ [];
  ambiguous_english_homographs = "it" ∷ [];
  incomplete_short_english_fragments = [];
  vietnamese_accented_chars = "đư";
}

split_mixed_language_transcript_runs :
    split_mixed_language_transcript alphabet lexicon "toi I like it very much, đi"
    ≡ ("I like it very much", "mixed_language_filtered" ∷ [])
unfolding split_mixed_language_transcript contains_vietnamese_text normalize_stt_text join
    split_words spaced lower map_chars is_space english_segment_from_mixed_text best_of
    mixed_english_runs runs_from token_contains_vietnamese_marker any_word is_in is_no_segment
    rstrip_marks lstrip_marks count_words has_learner_english_evidence
    has_strong_learner_english_attempt is_incomplete_short_english_fragment score_of length_text
split_mixed_language_transcript_runs = refl
