-- ===== src/Tests/Recognition.antt =====
-- The speech recognition at small data.
use text.Mathlib.Text.{◌==◌ as str_eq}
use luve.Prelude.{
  ℕ, ◌*◌, refl, Bool, some, none, true, false, [], ◌∷◌, leb, ◌==◌, if◌then◌else◌, min,
}
use luve.Python.Text.{lower, strip, is_space}
use luve.Python.Lines.{find, join}
use luve.Recognition.{
  Attempt, done, raised, Machine, WorkerSettings, new_worker, is_cuda_runtime_error,
  transcribe_audio_bytes, is_whole,
}
use luve.Recognition.Falls.{Answers, AnyAnalysis, Maps, ReturnsOrCuda, transcribe_falls_back}
use luve.Recognition.Segments.{
  Measures, Segment, Transcription, map_segments_to_schema, word_points, all_words, word_point,
  raw_text_parts,
}

abbrev worker_settings : WorkerSettings
worker_settings = record {
  model_size = "small.en";
  preferred_device = "cuda";
  preferred_compute_type = "float16";
  stt_enable_cuda_fallback_to_cpu = true;
}

abbrev measures : Measures ℕ
measures = record {
  zero = 0;
  is_zero = λ n. n == 0;
  at_most = λ a b. leb a b;
  one = 1;
  clip = λ n. min n 1;
  mean = λ _. 0;
  largest = λ _. 0;
  milliseconds = λ n. some (n * 1000);
}

abbrev segment : Segment ℕ
segment = record {
  text = some " I like dogs";
  avg_logprob = some 1;
  no_speech_prob = none;
  compression_ratio = some 1;
  words =
      record { word = some " dogs"; probability = some (some 7); start = some 2; end = none } ∷ [];
}

abbrev heard : Transcription ℕ
heard = (segment ∷ [], record { language = some "en"; language_probability = none })

heard-Maps : Maps measures heard
unfolding map_segments_to_schema word_points all_words word_point raw_text_parts strip is_space join
heard-Maps = (_, refl)

abbrev attempt : Bool → Attempt (Transcription ℕ)
attempt on_cuda =
    if on_cuda
    then raised (record { is_runtime_error = true; message = "CUDA failed with error" })
    else done heard

-- CUDA loads, and fails at each transcription.
abbrev machine : Machine (Transcription ℕ)
machine = record {
  gpu = record { requires_reset = false; ctranslate2_cuda_devices = some 1 };
  load = λ _. none;
  transcribe = λ _ runtime. attempt (str_eq runtime.device "cuda");
}

machine_known : (on_cuda : Bool) → ReturnsOrCuda (Maps measures) (attempt on_cuda)
unfolding is_cuda_runtime_error lower find
machine_known true = (refl, refl)
machine_known false = heard-Maps

transcribe_falls_back_example :
    Answers AnyAnalysis
      (transcribe_audio_bytes measures machine worker_settings (1 ∷ 2 ∷ []) new_worker)
unfolding is_whole
transcribe_falls_back_example =
    transcribe_falls_back measures machine worker_settings refl (λ _. heard-Maps)
      (λ runtime e. machine_known (str_eq runtime.device "cuda")) refl (1 ∷ 2 ∷ []) new_worker refl
      tt
