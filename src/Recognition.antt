-- ===== src/Recognition.antt =====
-- core-api's media/stt_worker.py: the speech recognition model, which falls back from CUDA to the CPU.
-- What loading a model and transcribing with it does is a parameter; the memory that is freed, the logs
-- and the locks have no effect here, and calls run one after another.
pub mod Segments
pub mod Consistent
pub mod Falls
use Prim.Native.String.{String}
use text.Mathlib.Text.{◌==◌ as str_eq}
use luve.Prelude.{
  ℕ, ◌||◌, Bool, true, false, not, Option, none, some, List, [], ◌∷◌, if◌then◌else◌, ltb, ◌==◌,
}
use luve.Python.Text.{lower}
use luve.Python.Lines.{startswith}
use luve.Media.Postprocess.{contains}
use luve.Extension.Queue.{is_empty_list}
use luve.Recognition.Segments.{Measures, SttAnalysis, Transcription, schema_of, empty_analysis}

pub record RuntimeConfig : Type 0 where
  pub device : String
  pub compute_type : String

-- The fields of `GpuHealth` that are read.
pub record GpuHealth : Type 0 where
  pub requires_reset : Bool
  pub ctranslate2_cuda_devices : Option ℕ

-- An exception of a call: its text, and whether it is a `RuntimeError`.
pub record Exception : Type 0 where
  pub is_runtime_error : Bool
  pub message : String

-- What a call raises: an `STTProcessingError` with its text, the `ValueError` of `np.frombuffer` on half a
-- sample, an exception of `_map_segments_to_schema`, or the exception of the call inside.
pub data Error : Type 0 where
  stt_cuda_runtime_error stt_cpu_fallback_failed half_a_sample not_mapped : Error
  raises : Exception → Error

pub data Result (T : Type 0) : Type 0 where
  ok : T → Result T
  fails : Error → Result T

-- What a transcription of the model returns or raises.
pub data Attempt (T : Type 0) : Type 0 where
  done : T → Attempt T
  raised : Exception → Attempt T

-- The machine during a call, over a type of transcriptions.
pub record Machine (T : Type 0) : Type 0 where
  pub gpu : GpuHealth
  -- `WhisperModel(model_size, device=…, compute_type=…)`
  pub load : RuntimeConfig → Option Exception
  -- `_run_transcription`'s call of the model, at the first attempt and at the one after it
  pub transcribe : Bool → RuntimeConfig → Attempt T

pub record WorkerSettings : Type 0 where
  pub model_size : String
  pub preferred_device : String
  pub preferred_compute_type : String
  pub stt_enable_cuda_fallback_to_cpu : Bool

-- `model` is what the model that is there was loaded with.
pub record Worker : Type 0 where
  pub model : Option RuntimeConfig
  pub runtime_config : Option RuntimeConfig

abbrev pub new_worker : Worker
new_worker = record { model = none; runtime_config = none }

abbrev pub cpu : RuntimeConfig
cpu = record { device = "cpu"; compute_type = "int8" }

abbrev pub has_devices : Option ℕ → Bool
has_devices none = false
has_devices (some n) = ltb 0 n

-- The constructor's `compute_type`.
unfoldable pub normalized_compute_type : String → String
normalized_compute_type compute_type =
    if str_eq compute_type "float16" then "int8_float16" else compute_type

-- The constructor; `none` is its `ValueError`. A beam size below 0 is refused as 0 is.
unfoldable pub new_inference : WorkerSettings → ℕ → Option Worker
new_inference cfg beam_size = if beam_size == 0 then none else some new_worker

unfoldable pub resolve_runtime_config : WorkerSettings → GpuHealth → RuntimeConfig
resolve_runtime_config cfg gpu_health =
    if not (str_eq cfg.preferred_device "cuda")
    then cpu
    else if gpu_health.requires_reset
    then cpu
    else if has_devices gpu_health.ctranslate2_cuda_devices
    then record {
      device = "cuda";
      compute_type = normalized_compute_type cfg.preferred_compute_type;
    }
    else cpu

unfoldable pub is_cuda_runtime_error : String → Bool
is_cuda_runtime_error message =
    contains "cuda failed" (lower message) || contains "cuda error" (lower message)

abbrev pub loaded_with : RuntimeConfig → Worker
loaded_with runtime = record { model = some runtime; runtime_config = some runtime }

-- The exception that loading ends with, if it does, and the worker after it.
abbrev pub after_cpu_load : Option Exception → Worker → Option Exception × Worker
after_cpu_load none w = (none, loaded_with cpu)
after_cpu_load (some e) w = (some e, w)

-- An even count of bytes, which are whole samples of 16 bits.
unfoldable pub is_whole : List ℕ → Bool
is_whole [] = true
is_whole (_ ∷ []) = false
is_whole (_ ∷ _ ∷ audio_bytes) = is_whole audio_bytes

module _ {T : Type 0} (m : Machine T) where
  abbrev pub after_load : Option Exception → RuntimeConfig → Worker → Option Exception × Worker
  after_load none runtime w = (none, loaded_with runtime)
  after_load (some e) runtime w =
      if str_eq runtime.device "cuda" then after_cpu_load (m.load cpu) w else (some e, w)

  abbrev pub load_unless : Option RuntimeConfig → RuntimeConfig → Worker → Option Exception × Worker
  load_unless (some _) runtime w = (none, w)
  load_unless none runtime w = after_load (m.load runtime) runtime w

  unfoldable pub load_model : WorkerSettings → Worker → Option Exception × Worker
  load_model cfg w = load_unless w.model (resolve_runtime_config cfg m.gpu) w

  unfoldable pub switch_to_cpu_fallback_model : Worker → Option Exception × Worker
  switch_to_cpu_fallback_model w = after_cpu_load (m.load cpu) new_worker

  abbrev pub not_loaded : Exception
  not_loaded = record { is_runtime_error = true; message = "Whisper model is not loaded" }

  abbrev pub run_with : Bool → Option RuntimeConfig → Attempt T
  run_with again none = raised not_loaded
  run_with again (some runtime) = m.transcribe again runtime

  unfoldable pub run_transcription : Bool → Worker → Attempt T
  run_transcription again w = run_with again w.model

  -- The retry: every exception of it is an `STTProcessingError`.
  abbrev pub retried : Attempt T → Result T
  retried (done t) = ok t
  retried (raised _) = fails stt_cpu_fallback_failed

  abbrev pub after_switch : Option Exception × Worker → Result T × Worker
  after_switch (some _, w) = (fails stt_cpu_fallback_failed, w)
  after_switch (none, w) = (retried (run_transcription true w), w)

  abbrev pub after_exception : WorkerSettings → Exception → Worker → Result T × Worker
  after_exception cfg e w =
      if not e.is_runtime_error
      then (fails (raises e), w)
      else if not (is_cuda_runtime_error e.message)
      then (fails (raises e), w)
      else if not cfg.stt_enable_cuda_fallback_to_cpu
      then (fails stt_cuda_runtime_error, w)
      else after_switch (switch_to_cpu_fallback_model w)

  abbrev pub after_first : WorkerSettings → Attempt T → Worker → Result T × Worker
  after_first cfg (done t) w = (ok t, w)
  after_first cfg (raised e) w = after_exception cfg e w

  -- The audio is made an array when the model is there, before the transcription is tried.
  abbrev pub after_loading : WorkerSettings → List ℕ → Option Exception × Worker → Result T × Worker
  after_loading cfg audio_bytes (some e, w) = (fails (raises e), w)
  after_loading cfg audio_bytes (none, w) =
      if is_whole audio_bytes
      then after_first cfg (run_transcription false w) w
      else (fails half_a_sample, w)

abbrev pub analysed : {A : Type 0} → Option A → Result A
analysed none = fails not_mapped
analysed (some analysis) = ok analysis

abbrev pub mapped : {T A : Type 0} → (T → Option A) → Result T × Worker → Result A × Worker
mapped to_schema (fails e, w) = (fails e, w)
mapped to_schema (ok t, w) = (analysed (to_schema t), w)

module _ {N : Type 0} (ms : Measures N) (m : Machine (Transcription N)) where
  unfoldable pub transcribe_audio_bytes :
      WorkerSettings → List ℕ → Worker → Result (SttAnalysis N) × Worker
  transcribe_audio_bytes cfg audio_bytes w =
      if is_empty_list audio_bytes
      then (ok empty_analysis, w)
      else mapped (schema_of ms) (after_loading m cfg audio_bytes (load_model m cfg w))

abbrev pub unloaded_from : Option RuntimeConfig → Worker → Worker
unloaded_from none w = w
unloaded_from (some _) w = new_worker

unfoldable pub unload_model : Worker → Worker
unload_model w = unloaded_from w.model w

abbrev off_cuda : WorkerSettings → Option RuntimeConfig → Bool
off_cuda cfg none = not (str_eq cfg.preferred_device "cuda")
off_cuda cfg (some runtime) = not (str_eq runtime.device "cuda")

-- The least and the most memory, in megabytes.
unfoldable pub estimate_vram_usage_mb : WorkerSettings → Worker → ℕ × ℕ
estimate_vram_usage_mb cfg w =
    let normalized = lower cfg.model_size in
    if off_cuda cfg w.runtime_config
    then (0, 0)
    else if startswith normalized "medium"
    then (2200, 3600)
    else if startswith normalized "small"
    then (900, 1500)
    else if startswith normalized "base"
    then (500, 900)
    else (1200, 2800)
