-- ===== src/Recognition/Consistent.antt =====
-- media/stt_worker.py: the model that is there is the one the runtime's configuration names.
use text.Mathlib.Text.{◌==◌ as str_eq}
use luve.Prelude.{
  ℕ, ◌≡◌, refl, false, not, Option, none, some, List, [], ◌∷◌, if◌then◌else◌, if_both,
}
use luve.Extension.Queue.{is_empty_list}
use luve.Recognition.{
  schema_of, empty_analysis, SttAnalysis, half_a_sample, Transcription, mapped, Measures, is_whole,
  Attempt, done, raised, Exception, Machine, Result, ok, fails, raises, RuntimeConfig, Worker,
  WorkerSettings, cpu, new_worker, after_cpu_load, after_load, load_unless, load_model,
  resolve_runtime_config, switch_to_cpu_fallback_model, run_transcription, after_switch,
  after_exception, after_first, after_loading, transcribe_audio_bytes, unload_model, unloaded_from,
  is_cuda_runtime_error, stt_cuda_runtime_error,
}

-- A model is there exactly if a configuration is, and it was loaded with that configuration: for the
-- CPU, or as the settings and the GPU said when it was loaded.
abbrev pub IsConsistent : Worker → Type 0
IsConsistent w = w.model ≡ w.runtime_config

-- A call of the worker, with the machine as it is then.
pub data Call (T : Type 0) : Type 0 where
  transcribes : Machine T → List ℕ → Call T
  unloads : Call T

module _ {N : Type 0} (ms : Measures N) (cfg : WorkerSettings) where
  abbrev pub after_call : Call (Transcription N) → Worker → Worker
  after_call (transcribes m audio_bytes) w = (transcribe_audio_bytes ms m cfg audio_bytes w).1
  after_call unloads w = unload_model w

  abbrev pub after_calls : List (Call (Transcription N)) → Worker → Worker
  after_calls [] w = w
  after_calls (call ∷ calls) w = after_calls calls (after_call call w)

after_cpu_load-IsConsistent :
    (o : Option Exception) (w : Worker) → IsConsistent w → IsConsistent (after_cpu_load o w).1
after_cpu_load-IsConsistent none w h = refl
after_cpu_load-IsConsistent (some e) w h = h

module _ {T : Type 0} (m : Machine T) where
  after_load-IsConsistent :
      (o : Option Exception) (runtime : RuntimeConfig) (w : Worker)
      → IsConsistent w
      → IsConsistent (after_load m o runtime w).1
  after_load-IsConsistent none runtime w h = refl
  after_load-IsConsistent (some e) runtime w h =
      if_both (λ (r : Option Exception × Worker). IsConsistent r.1) (str_eq runtime.device "cuda")
        {x = after_cpu_load (m.load cpu) w} {y = (some e, w)}
        (after_cpu_load-IsConsistent (m.load cpu) w h) h

  load_unless-IsConsistent :
      (o : Option RuntimeConfig) (runtime : RuntimeConfig) (w : Worker)
      → IsConsistent w
      → IsConsistent (load_unless m o runtime w).1
  load_unless-IsConsistent none runtime w h = after_load-IsConsistent (m.load runtime) runtime w h
  load_unless-IsConsistent (some _) runtime w h = h

  load_model-IsConsistent :
      (cfg : WorkerSettings) (w : Worker) → IsConsistent w → IsConsistent (load_model m cfg w).1
  unfolding load_model
  load_model-IsConsistent cfg w h =
      load_unless-IsConsistent w.model (resolve_runtime_config cfg m.gpu) w h

  after_switch-IsConsistent :
      (r : Option Exception × Worker) → IsConsistent r.1 → IsConsistent (after_switch m r).1
  after_switch-IsConsistent (some e, w) h = h
  after_switch-IsConsistent (none, w) h = h

  after_exception-IsConsistent :
      (cfg : WorkerSettings) (e : Exception) (w : Worker)
      → IsConsistent w
      → IsConsistent (after_exception m cfg e w).1
  unfolding switch_to_cpu_fallback_model
  after_exception-IsConsistent cfg e w h =
      let P = λ (r : Result T × Worker). IsConsistent r.1 in
      let switched = after_switch m (switch_to_cpu_fallback_model m w) in
      let refused : Result T × Worker = (fails stt_cuda_runtime_error, w) in
      let told : Result T × Worker = (fails (raises e), w) in
      if_both P (not e.is_runtime_error) {x = told}
        {y = if not (is_cuda_runtime_error e.message)
          then told
          else if not cfg.stt_enable_cuda_fallback_to_cpu
          then refused
          else switched}
        h
        (if_both P (not (is_cuda_runtime_error e.message)) {x = told}
          {y = if not cfg.stt_enable_cuda_fallback_to_cpu then refused else switched} h
          (if_both P (not cfg.stt_enable_cuda_fallback_to_cpu) {x = refused} {y = switched} h (
            after_switch-IsConsistent (switch_to_cpu_fallback_model m w)
              (after_cpu_load-IsConsistent (m.load cpu) new_worker refl))))

  after_first-IsConsistent :
      (cfg : WorkerSettings) (a : Attempt T) (w : Worker)
      → IsConsistent w
      → IsConsistent (after_first m cfg a w).1
  after_first-IsConsistent cfg (done t) w h = h
  after_first-IsConsistent cfg (raised e) w h = after_exception-IsConsistent cfg e w h

  after_loading-IsConsistent :
      (cfg : WorkerSettings) (audio_bytes : List ℕ) (r : Option Exception × Worker)
      → IsConsistent r.1
      → IsConsistent (after_loading m cfg audio_bytes r).1
  after_loading-IsConsistent cfg audio_bytes (some e, w) h = h
  after_loading-IsConsistent cfg audio_bytes (none, w) h =
      if_both (λ (r : Result T × Worker). IsConsistent r.1) (is_whole audio_bytes)
        {x = after_first m cfg (run_transcription m false w) w} {y = (fails half_a_sample, w)}
        (after_first-IsConsistent cfg (run_transcription m false w) w h) h

mapped-IsConsistent :
    {T A : Type 0}
    → (to_schema : T → Option A) (r : Result T × Worker) → IsConsistent r.1
    → IsConsistent (mapped to_schema r).1
mapped-IsConsistent to_schema (fails e, w) h = h
mapped-IsConsistent to_schema (ok t, w) h = h

module _ {N : Type 0} (ms : Measures N) (m : Machine (Transcription N)) where
  pub transcribe-IsConsistent :
      (cfg : WorkerSettings) (audio_bytes : List ℕ) (w : Worker)
      → IsConsistent w
      → IsConsistent (transcribe_audio_bytes ms m cfg audio_bytes w).1
  unfolding transcribe_audio_bytes
  transcribe-IsConsistent cfg audio_bytes w h =
      let r = after_loading m cfg audio_bytes (load_model m cfg w) in
      if_both (λ (r : Result (SttAnalysis N) × Worker). IsConsistent r.1)
        (is_empty_list audio_bytes) {x = (ok empty_analysis, w)} {y = mapped (schema_of ms) r} h
        (mapped-IsConsistent (schema_of ms) r (
          after_loading-IsConsistent m cfg audio_bytes (load_model m cfg w)
            (load_model-IsConsistent m cfg w h)))

unloaded_from-IsConsistent :
    (o : Option RuntimeConfig) (w : Worker) → IsConsistent w → IsConsistent (unloaded_from o w)
unloaded_from-IsConsistent none w h = h
unloaded_from-IsConsistent (some _) w h = refl

module _ {N : Type 0} (ms : Measures N) (cfg : WorkerSettings) where
  after_call-IsConsistent :
      (call : Call (Transcription N)) (w : Worker)
      → IsConsistent w
      → IsConsistent (after_call ms cfg call w)
  unfolding unload_model
  after_call-IsConsistent (transcribes m audio_bytes) w h =
      transcribe-IsConsistent ms m cfg audio_bytes w h
  after_call-IsConsistent unloads w h = unloaded_from-IsConsistent w.model w h

  -- After any calls that transcribe and unload, whatever the machine does at each, the worker has a model
  -- exactly if it has a runtime configuration, and it is the one the model was loaded with; if so at first.
  pub after_calls-IsConsistent :
      (calls : List (Call (Transcription N))) (w : Worker)
      → IsConsistent w
      → IsConsistent (after_calls ms cfg calls w)
  after_calls-IsConsistent [] w h = h
  after_calls-IsConsistent (call ∷ calls) w h =
      after_calls-IsConsistent calls (after_call ms cfg call w) (after_call-IsConsistent call w h)
