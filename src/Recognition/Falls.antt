-- ===== src/Recognition/Falls.antt =====
-- media/stt_worker.py: a failure of CUDA does not end the recognition.
use text.Mathlib.Text.{◌==◌ as str_eq}
use luve.Prelude.{
  ℕ, ◌≡◌, refl, ◌∙◌, sym, ap, subst, Bool, true, false, not, Option, none, some, List,
  if◌then◌else◌, if_both, ◌⊎◌, inl, inr,
}
use luve.Extension.Queue.{is_empty_list}
use luve.Recognition.{
  analysed, fails, mapped, schema_of, empty_analysis, Transcription, is_whole, Measures,
  SttAnalysis, has_devices, normalized_compute_type, GpuHealth, run_with, Attempt, done, raised,
  Exception, Machine, Result, ok, RuntimeConfig, Worker, WorkerSettings, cpu, loaded_with,
  new_worker, after_cpu_load, after_load, load_unless, load_model, resolve_runtime_config,
  switch_to_cpu_fallback_model, run_transcription, retried, after_exception, after_first,
  after_loading, transcribe_audio_bytes, is_cuda_runtime_error,
}

-- A transcription that returns a good result.
abbrev pub Returns : {T : Type 0} → (T → Type 0) → Attempt T → Type 0
Returns Good (done t) = Good t
Returns Good (raised _) = ⊥

-- One that returns a good result, or raises what the worker takes for a failure of CUDA.
abbrev pub ReturnsOrCuda : {T : Type 0} → (T → Type 0) → Attempt T → Type 0
ReturnsOrCuda Good (done t) = Good t
ReturnsOrCuda Good (raised e) =
    (e.is_runtime_error ≡ true) × (is_cuda_runtime_error e.message ≡ true)

-- A model for the CPU as the worker loads it, or one for CUDA.
abbrev pub IsKnown : RuntimeConfig → Type 0
IsKnown runtime = (runtime ≡ cpu) ⊎ (str_eq runtime.device "cuda" ≡ true)

abbrev pub IsKnownIf : Option RuntimeConfig → Type 0
IsKnownIf none = Unit
IsKnownIf (some runtime) = IsKnown runtime

-- A call that returns a good result and leaves a worker of a known kind.
abbrev pub Answers : {T : Type 0} → (T → Type 0) → Result T × Worker → Type 0
Answers {T} Good (result, w) = (t : T) × (result ≡ ok t) × Good t × IsKnownIf w.model

-- The segments of the transcription are mapped without an exception.
abbrev pub Maps : {N : Type 0} → Measures N → Transcription N → Type 0
Maps {N} ms t = (analysis : SttAnalysis N) × (schema_of ms t ≡ some analysis)

abbrev pub AnyAnalysis : {N : Type 0} → SttAnalysis N → Type 0
AnyAnalysis _ = Unit

-- A model of a known kind is there.
abbrev HasModel : Worker → Type 0
HasModel w = (runtime : RuntimeConfig) × (w.model ≡ some runtime) × IsKnown runtime

abbrev Loads : Option Exception × Worker → Type 0
Loads (o, w) = (o ≡ none) × HasModel w

resolve-IsKnown :
    (cfg : WorkerSettings) (gpu : GpuHealth) → IsKnown (resolve_runtime_config cfg gpu)
unfolding resolve_runtime_config
resolve-IsKnown cfg gpu =
    let cuda : RuntimeConfig = record {
      device = "cuda";
      compute_type = normalized_compute_type cfg.preferred_compute_type;
    } in
    let by_device = if has_devices gpu.ctranslate2_cuda_devices then cuda else cpu in
    let by_health = if gpu.requires_reset then cpu else by_device in
    if_both IsKnown (not (str_eq cfg.preferred_device "cuda")) {x = cpu} {y = by_health} (inl refl)
      (if_both IsKnown gpu.requires_reset {x = cpu} {y = by_device} (inl refl) (
        if_both IsKnown (has_devices gpu.ctranslate2_cuda_devices) {x = cuda} {y = cpu} (inr refl)
          (inl refl)))

module _ {T : Type 0} (m : Machine T) (cpu_loads : m.load cpu ≡ none) where
  cpu_load : (w : Worker) → after_cpu_load (m.load cpu) w ≡ (none, loaded_with cpu)
  cpu_load w = ap (λ (o : Option Exception). after_cpu_load o w) cpu_loads

  after_load-Loads :
      (o : Option Exception) (runtime : RuntimeConfig) (w : Worker)
      → m.load runtime ≡ o
      → IsKnown runtime
      → Loads (after_load m o runtime w)
  after_load-Loads none runtime w e known = (refl, (runtime, refl, known))
  after_load-Loads (some x) runtime w e (inr cuda) =
      rw (cuda, cpu_load w) (refl, (cpu, refl, inl refl))
  after_load-Loads (some x) runtime w e (inl same) =
      absurd (let never : some x ≡ none = sym e ∙ ap m.load same ∙ cpu_loads in cc never)

  load_unless-Loads :
      (o : Option RuntimeConfig) (runtime : RuntimeConfig) (w : Worker)
      → w.model ≡ o
      → IsKnownIf o
      → IsKnown runtime
      → Loads (load_unless m o runtime w)
  load_unless-Loads none runtime w e h known =
      after_load-Loads (m.load runtime) runtime w refl known
  load_unless-Loads (some r) runtime w e h known = (refl, (r, e, h))

module _ {T : Type 0} (Good : T → Type 0) (m : Machine T) (cfg : WorkerSettings)
    (cpu_loads : m.load cpu ≡ none)
    (cpu_works : (again : Bool) → Returns Good (m.transcribe again cpu))
    (cuda_known : (runtime : RuntimeConfig)
      → str_eq runtime.device "cuda" ≡ true
      → ReturnsOrCuda Good (m.transcribe false runtime))
    (enabled : cfg.stt_enable_cuda_fallback_to_cpu ≡ true) where
  retried-Answers : (a : Attempt T) → Returns Good a → Answers Good (retried m a, loaded_with cpu)
  retried-Answers (done t) h = (t, refl, h, inl refl)
  retried-Answers (raised e) h = absurd h

  after_exception-Answers :
      (e : Exception) (w : Worker)
      → ReturnsOrCuda Good (raised e)
      → Answers Good (after_exception m cfg e w)
  unfolding switch_to_cpu_fallback_model run_transcription
  after_exception-Answers e w (runtime_error, cuda) =
      rw (runtime_error, cuda, enabled, cpu_load m cpu_loads new_worker)
        (retried-Answers (m.transcribe true cpu) (cpu_works true))

  after_first-Answers :
      (a : Attempt T) (w : Worker)
      → HasModel w
      → ReturnsOrCuda Good a
      → Answers Good (after_first m cfg a w)
  after_first-Answers (done t) w (runtime, e, known) h = (t, refl, h, subst IsKnownIf (sym e) known)
  after_first-Answers (raised x) w has h = after_exception-Answers x w h

  done_known : (a : Attempt T) → Returns Good a → ReturnsOrCuda Good a
  done_known (done t) h = h
  done_known (raised e) h = absurd h

  known_attempt :
      (runtime : RuntimeConfig) → IsKnown runtime → ReturnsOrCuda Good (m.transcribe false runtime)
  known_attempt runtime (inl same) =
      subst (λ (r : RuntimeConfig). ReturnsOrCuda Good (m.transcribe false r)) (sym same)
        (done_known (m.transcribe false cpu) (cpu_works false))
  known_attempt runtime (inr cuda) = cuda_known runtime cuda

  after_loading-Answers :
      (audio_bytes : List ℕ) (o : Option Exception) (w : Worker)
      → is_whole audio_bytes ≡ true
      → o ≡ none
      → HasModel w
      → Answers Good (after_loading m cfg audio_bytes (o, w))
  unfolding run_transcription
  after_loading-Answers audio_bytes (some e) w whole h has = cc h
  after_loading-Answers audio_bytes none w whole h (runtime, e, known) = rw whole (
      after_first-Answers (run_transcription m false w) w (runtime, e, known)
        (subst (λ (o : Option RuntimeConfig). ReturnsOrCuda Good (run_with m false o)) (sym e)
          (known_attempt runtime known)))

ok-injective : {T : Type 0} → {x y : T} → ok x ≡ ok y → x ≡ y
ok-injective e = cc

mapped-Answers :
    {N : Type 0}
    → (ms : Measures N) (r : Result (Transcription N) × Worker) → Answers (Maps ms) r
    → Answers AnyAnalysis (mapped (schema_of ms) r)
mapped-Answers ms (fails e, w) (t, same, good, known) = cc same
mapped-Answers ms (ok x, w) (t, same, (analysis, e), known) =
    (analysis, ap analysed (ap (schema_of ms) (ok-injective same) ∙ e), tt, known)

module _ {N : Type 0} (ms : Measures N) (m : Machine (Transcription N)) (cfg : WorkerSettings)
    (cpu_loads : m.load cpu ≡ none)
    (cpu_works : (again : Bool) → Returns (Maps ms) (m.transcribe again cpu))
    (cuda_known : (runtime : RuntimeConfig)
      → str_eq runtime.device "cuda" ≡ true
      → ReturnsOrCuda (Maps ms) (m.transcribe false runtime))
    (enabled : cfg.stt_enable_cuda_fallback_to_cpu ≡ true) where
  -- With the fallback enabled, a CPU that loads and transcribes, a CUDA whose transcriptions return or
  -- raise what counts as a CUDA failure, and segments that are mapped without an exception: every call
  -- with an even count of bytes, on a worker without a model, with the CPU's or with a CUDA one, returns
  -- an analysis, whether or not CUDA loads, and leaves such a worker.
  pub transcribe_falls_back :
      (audio_bytes : List ℕ) (w : Worker)
      → is_whole audio_bytes ≡ true
      → IsKnownIf w.model
      → Answers AnyAnalysis (transcribe_audio_bytes ms m cfg audio_bytes w)
  unfolding transcribe_audio_bytes load_model
  transcribe_falls_back audio_bytes w whole known =
      let (loads, has) =
        load_unless-Loads m cpu_loads w.model (resolve_runtime_config cfg m.gpu) w refl known
          (resolve-IsKnown cfg m.gpu) in
      let r = after_loading m cfg audio_bytes (load_model m cfg w) in
      if_both (Answers AnyAnalysis) (is_empty_list audio_bytes) {x = (ok empty_analysis, w)}
        {y = mapped (schema_of ms) r} (empty_analysis, refl, tt, known)
        (mapped-Answers ms r (
          after_loading-Answers (Maps ms) m cfg cpu_loads cpu_works cuda_known enabled audio_bytes
            (load_model m cfg w).0 (load_model m cfg w).1 whole loads has))
