-- ===== src/Extension/Voice.antt =====
-- luve_extension.py: the voice activity detection, which splits the audio into utterances.
pub mod Frames
pub mod Ingest
pub mod Heard
pub mod Keeps
pub mod Recent
pub mod Start
use Prim.Native.String.{String}
use luve.Prelude.{
  ℕ, zero, suc, ◌+◌, ◌-◌, ◌&&◌, ◌||◌, Bool, true, false, Option, none, some, List, [], ◌∷◌, ◌++◌,
  length, drop, if◌then◌else◌, leb, ltb, ◌==◌, not,
}
use luve.Extension.Queue.{
  AudioStats, InferenceJob, InferenceQueue, enqueue_inference_job, is_empty_list,
}
use luve.Extension.Voice.Frames.{
  Signal, UtteranceStats, add_frame, new_stats, stats_or_new, snapshot, bytes_per_second, greater,
  measure_dbfs,
}

pub record VoiceSettings (N : Type 0) : Type 0 where
  pub vad_energy_threshold_db : N
  pub vad_adaptive_margin_db : N
  pub vad_hysteresis_db : N
  pub vad_speech_start_frames : ℕ
  pub vad_silence_timeout_seconds : N
  pub vad_pre_roll_bytes : ℕ
  pub stt_final_min_speech_ms : ℕ
  pub stt_partial_min_speech_ms : ℕ
  pub stt_partial_emit_interval_seconds : N
  pub stt_partial_min_audio_bytes : ℕ
  pub stt_partial_window_bytes : ℕ
  pub stt_max_utterance_seconds : N
  pub assistant_barge_in_enabled : Bool

-- The events that are sent to the client here.
pub data Message (N : Type 0) : Type 0 where
  -- speech_ms, min_speech_ms, noise_floor_db and effective_threshold_db
  stt_vad_ignored : N → ℕ → N → N → Message N
  -- the session, and whether the client asks for texts only and for speech
  ten_started : String → Bool → Bool → Message N
  -- the active session, and the one that is refused
  ten_busy : String → String → Message N
  session_ended : String → Message N
  flush_ack assistant_audio_aborted assistant_generation_aborted barge_in_ack : Message N

-- The part of the extension's state that the audio acts on; `sent` lists the events sent, in turn.
pub record Voice (N : Type 0) : Type 0 where
  pub utterance_pcm : List ℕ
  pub pre_roll_pcm : List ℕ
  pub is_speaking : Bool
  pub is_assistant_speaking : Bool
  pub silence_duration_seconds : N
  pub last_partial_emit_at : N
  pub pending_speech_frames : ℕ
  pub current_utterance_stats : Option (UtteranceStats N)
  pub vad_noise_floor_db : N
  pub session_id : Option String
  pub stt_inference_busy : Bool
  pub inference_queue : Option (InferenceQueue N)
  pub has_tts_processor : Bool
  pub llm_tasks : ℕ
  pub sent : List (Message N)

module _ {N : Type 0} where
  unfoldable pub emit_json : Message N → Voice N → Voice N
  emit_json message v = record v { sent = v.sent ++ message ∷ [] }

  abbrev pub offered : Bool → InferenceJob N → Option (InferenceQueue N) → Option (InferenceQueue N)
  offered busy job none = none
  offered busy job (some q) = some (enqueue_inference_job busy job q).1

  -- The `InferenceJob` is built by the function itself; it is of the session that is active.
  unfoldable pub enqueue :
      Bool → String → List ℕ → Option (AudioStats N) → Bool → N → Voice N → Voice N
  enqueue is_final trigger pcm_bytes audio_stats suppress_response now v = record v {
    inference_queue =
        offered v.stt_inference_busy
          (record {
            is_final = is_final;
            trigger = trigger;
            queued_at = now;
            pcm_bytes = pcm_bytes;
            session_id = v.session_id;
            audio_stats = audio_stats;
            suppress_response = suppress_response;
          })
          v.inference_queue;
  }

  -- Frees the microphone: the tasks that speak are cancelled.
  unfoldable pub stop_tts_pipeline : Voice N → Voice N
  stop_tts_pipeline v = record v { is_assistant_speaking = false }

  -- The cancelled generations leave the set of tasks later.
  unfoldable pub handle_barge_in : Voice N → Voice N
  handle_barge_in v =
      let had_tts = v.has_tts_processor || v.is_assistant_speaking in
      let stopped = stop_tts_pipeline v in
      let told = if had_tts then emit_json assistant_audio_aborted stopped else stopped in
      let aborted =
        if v.llm_tasks == 0 then told else emit_json assistant_generation_aborted told in
      emit_json barge_in_ack aborted

-- `pcm[-n:]`
unfoldable pub last_bytes : ℕ → List ℕ → List ℕ
last_bytes n pcm = if n == 0 then pcm else drop (length pcm - n) pcm

module _ {N : Type 0} (sig : Signal N) (cfg : VoiceSettings N) where
  unfoldable pub append_to_pre_roll : List ℕ → Voice N → Voice N
  append_to_pre_roll payload v =
      let pcm = v.pre_roll_pcm ++ payload in
      record v {
        pre_roll_pcm =
            if ltb cfg.vad_pre_roll_bytes (length pcm)
            then drop (length pcm - cfg.vad_pre_roll_bytes) pcm
            else pcm;
      }

  unfoldable pub effective_vad_threshold_db : Voice N → N
  effective_vad_threshold_db v =
      greater sig cfg.vad_energy_threshold_db
        (sig.plus v.vad_noise_floor_db cfg.vad_adaptive_margin_db)

  unfoldable pub is_speech_frame : Option N → Voice N → Bool
  is_speech_frame none v = false
  is_speech_frame (some dbfs) v =
      let threshold = effective_vad_threshold_db v in
      sig.at_least dbfs
        (if v.is_speaking then sig.minus threshold cfg.vad_hysteresis_db else threshold)

  unfoldable pub update_noise_floor : Option N → Voice N → Voice N
  update_noise_floor none v = v
  update_noise_floor (some dbfs) v =
      if sig.at_least dbfs (effective_vad_threshold_db v) then v else record v {
        vad_noise_floor_db =
            sig.plus (sig.times v.vad_noise_floor_db (sig.hundredths 97))
              (sig.times dbfs (sig.hundredths 3));
      }

  unfoldable pub record_utterance_frame : Option N → Bool → N → Voice N → Voice N
  record_utterance_frame dbfs is_speech now v = record v {
    current_utterance_stats = some (
        add_frame sig dbfs is_speech v.is_assistant_speaking
          (stats_or_new sig now v.current_utterance_stats));
  }

  unfoldable pub snapshot_utterance_stats : ℕ → String → Voice N → Option (AudioStats N)
  snapshot_utterance_stats pcm_bytes trigger v = elim v.current_utterance_stats [
    | none ↦ none
    | some s ↦
        some (snapshot sig pcm_bytes trigger v.vad_noise_floor_db (effective_vad_threshold_db v) s)
  ]

  unfoldable pub current_speech_ms : Voice N → N
  current_speech_ms v = elim v.current_utterance_stats [
    | none ↦ sig.of_nat 0
    | some s ↦
        if is_empty_list v.utterance_pcm || s.frames == 0
        then sig.of_nat 0
        else sig.times (sig.of_nat s.speech_frames) (
            sig.over
              (sig.times
                (sig.over (sig.of_nat (length v.utterance_pcm)) (sig.of_nat bytes_per_second))
                (sig.of_nat 1000))
              (sig.of_nat s.frames))
  ]

  unfoldable pub reset_current_utterance : Voice N → Voice N
  reset_current_utterance v = record v {
    utterance_pcm = [];
    is_speaking = false;
    silence_duration_seconds = sig.of_nat 0;
    last_partial_emit_at = sig.of_nat 0;
    pending_speech_frames = 0;
    current_utterance_stats = none;
  }

  unfoldable pub finalize_utterance : String → Bool → N → Voice N → Voice N
  finalize_utterance trigger suppress_response now v =
      if not v.is_speaking || is_empty_list v.utterance_pcm
      then v
      else enqueue true trigger v.utterance_pcm
          (snapshot_utterance_stats (length v.utterance_pcm) trigger v) suppress_response now
          (reset_current_utterance v)
