-- ===== src/Coordinator/Init.antt =====
-- media/coordinator.py: the constructor. Of the numbers that have to be above 0, one below 0 is refused
-- as 0 is; the window has to be as long as the least audio.
use Prim.Native.String.{String}
use luve.Prelude.{
  ℕ, refl, Bool, false, ◌||◌, Option, none, some, [], if◌then◌else◌, if_both, ltb, ◌==◌, arith,
}
use luve.Extension.Voice.Frames.{Signal, bytes_per_second}
use luve.Coordinator.{Coordinator, CoordinatorSettings, not_started, not_called}
use luve.Coordinator.Sound.{IsSound, core}

pub record Arguments (N : Type 0) : Type 0 where
  pub has_llm_processor : Bool
  pub has_tts_processor : Bool
  pub llm_source : String
  pub tts_force_flush_timeout_ms : ℕ
  pub vad_energy_threshold_db : N
  pub vad_silence_timeout_ms : ℕ
  pub vad_pre_roll_ms : ℕ
  pub stt_partial_emit_interval_ms : ℕ
  pub stt_partial_min_audio_ms : ℕ
  pub stt_partial_window_ms : ℕ
  pub stt_final_min_audio_ms : ℕ
  pub stt_partial_beam_size : ℕ
  pub stt_final_beam_size : ℕ

module _ {N : Type 0} where
  unfoldable pub is_refused : Arguments N → Bool
  is_refused a =
      a.tts_force_flush_timeout_ms == 0
      || a.vad_pre_roll_ms == 0
      || a.vad_silence_timeout_ms == 0
      || a.stt_partial_emit_interval_ms == 0
      || a.stt_partial_min_audio_ms == 0
      || ltb a.stt_partial_window_ms a.stt_partial_min_audio_ms
      || a.stt_final_min_audio_ms == 0
      || a.stt_partial_beam_size == 0
      || a.stt_final_beam_size == 0

module _ {N : Type 0} (sig : Signal N) where
  -- `ms / 1000.0`
  abbrev to_seconds : ℕ → N
  to_seconds ms = sig.over (sig.of_nat ms) (sig.of_nat 1000)

  -- `int(ms / 1000.0 * 32000)`
  abbrev to_bytes : ℕ → ℕ
  to_bytes ms = sig.to_int (sig.times (to_seconds ms) (sig.of_nat bytes_per_second))

  unfoldable pub settings_of : Arguments N → CoordinatorSettings N
  settings_of a = record {
    has_llm_processor = a.has_llm_processor;
    has_tts_processor = a.has_tts_processor;
    llm_source = a.llm_source;
    vad_energy_threshold_db = a.vad_energy_threshold_db;
    vad_silence_timeout_seconds = to_seconds a.vad_silence_timeout_ms;
    vad_pre_roll_bytes = to_bytes a.vad_pre_roll_ms;
    stt_partial_emit_interval_seconds = to_seconds a.stt_partial_emit_interval_ms;
    stt_partial_min_audio_bytes = to_bytes a.stt_partial_min_audio_ms;
    stt_partial_window_bytes = to_bytes a.stt_partial_window_ms;
    stt_final_min_audio_bytes = to_bytes a.stt_final_min_audio_ms;
  }

  unfoldable pub empty_state : Coordinator N
  empty_state = record {
    utterance_pcm = [];
    pre_roll_pcm = [];
    is_speaking = false;
    silence_duration_seconds = sig.of_nat 0;
    last_partial_emit_at = sig.of_nat 0;
    closed = false;
    inference_queue = [];
    inference_task = not_started;
    stop_call = not_called;
    previous_stt_text = "";
    llm_tasks = [];
    event_log = [];
    sent = [];
  }

  -- `none` is a `ValueError`.
  unfoldable pub new_coordinator : Arguments N → Option (CoordinatorSettings N × Coordinator N)
  new_coordinator a = if is_refused a then none else some (settings_of a, empty_state)

  -- A coordinator that is made, with its settings.
  abbrev IsSoundIf : Option (CoordinatorSettings N × Coordinator N) → Type 0
  IsSoundIf none = Unit
  IsSoundIf (some (cfg, st)) = IsSound cfg.vad_pre_roll_bytes (core st)

  -- A new coordinator is sound.
  pub new_coordinator-IsSoundIf : (a : Arguments N) → IsSoundIf (new_coordinator a)
  unfolding new_coordinator empty_state
  new_coordinator-IsSoundIf a =
      if_both IsSoundIf (is_refused a) {x = none} {y = some (settings_of a, empty_state)} tt
        (omega arith, refl, omega arith, refl, refl)
