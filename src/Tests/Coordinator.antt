-- ===== src/Tests/Coordinator.antt =====
-- The coordinator of a stream at small data.
use luve.Prelude.{ℕ, ◌≡◌, refl, arith, some, true, false, List, [], ◌∷◌}
use luve.Python.Text.{strip}
use luve.Coordinator.{Coordinator, CoordinatorSettings, waiting, raised, not_called}
use luve.Coordinator.Loop.{Analysis}
use luve.Coordinator.Turns.{
  Turn, hears, silences, takes, stops, puts_stop, joins, transcribes, tokens, run,
}
use luve.Coordinator.Sound.{core, IsSound}
use luve.Coordinator.Always.{run_stays-IsSound}
use luve.Coordinator.Stops.{stop_never_over}
use luve.Coordinator.Blocked.{is_over}
use luve.Tests.Voice.{sig}

abbrev coordinator_settings : CoordinatorSettings ℕ
coordinator_settings = record {
  has_llm_processor = true;
  has_tts_processor = false;
  llm_source = "groq";
  vad_energy_threshold_db = 2;
  vad_silence_timeout_seconds = 1;
  vad_pre_roll_bytes = 3;
  stt_partial_emit_interval_seconds = 100;
  stt_partial_min_audio_bytes = 100;
  stt_partial_window_bytes = 100;
  stt_final_min_audio_bytes = 2;
}

abbrev started : Coordinator ℕ
started = record {
  utterance_pcm = [];
  pre_roll_pcm = [];
  is_speaking = false;
  silence_duration_seconds = 0;
  last_partial_emit_at = 0;
  closed = false;
  inference_queue = [];
  inference_task = waiting;
  stop_call = not_called;
  previous_stt_text = "";
  llm_tasks = [];
  event_log = [];
  sent = [];
}

abbrev heard : Analysis
heard = record { raw_text = "I like dogs"; suspicious_count = 0 }

abbrev talk : List (Turn ℕ)
talk =
    hears (1 ∷ 2 ∷ []) 5 false
    ∷ silences
    ∷ takes
    ∷ transcribes (some heard)
    ∷ tokens 0 "RESPONSE_TEXT: Which"
    ∷ hears (3 ∷ 4 ∷ []) 6 false
    ∷ stops
    ∷ puts_stop
    ∷ []

run_stays-IsSound_example : IsSound 3 (core (run sig coordinator_settings strip talk started))
run_stays-IsSound_example =
    run_stays-IsSound sig coordinator_settings strip talk started
      (omega arith, refl, omega arith, refl, refl)

-- The transcription of an utterance raised, and the next utterance is queued.
abbrev died : Coordinator ℕ
died = record started {
  inference_task = raised;
  inference_queue = record { is_final = true; trigger = "silence"; pcm_bytes = 1 ∷ 2 ∷ [] } ∷ [];
}

stop_never_over_example :
    is_over
      (run sig coordinator_settings strip (stops ∷ puts_stop ∷ takes ∷ joins ∷ []) died).stop_call
    ≡ false
stop_never_over_example =
    stop_never_over sig coordinator_settings strip (stops ∷ puts_stop ∷ takes ∷ joins ∷ []) died
      (refl, refl, refl)

abbrev busy : Coordinator ℕ
busy = record started {
  inference_queue = record { is_final = true; trigger = "silence"; pcm_bytes = 1 ∷ 2 ∷ [] } ∷ [];
}

-- Silence, a full queue at the first put, and a frame after the second one.
abbrev after_stop : List (Turn ℕ)
after_stop = silences ∷ puts_stop ∷ takes ∷ puts_stop ∷ hears (9 ∷ 9 ∷ []) 3 false ∷ silences ∷ []
