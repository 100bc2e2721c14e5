-- ===== src/Coordinator/Socket.antt =====
-- core-api's api/v1/stream.py: what the websocket's loop does with each message it receives, before the
-- client disconnects. The coordinator is there: it is made before the loop.
use Prim.Native.String.{String}
use text.Mathlib.Text.{◌==◌ as str_eq}
use luve.Prelude.{ℕ, ◌+◌, Bool, true, not, List, if◌then◌else◌}
use luve.Python.Text.{strip, upper}
use luve.Extension.Voice.Frames.{Signal}
use luve.Coordinator.{
  Coordinator, CoordinatorSettings, notify_audio_chunk, notify_silence, send_json,
  streaming_started, streaming_stopped, unknown_command, pipeline_not_started, invalid_payload,
}
use luve.Coordinator.Loop.{start}

-- A message with a text, with bytes and no text, or with neither.
pub data Incoming : Type 0 where
  text_payload : String → Incoming
  bytes_payload : List ℕ → Incoming
  no_payload : Incoming

pub record Connection (N : Type 0) : Type 0 where
  pub coordinator : Coordinator N
  pub pipeline_started : Bool
  pub audio_sequence : ℕ

module _ {N : Type 0} where
  abbrev tell : (Coordinator N → Coordinator N) → Connection N → Connection N
  tell act c = record c { coordinator = act c.coordinator }

  unfoldable pub start_audio : Connection N → Connection N
  start_audio c =
      let begun =
        if c.pipeline_started
        then c
        else record c { coordinator = start c.coordinator; pipeline_started = true } in
      tell (send_json streaming_started) begun

module _ {N : Type 0} (sig : Signal N) where
  unfoldable pub silence_if_started : Connection N → Connection N
  silence_if_started c = if c.pipeline_started then tell (notify_silence sig) c else c

  unfoldable pub on_command : String → Connection N → Connection N
  on_command command c =
      if str_eq command "START_AUDIO"
      then start_audio c
      else if str_eq command "SILENCE"
      then silence_if_started c
      else if str_eq command "STOP_AUDIO"
      then tell (send_json streaming_stopped) (silence_if_started c)
      else tell (send_json unknown_command) c

module _ {N : Type 0} (sig : Signal N) (cfg : CoordinatorSettings N) where
  -- With the clock and whether speech is pending.
  unfoldable pub on_message : Incoming → N → Bool → Connection N → Connection N
  on_message (text_payload text) now pending c = on_command sig (upper (strip text)) c
  on_message (bytes_payload payload) now pending c =
      if not c.pipeline_started then tell (send_json pipeline_not_started) c else record c {
        coordinator = notify_audio_chunk sig cfg payload now pending c.coordinator;
        audio_sequence = c.audio_sequence + 1;
      }
  on_message no_payload now pending c = tell (send_json invalid_payload) c
