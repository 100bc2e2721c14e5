-- ===== src/Coordinator.antt =====
-- core-api's media/coordinator.py: the audio of a stream over a websocket, up to the queue of the loop
-- that transcribes it. Python's clock and numpy are in `Signal`, and a frame has an even number of bytes.
pub mod Init
pub mod Loop
pub mod Turns
pub mod Socket
pub mod Sound
pub mod Hears
pub mod Keeps
pub mod Always
pub mod Stops
pub mod Drains
pub mod Blocked
use Prim.Native.String.{String}
use luve.Prelude.{
  ℕ, ◌+◌, ◌-◌, ◌&&◌, ◌||◌, Bool, true, false, not, Option, none, some, List, [], ◌∷◌, ◌++◌, length,
  drop, if◌then◌else◌, leb, ltb, ◌==◌,
}
use luve.Brain.{PedagogicalReply}
use luve.Extension.Queue.{is_empty_list}
use luve.Extension.Voice.{last_bytes}
use luve.Extension.Voice.Frames.{Signal, measure_dbfs, bytes_per_second}
use luve.Extension.Reply.{Reply}

pub record CoordinatorSettings (N : Type 0) : Type 0 where
  pub has_llm_processor : Bool
  pub has_tts_processor : Bool
  pub llm_source : String
  pub vad_energy_threshold_db : N
  pub vad_silence_timeout_seconds : N
  pub vad_pre_roll_bytes : ℕ
  pub stt_partial_emit_interval_seconds : N
  pub stt_partial_min_audio_bytes : ℕ
  pub stt_partial_window_bytes : ℕ
  pub stt_final_min_audio_bytes : ℕ

-- When a job was made has no effect but on the latencies that are told.
pub record Job : Type 0 where
  pub is_final : Bool
  pub trigger : String
  pub pcm_bytes : List ℕ

-- What is sent to the client, and what the speech processor is fed, in turn.
pub data Sent : Type 0 where
  streaming_started streaming_stopped unknown_command pipeline_not_started invalid_payload : Sent
  assistant_audio_aborted assistant_generation_aborted llm_error : Sent
  -- is_final, the trigger and the text
  subtitle : Bool → String → String → Sent
  -- the delta and the source
  assistant_stream : String → String → Sent
  assistant_final : PedagogicalReply → Sent
  feed_text : String → Bool → Sent

pub data LoggedTurn : Type 0 where
  user_turn : String → LoggedTurn
  ai_turn : PedagogicalReply → LoggedTurn

-- The task of the loop: not there yet, at `get`, transcribing a job, returned, or ended by an exception.
pub data LoopTask : Type 0 where
  not_started waiting returned raised : LoopTask
  transcribing : Job → LoopTask

-- Where `stop` stands: not called, at the `put` of its job, at the wait for the loop, returned, or left by
-- the loop's exception.
pub data StopCall : Type 0 where
  not_called putting joining stopped failed : StopCall

-- A task of the tutor's reply: its buffers, and the number of suspicious words of its transcript.
pub record Generation : Type 0 where
  pub reply : Reply
  pub suspicious_count : ℕ

pub record Coordinator (N : Type 0) : Type 0 where
  pub utterance_pcm : List ℕ
  pub pre_roll_pcm : List ℕ
  pub is_speaking : Bool
  pub silence_duration_seconds : N
  pub last_partial_emit_at : N
  pub closed : Bool
  pub inference_queue : List Job
  pub inference_task : LoopTask
  pub stop_call : StopCall
  pub previous_stt_text : String
  pub llm_tasks : List Generation
  pub event_log : List LoggedTurn
  pub sent : List Sent

-- `asyncio.Queue(maxsize=1).full()`
unfoldable pub is_full : List Job → Bool
is_full jobs = leb 1 (length jobs)

module _ {N : Type 0} where
  unfoldable pub send_json : Sent → Coordinator N → Coordinator N
  send_json message st = record st { sent = st.sent ++ message ∷ [] }

  abbrev put_job : Job → Coordinator N → Coordinator N
  put_job job st = record st { inference_queue = st.inference_queue ++ job ∷ [] }

  abbrev put_if_room : Job → Coordinator N → Coordinator N
  put_if_room job st = if is_full st.inference_queue then st else put_job job st

  -- A final makes room by taking the job that is queued.
  unfoldable pub enqueue_inference_job : Job → Coordinator N → Coordinator N
  enqueue_inference_job job st =
      if is_empty_list job.pcm_bytes || st.closed
      then st
      else if not (is_full st.inference_queue)
      then put_if_room job st
      else if not job.is_final
      then st
      else put_if_room job (record st { inference_queue = drop 1 st.inference_queue })

  -- Cancelled tasks do nothing more.
  unfoldable pub on_user_turn_started : CoordinatorSettings N → Bool → Coordinator N → Coordinator N
  on_user_turn_started cfg tts_has_pending_output st =
      let told =
        if cfg.has_tts_processor && tts_has_pending_output
        then send_json assistant_audio_aborted st
        else st in
      if length st.llm_tasks == 0
      then told
      else send_json assistant_generation_aborted (record told { llm_tasks = [] })

module _ {N : Type 0} (sig : Signal N) where
  unfoldable pub reset_turn_state : Coordinator N → Coordinator N
  reset_turn_state st = record st {
    utterance_pcm = [];
    pre_roll_pcm = [];
    is_speaking = false;
    silence_duration_seconds = sig.of_nat 0;
    last_partial_emit_at = sig.of_nat 0;
  }

  unfoldable pub finalize_current_utterance : String → Coordinator N → Coordinator N
  finalize_current_utterance trigger st =
      let job : Job = record { is_final = true; trigger = trigger; pcm_bytes = st.utterance_pcm } in
      if is_empty_list st.utterance_pcm
      then reset_turn_state st
      else enqueue_inference_job job (reset_turn_state st)

  unfoldable pub notify_silence : Coordinator N → Coordinator N
  notify_silence st = if st.closed then st else finalize_current_utterance "silence" st

module _ {N : Type 0} (sig : Signal N) (cfg : CoordinatorSettings N) where
  unfoldable pub append_to_pre_roll : List ℕ → Coordinator N → Coordinator N
  append_to_pre_roll payload st =
      let pcm = st.pre_roll_pcm ++ payload in
      record st {
        pre_roll_pcm =
            if ltb cfg.vad_pre_roll_bytes (length pcm)
            then drop (length pcm - cfg.vad_pre_roll_bytes) pcm
            else pcm;
      }

  unfoldable pub is_loud : Option N → Bool
  is_loud none = false
  is_loud (some dbfs) = sig.at_least dbfs cfg.vad_energy_threshold_db

  unfoldable pub is_speech_frame : List ℕ → Bool
  is_speech_frame payload = is_loud (measure_dbfs sig payload)

  -- The first frame of an utterance; the pre-roll has this frame already.
  unfoldable pub start_speaking : Bool → Coordinator N → Coordinator N
  start_speaking tts_has_pending_output st =
      on_user_turn_started cfg tts_has_pending_output (record st {
        is_speaking = true;
        silence_duration_seconds = sig.of_nat 0;
        utterance_pcm =
            if not (is_empty_list st.pre_roll_pcm) && is_empty_list st.utterance_pcm
            then st.utterance_pcm ++ st.pre_roll_pcm
            else st.utterance_pcm;
      })

  unfoldable pub emit_partial : N → Coordinator N → Coordinator N
  emit_partial now st =
      let due =
        leb cfg.stt_partial_min_audio_bytes (length st.utterance_pcm)
        && sig.at_least (sig.minus now st.last_partial_emit_at)
            cfg.stt_partial_emit_interval_seconds in
      let partial_pcm = last_bytes cfg.stt_partial_window_bytes st.utterance_pcm in
      let job : Job = record {
        is_final = false;
        trigger = "partial_timer";
        pcm_bytes = partial_pcm;
      } in
      if due then enqueue_inference_job job (record st { last_partial_emit_at = now }) else st

  unfoldable pub extend_speech : List ℕ → N → Coordinator N → Coordinator N
  extend_speech payload now st = emit_partial now (record st {
    utterance_pcm = st.utterance_pcm ++ payload;
    silence_duration_seconds = sig.of_nat 0;
  })

  unfoldable pub hear_speech : List ℕ → N → Bool → Coordinator N → Coordinator N
  hear_speech payload now tts_has_pending_output st =
      if st.is_speaking
      then extend_speech payload now st
      else extend_speech payload now (start_speaking tts_has_pending_output st)

  unfoldable pub end_silence : Coordinator N → Coordinator N
  end_silence st =
      if sig.less st.silence_duration_seconds cfg.vad_silence_timeout_seconds
      then st
      else finalize_current_utterance sig "vad_silence" st

  unfoldable pub hear_silence : List ℕ → Coordinator N → Coordinator N
  hear_silence payload st =
      if not st.is_speaking
      then st
      else end_silence (record st {
        utterance_pcm = st.utterance_pcm ++ payload;
        silence_duration_seconds =
            sig.plus st.silence_duration_seconds
              (sig.over (sig.of_nat (length payload)) (sig.of_nat bytes_per_second));
      })

  unfoldable pub notify_audio_chunk : List ℕ → N → Bool → Coordinator N → Coordinator N
  notify_audio_chunk payload now tts_has_pending_output st =
      let heard = append_to_pre_roll payload st in
      if st.closed || is_empty_list payload
      then st
      else if is_speech_frame payload
      then hear_speech payload now tts_has_pending_output heard
      else hear_silence payload heard
