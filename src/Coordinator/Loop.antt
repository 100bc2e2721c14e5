-- ===== src/Coordinator/Loop.antt =====
-- media/coordinator.py: the loop that transcribes, `start` and `stop`, and the tasks of the replies.
use Prim.Native.String.{String, ◌++◌ as str_append}
use text.Mathlib.Text.{◌==◌ as str_eq}
use luve.Prelude.{
  ℕ, ◌&&◌, ◌||◌, Bool, true, false, not, Option, none, some, List, [], ◌∷◌, ◌++◌, length,
  if◌then◌else◌, ltb,
}
use luve.Python.Text.{is_empty, strip}
use luve.Brain.{PedagogicalReply}
use luve.Media.Postprocess.{sanitize_transcript}
use luve.Extension.Reply.{Reply, no_reply, diff_streamed_text, extract_response_text}
use luve.Extension.Voice.Frames.{Signal}
use luve.Coordinator.{
  Coordinator, CoordinatorSettings, Job, LoopTask, StopCall, send_json, is_full, reset_turn_state,
  not_started, waiting, transcribing, returned, raised, putting, joining, stopped, failed, subtitle,
  user_turn, ai_turn, assistant_stream, assistant_final, llm_error, feed_text,
}

-- What `transcribe_audio_bytes` returns, as far as it is read; `none` below is an exception.
pub record Analysis : Type 0 where
  pub raw_text : String
  pub suspicious_count : ℕ

module _ {N : Type 0} where
  abbrev started_from : LoopTask → Coordinator N → Coordinator N
  started_from waiting st = st
  started_from (transcribing _) st = st
  started_from _ st = record st { inference_task = waiting }

  unfoldable pub start : Coordinator N → Coordinator N
  start st = started_from st.inference_task st

module _ {N : Type 0} (cfg : CoordinatorSettings N) where
  unfoldable pub is_short : Job → Bool
  is_short job =
      ltb (length job.pcm_bytes)
        (if job.is_final then cfg.stt_final_min_audio_bytes else cfg.stt_partial_min_audio_bytes)

  unfoldable pub take_job : Job → Coordinator N → Coordinator N
  take_job job st =
      if st.closed && str_eq job.trigger "stop"
      then record st { inference_task = returned }
      else if is_short job
      then st
      else record st { inference_task = transcribing job }

  -- `await get()`, up to the transcription; the loop waits while the queue is empty.
  abbrev pub take_first : List Job → Coordinator N → Coordinator N
  take_first [] st = st
  take_first (job ∷ jobs) st = take_job job (record st { inference_queue = jobs })

  abbrev pub next_from : LoopTask → Coordinator N → Coordinator N
  next_from waiting st = take_first st.inference_queue st
  next_from _ st = st

  unfoldable pub next_job : Coordinator N → Coordinator N
  next_job st = next_from st.inference_task st

module _ {N : Type 0} where
  -- A final that is not blank is logged, and a task for the reply is made.
  unfoldable pub record_user_turn : Job → ℕ → String → Coordinator N → Coordinator N
  record_user_turn job suspicious_count raw_text st =
      if job.is_final && not (is_empty (strip raw_text))
      then record st {
        event_log = st.event_log ++ user_turn raw_text ∷ [];
        llm_tasks =
            st.llm_tasks ++ record { reply = no_reply; suspicious_count = suspicious_count } ∷ [];
      }
      else st

  unfoldable pub after_transcription : Job → Option Analysis → Coordinator N → Coordinator N
  after_transcription job none st = record st { inference_task = raised }
  after_transcription job (some analysis) st =
      let raw_text = sanitize_transcript analysis.raw_text in
      let remembered = record st {
        inference_task = waiting;
        previous_stt_text =
            if job.is_final && not (is_empty (strip raw_text))
            then strip raw_text
            else st.previous_stt_text;
      } in
      record_user_turn job analysis.suspicious_count raw_text
        (send_json (subtitle job.is_final job.trigger raw_text) remembered)

  abbrev pub transcribed_from : LoopTask → Option Analysis → Coordinator N → Coordinator N
  transcribed_from (transcribing job) result st = after_transcription job result st
  transcribed_from _ result st = st

  unfoldable pub transcribed : Option Analysis → Coordinator N → Coordinator N
  transcribed result st = transcribed_from st.inference_task result st

abbrev pub stop_job : Job
stop_job = record { is_final = true; trigger = "stop"; pcm_bytes = [] }

module _ {N : Type 0} (sig : Signal N) where
  -- `stop`, up to its `put`.
  unfoldable pub begin_stop : Coordinator N → Coordinator N
  begin_stop st =
      if st.closed
      then st
      else record (reset_turn_state sig st) { closed = true; stop_call = putting }

module _ {N : Type 0} where
  -- `await put(…)`, which waits while the queue is full.
  abbrev pub put_from : StopCall → Coordinator N → Coordinator N
  put_from putting st =
      if is_full st.inference_queue
      then st
      else record st { inference_queue = st.inference_queue ++ stop_job ∷ []; stop_call = joining }
  put_from _ st = st

  unfoldable pub put_stop : Coordinator N → Coordinator N
  put_stop st = put_from st.stop_call st

  -- The wait for the loop, and what follows.
  abbrev pub end_stop : LoopTask → Coordinator N → Coordinator N
  end_stop not_started st = record st { stop_call = stopped; llm_tasks = [] }
  end_stop returned st = record st {
    stop_call = stopped;
    llm_tasks = [];
    inference_task = not_started;
  }
  end_stop raised st = record st { stop_call = failed }
  end_stop _ st = st

  abbrev pub join_from : StopCall → Coordinator N → Coordinator N
  join_from joining st = end_stop st.inference_task st
  join_from _ st = st

  unfoldable pub join_loop : Coordinator N → Coordinator N
  join_loop st = join_from st.stop_call st

-- What is said when `stream_response` raises.
abbrev pub reply_after_error : PedagogicalReply
reply_after_error = record {
  response_text = "Let's keep going. Can you try saying it one more time?";
  pedagogical_feedback = "";
  source = "local_fallback";
}

module _ {N : Type 0} (cfg : CoordinatorSettings N) where
  unfoldable pub feed : String → Bool → Coordinator N → Coordinator N
  feed text is_final st =
      if cfg.has_tts_processor then send_json (feed_text text is_final) st else st

  unfoldable pub stream_delta : String → String → Coordinator N → Coordinator N
  stream_delta delta source st = feed delta false (send_json (assistant_stream delta source) st)

  -- `on_token` of a task, with its buffers after it. The timer that flushes the speech is left out.
  unfoldable pub on_token : String → Reply → Coordinator N → Reply × Coordinator N
  on_token delta r st =
      let raw = str_append r.llm_raw_buffer delta in
      let response_delta =
        diff_streamed_text r.streamed_response_buffer (extract_response_text raw) in
      if is_empty delta || st.is_speaking
      then (r, st)
      else if is_empty response_delta
      then (record r { llm_raw_buffer = raw }, st)
      else (
        record r {
          llm_raw_buffer = raw;
          streamed_response_buffer = str_append r.streamed_response_buffer response_delta;
        },
        stream_delta response_delta cfg.llm_source st,
      )

  -- Once nothing more is streamed.
  unfoldable pub finish_reply : PedagogicalReply → Coordinator N → Coordinator N
  finish_reply result st =
      let fed = feed "" true st in
      if st.is_speaking then fed else record (send_json (assistant_final result) fed) {
        event_log = fed.event_log ++ ai_turn result ∷ [];
      }

  abbrev pub finish_result : PedagogicalReply → Reply → Coordinator N → Coordinator N
  finish_result result r st =
      let final_tail = diff_streamed_text r.streamed_response_buffer result.response_text in
      finish_reply result (
        if not (is_empty final_tail) && not st.is_speaking
        then stream_delta final_tail result.source st
        else st)

  -- The rest of `_run_llm_pipeline`; no result is an exception of `stream_response`.
  unfoldable pub finish_pipeline : Option PedagogicalReply → Reply → Coordinator N → Coordinator N
  finish_pipeline none r st = finish_result reply_after_error r (send_json llm_error st)
  finish_pipeline (some result) r st = finish_result result r st

  unfoldable pub emit_local_fallback_reply : PedagogicalReply → Coordinator N → Coordinator N
  emit_local_fallback_reply result st = finish_reply result (
      if not (is_empty result.response_text) && not st.is_speaking
      then stream_delta result.response_text "local_fallback" st
      else st)
