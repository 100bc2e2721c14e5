-- ===== src/Coordinator/Keeps.antt =====
-- media/coordinator.py: the turns that the audio has no part in.
use Prim.Native.String.{String, ◌++◌ as str_append}
use luve.Prelude.{
  ℕ, ◌≡◌, refl, ◌∙◌, sym, ap, ◌&&◌, ◌||◌, Bool, true, false, not, Option, none, some, [], ◌∷◌, ◌++◌,
  if◌then◌else◌, if_both,
}
use luve.Python.Text.{is_empty, strip}
use luve.Brain.{PedagogicalReply, build_fallback_reply}
use luve.Extension.Reply.{Reply, diff_streamed_text, extract_response_text}
use luve.Media.Postprocess.{sanitize_transcript}
use luve.Coordinator.{
  Coordinator, CoordinatorSettings, Generation, Job, LoopTask, send_json, waiting, llm_error,
  assistant_final, assistant_stream, feed_text, subtitle, ai_turn,
}
use luve.Coordinator.Loop.{
  Analysis, after_transcription, record_user_turn, on_token, finish_pipeline, finish_reply,
  stream_delta, feed, emit_local_fallback_reply, reply_after_error,
}
use luve.Coordinator.Turns.{stored, token_to, fallback_of, reply_of, without}
use luve.Coordinator.Sound.{Core, core}

-- The reply tasks leave the core alone.
abbrev pub SameCore : {N : Type 0} → Coordinator N → Coordinator N → Type 0
SameCore st st' = core st' ≡ core st

module _ {N : Type 0} (cfg : CoordinatorSettings N) where
  feed-core :
      (text : String) (is_final : Bool) (st : Coordinator N)
      → SameCore st (feed cfg text is_final st)
  unfolding feed send_json
  feed-core text is_final st =
      if_both (SameCore st) cfg.has_tts_processor {x = send_json (feed_text text is_final) st}
        {y = st} refl refl

  stream_delta-core :
      (delta source : String) (st : Coordinator N) → SameCore st (stream_delta cfg delta source st)
  unfolding stream_delta send_json
  stream_delta-core delta source st =
      feed-core delta false (send_json (assistant_stream delta source) st)

  on_token-core :
      (delta : String) (r : Reply) (st : Coordinator N) → SameCore st (on_token cfg delta r st).1
  unfolding on_token
  on_token-core delta r st =
      let raw = str_append r.llm_raw_buffer delta in
      let piece = diff_streamed_text r.streamed_response_buffer (extract_response_text raw) in
      let P = λ (x : Reply × Coordinator N). SameCore st x.1 in
      let quiet : Reply × Coordinator N = (record r { llm_raw_buffer = raw }, st) in
      let told : Reply × Coordinator N = (
        record r {
          llm_raw_buffer = raw;
          streamed_response_buffer = str_append r.streamed_response_buffer piece;
        },
        stream_delta cfg piece cfg.llm_source st,
      ) in
      if_both P (is_empty delta || st.is_speaking) {x = (r, st)}
        {y = if is_empty piece then quiet else told} refl
        (if_both P (is_empty piece) {x = quiet} {y = told} refl
          (stream_delta-core piece cfg.llm_source st))

  finish_reply-core :
      (result : PedagogicalReply) (st : Coordinator N) → SameCore st (finish_reply cfg result st)
  unfolding finish_reply send_json
  finish_reply-core result st =
      let fed = feed cfg "" true st in
      let same = feed-core "" true st in
      if_both (SameCore st) st.is_speaking {x = fed}
        {y = record (send_json (assistant_final result) fed) {
          event_log = fed.event_log ++ ai_turn result ∷ [];
        }}
        same same

  streamed-core :
      (delta source : String) (b : Bool) (result : PedagogicalReply) (st : Coordinator N)
      → SameCore st (finish_reply cfg result (if b then stream_delta cfg delta source st else st))
  streamed-core delta source b result st =
      finish_reply-core result (if b then stream_delta cfg delta source st else st)
      ∙ if_both (SameCore st) b {x = stream_delta cfg delta source st} {y = st}
          (stream_delta-core delta source st) refl

  finish_pipeline-core :
      (result : Option PedagogicalReply) (r : Reply) (st : Coordinator N)
      → SameCore st (finish_pipeline cfg result r st)
  unfolding finish_pipeline send_json
  finish_pipeline-core none r st =
      streamed-core (diff_streamed_text r.streamed_response_buffer reply_after_error.response_text)
        reply_after_error.source _ reply_after_error (send_json llm_error st)
  finish_pipeline-core (some result) r st =
      streamed-core (diff_streamed_text r.streamed_response_buffer result.response_text)
        result.source _ result st

  fallback_of-core :
      (o : Option PedagogicalReply) (st : Coordinator N) → SameCore st (fallback_of cfg o st)
  unfolding emit_local_fallback_reply
  fallback_of-core none st = refl
  fallback_of-core (some result) st =
      streamed-core result.response_text "local_fallback" _ result st

  pub token_to-core :
      (n : ℕ) (delta : String) (o : Option Generation) (st : Coordinator N)
      → core (token_to cfg n delta o st) ≡ core st
  token_to-core n delta none st = refl
  token_to-core n delta (some task) st =
      if_both (SameCore st) cfg.has_llm_processor
        {x = stored cfg n (on_token cfg delta task.reply st)} {y = st}
        (on_token-core delta task.reply st) refl

  pub reply_of-core :
      (trim : String → String) (n : ℕ) (result : Option PedagogicalReply) (o : Option Generation)
      (st : Coordinator N)
      → core (reply_of cfg trim n result o st) ≡ core st
  reply_of-core trim n result none st = refl
  reply_of-core trim n result (some task) st =
      let done : Coordinator N = record st { llm_tasks = without n st.llm_tasks } in
      if_both (SameCore st) cfg.has_llm_processor {x = finish_pipeline cfg result task.reply done}
        {y = fallback_of cfg (build_fallback_reply trim task.suspicious_count) done}
        (finish_pipeline-core result task.reply done)
        (fallback_of-core (build_fallback_reply trim task.suspicious_count) done)

module _ {N : Type 0} where
  pub record_user_turn-core :
      (job : Job) (n : ℕ) (text : String) (st : Coordinator N)
      → SameCore st (record_user_turn job n text st)
  unfolding record_user_turn
  record_user_turn-core job n text st =
      if_both (SameCore st) (job.is_final && not (is_empty (strip text))) {y = st} refl refl

  -- A transcription changes the loop's task alone.
  pub after_transcription-core :
      (job : Job) (result : Option Analysis) (st : Coordinator N)
      → core (after_transcription job result st)
        ≡ record (core st) { inference_task = (after_transcription job result st).inference_task }
  unfolding after_transcription send_json
  after_transcription-core job none st = refl
  after_transcription-core job (some analysis) st =
      let text = sanitize_transcript analysis.raw_text in
      let remembered : Coordinator N = record st {
        inference_task = waiting;
        previous_stt_text =
            if job.is_final && not (is_empty (strip text))
            then strip text
            else st.previous_stt_text;
      } in
      let same =
        record_user_turn-core job analysis.suspicious_count text
          (send_json (subtitle job.is_final job.trigger text) remembered) in
      same
      ∙ ap (λ (t : LoopTask). record (core st) { inference_task = t })
          (sym (ap (λ (c : Core). c.inference_task) same))
