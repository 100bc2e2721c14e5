-- ===== src/Extension/Voice/Heard.antt =====
-- What holds of the voice's state after every frame.
use luve.Extension.Voice.Ingest.{emit_partial, end_silence, finalize_if_long}
use Prim.Native.String.{String}
use luve.Extension.Voice.{
  assistant_generation_aborted, barge_in_ack, assistant_audio_aborted, effective_vad_threshold_db,
  stop_tts_pipeline, reset_current_utterance, Message, update_noise_floor, handle_barge_in,
  finalize_utterance, Voice, VoiceSettings, offered, emit_json, enqueue,
}
use luve.Extension.Voice.Frames.{Signal, UtteranceStats}
use luve.Prelude.{
  ◌||◌, ◌==◌, not, ℕ, ◌+◌, ◌≤◌, ◌<◌, ◌≡◌, refl, arith, Bool, true, false, Option, none, some, List,
  [], ◌∷◌, length, if◌then◌else◌, if_both,
}
use luve.Extension.Queue.{AudioStats, InferenceJob, InferenceQueue, is_empty_list}
use luve.Extension.Queue.Admits.{admitted, enqueue_inference_job-admitted}

-- Between utterances nothing is kept of one. During an utterance there are bytes, and the frames
-- counted are the speech and the silence in it.
abbrev pub Heard : {N : Type 0} → Bool → List ℕ → Option (UtteranceStats N) → Type 0
Heard {N} false pcm stats = (pcm ≡ []) × (stats ≡ none)
Heard {N} true pcm stats =
    (0 < length pcm)
    × ((s : UtteranceStats N) × ((stats ≡ some s)
          × (s.frames ≡ s.speech_frames + s.silence_frames)
          × (0 < s.frames)))

abbrev pub HasRoom : {N : Type 0} → Option (InferenceQueue N) → Type 0
HasRoom none = Unit
HasRoom (some q) = length q.jobs ≤ 1

-- `recent` is what the pre-roll holds.
pub record IsSound {N : Type 0} (cfg : VoiceSettings N) (recent : List ℕ) (v : Voice N)
    : Type 0 where
  pub pre_roll : v.pre_roll_pcm ≡ recent
  pub heard : Heard v.is_speaking v.utterance_pcm v.current_utterance_stats
  pub room : HasRoom v.inference_queue
  pub pending : (if v.is_speaking then 0 else v.pending_speech_frames) < cfg.vad_speech_start_frames

module _ {N : Type 0} where
  admitted-room :
      (busy : Bool) (job : InferenceJob N) (jobs : List (InferenceJob N))
      → length jobs ≤ 1
      → length (admitted busy job jobs) ≤ 1
  admitted-room busy job [] h = ground arith
  admitted-room busy job (j ∷ jobs) h = ground (arith, h)

  offered-room :
      (busy : Bool) (job : InferenceJob N) (o : Option (InferenceQueue N))
      → HasRoom o
      → HasRoom (offered busy job o)
  offered-room busy job none h = tt
  offered-room busy job (some q) h =
      rw (enqueue_inference_job-admitted busy job q h).0 (admitted-room busy job q.jobs h)

module _ {N : Type 0} (sig : Signal N) (cfg : VoiceSettings N) (recent : List ℕ)
    (starts : 0 < cfg.vad_speech_start_frames) where
  pub emit_json-IsSound :
      (message : Message N) (v : Voice N)
      → IsSound cfg recent v
      → IsSound cfg recent (emit_json message v)
  unfolding emit_json
  emit_json-IsSound message v s = record {
    pre_roll = s.pre_roll;
    heard = s.heard;
    room = s.room;
    pending = s.pending;
  }

  pub enqueue-IsSound :
      (is_final : Bool) (trigger : String) (pcm : List ℕ) (stats : Option (AudioStats N))
      (suppress : Bool) (now : N) (v : Voice N)
      → IsSound cfg recent v
      → IsSound cfg recent (enqueue is_final trigger pcm stats suppress now v)
  unfolding enqueue
  enqueue-IsSound is_final trigger pcm stats suppress now v s = record {
    pre_roll = s.pre_roll;
    heard = s.heard;
    room = offered-room v.stt_inference_busy _ v.inference_queue s.room;
    pending = s.pending;
  }

  pub handle_barge_in-IsSound :
      (v : Voice N) → IsSound cfg recent v → IsSound cfg recent (handle_barge_in v)
  unfolding handle_barge_in stop_tts_pipeline
  handle_barge_in-IsSound v s =
      let stopped = stop_tts_pipeline v in
      let s' : IsSound cfg recent stopped = record {
        pre_roll = s.pre_roll;
        heard = s.heard;
        room = s.room;
        pending = s.pending;
      } in
      let had_tts = v.has_tts_processor || v.is_assistant_speaking in
      let told = if had_tts then emit_json assistant_audio_aborted stopped else stopped in
      let told-sound : IsSound cfg recent told =
        if_both (IsSound cfg recent) had_tts (emit_json-IsSound assistant_audio_aborted stopped s')
          s' in
      emit_json-IsSound barge_in_ack _ (
        if_both (IsSound cfg recent) (v.llm_tasks == 0) told-sound
          (emit_json-IsSound assistant_generation_aborted told told-sound))

  pub update_noise_floor-IsSound :
      (dbfs : Option N) (v : Voice N)
      → IsSound cfg recent v
      → IsSound cfg recent (update_noise_floor sig cfg dbfs v)
  unfolding update_noise_floor
  update_noise_floor-IsSound none v s = s
  update_noise_floor-IsSound (some dbfs) v s =
      if_both (IsSound cfg recent) (sig.at_least dbfs (effective_vad_threshold_db sig cfg v)) s
        (record { pre_roll = s.pre_roll; heard = s.heard; room = s.room; pending = s.pending })

  pub reset-IsSound :
      (v : Voice N)
      → v.pre_roll_pcm ≡ recent
      → HasRoom v.inference_queue
      → IsSound cfg recent (reset_current_utterance sig cfg v)
  unfolding reset_current_utterance
  reset-IsSound v kept room = record {
    pre_roll = kept;
    heard = (refl, refl);
    room = room;
    pending = starts;
  }

  pub finalize-IsSound :
      (trigger : String) (suppress : Bool) (now : N) (v : Voice N)
      → IsSound cfg recent v
      → IsSound cfg recent (finalize_utterance sig cfg trigger suppress now v)
  unfolding finalize_utterance
  finalize-IsSound trigger suppress now v s =
      if_both (IsSound cfg recent) (not v.is_speaking || is_empty_list v.utterance_pcm) s (
        enqueue-IsSound true trigger v.utterance_pcm _ suppress now
          (reset_current_utterance sig cfg v) (reset-IsSound v s.pre_roll s.room))

  pub emit_partial-IsSound :
      (now : N) (v : Voice N)
      → IsSound cfg recent v
      → IsSound cfg recent (emit_partial sig cfg now v)
  unfolding emit_partial
  emit_partial-IsSound now v s =
      if_both (IsSound cfg recent) _
        (enqueue-IsSound false "partial_timer" _ _ false now
          (record v { last_partial_emit_at = now })
          (record { pre_roll = s.pre_roll; heard = s.heard; room = s.room; pending = s.pending }))
        s

  pub finalize_if_long-IsSound :
      (now : N) (v : Voice N)
      → IsSound cfg recent v
      → IsSound cfg recent (finalize_if_long sig cfg now v)
  unfolding finalize_if_long
  finalize_if_long-IsSound now v s =
      if_both (IsSound cfg recent) _ (finalize-IsSound "max_utterance" false now v s) s

  pub end_silence-IsSound :
      (now : N) (v : Voice N)
      → IsSound cfg recent v
      → IsSound cfg recent (end_silence sig cfg now v)
  unfolding end_silence
  end_silence-IsSound now v s = if_both (IsSound cfg recent) _ s (
      if_both (IsSound cfg recent) _
        (let s' = emit_json-IsSound _ v s in reset-IsSound _ s'.pre_roll s'.room)
        (finalize-IsSound "vad_silence" false now v s))
