-- ===== src/Extension/Voice/Ingest.antt =====
-- luve_extension.py: `_ingest_audio_frame` and `_handle_flush`.
use luve.Prelude.{
  ℕ, ◌+◌, ◌&&◌, Bool, true, false, Option, some, List, ◌++◌, length, if◌then◌else◌, leb, ltb, not,
}
use luve.Extension.Queue.{is_empty_list}
use luve.Extension.Voice.Frames.{Signal, new_stats, bytes_per_second, measure_dbfs}
use luve.Extension.Voice.{
  Voice, VoiceSettings, append_to_pre_roll, current_speech_ms, effective_vad_threshold_db,
  emit_json, enqueue, finalize_utterance, flush_ack, handle_barge_in, is_speech_frame, last_bytes,
  record_utterance_frame, reset_current_utterance, snapshot_utterance_stats, stt_vad_ignored,
  update_noise_floor,
}

module _ {N : Type 0} (sig : Signal N) (cfg : VoiceSettings N) where
  -- The first frame of an utterance that counts; the pre-roll has this frame already.
  unfoldable pub start_speaking : N → Voice N → Voice N
  start_speaking now v = record v {
    is_speaking = true;
    current_utterance_stats = some (new_stats sig now);
    silence_duration_seconds = sig.of_nat 0;
    utterance_pcm = if is_empty_list v.utterance_pcm then v.pre_roll_pcm else v.utterance_pcm;
  }

  unfoldable pub emit_partial : N → Voice N → Voice N
  emit_partial now v =
      let due =
        leb cfg.stt_partial_min_audio_bytes (length v.utterance_pcm)
        && sig.at_least (current_speech_ms sig cfg v) (sig.of_nat cfg.stt_partial_min_speech_ms)
        && sig.at_least (sig.minus now v.last_partial_emit_at)
            cfg.stt_partial_emit_interval_seconds in
      let partial_pcm = last_bytes cfg.stt_partial_window_bytes v.utterance_pcm in
      if due
      then enqueue false "partial_timer" partial_pcm
          (snapshot_utterance_stats sig cfg (length partial_pcm) "partial_timer" v) false now
          (record v { last_partial_emit_at = now })
      else v

  unfoldable pub max_utterance_bytes : ℕ
  max_utterance_bytes =
      sig.to_int (sig.times cfg.stt_max_utterance_seconds (sig.of_nat bytes_per_second))

  unfoldable pub finalize_if_long : N → Voice N → Voice N
  finalize_if_long now v =
      if leb max_utterance_bytes (length v.utterance_pcm)
      then finalize_utterance sig cfg "max_utterance" false now v
      else v

  unfoldable pub extend_speech : List ℕ → Option N → N → Voice N → Voice N
  extend_speech payload dbfs now v = finalize_if_long now (
      emit_partial now (
        record_utterance_frame sig cfg dbfs true now (record v {
          utterance_pcm = v.utterance_pcm ++ payload;
          silence_duration_seconds = sig.of_nat 0;
        })))

  unfoldable pub hear_speech : List ℕ → Option N → N → Voice N → Voice N
  hear_speech payload dbfs now v =
      let counted = record v { pending_speech_frames = v.pending_speech_frames + 1 } in
      if v.is_speaking
      then extend_speech payload dbfs now counted
      else if ltb counted.pending_speech_frames cfg.vad_speech_start_frames
      then counted
      else extend_speech payload dbfs now (start_speaking now counted)

  unfoldable pub end_silence : N → Voice N → Voice N
  end_silence now v =
      if sig.less v.silence_duration_seconds cfg.vad_silence_timeout_seconds
      then v
      else if sig.less (current_speech_ms sig cfg v) (sig.of_nat cfg.stt_final_min_speech_ms)
      then reset_current_utterance sig cfg (
          emit_json
            (stt_vad_ignored (sig.round2 (current_speech_ms sig cfg v)) cfg.stt_final_min_speech_ms
              (sig.round2 v.vad_noise_floor_db) (sig.round2 (effective_vad_threshold_db sig cfg v)))
            v)
      else finalize_utterance sig cfg "vad_silence" false now v

  unfoldable pub hear_silence : List ℕ → Option N → N → Voice N → Voice N
  hear_silence payload dbfs now v =
      let quiet = record v { pending_speech_frames = 0 } in
      if not v.is_speaking
      then update_noise_floor sig cfg dbfs quiet
      else end_silence now (
          record_utterance_frame sig cfg dbfs false now (record quiet {
            utterance_pcm = v.utterance_pcm ++ payload;
            silence_duration_seconds =
                sig.plus v.silence_duration_seconds
                  (sig.over (sig.of_nat (length payload)) (sig.of_nat bytes_per_second));
          }))

  unfoldable pub hear : Bool → List ℕ → Option N → N → Voice N → Voice N
  hear is_speech payload dbfs now v =
      if is_speech then hear_speech payload dbfs now v else hear_silence payload dbfs now v

  -- The frame after the pre-roll has it, its loudness and whether it is speech.
  unfoldable pub take_frame : Bool → List ℕ → Option N → N → Voice N → Voice N
  take_frame is_speech payload dbfs now v =
      if v.is_assistant_speaking && cfg.assistant_barge_in_enabled
      then if is_speech
        then hear is_speech payload dbfs now (handle_barge_in v)
        else update_noise_floor sig cfg dbfs v
      else if v.is_assistant_speaking
      then v
      else hear is_speech payload dbfs now v

  unfoldable pub ingest_audio_frame : List ℕ → N → Voice N → Voice N
  ingest_audio_frame payload now v =
      let heard = append_to_pre_roll sig cfg payload v in
      let dbfs = measure_dbfs sig payload in
      if is_empty_list payload
      then v
      else take_frame (is_speech_frame sig cfg dbfs heard) payload dbfs now heard

  unfoldable pub handle_flush : Bool → N → Voice N → Voice N
  handle_flush suppress_response now v =
      let final_pcm = v.utterance_pcm in
      let audio_stats = snapshot_utterance_stats sig cfg (length final_pcm) "flush" v in
      emit_json flush_ack (
        if is_empty_list final_pcm
        then reset_current_utterance sig cfg v
        else enqueue true "flush" final_pcm audio_stats suppress_response now
            (reset_current_utterance sig cfg v))
