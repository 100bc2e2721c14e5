-- ===== src/Extension/Voice/Keeps.antt =====
-- Frames and flushes keep the voice's state sound.
use luve.Extension.Voice.Ingest.{
  extend_speech, handle_flush, hear, hear_silence, hear_speech, start_speaking, take_frame,
}
use luve.Extension.Voice.{ltb, flush_ack, record_utterance_frame, Voice, VoiceSettings}
use luve.Extension.Voice.Frames.{add_frame, stats_or_new, new_stats, Signal, UtteranceStats}
use luve.Prelude.{
  ◌&&◌, length-append, not, ℕ, ◌+◌, ◌<◌, ◌≡◌, refl, arith, Bool, true, false, Option, none, some,
  List, [], ◌∷◌, ◌++◌, length, if_cases, if_both,
}
use luve.Extension.Queue.{is_empty_list}
use luve.Extension.Voice.Heard.{
  Heard, HasRoom, IsSound, emit_json-IsSound, enqueue-IsSound, handle_barge_in-IsSound,
  update_noise_floor-IsSound, reset-IsSound, emit_partial-IsSound, finalize_if_long-IsSound,
  end_silence-IsSound,
}

module _ {N : Type 0} (sig : Signal N) (cfg : VoiceSettings N) (recent : List ℕ)
    (starts : 0 < cfg.vad_speech_start_frames) where
  -- Before its frame is counted, an utterance has its bytes and its counts.
  abbrev Begun : Bool → Option (UtteranceStats N) → Type 0
  Begun speaking stats =
      (speaking ≡ true)
      × ((s : UtteranceStats N) × ((stats ≡ some s)
            × (s.frames ≡ s.speech_frames + s.silence_frames)))

  counted :
      (dbfs : Option N) (is_speech assistant : Bool) (s : UtteranceStats N)
      → s.frames ≡ s.speech_frames + s.silence_frames
      → let s' = add_frame sig dbfs is_speech assistant s in
        (s'.frames ≡ s'.speech_frames + s'.silence_frames) × (0 < s'.frames)
  unfolding add_frame
  counted none is_speech assistant s h = ground (arith, h)
  counted (some x) is_speech assistant s h = ground (arith, h)

  full-append : (pcm payload : List ℕ) → is_empty_list payload ≡ false → 0 < length (pcm ++ payload)
  full-append pcm [] h = absurd cc
  full-append pcm (x ∷ xs) h = omega (arith, length-append pcm (x ∷ xs))

  heard-counted :
      (dbfs : Option N) (is_speech assistant : Bool) (now : N) (pcm : List ℕ) (b : Bool)
      (o : Option (UtteranceStats N))
      → Begun b o
      → 0 < length pcm
      → Heard b pcm (some (add_frame sig dbfs is_speech assistant (stats_or_new sig now o)))
  heard-counted dbfs is_speech assistant now pcm false o (speaking, _) long = absurd cc
  heard-counted dbfs is_speech assistant now pcm true none (_, (s, (there, _))) long = absurd cc
  heard-counted dbfs is_speech assistant now pcm true (some x) (_, (s, (there, sums))) long =
      let sums' : x.frames ≡ x.speech_frames + x.silence_frames = ground (arith, there, sums) in
      let (sums'', some_frames) = counted dbfs is_speech assistant x sums' in
      (long, (_, (refl, sums'', some_frames)))

  record-IsSound :
      (dbfs : Option N) (is_speech : Bool) (now : N) (v : Voice N)
      → v.pre_roll_pcm ≡ recent
      → HasRoom v.inference_queue
      → Begun v.is_speaking v.current_utterance_stats
      → 0 < length v.utterance_pcm
      → IsSound cfg recent (record_utterance_frame sig cfg dbfs is_speech now v)
  unfolding record_utterance_frame
  record-IsSound dbfs is_speech now v kept room begun long = record {
    pre_roll = kept;
    heard =
        heard-counted dbfs is_speech v.is_assistant_speaking now v.utterance_pcm v.is_speaking
          v.current_utterance_stats begun long;
    room = room;
    pending = ground (arith, begun.0, starts);
  }

  extend_speech-IsSound :
      (payload : List ℕ) (dbfs : Option N) (now : N) (v : Voice N)
      → is_empty_list payload ≡ false
      → v.pre_roll_pcm ≡ recent
      → HasRoom v.inference_queue
      → Begun v.is_speaking v.current_utterance_stats
      → IsSound cfg recent (extend_speech sig cfg payload dbfs now v)
  unfolding extend_speech
  extend_speech-IsSound payload dbfs now v there kept room begun =
      finalize_if_long-IsSound sig cfg recent starts now _ (
        emit_partial-IsSound sig cfg recent starts now _ (
          record-IsSound dbfs true now _ kept room begun
            (full-append v.utterance_pcm payload there)))

  heard-Begun :
      (b : Bool) (pcm : List ℕ) (o : Option (UtteranceStats N))
      → Heard b pcm o
      → b ≡ true
      → Begun b o
  heard-Begun false pcm o h e = absurd cc
  heard-Begun true pcm o (_, (s, (there, sums, _))) e = (refl, (s, (there, sums)))

  hear_speech-IsSound :
      (payload : List ℕ) (dbfs : Option N) (now : N) (v : Voice N)
      → is_empty_list payload ≡ false
      → IsSound cfg recent v
      → IsSound cfg recent (hear_speech sig cfg payload dbfs now v)
  unfolding hear_speech start_speaking new_stats
  hear_speech-IsSound payload dbfs now v there s =
      if_cases (IsSound cfg recent) v.is_speaking
        (λ speaking.
          extend_speech-IsSound payload dbfs now _ there s.pre_roll s.room
            (heard-Begun v.is_speaking v.utterance_pcm v.current_utterance_stats s.heard speaking))
        λ quiet.
          if_cases (IsSound cfg recent)
            (ltb (v.pending_speech_frames + 1) cfg.vad_speech_start_frames)
            (λ few. record {
              pre_roll = s.pre_roll;
              heard = s.heard;
              room = s.room;
              pending = ground (arith, few, starts);
            })
            λ _.
              extend_speech-IsSound payload dbfs now _ there s.pre_roll s.room
                (refl, (new_stats sig now, (refl, refl)))

  hear_silence-IsSound :
      (payload : List ℕ) (dbfs : Option N) (now : N) (v : Voice N)
      → is_empty_list payload ≡ false
      → IsSound cfg recent v
      → IsSound cfg recent (hear_silence sig cfg payload dbfs now v)
  unfolding hear_silence
  hear_silence-IsSound payload dbfs now v there s =
      if_cases (IsSound cfg recent) (not v.is_speaking)
        (λ _. update_noise_floor-IsSound sig cfg recent starts dbfs _ (record {
          pre_roll = s.pre_roll;
          heard = s.heard;
          room = s.room;
          pending = ground (arith, starts);
        }))
        λ speaking. end_silence-IsSound sig cfg recent starts now _ (
          record-IsSound dbfs false now _ s.pre_roll s.room
            (heard-Begun v.is_speaking v.utterance_pcm v.current_utterance_stats s.heard
              (ground (arith, speaking)))
            (full-append v.utterance_pcm payload there))

  hear-IsSound :
      (is_speech : Bool) (payload : List ℕ) (dbfs : Option N) (now : N) (v : Voice N)
      → is_empty_list payload ≡ false
      → IsSound cfg recent v
      → IsSound cfg recent (hear sig cfg is_speech payload dbfs now v)
  unfolding hear
  hear-IsSound is_speech payload dbfs now v there s =
      if_both (IsSound cfg recent) is_speech (hear_speech-IsSound payload dbfs now v there s)
        (hear_silence-IsSound payload dbfs now v there s)

  pub take_frame-IsSound :
      (is_speech : Bool) (payload : List ℕ) (dbfs : Option N) (now : N) (v : Voice N)
      → is_empty_list payload ≡ false
      → IsSound cfg recent v
      → IsSound cfg recent (take_frame sig cfg is_speech payload dbfs now v)
  unfolding take_frame
  take_frame-IsSound is_speech payload dbfs now v there s =
      if_both (IsSound cfg recent) (v.is_assistant_speaking && cfg.assistant_barge_in_enabled)
        (if_both (IsSound cfg recent) is_speech
          (hear-IsSound is_speech payload dbfs now _ there
            (handle_barge_in-IsSound sig cfg recent starts v s))
          (update_noise_floor-IsSound sig cfg recent starts dbfs v s))
        (if_both (IsSound cfg recent) v.is_assistant_speaking s
          (hear-IsSound is_speech payload dbfs now v there s))

  pub flush-IsSound :
      (suppress : Bool) (now : N) (v : Voice N)
      → IsSound cfg recent v
      → IsSound cfg recent (handle_flush sig cfg suppress now v)
  unfolding handle_flush
  flush-IsSound suppress now v s =
      let reset = reset-IsSound sig cfg recent starts v s.pre_roll s.room in
      emit_json-IsSound sig cfg recent starts flush_ack _ (
        if_both (IsSound cfg recent) (is_empty_list v.utterance_pcm) reset (
          enqueue-IsSound sig cfg recent starts true "flush" v.utterance_pcm _ suppress now _
            reset))
