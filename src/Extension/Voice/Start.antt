-- ===== src/Extension/Voice/Start.antt =====
-- The bytes with which an utterance starts.
use luve.Extension.Voice.Ingest.{
  emit_partial, extend_speech, finalize_if_long, hear, hear_speech, ingest_audio_frame,
  max_utterance_bytes, start_speaking, take_frame,
}
use luve.Prelude.{
  length-drop, drop-append, length-append, ℕ, ◌+◌, ◌-◌, ◌≤◌, ◌<◌, ◌≡◌, refl, arith, true, false,
  Option, List, [], ◌++◌, length, drop, if◌then◌else◌, if_cases, if_both, ap, ◌∙◌, leb,
}
use luve.Extension.Voice.{
  is_empty_list, enqueue, Voice, VoiceSettings, append_to_pre_roll, is_speech_frame,
  record_utterance_frame,
}
use luve.Extension.Voice.Frames.{Signal, measure_dbfs}
use luve.Extension.Voice.Recent.{kept-recent}

module _ {N : Type 0} (sig : Signal N) (cfg : VoiceSettings N) where
  partial-pcm :
      (now : N) (v : Voice N) → (emit_partial sig cfg now v).utterance_pcm ≡ v.utterance_pcm
  unfolding emit_partial enqueue
  partial-pcm now v = if_both (λ (w : Voice N). w.utterance_pcm ≡ v.utterance_pcm) _ refl refl

  short-pcm :
      (now : N) (v : Voice N)
      → length v.utterance_pcm < max_utterance_bytes sig cfg
      → finalize_if_long sig cfg now v ≡ v
  unfolding finalize_if_long
  short-pcm now v short =
      if_cases (λ w. w ≡ v) (leb (max_utterance_bytes sig cfg) (length v.utterance_pcm))
        (λ long. absurd (ground (arith, long, short))) (λ _. refl)

  extend-pcm :
      (payload : List ℕ) (dbfs : Option N) (now : N) (v : Voice N)
      → length (v.utterance_pcm ++ payload) < max_utterance_bytes sig cfg
      → (extend_speech sig cfg payload dbfs now v).utterance_pcm ≡ v.utterance_pcm ++ payload
  unfolding extend_speech record_utterance_frame
  extend-pcm payload dbfs now v short =
      let extended = record v {
        utterance_pcm = v.utterance_pcm ++ payload;
        silence_duration_seconds = sig.of_nat 0;
      } in
      let counted = record_utterance_frame sig cfg dbfs true now extended in
      let w = emit_partial sig cfg now counted in
      let same : w.utterance_pcm ≡ v.utterance_pcm ++ payload = partial-pcm now counted in
      ap (λ x. x.utterance_pcm) (short-pcm now w (omega (arith, ap length same, short))) ∙ same

  started : N → Voice N → Voice N
  started now v =
      start_speaking sig cfg now (record v { pending_speech_frames = v.pending_speech_frames + 1 })

  starts-extended :
      (payload : List ℕ) (dbfs : Option N) (now : N) (v : Voice N)
      → v.is_speaking ≡ false
      → v.is_assistant_speaking ≡ false
      → cfg.vad_speech_start_frames ≤ v.pending_speech_frames + 1
      → take_frame sig cfg true payload dbfs now v
        ≡ extend_speech sig cfg payload dbfs now (started now v)
  unfolding take_frame hear hear_speech started
  starts-extended payload dbfs now v quiet silent due = ground (arith, quiet, silent, due)

  started-pcm :
      (now : N) (v : Voice N)
      → v.utterance_pcm ≡ []
      → (started now v).utterance_pcm ≡ v.pre_roll_pcm
  unfolding started start_speaking
  started-pcm now v blank = ap (λ x. if is_empty_list x then v.pre_roll_pcm else x) blank

  -- The pre-roll ends with a frame that is not longer than it may be.
  pre_roll-ends :
      (payload : List ℕ) (v : Voice N)
      → length payload ≤ cfg.vad_pre_roll_bytes
      → (append_to_pre_roll sig cfg payload v).pre_roll_pcm
        ≡ drop (length (v.pre_roll_pcm ++ payload) - cfg.vad_pre_roll_bytes) v.pre_roll_pcm
          ++ payload
  unfolding append_to_pre_roll
  pre_roll-ends payload v small =
      let pcm = v.pre_roll_pcm in
      kept-recent sig cfg (pcm ++ payload)
      ∙ drop-append (length (pcm ++ payload) - cfg.vad_pre_roll_bytes) pcm payload
          (omega (arith, length-append pcm payload, small))

  appended :
      (payload : List ℕ) (v : Voice N)
      → let w = append_to_pre_roll sig cfg payload v in
        (w.is_speaking ≡ v.is_speaking)
        × (w.utterance_pcm ≡ v.utterance_pcm)
        × (w.is_assistant_speaking ≡ v.is_assistant_speaking)
        × (w.pending_speech_frames ≡ v.pending_speech_frames)
  unfolding append_to_pre_roll
  appended payload v = (refl, refl, refl, refl)

  -- A frame of speech that starts an utterance is in it twice: once at the end of the pre-roll, and once
  -- more. The frame is no longer than the pre-roll may be, nothing is kept of an utterance before, the
  -- assistant is silent, and the utterance is not yet as long as one may be.
  pub start-twice :
      (payload : List ℕ) (now : N) (v : Voice N)
      → is_empty_list payload ≡ false
      → length payload ≤ cfg.vad_pre_roll_bytes
      → v.is_speaking ≡ false
      → v.utterance_pcm ≡ []
      → v.is_assistant_speaking ≡ false
      → is_speech_frame sig cfg (measure_dbfs sig payload) (append_to_pre_roll sig cfg payload v)
        ≡ true
      → cfg.vad_speech_start_frames ≤ v.pending_speech_frames + 1
      → cfg.vad_pre_roll_bytes + length payload < max_utterance_bytes sig cfg
      → (before : List ℕ) × ((ingest_audio_frame sig cfg payload now v).utterance_pcm
          ≡ before ++ payload ++ payload)
  unfolding ingest_audio_frame
  start-twice payload now v there small quiet blank silent speech due short =
      let w = append_to_pre_roll sig cfg payload v in
      let dbfs = measure_dbfs sig payload in
      let (same_speaking, same_pcm, same_assistant, same_pending) = appended payload v in
      let before =
        drop (length (v.pre_roll_pcm ++ payload) - cfg.vad_pre_roll_bytes) v.pre_roll_pcm in
      let begun : (started now w).utterance_pcm ≡ before ++ payload =
        started-pcm now w (same_pcm ∙ blank) ∙ pre_roll-ends payload v small in
      let extended =
        starts-extended payload dbfs now w (same_speaking ∙ quiet) (same_assistant ∙ silent)
          (rw same_pending due) in
      let fits : length ((started now w).utterance_pcm ++ payload) < max_utterance_bytes sig cfg =
        omega (
          arith,
          short,
          small,
          ap length begun,
          length-append (started now w).utterance_pcm payload,
          length-append before payload,
          length-append v.pre_roll_pcm payload,
          length-drop (length (v.pre_roll_pcm ++ payload) - cfg.vad_pre_roll_bytes) v.pre_roll_pcm,
        ) in
      (
        before,
        if_cases (λ (x : Voice N). x.utterance_pcm ≡ before ++ payload ++ payload)
            (is_empty_list payload) (λ nothing. absurd (ground (arith, nothing, there)))
            (λ _.
              ap (λ b. (take_frame sig cfg b payload dbfs now w).utterance_pcm) speech
              ∙ ap (λ x. x.utterance_pcm) extended
              ∙ extend-pcm payload dbfs now (started now w) fits
              ∙ ap (λ x. x ++ payload) begun),
      )
