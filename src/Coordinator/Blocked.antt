-- ===== src/Coordinator/Blocked.antt =====
-- media/coordinator.py: `stop` after the loop was ended by an exception.
use luve.Prelude.{
  ℕ, ◌≡◌, sym, subst, arith, ◌&&◌, ◌||◌, Bool, true, false, not, List, [], ◌∷◌, ◌++◌, length,
  length-append, length-drop, drop, if◌then◌else◌, if_both, if_cases, leb,
}
use luve.Extension.Queue.{is_empty_list}
use luve.Extension.Voice.Frames.{Signal}
use luve.Coordinator.{
  String, bytes_per_second, Coordinator, CoordinatorSettings, Job, StopCall, is_full, put_job,
  put_if_room, enqueue_inference_job, reset_turn_state, raised, not_called, putting, stopped,
  failed,
}
use luve.Extension.Voice.{last_bytes}
use luve.Coordinator.{
  finalize_current_utterance, notify_silence, append_to_pre_roll, start_speaking, emit_partial,
  extend_speech, hear_speech, end_silence, hear_silence, notify_audio_chunk, is_speech_frame,
}
use luve.Coordinator.Sound.{Core, core, on_user_turn_started-core}

-- Whether a call of `stop` is over.
abbrev pub is_over : StopCall → Bool
is_over stopped = true
is_over failed = true
is_over _ = false

abbrev pub waits_at_most : StopCall → Bool
waits_at_most not_called = true
waits_at_most putting = true
waits_at_most _ = false

-- The loop has ended with an exception, a job is queued, and `stop` has at most come to its `put`.
abbrev pub IsStuck : Core → Type 0
IsStuck c =
    (c.inference_task ≡ raised)
    × (length c.inference_queue ≡ 1)
    × (waits_at_most c.stop_call ≡ true)

module _ {N : Type 0} where
  abbrev pub Stuck : Coordinator N → Type 0
  Stuck st = IsStuck (core st)

  put_if_room-Stuck :
      (job : Job) (st : Coordinator N)
      → st.inference_task ≡ raised
      → waits_at_most st.stop_call ≡ true
      → length st.inference_queue ≡ 0
      → Stuck (put_if_room job st)
  unfolding is_full
  put_if_room-Stuck job st dead waits free =
      if_cases Stuck (is_full st.inference_queue) {x = st} {y = put_job job st}
        (λ e. absurd (ground (arith, e, free)))
        (λ e. (dead, omega (arith, free, length-append st.inference_queue (job ∷ [])), waits))

  enqueue-Stuck : (job : Job) (st : Coordinator N) → Stuck st → Stuck (enqueue_inference_job job st)
  unfolding enqueue_inference_job is_full
  enqueue-Stuck job st (dead, one, waits) =
      let room : Coordinator N = record st { inference_queue = drop 1 st.inference_queue } in
      if_both Stuck (is_empty_list job.pcm_bytes || st.closed) {x = st}
        {y = if not (is_full st.inference_queue)
          then put_if_room job st
          else if not job.is_final
          then st
          else put_if_room job room}
        (dead, one, waits)
        (if_cases Stuck (not (is_full st.inference_queue)) {x = put_if_room job st}
          {y = if not job.is_final then st else put_if_room job room}
          (λ e. absurd (ground (arith, e, one)))
          (λ e.
            if_both Stuck (not job.is_final) {x = st} {y = put_if_room job room} (dead, one, waits)
              (put_if_room-Stuck job room dead waits
                (omega (arith, one, length-drop 1 st.inference_queue)))))

module _ {N : Type 0} (sig : Signal N) where
  finalize-Stuck :
      (trigger : String) (st : Coordinator N)
      → Stuck st
      → Stuck (finalize_current_utterance sig trigger st)
  unfolding finalize_current_utterance reset_turn_state
  finalize-Stuck trigger st h =
      let job : Job = record { is_final = true; trigger = trigger; pcm_bytes = st.utterance_pcm } in
      let reset = reset_turn_state sig st in
      if_both Stuck (is_empty_list st.utterance_pcm) {x = reset}
        {y = enqueue_inference_job job reset} h (enqueue-Stuck job reset h)

  pub notify_silence-Stuck : (st : Coordinator N) → Stuck st → Stuck (notify_silence sig st)
  unfolding notify_silence
  notify_silence-Stuck st h =
      if_both Stuck st.closed {x = st} {y = finalize_current_utterance sig "silence" st} h
        (finalize-Stuck "silence" st h)

module _ {N : Type 0} (sig : Signal N) (cfg : CoordinatorSettings N) where
  start_speaking-Stuck :
      (pending : Bool) (st : Coordinator N) → Stuck st → Stuck (start_speaking sig cfg pending st)
  unfolding start_speaking
  start_speaking-Stuck pending st h =
      subst IsStuck
        (sym (
          on_user_turn_started-core cfg pending (record st {
            is_speaking = true;
            silence_duration_seconds = sig.of_nat 0;
            utterance_pcm =
                if not (is_empty_list st.pre_roll_pcm) && is_empty_list st.utterance_pcm
                then st.utterance_pcm ++ st.pre_roll_pcm
                else st.utterance_pcm;
          })))
        h

  extend_speech-Stuck :
      (payload : List ℕ) (now : N) (st : Coordinator N)
      → Stuck st
      → Stuck (extend_speech sig cfg payload now st)
  unfolding extend_speech emit_partial
  extend_speech-Stuck payload now st h =
      let longer : Coordinator N = record st {
        utterance_pcm = st.utterance_pcm ++ payload;
        silence_duration_seconds = sig.of_nat 0;
      } in
      let partial_pcm = last_bytes cfg.stt_partial_window_bytes longer.utterance_pcm in
      let job : Job = record {
        is_final = false;
        trigger = "partial_timer";
        pcm_bytes = partial_pcm;
      } in
      let noted : Coordinator N = record longer { last_partial_emit_at = now } in
      let due =
        leb cfg.stt_partial_min_audio_bytes (length longer.utterance_pcm)
        && sig.at_least (sig.minus now longer.last_partial_emit_at)
            cfg.stt_partial_emit_interval_seconds in
      if_both Stuck due {x = enqueue_inference_job job noted} {y = longer}
        (enqueue-Stuck job noted h) h

  hear_silence-Stuck :
      (payload : List ℕ) (st : Coordinator N) → Stuck st → Stuck (hear_silence sig cfg payload st)
  unfolding hear_silence end_silence
  hear_silence-Stuck payload st h =
      let longer : Coordinator N = record st {
        utterance_pcm = st.utterance_pcm ++ payload;
        silence_duration_seconds =
            sig.plus st.silence_duration_seconds
              (sig.over (sig.of_nat (length payload)) (sig.of_nat bytes_per_second));
      } in
      if_both Stuck (not st.is_speaking) {x = st} {y = end_silence sig cfg longer} h (
        if_both Stuck (sig.less longer.silence_duration_seconds cfg.vad_silence_timeout_seconds)
          {x = longer} {y = finalize_current_utterance sig "vad_silence" longer} h
          (finalize-Stuck sig "vad_silence" longer h))

  pub notify_audio_chunk-Stuck :
      (payload : List ℕ) (now : N) (pending : Bool) (st : Coordinator N)
      → Stuck st
      → Stuck (notify_audio_chunk sig cfg payload now pending st)
  unfolding notify_audio_chunk append_to_pre_roll hear_speech
  notify_audio_chunk-Stuck payload now pending st h =
      let heard = append_to_pre_roll sig cfg payload st in
      let begun = start_speaking sig cfg pending heard in
      if_both Stuck (st.closed || is_empty_list payload) {x = st}
        {y = if is_speech_frame sig cfg payload
          then hear_speech sig cfg payload now pending heard
          else hear_silence sig cfg payload heard}
        h
        (if_both Stuck (is_speech_frame sig cfg payload)
          {x = hear_speech sig cfg payload now pending heard}
          {y = hear_silence sig cfg payload heard}
          (if_both Stuck heard.is_speaking {x = extend_speech sig cfg payload now heard}
            {y = extend_speech sig cfg payload now begun} (extend_speech-Stuck payload now heard h)
            (extend_speech-Stuck payload now begun (start_speaking-Stuck pending heard h)))
          (hear_silence-Stuck payload heard h))
