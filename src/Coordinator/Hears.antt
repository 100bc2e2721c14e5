-- ===== src/Coordinator/Hears.antt =====
-- media/coordinator.py: a frame keeps what holds of the state.
use luve.Prelude.{
  ℕ, ◌-◌, ◌≤◌, ◌≡◌, ◌∙◌, sym, ap, subst, arith, ◌&&◌, ◌||◌, Bool, true, false, not, List, ◌++◌,
  length, length-drop, drop, if◌then◌else◌, if_both, if_cases, ltb,
}
use luve.Extension.Queue.{is_empty_list}
use luve.Extension.Voice.Frames.{Signal}
use luve.Coordinator.{
  bytes_per_second, Coordinator, CoordinatorSettings, finalize_current_utterance,
  append_to_pre_roll, start_speaking, extend_speech, hear_speech, end_silence, hear_silence,
  notify_audio_chunk, is_speech_frame,
}
use luve.Coordinator.Sound.{
  Core, core, IsSound, is_called, finalize-IsSound, extend_speech-IsSound,
  on_user_turn_started-core, is_empty_list-append,
}

module _ {N : Type 0} (sig : Signal N) (cfg : CoordinatorSettings N) where
  abbrev Sound : Coordinator N → Type 0
  Sound st = IsSound cfg.vad_pre_roll_bytes (core st)

  append_to_pre_roll-Sound :
      (payload : List ℕ) (st : Coordinator N)
      → Sound st
      → Sound (append_to_pre_roll sig cfg payload st)
  unfolding append_to_pre_roll
  append_to_pre_roll-Sound payload st (short, heard, _, quiet, called) =
      let pcm = st.pre_roll_pcm ++ payload in
      let rolled =
        if_cases (λ (x : List ℕ). length x ≤ cfg.vad_pre_roll_bytes)
          (ltb cfg.vad_pre_roll_bytes (length pcm))
          {x = drop (length pcm - cfg.vad_pre_roll_bytes) pcm} {y = pcm}
          (λ e. omega (arith, length-drop (length pcm - cfg.vad_pre_roll_bytes) pcm))
          (λ e. ground arith) in
      (short, heard, rolled, quiet, called)

  start_speaking-core :
      (pending : Bool) (st : Coordinator N)
      → core (start_speaking sig cfg pending st) ≡ record (core st) {
        is_speaking = true;
        utterance_pcm = (start_speaking sig cfg pending st).utterance_pcm;
      }
  unfolding start_speaking
  start_speaking-core pending st =
      let same = on_user_turn_started-core cfg pending (record st {
        is_speaking = true;
        silence_duration_seconds = sig.of_nat 0;
        utterance_pcm =
            if not (is_empty_list st.pre_roll_pcm) && is_empty_list st.utterance_pcm
            then st.utterance_pcm ++ st.pre_roll_pcm
            else st.utterance_pcm;
      }) in
      same
      ∙ ap (λ (u : List ℕ). record (core st) { is_speaking = true; utterance_pcm = u })
          (sym (ap (λ (c : Core). c.utterance_pcm) same))

  hear_speech-Sound :
      (payload : List ℕ) (now : N) (pending : Bool) (st : Coordinator N)
      → is_empty_list payload ≡ false
      → st.closed ≡ false
      → Sound st
      → Sound (hear_speech sig cfg payload now pending st)
  unfolding hear_speech
  hear_speech-Sound payload now pending st filled opened (short, heard, rolled, quiet, called) =
      let begun = start_speaking sig cfg pending st in
      let same = start_speaking-core pending st in
      if_cases Sound st.is_speaking {x = extend_speech sig cfg payload now st}
        {y = extend_speech sig cfg payload now begun}
        (λ e.
          extend_speech-IsSound cfg.vad_pre_roll_bytes sig cfg payload now st filled e opened short
            rolled called)
        (λ e.
          extend_speech-IsSound cfg.vad_pre_roll_bytes sig cfg payload now begun filled
            (ap (λ (c : Core). c.is_speaking) same) (ap (λ (c : Core). c.closed) same ∙ opened)
            (subst (λ (c : Core). length c.inference_queue ≤ 1) (sym same) short)
            (subst (λ (c : Core). length c.pre_roll_pcm ≤ cfg.vad_pre_roll_bytes) (sym same) rolled)
            (subst (λ (c : Core). is_called c.stop_call ≡ c.closed) (sym same) called))

  end_silence-Sound : (st : Coordinator N) → Sound st → Sound (end_silence sig cfg st)
  unfolding end_silence
  end_silence-Sound st h =
      if_both Sound (sig.less st.silence_duration_seconds cfg.vad_silence_timeout_seconds) {x = st}
        {y = finalize_current_utterance sig "vad_silence" st} h
        (finalize-IsSound cfg.vad_pre_roll_bytes sig "vad_silence" st h)

  hear_silence-Sound :
      (payload : List ℕ) (st : Coordinator N)
      → is_empty_list payload ≡ false
      → Sound st
      → Sound (hear_silence sig cfg payload st)
  unfolding hear_silence
  hear_silence-Sound payload st filled (short, heard, rolled, quiet, called) =
      let longer : Coordinator N = record st {
        utterance_pcm = st.utterance_pcm ++ payload;
        silence_duration_seconds =
            sig.plus st.silence_duration_seconds
              (sig.over (sig.of_nat (length payload)) (sig.of_nat bytes_per_second));
      } in
      if_cases Sound (not st.is_speaking) {x = st} {y = end_silence sig cfg longer}
        (λ e. (short, heard, rolled, quiet, called))
        (λ e. end_silence-Sound longer (
          short,
          is_empty_list-append st.utterance_pcm payload filled ∙ sym e,
          rolled,
          quiet,
          called,
        ))

  pub notify_audio_chunk-Sound :
      (payload : List ℕ) (now : N) (pending : Bool) (st : Coordinator N)
      → IsSound cfg.vad_pre_roll_bytes (core st)
      → IsSound cfg.vad_pre_roll_bytes (core (notify_audio_chunk sig cfg payload now pending st))
  unfolding notify_audio_chunk append_to_pre_roll
  notify_audio_chunk-Sound payload now pending st h =
      let heard = append_to_pre_roll sig cfg payload st in
      let kept = append_to_pre_roll-Sound payload st h in
      if_cases Sound (st.closed || is_empty_list payload) {x = st}
        {y = if is_speech_frame sig cfg payload
          then hear_speech sig cfg payload now pending heard
          else hear_silence sig cfg payload heard}
        (λ e. h)
        (λ e.
          let filled : is_empty_list payload ≡ false = ground (arith, e) in
          let opened : st.closed ≡ false = ground (arith, e) in
          if_both Sound (is_speech_frame sig cfg payload)
            {x = hear_speech sig cfg payload now pending heard}
            {y = hear_silence sig cfg payload heard}
            (hear_speech-Sound payload now pending heard filled opened kept)
            (hear_silence-Sound payload heard filled kept))
