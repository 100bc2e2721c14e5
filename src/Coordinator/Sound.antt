-- ===== src/Coordinator/Sound.antt =====
-- media/coordinator.py: what holds after any turns.
use Prim.Native.String.{String}
use luve.Prelude.{
  leb-false, ℕ, ◌≤◌, ◌≡◌, refl, ◌∙◌, sym, ap, arith, ◌&&◌, ◌||◌, Bool, true, false, not, List, [],
  ◌∷◌, ◌++◌, length, length-append, length-drop, drop, if◌then◌else◌, if_both, if_cases, leb, ◌==◌,
}
use luve.Extension.Queue.{is_empty_list}
use luve.Extension.Voice.{last_bytes}
use luve.Extension.Voice.Frames.{Signal}
use luve.Coordinator.{
  assistant_generation_aborted, assistant_audio_aborted, Coordinator, CoordinatorSettings, Job,
  LoopTask, StopCall, not_called, send_json, put_job, put_if_room, is_full, enqueue_inference_job,
  on_user_turn_started, reset_turn_state, finalize_current_utterance, notify_silence, emit_partial,
  extend_speech,
}

-- The part of the state that the audio, the loop and `stop` share.
pub record Core : Type 0 where
  pub utterance_pcm : List ℕ
  pub pre_roll_pcm : List ℕ
  pub is_speaking : Bool
  pub closed : Bool
  pub inference_queue : List Job
  pub inference_task : LoopTask
  pub stop_call : StopCall

abbrev pub core : {N : Type 0} → Coordinator N → Core
core st = record {
  utterance_pcm = st.utterance_pcm;
  pre_roll_pcm = st.pre_roll_pcm;
  is_speaking = st.is_speaking;
  closed = st.closed;
  inference_queue = st.inference_queue;
  inference_task = st.inference_task;
  stop_call = st.stop_call;
}

abbrev pub is_called : StopCall → Bool
is_called not_called = false
is_called _ = true

-- At most one job is queued; an utterance has bytes exactly while the user speaks; the pre-roll has its
-- size at most; nobody speaks to a closed coordinator; and it is closed once `stop` is called.
abbrev pub IsSound : ℕ → Core → Type 0
IsSound size c =
    (length c.inference_queue ≤ 1)
    × (is_empty_list c.utterance_pcm ≡ not c.is_speaking)
    × (length c.pre_roll_pcm ≤ size)
    × ((not c.closed || not c.is_speaking) ≡ true)
    × (is_called c.stop_call ≡ c.closed)

pub is_empty_list-append :
    (xs ys : List ℕ) → is_empty_list ys ≡ false → is_empty_list (xs ++ ys) ≡ false
is_empty_list-append [] ys h = h
is_empty_list-append (x ∷ xs) ys h = refl

module _ {N : Type 0} where
  pub on_user_turn_started-core :
      (cfg : CoordinatorSettings N) (pending : Bool) (st : Coordinator N)
      → core (on_user_turn_started cfg pending st) ≡ core st
  unfolding on_user_turn_started send_json
  on_user_turn_started-core cfg pending st =
      let P = λ (s : Coordinator N). core s ≡ core st in
      let told =
        if cfg.has_tts_processor && pending then send_json assistant_audio_aborted st else st in
      let same : P told =
        if_both P (cfg.has_tts_processor && pending) {x = send_json assistant_audio_aborted st}
          {y = st} refl refl in
      if_both P (length st.llm_tasks == 0) {x = told}
        {y = send_json assistant_generation_aborted (record told { llm_tasks = [] })} same same

module _ {N : Type 0} (size : ℕ) where
  put_if_room-IsSound :
      (job : Job) (st : Coordinator N)
      → IsSound size (core st)
      → IsSound size (core (put_if_room job st))
  unfolding is_full
  put_if_room-IsSound job st (short, heard, rolled, quiet, called) =
      if_cases (λ (s : Coordinator N). IsSound size (core s)) (is_full st.inference_queue) {x = st}
        {y = put_job job st} (λ e. (short, heard, rolled, quiet, called))
        (λ e. (
          omega (
            arith,
            leb-false 1 (length st.inference_queue) e,
            length-append st.inference_queue (job ∷ []),
          ),
          heard,
          rolled,
          quiet,
          called,
        ))

  enqueue_inference_job-IsSound :
      (job : Job) (st : Coordinator N)
      → IsSound size (core st)
      → IsSound size (core (enqueue_inference_job job st))
  unfolding enqueue_inference_job
  enqueue_inference_job-IsSound job st (short, heard, rolled, quiet, called) =
      let P = λ (s : Coordinator N). IsSound size (core s) in
      let room : Coordinator N = record st { inference_queue = drop 1 st.inference_queue } in
      if_both P (is_empty_list job.pcm_bytes || st.closed) {x = st}
        {y = if not (is_full st.inference_queue)
          then put_if_room job st
          else if not job.is_final
          then st
          else put_if_room job room}
        (short, heard, rolled, quiet, called)
        (if_both P (not (is_full st.inference_queue)) {x = put_if_room job st}
          {y = if not job.is_final then st else put_if_room job room}
          (put_if_room-IsSound job st (short, heard, rolled, quiet, called))
          (if_both P (not job.is_final) {x = st} {y = put_if_room job room}
            (short, heard, rolled, quiet, called)
            (put_if_room-IsSound job room
              (omega (arith, length-drop 1 st.inference_queue), heard, rolled, quiet, called))))

  module _ (sig : Signal N) where
    pub reset_turn_state-IsSound :
        (st : Coordinator N)
        → IsSound size (core st)
        → IsSound size (core (reset_turn_state sig st))
    unfolding reset_turn_state
    reset_turn_state-IsSound st (short, _, _, _, called) =
        (short, refl, omega arith, ground arith, called)

    pub finalize-IsSound :
        (trigger : String) (st : Coordinator N)
        → IsSound size (core st)
        → IsSound size (core (finalize_current_utterance sig trigger st))
    unfolding finalize_current_utterance
    finalize-IsSound trigger st h =
        let job : Job = record {
          is_final = true;
          trigger = trigger;
          pcm_bytes = st.utterance_pcm;
        } in
        let reset = reset_turn_state sig st in
        if_both (λ (s : Coordinator N). IsSound size (core s)) (is_empty_list st.utterance_pcm)
          {x = reset} {y = enqueue_inference_job job reset} (reset_turn_state-IsSound st h)
          (enqueue_inference_job-IsSound job reset (reset_turn_state-IsSound st h))

    pub notify_silence-IsSound :
        (st : Coordinator N) → IsSound size (core st) → IsSound size (core (notify_silence sig st))
    unfolding notify_silence
    notify_silence-IsSound st h =
        if_both (λ (s : Coordinator N). IsSound size (core s)) st.closed {x = st}
          {y = finalize_current_utterance sig "silence" st} h (finalize-IsSound "silence" st h)

  module _ (sig : Signal N) (cfg : CoordinatorSettings N) where
    pub emit_partial-IsSound :
        (now : N) (st : Coordinator N)
        → IsSound size (core st)
        → IsSound size (core (emit_partial sig cfg now st))
    unfolding emit_partial
    emit_partial-IsSound now st h =
        let partial_pcm = last_bytes cfg.stt_partial_window_bytes st.utterance_pcm in
        let job : Job = record {
          is_final = false;
          trigger = "partial_timer";
          pcm_bytes = partial_pcm;
        } in
        let noted : Coordinator N = record st { last_partial_emit_at = now } in
        let due =
          leb cfg.stt_partial_min_audio_bytes (length st.utterance_pcm)
          && sig.at_least (sig.minus now st.last_partial_emit_at)
              cfg.stt_partial_emit_interval_seconds in
        if_both (λ (s : Coordinator N). IsSound size (core s)) due
          {x = enqueue_inference_job job noted} {y = st} (enqueue_inference_job-IsSound job noted h)
          h

    pub extend_speech-IsSound :
        (payload : List ℕ) (now : N) (st : Coordinator N)
        → is_empty_list payload ≡ false
        → st.is_speaking ≡ true
        → st.closed ≡ false
        → length st.inference_queue ≤ 1
        → length st.pre_roll_pcm ≤ size
        → is_called st.stop_call ≡ st.closed
        → IsSound size (core (extend_speech sig cfg payload now st))
    unfolding extend_speech
    extend_speech-IsSound payload now st filled speaking opened short rolled called =
        emit_partial-IsSound now
          (record st {
            utterance_pcm = st.utterance_pcm ++ payload;
            silence_duration_seconds = sig.of_nat 0;
          })
          (
            short,
            is_empty_list-append st.utterance_pcm payload filled ∙ ap not (sym speaking),
            rolled,
            ap (λ b. not b || not st.is_speaking) opened,
            called,
          )
