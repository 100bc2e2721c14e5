-- ===== src/Coordinator/Always.antt =====
-- media/coordinator.py: what holds after any turns.
use text.Mathlib.Text.{◌==◌ as str_eq}
use luve.Prelude.{
  ◌≤◌, ◌≡◌, refl, ◌∙◌, sym, ap, subst, arith, ◌&&◌, true, Option, List, [], ◌∷◌, ◌++◌, length,
  length-append, if◌then◌else◌, if_both, if_cases, leb-false,
}
use luve.Extension.Voice.Frames.{Signal}
use luve.Coordinator.{
  String, Coordinator, CoordinatorSettings, Job, LoopTask, StopCall, is_full, reset_turn_state,
  not_started, waiting, transcribing, returned, raised, not_called, putting, joining, stopped,
  failed,
}
use luve.Coordinator.Loop.{
  Analysis, next_job, next_from, take_first, take_job, is_short, transcribed, transcribed_from,
  begin_stop, put_stop, put_from, stop_job, join_loop, join_from, end_stop,
}
use luve.Coordinator.Turns.{
  Turn, hears, silences, takes, stops, puts_stop, joins, transcribes, tokens, replies, task_at,
  step, run,
}
use luve.Coordinator.Sound.{core, IsSound, is_called, notify_silence-IsSound}
use luve.Coordinator.Hears.{notify_audio_chunk-Sound}
use luve.Coordinator.Keeps.{token_to-core, reply_of-core, after_transcription-core}

module _ {N : Type 0} (cfg : CoordinatorSettings N) where
  abbrev Sound : Coordinator N → Type 0
  Sound st = IsSound cfg.vad_pre_roll_bytes (core st)

  take_first-Sound :
      (jobs : List Job) (st : Coordinator N)
      → length jobs ≤ 1
      → Sound st
      → Sound (take_first cfg jobs st)
  unfolding take_job
  take_first-Sound [] st few h = h
  take_first-Sound (job ∷ jobs) st few (short, heard, rolled, quiet, called) =
      let rest : Coordinator N = record st { inference_queue = jobs } in
      let kept : Sound rest = (omega arith, heard, rolled, quiet, called) in
      if_both Sound (st.closed && str_eq job.trigger "stop")
        {x = record rest { inference_task = returned }}
        {y = if is_short cfg job then rest else record rest { inference_task = transcribing job }}
        kept
        (if_both Sound (is_short cfg job) {x = rest}
          {y = record rest { inference_task = transcribing job }} kept kept)

  next_from-Sound :
      (task : LoopTask) (st : Coordinator N) → Sound st → Sound (next_from cfg task st)
  next_from-Sound waiting st h = take_first-Sound st.inference_queue st h.0 h
  next_from-Sound not_started st h = h
  next_from-Sound returned st h = h
  next_from-Sound raised st h = h
  next_from-Sound (transcribing job) st h = h

  transcribed_from-Sound :
      (task : LoopTask) (result : Option Analysis) (st : Coordinator N)
      → Sound st
      → Sound (transcribed_from task result st)
  transcribed_from-Sound (transcribing job) result st h =
      subst (IsSound cfg.vad_pre_roll_bytes) (sym (after_transcription-core job result st)) h
  transcribed_from-Sound waiting result st h = h
  transcribed_from-Sound not_started result st h = h
  transcribed_from-Sound returned result st h = h
  transcribed_from-Sound raised result st h = h

  put_from-Sound :
      (call : StopCall) (st : Coordinator N)
      → st.stop_call ≡ call
      → Sound st
      → Sound (put_from call st)
  unfolding is_full
  put_from-Sound putting st e (short, heard, rolled, quiet, called) =
      if_cases Sound (is_full st.inference_queue) {x = st}
        {y = record st {
          inference_queue = st.inference_queue ++ stop_job ∷ [];
          stop_call = joining;
        }}
        (λ _. (short, heard, rolled, quiet, called))
        (λ free. (
          omega (
            arith,
            leb-false 1 (length st.inference_queue) free,
            length-append st.inference_queue (stop_job ∷ []),
          ),
          heard,
          rolled,
          quiet,
          sym (ap is_called e) ∙ called,
        ))
  put_from-Sound not_called st e h = h
  put_from-Sound joining st e h = h
  put_from-Sound stopped st e h = h
  put_from-Sound failed st e h = h

  end_stop-Sound :
      (task : LoopTask) (st : Coordinator N)
      → st.stop_call ≡ joining
      → Sound st
      → Sound (end_stop task st)
  end_stop-Sound waiting st e h = h
  end_stop-Sound (transcribing job) st e h = h
  end_stop-Sound not_started st e (short, heard, rolled, quiet, called) =
      (short, heard, rolled, quiet, sym (ap is_called e) ∙ called)
  end_stop-Sound returned st e (short, heard, rolled, quiet, called) =
      (short, heard, rolled, quiet, sym (ap is_called e) ∙ called)
  end_stop-Sound raised st e (short, heard, rolled, quiet, called) =
      (short, heard, rolled, quiet, sym (ap is_called e) ∙ called)

  join_from-Sound :
      (call : StopCall) (st : Coordinator N)
      → st.stop_call ≡ call
      → Sound st
      → Sound (join_from call st)
  join_from-Sound joining st e h = end_stop-Sound st.inference_task st e h
  join_from-Sound not_called st e h = h
  join_from-Sound putting st e h = h
  join_from-Sound stopped st e h = h
  join_from-Sound failed st e h = h

module _ {N : Type 0} (sig : Signal N) (cfg : CoordinatorSettings N) (trim : String → String) where
  begin_stop-Sound : (st : Coordinator N) → Sound cfg st → Sound cfg (begin_stop sig st)
  unfolding begin_stop reset_turn_state
  begin_stop-Sound st (short, heard, rolled, quiet, called) =
      if_both (Sound cfg) st.closed {x = st}
        {y = record (reset_turn_state sig st) { closed = true; stop_call = putting }}
        (short, heard, rolled, quiet, called) (short, refl, omega arith, refl, refl)

  step-Sound :
      (turn : Turn N) (st : Coordinator N) → Sound cfg st → Sound cfg (step sig cfg trim turn st)
  unfolding step next_job transcribed put_stop join_loop
  step-Sound (hears payload now pending) st h =
      notify_audio_chunk-Sound sig cfg payload now pending st h
  step-Sound silences st h = notify_silence-IsSound cfg.vad_pre_roll_bytes sig st h
  step-Sound takes st h = next_from-Sound cfg st.inference_task st h
  step-Sound stops st h = begin_stop-Sound st h
  step-Sound puts_stop st h = put_from-Sound cfg st.stop_call st refl h
  step-Sound joins st h = join_from-Sound cfg st.stop_call st refl h
  step-Sound (transcribes result) st h = transcribed_from-Sound cfg st.inference_task result st h
  step-Sound (tokens n delta) st h =
      subst (IsSound cfg.vad_pre_roll_bytes)
        (sym (token_to-core cfg n delta (task_at n st.llm_tasks) st)) h
  step-Sound (replies n result) st h =
      subst (IsSound cfg.vad_pre_roll_bytes)
        (sym (reply_of-core cfg trim n result (task_at n st.llm_tasks) st)) h

  -- Whatever the turns of the tasks: at most one job is queued, an utterance has bytes exactly while the
  -- user speaks, the pre-roll is never longer than its size, nobody speaks to a closed coordinator, and
  -- it is closed exactly if `stop` was called; if all this holds at first.
  pub run_stays-IsSound :
      (turns : List (Turn N)) (st : Coordinator N)
      → IsSound cfg.vad_pre_roll_bytes (core st)
      → IsSound cfg.vad_pre_roll_bytes (core (run sig cfg trim turns st))
  unfolding run
  run_stays-IsSound [] st h = h
  run_stays-IsSound (turn ∷ turns) st h =
      run_stays-IsSound turns (step sig cfg trim turn st) (step-Sound turn st h)
