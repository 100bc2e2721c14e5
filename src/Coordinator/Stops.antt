-- ===== src/Coordinator/Stops.antt =====
-- media/coordinator.py: `stop` without a loop that takes jobs.
use luve.Prelude.{
  ◌≡◌, refl, sym, subst, arith, true, false, Option, List, [], ◌∷◌, ◌++◌, if_both, if_cases,
}
use luve.Extension.Voice.Frames.{Signal}
use luve.Coordinator.{
  String, Coordinator, CoordinatorSettings, LoopTask, StopCall, is_full, reset_turn_state,
  not_started, waiting, transcribing, returned, raised, not_called, putting, joining, stopped,
  failed,
}
use luve.Coordinator.Loop.{
  Analysis, next_job, next_from, transcribed, transcribed_from, begin_stop, put_stop, put_from,
  stop_job, join_loop, join_from,
}
use luve.Coordinator.Turns.{
  Turn, hears, silences, takes, stops, puts_stop, joins, transcribes, tokens, replies, task_at,
  step, run,
}
use luve.Coordinator.Sound.{core}
use luve.Coordinator.Blocked.{
  IsStuck, Stuck, is_over, waits_at_most, notify_audio_chunk-Stuck, notify_silence-Stuck,
}
use luve.Coordinator.Keeps.{token_to-core, reply_of-core}

module _ {N : Type 0} where
  next_from-Stuck :
      (cfg : CoordinatorSettings N) (task : LoopTask) (st : Coordinator N)
      → task ≡ raised
      → Stuck st
      → Stuck (next_from cfg task st)
  next_from-Stuck cfg waiting st e h = cc e
  next_from-Stuck cfg not_started st e h = h
  next_from-Stuck cfg returned st e h = h
  next_from-Stuck cfg raised st e h = h
  next_from-Stuck cfg (transcribing job) st e h = h

  transcribed_from-Stuck :
      (task : LoopTask) (result : Option Analysis) (st : Coordinator N)
      → task ≡ raised
      → Stuck st
      → Stuck (transcribed_from task result st)
  transcribed_from-Stuck (transcribing job) result st e h = cc e
  transcribed_from-Stuck waiting result st e h = h
  transcribed_from-Stuck not_started result st e h = h
  transcribed_from-Stuck returned result st e h = h
  transcribed_from-Stuck raised result st e h = h

  put_from-Stuck : (call : StopCall) (st : Coordinator N) → Stuck st → Stuck (put_from call st)
  unfolding is_full
  put_from-Stuck putting st (dead, one, waits) =
      if_cases Stuck (is_full st.inference_queue) {x = st}
        {y = record st {
          inference_queue = st.inference_queue ++ stop_job ∷ [];
          stop_call = joining;
        }}
        (λ _. (dead, one, waits)) (λ free. absurd (ground (arith, free, one)))
  put_from-Stuck not_called st h = h
  put_from-Stuck joining st h = h
  put_from-Stuck stopped st h = h
  put_from-Stuck failed st h = h

  join_from-Stuck :
      (call : StopCall) (st : Coordinator N)
      → waits_at_most call ≡ true
      → Stuck st
      → Stuck (join_from call st)
  join_from-Stuck joining st e h = absurd (ground (arith, e))
  join_from-Stuck not_called st e h = h
  join_from-Stuck putting st e h = h
  join_from-Stuck stopped st e h = h
  join_from-Stuck failed st e h = h

waiting_not_over : (call : StopCall) → waits_at_most call ≡ true → is_over call ≡ false
waiting_not_over not_called h = refl
waiting_not_over putting h = refl
waiting_not_over joining h = refl
waiting_not_over stopped h = absurd (ground (arith, h))
waiting_not_over failed h = absurd (ground (arith, h))

module _ {N : Type 0} (sig : Signal N) (cfg : CoordinatorSettings N) (trim : String → String) where
  begin_stop-Stuck : (st : Coordinator N) → Stuck st → Stuck (begin_stop sig st)
  unfolding begin_stop reset_turn_state
  begin_stop-Stuck st (dead, one, waits) =
      if_both Stuck st.closed {x = st}
        {y = record (reset_turn_state sig st) { closed = true; stop_call = putting }}
        (dead, one, waits) (dead, one, refl)

  step-Stuck : (turn : Turn N) (st : Coordinator N) → Stuck st → Stuck (step sig cfg trim turn st)
  unfolding step next_job transcribed put_stop join_loop
  step-Stuck (hears payload now pending) st h =
      notify_audio_chunk-Stuck sig cfg payload now pending st h
  step-Stuck silences st h = notify_silence-Stuck sig st h
  step-Stuck takes st h = next_from-Stuck cfg st.inference_task st h.0 h
  step-Stuck stops st h = begin_stop-Stuck st h
  step-Stuck puts_stop st h = put_from-Stuck st.stop_call st h
  step-Stuck joins st (dead, one, waits) = join_from-Stuck st.stop_call st waits (dead, one, waits)
  step-Stuck (transcribes result) st h = transcribed_from-Stuck st.inference_task result st h.0 h
  step-Stuck (tokens n delta) st h =
      subst IsStuck (sym (token_to-core cfg n delta (task_at n st.llm_tasks) st)) h
  step-Stuck (replies n result) st h =
      subst IsStuck (sym (reply_of-core cfg trim n result (task_at n st.llm_tasks) st)) h

  run-Stuck :
      (turns : List (Turn N)) (st : Coordinator N) → Stuck st → Stuck (run sig cfg trim turns st)
  unfolding run
  run-Stuck [] st h = h
  run-Stuck (turn ∷ turns) st h = run-Stuck turns (step sig cfg trim turn st) (step-Stuck turn st h)

  -- Once an exception has ended the loop and a job is queued, the call of `stop` that closes the
  -- coordinator, made before or after, is never over, whatever the tasks do without a new start of the
  -- loop. A later call, which finds the coordinator closed, is not what `stop_call` follows.
  pub stop_never_over :
      (turns : List (Turn N)) (st : Coordinator N)
      → IsStuck (core st)
      → is_over (run sig cfg trim turns st).stop_call ≡ false
  stop_never_over turns st h =
      let (_, _, waits) = run-Stuck turns st h in
      waiting_not_over (run sig cfg trim turns st).stop_call waits
