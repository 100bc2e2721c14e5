-- ===== src/Coordinator/Drains/Stages.antt =====
-- media/coordinator.py: what the loop and `stop` leave, step by step.
use text.Mathlib.Text.{◌==◌ as str_eq}
use luve.Prelude.{
  ◌≤◌, ◌≡◌, refl, ◌∙◌, ap, arith, ◌&&◌, Bool, true, false, not, some, List, [], ◌∷◌, ◌++◌, length,
  if◌then◌else◌, if_both, if_cases,
}
use luve.Python.Text.{is_empty, strip}
use luve.Media.Postprocess.{sanitize_transcript}
use luve.Coordinator.{
  Coordinator, CoordinatorSettings, Job, LoopTask, StopCall, is_full, send_json, subtitle,
  not_started, waiting, transcribing, returned, raised, not_called, putting, joining, stopped,
  failed,
}
use luve.Coordinator.Loop.{
  Analysis, next_from, take_first, take_job, is_short, transcribed_from, after_transcription,
  put_from, stop_job, join_loop, join_from, end_stop,
}
use luve.Coordinator.Sound.{Core, core}
use luve.Coordinator.Keeps.{record_user_turn-core}

-- The loop waits for a job or transcribes one.
abbrev pub is_running : LoopTask → Bool
is_running waiting = true
is_running (transcribing _) = true
is_running _ = false

-- Or it has returned.
abbrev pub is_alive : LoopTask → Bool
is_alive returned = true
is_alive task = is_running task

pub running_alive : (task : LoopTask) → is_running task ≡ true → is_alive task ≡ true
running_alive waiting h = refl
running_alive (transcribing job) h = refl
running_alive returned h = refl
running_alive not_started h = absurd (ground (arith, h))
running_alive raised h = absurd (ground (arith, h))

abbrev pub is_idle : LoopTask → Bool
is_idle returned = true
is_idle waiting = true
is_idle _ = false

-- `stop` waits to put its job.
abbrev pub Begun : Core → Type 0
Begun c = (c.closed ≡ true) × (c.stop_call ≡ putting)

module _ {N : Type 0} where
  -- A transcription that returns lets the loop wait, and leaves the rest.
  after_transcription-waits :
      (job : Job) (result : Analysis) (st : Coordinator N)
      → core (after_transcription job (some result) st)
        ≡ record (core st) { inference_task = waiting }
  unfolding after_transcription send_json
  after_transcription-waits job result st =
      let text = sanitize_transcript result.raw_text in
      record_user_turn-core job result.suspicious_count text (
        send_json (subtitle job.is_final job.trigger text) (record st {
          inference_task = waiting;
          previous_stt_text =
              if job.is_final && not (is_empty (strip text))
              then strip text
              else st.previous_stt_text;
        }))

  -- After a transcription the loop does not transcribe.
  pub transcribed-idle :
      (task : LoopTask) (result : Analysis) (st : Coordinator N)
      → st.inference_task ≡ task
      → is_alive task ≡ true
      → (next : LoopTask) × (core (transcribed_from task (some result) st)
          ≡ record (core st) { inference_task = next })
        × (is_idle next ≡ true)
        × ((is_running task ≡ true) → next ≡ waiting)
  transcribed-idle (transcribing job) result st e h =
      (waiting, after_transcription-waits job result st, refl, λ _. refl)
  transcribed-idle waiting result st e h =
      (waiting, ap (λ (t : LoopTask). record (core st) { inference_task = t }) e, refl, λ _. refl)
  transcribed-idle returned result st e h = (
    returned,
    ap (λ (t : LoopTask). record (core st) { inference_task = t }) e,
    refl,
    λ r. absurd (ground (arith, r)),
  )
  transcribed-idle not_started result st e h = absurd (ground (arith, h))
  transcribed-idle raised result st e h = absurd (ground (arith, h))

module _ {N : Type 0} (cfg : CoordinatorSettings N) where
  -- The queue is empty, and the loop is there.
  abbrev pub Emptied : Coordinator N → Type 0
  Emptied st =
      (st.closed ≡ true)
      × (st.stop_call ≡ putting)
      × (st.inference_queue ≡ [])
      × (is_alive st.inference_task ≡ true)

  take_first-Emptied :
      (jobs : List Job) (st : Coordinator N)
      → st.inference_queue ≡ jobs
      → length jobs ≤ 1
      → st.inference_task ≡ waiting
      → Begun (core st)
      → Emptied (take_first cfg jobs st)
  unfolding take_job
  take_first-Emptied [] st q few w (closed, call) = (closed, call, q, ap is_alive w)
  take_first-Emptied (job ∷ job' ∷ jobs) st q few w h = absurd (omega arith)
  take_first-Emptied (job ∷ []) st q few w (closed, call) =
      let rest : Coordinator N = record st { inference_queue = [] } in
      if_both Emptied (st.closed && str_eq job.trigger "stop")
        {x = record rest { inference_task = returned }}
        {y = if is_short cfg job then rest else record rest { inference_task = transcribing job }}
        (closed, call, refl, refl)
        (if_both Emptied (is_short cfg job) {x = rest}
          {y = record rest { inference_task = transcribing job }}
          (closed, call, refl, ap is_alive w) (closed, call, refl, refl))

  pub next_from-Emptied :
      (task : LoopTask) (st : Coordinator N)
      → st.inference_task ≡ task
      → task ≡ waiting
      → length st.inference_queue ≤ 1
      → Begun (core st)
      → Emptied (next_from cfg task st)
  next_from-Emptied waiting st e w few h = take_first-Emptied st.inference_queue st refl few e h
  next_from-Emptied not_started st e w few h = cc w
  next_from-Emptied returned st e w few h = cc w
  next_from-Emptied raised st e w few h = cc w
  next_from-Emptied (transcribing job) st e w few h = cc w

  -- The job of `stop` is queued.
  abbrev pub Queued : Coordinator N → Type 0
  Queued st =
      (st.closed ≡ true)
      × (st.stop_call ≡ joining)
      × (st.inference_queue ≡ stop_job ∷ [])
      × (is_idle st.inference_task ≡ true)

  pub put_from-Queued :
      (call : StopCall) (st : Coordinator N)
      → call ≡ putting
      → st.closed ≡ true
      → st.inference_queue ≡ []
      → is_idle st.inference_task ≡ true
      → Queued (put_from call st)
  unfolding is_full
  put_from-Queued putting st e closed q idle =
      if_cases Queued (is_full st.inference_queue) {x = st}
        {y = record st {
          inference_queue = st.inference_queue ++ stop_job ∷ [];
          stop_call = joining;
        }}
        (λ full. absurd (let none_left = ap length q in ground (arith, full, none_left)))
        (λ _. (closed, refl, ap (λ (jobs : List Job). jobs ++ stop_job ∷ []) q, idle))
  put_from-Queued not_called st e closed q idle = cc e
  put_from-Queued joining st e closed q idle = cc e
  put_from-Queued stopped st e closed q idle = cc e
  put_from-Queued failed st e closed q idle = cc e

  -- The loop has returned, and `stop` waits for it.
  abbrev pub Ended : Coordinator N → Type 0
  Ended st = (st.stop_call ≡ joining) × (st.inference_task ≡ returned)

  take_stop-Ended :
      (jobs : List Job) (st : Coordinator N)
      → jobs ≡ stop_job ∷ []
      → st.closed ≡ true
      → st.stop_call ≡ joining
      → Ended (take_first cfg jobs st)
  unfolding take_job
  take_stop-Ended jobs st q closed call = rw (q, closed) (call, refl)

  pub next_from-Ended :
      (task : LoopTask) (st : Coordinator N)
      → st.inference_task ≡ task
      → is_idle task ≡ true
      → Queued st
      → Ended (next_from cfg task st)
  next_from-Ended waiting st e h (closed, call, q, _) =
      take_stop-Ended st.inference_queue st q closed call
  next_from-Ended returned st e h (closed, call, q, _) = (call, e)
  next_from-Ended not_started st e h k = absurd (ground (arith, h))
  next_from-Ended raised st e h k = absurd (ground (arith, h))
  next_from-Ended (transcribing job) st e h k = absurd (ground (arith, h))

pub join_loop_stopped :
    {N : Type 0} (st : Coordinator N)
    → st.stop_call ≡ joining
    → st.inference_task ≡ returned
    → (join_loop st).stop_call ≡ stopped
unfolding join_loop
join_loop_stopped st call task =
    ap (λ (c : StopCall). (join_from c st).stop_call) call
    ∙ ap (λ (t : LoopTask). (end_stop t st).stop_call) task
