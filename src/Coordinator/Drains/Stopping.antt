-- ===== src/Coordinator/Drains/Stopping.antt =====
-- media/coordinator.py: from the call of `stop` to its end, whatever turns come.
use text.Mathlib.Text.{◌==◌ as str_eq}
use luve.Prelude.{
  ◌≤◌, ◌≡◌, refl, sym, ap, subst, arith, ◌&&◌, true, false, Option, some, List, [], ◌∷◌, ◌++◌,
  length, if◌then◌else◌, if_both, if_cases,
}
use luve.Coordinator.{
  Coordinator, CoordinatorSettings, Job, LoopTask, StopCall, is_full, not_started, waiting,
  transcribing, returned, raised, putting, joining, stopped, not_called, failed,
}
use luve.Coordinator.Loop.{
  Analysis, next_from, take_first, take_job, is_short, transcribed_from, put_from, stop_job,
  join_from, end_stop,
}
use luve.Coordinator.Sound.{Core, core}
use luve.Coordinator.Drains.Stages.{is_running, transcribed-idle}

-- How far a call of `stop` has come: it waits to put its job while the loop runs, or while the loop has
-- returned and the queue is empty; its job is queued while the loop runs; the loop has returned; or it
-- is over.
pub data Closing (c : Core) : Type 0 where
  waits :
      c.closed ≡ true
      → c.stop_call ≡ putting
      → length c.inference_queue ≤ 1
      → is_running c.inference_task ≡ true
      → Closing c
  quit :
      c.closed ≡ true
      → c.stop_call ≡ putting
      → c.inference_queue ≡ []
      → c.inference_task ≡ returned
      → Closing c
  queued :
      c.closed ≡ true
      → c.stop_call ≡ joining
      → c.inference_queue ≡ stop_job ∷ []
      → is_running c.inference_task ≡ true
      → Closing c
  ended : c.closed ≡ true → c.stop_call ≡ joining → c.inference_task ≡ returned → Closing c
  done : c.closed ≡ true → c.stop_call ≡ stopped → c.inference_task ≡ not_started → Closing c

pub closing-closed : {c : Core} → Closing c → c.closed ≡ true
closing-closed (waits closed _ _ _) = closed
closing-closed (quit closed _ _ _) = closed
closing-closed (queued closed _ _ _) = closed
closing-closed (ended closed _ _) = closed
closing-closed (done closed _ _) = closed

module _ {N : Type 0} where
  -- A loop that does not wait takes nothing.
  pub takes-same :
      (cfg : CoordinatorSettings N) (task : LoopTask) (st : Coordinator N)
      → task ≡ returned
      → next_from cfg task st ≡ st
  takes-same cfg task st e = rw e refl

  pub takes-never :
      (cfg : CoordinatorSettings N) (task : LoopTask) (st : Coordinator N)
      → task ≡ not_started
      → next_from cfg task st ≡ st
  takes-never cfg task st e = rw e refl

  pub transcribed-same :
      (task : LoopTask) (result : Option Analysis) (st : Coordinator N)
      → task ≡ returned
      → transcribed_from task result st ≡ st
  transcribed-same task result st e = rw e refl

  pub transcribed-never :
      (task : LoopTask) (result : Option Analysis) (st : Coordinator N)
      → task ≡ not_started
      → transcribed_from task result st ≡ st
  transcribed-never task result st e = rw e refl

  pub put-joining : (call : StopCall) (st : Coordinator N) → call ≡ joining → put_from call st ≡ st
  put-joining call st e = rw e refl

  pub put-stopped : (call : StopCall) (st : Coordinator N) → call ≡ stopped → put_from call st ≡ st
  put-stopped call st e = rw e refl

  join-putting : (call : StopCall) (st : Coordinator N) → call ≡ putting → join_from call st ≡ st
  join-putting call st e = rw e refl

  pub join-stopped :
      (call : StopCall) (st : Coordinator N) → call ≡ stopped → join_from call st ≡ st
  join-stopped call st e = rw e refl

  abbrev pub Closes : Coordinator N → Type 0
  Closes st = Closing (core st)

  running-joins :
      (task : LoopTask) (st : Coordinator N) → is_running task ≡ true → end_stop task st ≡ st
  running-joins waiting st h = refl
  running-joins (transcribing job) st h = refl
  running-joins returned st h = absurd (ground (arith, h))
  running-joins not_started st h = absurd (ground (arith, h))
  running-joins raised st h = absurd (ground (arith, h))

empty-queue : (jobs : List Job) → is_full jobs ≡ false → jobs ≡ []
unfolding is_full
empty-queue [] h = refl
empty-queue (job ∷ jobs) h = absurd (ground (arith, h))

never-raised : {c : Core} → Closing c → c.inference_task ≡ raised → ⊥
never-raised (waits _ _ _ running) e =
    absurd (let no = ap is_running e in ground (arith, no, running))
never-raised (quit _ _ _ task) e = cc (task, e)
never-raised (queued _ _ _ running) e =
    absurd (let no = ap is_running e in ground (arith, no, running))
never-raised (ended _ _ task) e = cc (task, e)
never-raised (done _ _ task) e = cc (task, e)

module _ {N : Type 0} (cfg : CoordinatorSettings N) where
  take_first-waits :
      (jobs : List Job) (st : Coordinator N)
      → st.inference_queue ≡ jobs
      → length jobs ≤ 1
      → st.closed ≡ true
      → st.stop_call ≡ putting
      → is_running st.inference_task ≡ true
      → Closes (take_first cfg jobs st)
  unfolding take_job
  take_first-waits [] st q few closed call running =
      waits closed call (omega (arith, ap length q)) running
  take_first-waits (job ∷ job' ∷ jobs) st q few closed call running = absurd (omega arith)
  take_first-waits (job ∷ []) st q few closed call running =
      let rest : Coordinator N = record st { inference_queue = [] } in
      if_both Closes (st.closed && str_eq job.trigger "stop")
        {x = record rest { inference_task = returned }}
        {y = if is_short cfg job then rest else record rest { inference_task = transcribing job }}
        (quit closed call refl refl)
        (if_both Closes (is_short cfg job) {x = rest}
          {y = record rest { inference_task = transcribing job }}
          (waits closed call (omega arith) running) (waits closed call (omega arith) refl))

  take_first-queued :
      (jobs : List Job) (st : Coordinator N)
      → jobs ≡ stop_job ∷ []
      → st.closed ≡ true
      → st.stop_call ≡ joining
      → Closes (take_first cfg jobs st)
  unfolding take_job
  take_first-queued jobs st q closed call =
      let rest : Coordinator N = record st { inference_queue = [] } in
      let stops_now : (st.closed && str_eq stop_job.trigger "stop") ≡ true = rw closed refl in
      rw q (
        if_cases Closes (st.closed && str_eq stop_job.trigger "stop")
          {x = record rest { inference_task = returned }}
          {y = if is_short cfg stop_job
            then rest
            else record rest { inference_task = transcribing stop_job }}
          (λ _. ended closed call refl) (λ never. cc (never, stops_now)))

  pub next_from-Closes :
      (task : LoopTask) (st : Coordinator N)
      → st.inference_task ≡ task
      → Closes st
      → Closes (next_from cfg task st)
  next_from-Closes waiting st e (waits closed call few running) =
      take_first-waits st.inference_queue st refl few closed call running
  next_from-Closes waiting st e (queued closed call q running) =
      take_first-queued st.inference_queue st q closed call
  next_from-Closes waiting st e (quit _ _ _ task) = cc (task, e)
  next_from-Closes waiting st e (ended _ _ task) = cc (task, e)
  next_from-Closes waiting st e (done _ _ task) = cc (task, e)
  next_from-Closes not_started st e h = h
  next_from-Closes returned st e h = h
  next_from-Closes raised st e h = h
  next_from-Closes (transcribing job) st e h = h

module _ {N : Type 0} where
  pub transcribed_from-Closes :
      (task : LoopTask) (result : Analysis) (st : Coordinator N)
      → st.inference_task ≡ task
      → Closes st
      → Closes (transcribed_from task (some result) st)
  transcribed_from-Closes (transcribing job) result st e (waits closed call few running) =
      let (next, same, _, on) = transcribed-idle (transcribing job) result st e refl in
      subst Closing (sym same) (waits closed call few (ap is_running (on refl)))
  transcribed_from-Closes (transcribing job) result st e (queued closed call q running) =
      let (next, same, _, on) = transcribed-idle (transcribing job) result st e refl in
      subst Closing (sym same) (queued closed call q (ap is_running (on refl)))
  transcribed_from-Closes (transcribing job) result st e (quit _ _ _ task) = cc (task, e)
  transcribed_from-Closes (transcribing job) result st e (ended _ _ task) = cc (task, e)
  transcribed_from-Closes (transcribing job) result st e (done _ _ task) = cc (task, e)
  transcribed_from-Closes waiting result st e h = h
  transcribed_from-Closes not_started result st e h = h
  transcribed_from-Closes returned result st e h = h
  transcribed_from-Closes raised result st e h = h

  abbrev with_stop_job : Coordinator N → Coordinator N
  with_stop_job st = record st {
    inference_queue = st.inference_queue ++ stop_job ∷ [];
    stop_call = joining;
  }

  with_stop_job-Closes :
      (st : Coordinator N)
      → st.stop_call ≡ putting
      → st.inference_queue ≡ []
      → Closes st
      → Closes (with_stop_job st)
  with_stop_job-Closes st e none_left (waits closed call few running) =
      queued closed refl (ap (λ (jobs : List Job). jobs ++ stop_job ∷ []) none_left) running
  with_stop_job-Closes st e none_left (quit closed call q task) = ended closed refl task
  with_stop_job-Closes st e none_left (queued _ call _ _) = cc (call, e)
  with_stop_job-Closes st e none_left (ended _ call _) = cc (call, e)
  with_stop_job-Closes st e none_left (done _ call _) = cc (call, e)

  pub put_from-Closes :
      (call : StopCall) (st : Coordinator N)
      → st.stop_call ≡ call
      → Closes st
      → Closes (put_from call st)
  put_from-Closes putting st e h =
      if_cases Closes (is_full st.inference_queue) {x = st} {y = with_stop_job st} (λ _. h)
        (λ free. with_stop_job-Closes st e (empty-queue st.inference_queue free) h)
  put_from-Closes not_called st e h = h
  put_from-Closes joining st e h = h
  put_from-Closes stopped st e h = h
  put_from-Closes failed st e h = h

  end_stop-Closes :
      (task : LoopTask) (st : Coordinator N)
      → st.inference_task ≡ task
      → Closes st
      → Closes (end_stop task st)
  end_stop-Closes waiting st e h = h
  end_stop-Closes (transcribing job) st e h = h
  end_stop-Closes not_started st e h = done (closing-closed h) refl e
  end_stop-Closes returned st e h = done (closing-closed h) refl refl
  end_stop-Closes raised st e h = absurd (never-raised h e)

  pub join_from-Closes :
      (call : StopCall) (st : Coordinator N) → Closes st → Closes (join_from call st)
  join_from-Closes joining st h = end_stop-Closes st.inference_task st refl h
  join_from-Closes not_called st h = h
  join_from-Closes putting st h = h
  join_from-Closes stopped st h = h
  join_from-Closes failed st h = h
