-- ===== src/Extension/Queue/Keeps.antt =====
-- What holds of the queue and the loop whatever turns the tasks take.
use luve.Prelude.{
  if◌then◌else◌, if_both, leb-false, length-append, ℕ, ◌+◌, ◌≤◌, ◌≡◌, refl, arith, Bool, Option,
  none, some, List, [], ◌∷◌, length, ap, Bool-cases, inl, inr,
}
use luve.Extension.Queue.{
  finish_from, next_from, stops, maxsize, offers, Turn, leb, run, put_stop, transcribed,
  LoopSettings, start_job, offer, step, take_job, Loop, InferenceJob, offers, stops, takes,
  transcribes, finishes, InferenceQueue, enqueue_inference_job, put, put_if_room, is_full,
  enqueue_partial, enqueue_final, drop_queued_partial_inference, drop_one_queued_inference,
  has_queued_final_inference, task_done, tasks_done,
}

-- The jobs that a loop is at work on.
abbrev pub in_work : {N : Type 0} → Option (InferenceJob N) → ℕ
in_work none = 0
in_work (some _) = 1

-- The queue holds at most one job, and `join` waits for exactly the jobs that are queued or in work.
-- While the loop says that it transcribes, it has a job in work.
pub record IsSound {N : Type 0} (st : Loop N) : Type 0 where
  pub room : length st.queue.jobs ≤ 1
  pub counted : st.queue.unfinished ≡ length st.queue.jobs + in_work st.working
  pub busy : (if st.stt_inference_busy then 1 else 0) ≤ in_work st.working

module _ {N : Type 0} where
  final-counted :
      (job : InferenceJob N) (jobs : List (InferenceJob N)) (n k : ℕ)
      → length jobs ≤ 1
      → n ≡ length jobs + k
      → let q = (enqueue_final job (record { jobs = jobs; unfinished = n })).1 in
        (length q.jobs ≤ 1) × (q.unfinished ≡ length q.jobs + k)
  unfolding enqueue_final put_if_room put is_full has_queued_final_inference
      drop_queued_partial_inference drop_one_queued_inference tasks_done task_done
  final-counted job [] n k h e = ground (arith, e)
  final-counted job (j ∷ []) n k h e = ground (arith, e)
  final-counted job (j ∷ j' ∷ jobs) n k h e = absurd (omega arith)

  partial-counted :
      (busy : Bool) (job : InferenceJob N) (jobs : List (InferenceJob N)) (n k : ℕ)
      → length jobs ≤ 1
      → n ≡ length jobs + k
      → let q = (enqueue_partial busy job (record { jobs = jobs; unfinished = n })).1 in
        (length q.jobs ≤ 1) × (q.unfinished ≡ length q.jobs + k)
  unfolding enqueue_partial put_if_room put is_full has_queued_final_inference
  partial-counted busy job [] n k h e = ground (arith, e)
  partial-counted busy job (j ∷ jobs) n k h e = ground (arith, h, e)

  offer-counted :
      (busy : Bool) (job : InferenceJob N) (q : InferenceQueue N) (k : ℕ)
      → length q.jobs ≤ 1
      → q.unfinished ≡ length q.jobs + k
      → let q' = (enqueue_inference_job busy job q).1 in
        (length q'.jobs ≤ 1) × (q'.unfinished ≡ length q'.jobs + k)
  unfolding enqueue_inference_job
  offer-counted busy job q k h e = ground (
    arith,
    h,
    e,
    final-counted job q.jobs q.unfinished k h e,
    partial-counted busy job q.jobs q.unfinished k h e,
  )

  take-IsSound :
      (settings : LoopSettings) (jobs : List (InferenceJob N)) (st : Loop N)
      → IsSound st
      → st.working ≡ none
      → st.queue.jobs ≡ jobs
      → IsSound (take_job settings jobs st)
  unfolding take_job start_job task_done
  take-IsSound settings [] st s idle e = s
  take-IsSound settings (job ∷ jobs) st s idle e =
      ground (arith, s.room, s.counted, s.busy, idle, e)

  next-IsSound :
      (settings : LoopSettings) (o : Option (InferenceJob N)) (st : Loop N)
      → IsSound st
      → st.working ≡ o
      → IsSound (next_from settings o st)
  unfolding next_from
  next-IsSound settings (some job) st s e = s
  next-IsSound settings none st s e =
      if_both IsSound st.is_running (take-IsSound settings st.queue.jobs st s e refl) s

  finish-IsSound :
      (o : Option (InferenceJob N)) (st : Loop N)
      → IsSound st
      → st.working ≡ o
      → IsSound (finish_from o st)
  unfolding finish_from task_done
  finish-IsSound none st s e = s
  finish-IsSound (some job) st s e = record {
    room = s.room;
    counted = omega (arith, s.counted, ap in_work e);
    busy = omega arith;
  }

  stop-IsSound : (job : InferenceJob N) (st : Loop N) → IsSound st → IsSound (put_stop job st)
  unfolding put_stop put is_full
  stop-IsSound job st s = elim (Bool-cases (leb maxsize (length st.queue.jobs))) [
    | inl full ↦ rw full s
    | inr free ↦ rw free (record {
      room = omega (
        arith,
        length-append st.queue.jobs (job ∷ []),
        leb-false maxsize (length st.queue.jobs) free,
      );
      counted = omega (arith, s.counted, length-append st.queue.jobs (job ∷ []));
      busy = s.busy;
    })
  ]

  pub step-IsSound :
      (settings : LoopSettings) (turn : Turn N) (st : Loop N)
      → IsSound st
      → IsSound (step settings turn st)
  unfolding step offer transcribed
  step-IsSound settings (offers job) st s =
      let counted =
        offer-counted st.stt_inference_busy job st.queue (in_work st.working) s.room s.counted in
      record { room = counted.0; counted = counted.1; busy = s.busy }
  step-IsSound settings (stops job) st s = stop-IsSound job st s
  step-IsSound settings takes st s = next-IsSound settings st.working st s refl
  step-IsSound settings transcribes st s = record {
    room = s.room;
    counted = s.counted;
    busy = omega arith;
  }
  step-IsSound settings finishes st s = finish-IsSound st.working st s refl

  -- Whatever turns the tasks take, the queue holds at most one job, `join` waits for exactly the jobs
  -- that are queued or in work, and the loop is busy only with a job.
  pub run-IsSound :
      (settings : LoopSettings) (turns : List (Turn N)) (st : Loop N)
      → IsSound st
      → IsSound (run settings turns st)
  unfolding run
  run-IsSound settings [] st s = s
  run-IsSound settings (turn ∷ turns) st s =
      run-IsSound settings turns (step settings turn st) (step-IsSound settings turn st s)
