-- ===== src/Extension/Queue/Admits.antt =====
-- Which jobs the queue takes.
use luve.Prelude.{ℕ, ◌≤◌, ◌≡◌, ◌≢◌, refl, arith, Bool, false, List, [], ◌∷◌, length, if◌then◌else◌}
use luve.Extension.Queue.{
  InferenceJob, InferenceQueue, final_dropped, enqueue_inference_job, is_empty_list, has_final, put,
  put_if_room, is_full, enqueue_partial, enqueue_final, drop_queued_partial_inference,
  drop_one_queued_inference, has_queued_final_inference, task_done, tasks_done,
}

module _ {N : Type 0} where
  abbrev pub admitted_partial :
      Bool → InferenceJob N → List (InferenceJob N) → List (InferenceJob N)
  admitted_partial busy job [] = if busy then [] else job ∷ []
  admitted_partial busy job (other ∷ jobs) = other ∷ jobs

  -- The jobs that the queue is to hold after a job is offered: a final replaces a partial and never
  -- another final, and a partial is taken only by an empty queue while nothing is transcribed.
  abbrev pub admitted : Bool → InferenceJob N → List (InferenceJob N) → List (InferenceJob N)
  admitted busy job jobs =
      if is_empty_list job.pcm_bytes
      then jobs
      else if job.is_final
      then if has_final jobs then jobs else job ∷ []
      else admitted_partial busy job jobs

  final-jobs :
      (job : InferenceJob N) (jobs : List (InferenceJob N)) (n : ℕ)
      → length jobs ≤ 1
      → ((enqueue_final job (record { jobs = jobs; unfinished = n })).1.jobs
          ≡ (if has_final jobs then jobs else job ∷ []))
        × ((enqueue_final job (record { jobs = jobs; unfinished = n })).0 ≢ final_dropped)
  unfolding enqueue_final put_if_room put is_full has_queued_final_inference
      drop_queued_partial_inference drop_one_queued_inference tasks_done task_done
  final-jobs job [] n h = (refl, λ e. cc)
  final-jobs job (j ∷ []) n h = ground arith
  final-jobs job (j ∷ j' ∷ jobs) n h = absurd (omega arith)

  partial-jobs :
      (busy : Bool) (job : InferenceJob N) (jobs : List (InferenceJob N)) (n : ℕ)
      → job.is_final ≡ false
      → ((enqueue_partial busy job (record { jobs = jobs; unfinished = n })).1.jobs
          ≡ admitted_partial busy job jobs)
        × ((enqueue_partial busy job (record { jobs = jobs; unfinished = n })).0 ≢ final_dropped)
  unfolding enqueue_partial put_if_room put is_full has_queued_final_inference
  partial-jobs busy job [] n partial = ground arith
  partial-jobs busy job (j ∷ jobs) n partial = ground arith

  -- A queue of at most one job holds the jobs that it is to hold after any job is offered, and the
  -- warning that a final is lost is never logged.
  pub enqueue_inference_job-admitted :
      (busy : Bool) (job : InferenceJob N) (q : InferenceQueue N)
      → length q.jobs ≤ 1
      → ((enqueue_inference_job busy job q).1.jobs ≡ admitted busy job q.jobs)
        × ((enqueue_inference_job busy job q).0 ≢ final_dropped)
  unfolding enqueue_inference_job
  enqueue_inference_job-admitted busy job q h =
      ground
        (arith, final-jobs job q.jobs q.unfinished h, partial-jobs busy job q.jobs q.unfinished)
