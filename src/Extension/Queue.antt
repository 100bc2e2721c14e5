-- ===== src/Extension/Queue.antt =====
-- luve_extension.py: the queue between the audio and the loop that transcribes it.
pub mod Admits
pub mod Keeps
pub mod Taken
use Prim.Native.String.{String}
use text.Mathlib.Text.{◌==◌ as str_eq}
use luve.Prelude.{
  ℕ, zero, suc, ◌+◌, ◌-◌, ◌||◌, Bool, true, false, Option, none, some, List, [], ◌∷◌, ◌++◌, length,
  if◌then◌else◌, leb, ltb, ◌==◌, not,
}

-- What `UtteranceStats.snapshot` returns.
pub record AudioStats (N : Type 0) : Type 0 where
  pub audio_ms : N
  pub speech_ms : N
  pub trigger : String
  pub frames : ℕ
  pub speech_frames : ℕ
  pub silence_frames : ℕ
  pub assistant_speech_frames : ℕ
  pub dbfs_min : Option N
  pub dbfs_avg : Option N
  pub dbfs_max : Option N
  pub noise_floor_db : N
  pub effective_threshold_db : N

pub record InferenceJob (N : Type 0) : Type 0 where
  pub is_final : Bool
  pub trigger : String
  pub queued_at : N
  pub pcm_bytes : List ℕ
  pub session_id : Option String
  pub audio_stats : Option (AudioStats N)
  pub suppress_response : Bool

-- `asyncio.Queue`: its jobs, the oldest first, and the number that `join` waits for to be 0.
pub record InferenceQueue (N : Type 0) : Type 0 where
  pub jobs : List (InferenceJob N)
  pub unfinished : ℕ

-- How an attempt to queue a job ends: it is queued, the function returns early, or the job is a final
-- and a warning is logged that it is lost.
pub data Outcome : Type 0 where
  queued skipped final_dropped : Outcome

-- `asyncio.Queue(maxsize=1)`
abbrev pub maxsize : ℕ
maxsize = 1

abbrev pub is_empty_list : List ℕ → Bool
is_empty_list [] = true
is_empty_list (_ ∷ _) = false

module _ {N : Type 0} where
  abbrev pub has_final : List (InferenceJob N) → Bool
  has_final [] = false
  has_final (job ∷ jobs) = job.is_final || has_final jobs

  abbrev pub finals : List (InferenceJob N) → List (InferenceJob N)
  finals [] = []
  finals (job ∷ jobs) = let rest = finals jobs in if job.is_final then job ∷ rest else rest

  unfoldable pub is_full : InferenceQueue N → Bool
  is_full q = leb maxsize (length q.jobs)

  -- At 0 the `ValueError` is suppressed.
  unfoldable pub task_done : InferenceQueue N → InferenceQueue N
  task_done q = record q { unfinished = q.unfinished - 1 }

  unfoldable pub tasks_done : ℕ → InferenceQueue N → InferenceQueue N
  tasks_done zero q = q
  tasks_done (suc n) q = tasks_done n (task_done q)

  unfoldable pub put : InferenceJob N → InferenceQueue N → InferenceQueue N
  put job q = record { jobs = q.jobs ++ job ∷ []; unfinished = q.unfinished + 1 }

  unfoldable pub has_queued_final_inference : InferenceQueue N → Bool
  has_queued_final_inference q = has_final q.jobs

  unfoldable pub drop_queued_partial_inference : InferenceQueue N → InferenceQueue N
  drop_queued_partial_inference q =
      let kept_jobs = finals q.jobs in
      let dropped_partials = length q.jobs - length kept_jobs in
      if dropped_partials == 0
      then q
      else tasks_done dropped_partials (record q { jobs = kept_jobs })

  abbrev pub without_first : List (InferenceJob N) → InferenceQueue N → InferenceQueue N
  without_first [] q = q
  without_first (_ ∷ jobs) q = task_done (record q { jobs = jobs })

  unfoldable pub drop_one_queued_inference : InferenceQueue N → InferenceQueue N
  drop_one_queued_inference q = without_first q.jobs q

  -- The last test, and `put`.
  unfoldable pub put_if_room : InferenceJob N → InferenceQueue N → Outcome × InferenceQueue N
  put_if_room job q =
      if is_full q
      then (if job.is_final then final_dropped else skipped, q)
      else (queued, put job q)

  unfoldable pub enqueue_partial :
      Bool → InferenceJob N → InferenceQueue N → Outcome × InferenceQueue N
  enqueue_partial stt_inference_busy job q =
      if stt_inference_busy || has_queued_final_inference q
      then (skipped, q)
      else if is_full q
      then (skipped, q)
      else put_if_room job q

  unfoldable pub enqueue_final : InferenceJob N → InferenceQueue N → Outcome × InferenceQueue N
  enqueue_final job q =
      let rest = drop_queued_partial_inference q in
      if has_queued_final_inference rest
      then (skipped, rest)
      else if is_full rest
      then put_if_room job (drop_one_queued_inference rest)
      else put_if_room job rest

  -- The queue is there from the start of the extension to its stop.
  unfoldable pub enqueue_inference_job :
      Bool → InferenceJob N → InferenceQueue N → Outcome × InferenceQueue N
  enqueue_inference_job stt_inference_busy job q =
      if is_empty_list job.pcm_bytes
      then (skipped, q)
      else if job.is_final
      then enqueue_final job q
      else enqueue_partial stt_inference_busy job q

-- What the loop reads of the extension's settings.
pub record LoopSettings : Type 0 where
  pub has_stt_worker : Bool
  pub stt_final_min_audio_bytes : ℕ
  pub stt_partial_min_audio_bytes : ℕ

-- The queue and the loop; `working` is the job being transcribed, `taken` the jobs that the loop has
-- taken, in turn.
pub record Loop (N : Type 0) : Type 0 where
  pub queue : InferenceQueue N
  pub working : Option (InferenceJob N)
  pub stt_inference_busy : Bool
  pub is_running : Bool
  pub taken : List (InferenceJob N)

module _ {N : Type 0} (settings : LoopSettings) where
  -- Whether the loop passes a job over.
  unfoldable pub is_passed_over : InferenceJob N → Bool
  is_passed_over job =
      if not settings.has_stt_worker
      then true
      else ltb (length job.pcm_bytes) (
          if job.is_final
          then settings.stt_final_min_audio_bytes
          else settings.stt_partial_min_audio_bytes)

  unfoldable pub start_job : InferenceJob N → Loop N → Loop N
  start_job job st =
      if str_eq job.trigger "__stop__"
      then record st { queue = task_done st.queue; is_running = false }
      else if is_passed_over job
      then record st { queue = task_done st.queue }
      else record st { working = some job; stt_inference_busy = true }

  -- `await get()`, up to the transcription; the loop waits while the queue is empty.
  unfoldable pub take_job : List (InferenceJob N) → Loop N → Loop N
  take_job [] st = st
  take_job (job ∷ jobs) st =
      start_job job
        (record st { queue = record st.queue { jobs = jobs }; taken = st.taken ++ job ∷ [] })

  unfoldable pub next_from : Option (InferenceJob N) → Loop N → Loop N
  next_from (some _) st = st
  next_from none st = if st.is_running then take_job st.queue.jobs st else st

  abbrev pub next_job : Loop N → Loop N
  next_job st = next_from st.working st

module _ {N : Type 0} where
  -- The transcription has ended, well or not.
  unfoldable pub transcribed : Loop N → Loop N
  transcribed st = record st { stt_inference_busy = false }

  -- The last step of a job in work, in the loop's `finally`.
  unfoldable pub finish_from : Option (InferenceJob N) → Loop N → Loop N
  finish_from none st = st
  finish_from (some _) st = record st {
    queue = task_done st.queue;
    working = none;
    stt_inference_busy = false;
  }

  abbrev pub finish_job : Loop N → Loop N
  finish_job st = finish_from st.working st

  -- `await put(…)` of `_async_stop`: it waits while the queue is full.
  unfoldable pub put_stop : InferenceJob N → Loop N → Loop N
  put_stop job st = if is_full st.queue then st else record st { queue = put job st.queue }

  unfoldable pub offer : InferenceJob N → Loop N → Outcome × Loop N
  offer job st =
      let (outcome, q) = enqueue_inference_job st.stt_inference_busy job st.queue in
      (outcome, record st { queue = q })

-- A turn of one of the tasks.
pub data Turn (N : Type 0) : Type 0 where
  offers : InferenceJob N → Turn N
  stops : InferenceJob N → Turn N
  takes transcribes finishes : Turn N

module _ {N : Type 0} (settings : LoopSettings) where
  unfoldable pub step : Turn N → Loop N → Loop N
  step (offers job) st = (offer job st).1
  step (stops job) st = put_stop job st
  step takes st = next_job settings st
  step transcribes st = transcribed st
  step finishes st = finish_job st

  unfoldable pub run : List (Turn N) → Loop N → Loop N
  run [] st = st
  run (turn ∷ turns) st = run turns (step turn st)
