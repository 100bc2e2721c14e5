-- ===== src/Extension/Queue/Taken.antt =====
-- What becomes of the finals that the queue takes.
use text.Mathlib.Text.{◌==◌ as str_eq}
use mathlib.Core.List.{append-nil, append_assoc}
use luve.Prelude.{
  if_cases, if_both, ℕ, ◌≤◌, ◌≡◌, refl, arith, Bool, true, false, Option, none, some, List, [], ◌∷◌,
  ◌++◌, length, if◌then◌else◌, ap, sym, ◌∙◌, ◌||◌,
}
use luve.Extension.Queue.{
  is_passed_over, finish_from, next_from, stops, maxsize, offers, Turn, leb, run, put_stop,
  transcribed, LoopSettings, start_job, offer, step, take_job, Loop, InferenceJob, offers, stops,
  takes, transcribes, finishes, InferenceQueue, Outcome, queued, skipped, final_dropped,
  enqueue_inference_job, is_empty_list, has_final, put, put_if_room, is_full, enqueue_partial,
  enqueue_final, drop_queued_partial_inference, drop_one_queued_inference,
  has_queued_final_inference, task_done, tasks_done, finals,
}
use luve.Extension.Queue.Keeps.{IsSound, step-IsSound}

module _ {N : Type 0} where
  -- The finals that the queue takes during a run, in turn.
  abbrev taken_in : Outcome → InferenceJob N → List (InferenceJob N)
  taken_in queued job = if job.is_final then job ∷ [] else []
  taken_in _ job = []

  unfoldable pub admitted_by : Turn N → Loop N → List (InferenceJob N)
  admitted_by (offers job) st = taken_in (offer job st).0 job
  admitted_by (stops job) st = if is_full st.queue then [] else taken_in queued job
  admitted_by _ st = []

  unfoldable pub admitted_finals : LoopSettings → List (Turn N) → Loop N → List (InferenceJob N)
  admitted_finals settings [] st = []
  admitted_finals settings (turn ∷ turns) st =
      admitted_by turn st ++ admitted_finals settings turns (step settings turn st)

  -- The finals that the loop has taken, and those that wait.
  abbrev pub accounted : Loop N → List (InferenceJob N)
  accounted st = finals st.taken ++ finals st.queue.jobs

  finals-append : (xs ys : List (InferenceJob N)) → finals (xs ++ ys) ≡ finals xs ++ finals ys
  finals-append [] ys = refl
  finals-append (job ∷ jobs) ys = ground (arith, finals-append jobs ys)

  final-accounted :
      (job : InferenceJob N) (jobs : List (InferenceJob N)) (n : ℕ)
      → length jobs ≤ 1
      → job.is_final ≡ true
      → let (outcome, q) = enqueue_final job (record { jobs = jobs; unfinished = n }) in
        finals q.jobs ≡ finals jobs ++ taken_in outcome job
  unfolding enqueue_final put_if_room put is_full has_queued_final_inference
      drop_queued_partial_inference drop_one_queued_inference tasks_done task_done
  final-accounted job [] n h final = ground (arith, final)
  final-accounted job (j ∷ []) n h final = ground (arith, final)
  final-accounted job (j ∷ j' ∷ jobs) n h final = absurd (omega arith)

  taken-partial :
      (outcome : Outcome) (job : InferenceJob N) → job.is_final ≡ false → taken_in outcome job ≡ []
  taken-partial queued job partial = rw partial refl
  taken-partial skipped job partial = refl
  taken-partial final_dropped job partial = refl

  partial-finals :
      (busy : Bool) (job : InferenceJob N) (jobs : List (InferenceJob N)) (n : ℕ)
      → job.is_final ≡ false
      → finals (enqueue_partial busy job (record { jobs = jobs; unfinished = n })).1.jobs
        ≡ finals jobs
  unfolding enqueue_partial put_if_room put is_full has_queued_final_inference
  partial-finals busy job [] n partial = ground (arith, partial)
  partial-finals busy job (j ∷ jobs) n partial =
      let full : leb maxsize (length (j ∷ jobs)) ≡ true = ground arith in
      rw full (
        if_both (λ (r : Outcome × InferenceQueue N). finals r.1.jobs ≡ finals (j ∷ jobs))
          (busy || has_final (j ∷ jobs)) refl refl)

  unmoved : {xs ys zs : List (InferenceJob N)} → xs ≡ ys → zs ≡ [] → xs ≡ ys ++ zs
  unmoved {ys = ys} same none_taken =
      same ∙ sym (append-nil ys) ∙ ap (λ zs. ys ++ zs) (sym none_taken)

  offer-accounted :
      (busy : Bool) (job : InferenceJob N) (q : InferenceQueue N)
      → length q.jobs ≤ 1
      → finals (enqueue_inference_job busy job q).1.jobs
        ≡ finals q.jobs ++ taken_in (enqueue_inference_job busy job q).0 job
  unfolding enqueue_inference_job
  offer-accounted busy job q h =
      let Accounts : Outcome × InferenceQueue N → Type 0 =
        λ r. finals r.1.jobs ≡ finals q.jobs ++ taken_in r.0 job in
      if_cases Accounts (is_empty_list job.pcm_bytes) (λ _. sym (append-nil (finals q.jobs)))
        λ _. if_cases Accounts job.is_final (final-accounted job q.jobs q.unfinished h) λ partial.
          unmoved (partial-finals busy job q.jobs q.unfinished partial)
            (taken-partial (enqueue_partial busy job q).0 job partial)

  start-accounted :
      (settings : LoopSettings) (job : InferenceJob N) (st : Loop N)
      → accounted (start_job settings job st) ≡ accounted st
  unfolding start_job task_done
  start-accounted settings job st =
      let Accounts : Loop N → Type 0 = λ x. accounted x ≡ accounted st in
      if_both Accounts (str_eq job.trigger "__stop__") refl
        (if_both Accounts (is_passed_over settings job) refl refl)

  take-accounted :
      (settings : LoopSettings) (jobs : List (InferenceJob N)) (st : Loop N)
      → st.queue.jobs ≡ jobs
      → accounted (take_job settings jobs st) ≡ accounted st
  unfolding take_job
  take-accounted settings [] st e = refl
  take-accounted settings (job ∷ jobs) st e =
      start-accounted settings job
        (record st { queue = record st.queue { jobs = jobs }; taken = st.taken ++ job ∷ [] })
      ∙ ap (λ x. x ++ finals jobs) (finals-append st.taken (job ∷ []))
      ∙ append_assoc (finals st.taken) (finals (job ∷ [])) (finals jobs)
      ∙ ap (λ x. finals st.taken ++ x) (sym (finals-append (job ∷ []) jobs) ∙ ap finals (sym e))

  next-accounted :
      (settings : LoopSettings) (o : Option (InferenceJob N)) (st : Loop N)
      → accounted (next_from settings o st) ≡ accounted st
  unfolding next_from
  next-accounted settings (some _) st = refl
  next-accounted settings none st =
      if_both (λ x. accounted x ≡ accounted st) st.is_running
        (take-accounted settings st.queue.jobs st refl) refl

  finish-accounted :
      (o : Option (InferenceJob N)) (st : Loop N) → accounted (finish_from o st) ≡ accounted st
  unfolding finish_from task_done
  finish-accounted none st = refl
  finish-accounted (some _) st = refl

  stop-accounted :
      (job : InferenceJob N) (st : Loop N)
      → accounted (put_stop job st) ≡ accounted st ++ admitted_by (stops job) st
  unfolding put_stop put admitted_by
  stop-accounted job st = go (is_full st.queue)
    where
      go :
          (b : Bool)
          → accounted (if b then st else record st { queue = put job st.queue })
            ≡ accounted st ++ (if b then [] else taken_in queued job)
      go true = sym (append-nil (accounted st))
      go false =
          ap (λ x. finals st.taken ++ x) (finals-append st.queue.jobs (job ∷ []))
          ∙ sym (append_assoc (finals st.taken) (finals st.queue.jobs) (finals (job ∷ [])))

  step-accounted :
      (settings : LoopSettings) (turn : Turn N) (st : Loop N)
      → IsSound st
      → accounted (step settings turn st) ≡ accounted st ++ admitted_by turn st
  unfolding step offer transcribed admitted_by
  step-accounted settings (offers job) st s =
      ap (λ x. finals st.taken ++ x) (offer-accounted st.stt_inference_busy job st.queue s.room)
      ∙ sym (
          append_assoc (finals st.taken) (finals st.queue.jobs)
            (taken_in (enqueue_inference_job st.stt_inference_busy job st.queue).0 job))
  step-accounted settings (stops job) st s = stop-accounted job st
  step-accounted settings takes st s = unmoved (next-accounted settings st.working st) refl
  step-accounted settings transcribes st s = unmoved refl refl
  step-accounted settings finishes st s = unmoved (finish-accounted st.working st) refl

  -- Whatever turns the tasks take, no final that the queue takes is lost, and the loop takes them in
  -- turn: the finals taken by the loop, and then the one that waits, are those there were before and
  -- then those that the queue took.
  pub run-finals :
      (settings : LoopSettings) (turns : List (Turn N)) (st : Loop N)
      → IsSound st
      → accounted (run settings turns st) ≡ accounted st ++ admitted_finals settings turns st
  unfolding run admitted_finals
  run-finals settings [] st s = sym (append-nil (accounted st))
  run-finals settings (turn ∷ turns) st s =
      let st' = step settings turn st in
      run-finals settings turns st' (step-IsSound settings turn st s)
      ∙ ap (λ x. x ++ admitted_finals settings turns st') (step-accounted settings turn st s)
      ∙ append_assoc (accounted st) (admitted_by turn st) (admitted_finals settings turns st')
