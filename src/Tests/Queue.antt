-- ===== src/Tests/Queue.antt =====
-- The queue of the transcriptions at small data.
use luve.Prelude.{ℕ, ◌≡◌, ◌≢◌, refl, arith, true, false, Bool, none, some, List, [], ◌∷◌, ◌++◌}
use luve.Extension.Queue.{
  InferenceJob, InferenceQueue, final_dropped, enqueue_inference_job, Loop, LoopSettings, Turn,
  offers, takes, finishes, run,
}
use luve.Extension.Queue.Admits.{enqueue_inference_job-admitted}
use luve.Extension.Queue.Keeps.{IsSound, run-IsSound}
use luve.Extension.Queue.Taken.{accounted, admitted_finals, run-finals}

abbrev job : Bool → ℕ → InferenceJob ℕ
job is_final byte = record {
  is_final = is_final;
  trigger = "flush";
  queued_at = 0;
  pcm_bytes = byte ∷ [];
  session_id = some "s";
  audio_stats = none;
  suppress_response = false;
}

abbrev partial_queue : InferenceQueue ℕ
partial_queue = record { jobs = job false 1 ∷ []; unfinished = 1 }

enqueue_inference_job-admitted_example :
    ((enqueue_inference_job false (job true 2) partial_queue).1.jobs ≡ job true 2 ∷ [])
    × ((enqueue_inference_job false (job true 2) partial_queue).0 ≢ final_dropped)
enqueue_inference_job-admitted_example =
    enqueue_inference_job-admitted false (job true 2) partial_queue (omega arith)

abbrev settings : LoopSettings
settings = record {
  has_stt_worker = true;
  stt_final_min_audio_bytes = 1;
  stt_partial_min_audio_bytes = 1;
}

abbrev idle : Loop ℕ
idle = record {
  queue = record { jobs = []; unfinished = 0 };
  working = none;
  stt_inference_busy = false;
  is_running = true;
  taken = [];
}

idle-IsSound : IsSound idle
idle-IsSound = record { room = omega arith; counted = refl; busy = omega arith }

abbrev turns : List (Turn ℕ)
turns = offers (job false 1) ∷ offers (job true 2) ∷ takes ∷ offers (job true 3) ∷ finishes ∷ []

run-IsSound_example : IsSound (run settings turns idle)
run-IsSound_example = run-IsSound settings turns idle idle-IsSound

run-finals_example :
    accounted (run settings turns idle) ≡ accounted idle ++ admitted_finals settings turns idle
run-finals_example = run-finals settings turns idle idle-IsSound
