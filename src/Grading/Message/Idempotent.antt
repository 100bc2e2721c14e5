-- ===== src/Grading/Message/Idempotent.antt =====
-- worker.py: messages that come again, and the graded rows.
use luve.Prelude.{
  inr, inl, Bool-cases, ◌≡◌, true, ℕ, zero, suc, Option, none, some, List, [], ◌∷◌, Result, ok,
  raise,
}
use luve.Python.Json.{Value, Loaded, loaded, decode_error, value_error, Runtime, Floats, Unicode}
use luve.Grading.Store.{Db, GradingRow, is_graded}
use luve.Grading.World.{
  Exc, validation_error, db_error, build_error, llm_error, World, M, Keeps, Keeps-bind,
}
use luve.Grading.Worker.{Config, Calls, process_session_completed_job}
use luve.Grading.Worker.Graded.{HasRow, process_session_completed_job-Keeps, mark_failed-Keeps}
use luve.Grading.Message.{
  ends_consumer, ◌∷◌, List, handle_all, after_attempt, attempt, give_up,
  process_payload_with_retries, handle_queue_message,
}

module _ {N : Type 0} (rt : Runtime N) (fl : Floats N) (uni : Unicode) (calls : Calls N)
    (cfg : Config) (k : ℕ) (r : GradingRow N) (graded : is_graded r.status ≡ true) where
  abbrev Kept : Db N → Type 0
  Kept = HasRow k r graded

  after_attempt-Keeps :
      (retry : Exc → M N (Option Exc)) (x : Result Exc (Unit {0}))
      → ((e : Exc) → Keeps Kept (retry e))
      → Keeps Kept (after_attempt rt fl uni calls cfg retry x)
  unfolding after_attempt
  after_attempt-Keeps retry (ok _) h w p = p
  after_attempt-Keeps retry (raise validation_error) h w p = p
  after_attempt-Keeps retry (raise db_error) h w p = h db_error w p
  after_attempt-Keeps retry (raise (build_error e)) h w p = h (build_error e) w p
  after_attempt-Keeps retry (raise (llm_error e)) h w p = h (llm_error e) w p

  attempt-Keeps :
      (n : ℕ) (last : Option Exc) (payload : Value N)
      → Keeps Kept (attempt rt fl uni calls cfg n last payload)
  unfolding attempt
  attempt-Keeps zero last payload w h = h
  attempt-Keeps (suc n) last payload w h =
      let job = process_session_completed_job rt fl uni calls cfg payload in
      after_attempt-Keeps (λ e. attempt rt fl uni calls cfg n (some e) payload) (job w).0
        (λ e. attempt-Keeps n (some e) payload) (job w).1
        (process_session_completed_job-Keeps rt fl uni calls cfg k r graded payload w h)

  give_up-Keeps :
      (id : Option ℕ) (last : Option Exc) → Keeps Kept (give_up rt fl uni calls cfg id last)
  unfolding give_up
  give_up-Keeps id none w h = h
  give_up-Keeps none (some e) w h = h
  give_up-Keeps (some id) (some e) w h = mark_failed-Keeps rt fl uni calls cfg k r graded id e w h

  handle-Keeps :
      (body : Loaded N) (w : World N)
      → Kept w.db
      → Kept (handle_queue_message rt fl uni calls cfg body w).1.db
  unfolding handle_queue_message process_payload_with_retries
  handle-Keeps decode_error w h = h
  handle-Keeps value_error w h = h
  handle-Keeps (loaded payload) w h =
      Keeps-bind Kept (attempt rt fl uni calls cfg cfg.max_attempts none payload)
        (give_up rt fl uni calls cfg (calls.model_validate payload))
        (attempt-Keeps cfg.max_attempts none payload) (give_up-Keeps (calls.model_validate payload))
        w h

module _ {N : Type 0} (rt : Runtime N) (fl : Floats N) (uni : Unicode) (calls : Calls N)
    (cfg : Config) where
  -- A row of grading_results that is graded is the same row after any sequence of messages, valid or
  -- not and delivered again or not, and however their database calls end and whatever the language
  -- model answers.
  pub handle_all-graded :
      (k : ℕ) (r : GradingRow N) (bodies : List (Loaded N)) (w : World N)
      → is_graded r.status ≡ true
      → w.db.results k ≡ some r
      → (handle_all rt fl uni calls cfg bodies w).db.results k ≡ some r
  unfolding handle_all
  handle_all-graded k r [] w graded row = row
  handle_all-graded k r (body ∷ bodies) w graded row =
      let (s, w') = handle_queue_message rt fl uni calls cfg body w in
      let row' = handle-Keeps rt fl uni calls cfg k r graded body w row in
      elim (Bool-cases (ends_consumer rt fl uni calls cfg s)) [
        | inl ended ↦ rw ended row'
        | inr goes_on ↦ rw goes_on (handle_all-graded k r bodies w' graded row')
      ]
