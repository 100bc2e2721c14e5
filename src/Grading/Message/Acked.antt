-- ===== src/Grading/Message/Acked.antt =====
-- worker.py: acknowledged and rejected messages, and the database.
use luve.Prelude.{
  ap, ◌∙◌, refl, ◌≡◌, ◌≢◌, ◌⊎◌, inl, inr, ℕ, zero, suc, Option, none, some, Result, ok, raise,
}
use luve.Python.Json.{Value, Loaded, loaded, decode_error, value_error, Runtime, Floats, Unicode}
use luve.Grading.World.{
  bind, bind-ok, call-ok, Exc, validation_error, db_error, build_error, llm_error, World, M,
}
use luve.Grading.Worker.{Config, Calls, mark_failed, process_session, process_session_completed_job}
use luve.Grading.Worker.Settled.{Final, process_session-Final, mark_failed-closed}
use luve.Grading.Message.{
  ack, reject, settle, after_attempt, attempt, give_up, process_payload_with_retries,
  handle_queue_message,
}

module _ {N : Type 0} (rt : Runtime N) (fl : Floats N) (uni : Unicode) (calls : Calls N)
    (cfg : Config) where
  -- The payload names a session, and that session is settled.
  abbrev pub Done : Option ℕ → World N → Type 0
  Done named w = (id : ℕ) × ((named ≡ some id) × Final id w.db)

  job-Done :
      (named : Option ℕ) (w : World N)
      → (process_session rt fl uni calls cfg named w).0 ≡ ok tt
      → Done named (process_session rt fl uni calls cfg named w).1
  unfolding process_session
  job-Done none w e = cc
  job-Done (some id) w e = (id, (refl, process_session-Final rt fl uni calls cfg id w e))

  after_attempt-Done :
      (named : Option ℕ) (retry : Exc → M N (Option Exc)) (x : Result Exc (Unit {0})) (w : World N)
      → (x ≡ ok tt → Done named w)
      → ((e : Exc) → (retry e w).0 ≡ ok none → Done named (retry e w).1)
      → (after_attempt rt fl uni calls cfg retry x w).0 ≡ ok none
      → Done named (after_attempt rt fl uni calls cfg retry x w).1
  unfolding after_attempt
  after_attempt-Done named retry (ok tt) w now later e = now refl
  after_attempt-Done named retry (raise validation_error) w now later e = cc
  after_attempt-Done named retry (raise db_error) w now later e = later db_error e
  after_attempt-Done named retry (raise (build_error x)) w now later e = later (build_error x) e
  after_attempt-Done named retry (raise (llm_error x)) w now later e = later (llm_error x) e

  -- Attempts that end without an exception have settled the session, if an attempt was made or an
  -- exception came before.
  attempt-Done :
      (n : ℕ) (last : Option Exc) (payload : Value N) (w : World N)
      → (n ≡ 0 → last ≢ none)
      → (attempt rt fl uni calls cfg n last payload w).0 ≡ ok none
      → Done (calls.model_validate payload) (attempt rt fl uni calls cfg n last payload w).1
  unfolding attempt process_session_completed_job
  attempt-Done zero last payload w made e = absurd (made refl cc)
  attempt-Done (suc n) last payload w made e =
      let named = calls.model_validate payload in
      let job = process_session rt fl uni calls cfg named in
      after_attempt-Done named (λ x. attempt rt fl uni calls cfg n (some x) payload) (job w).0
        (job w).1 (job-Done named w) (λ x. attempt-Done n (some x) payload (job w).1 (λ _. cc)) e

  give_up-Done :
      (named : Option ℕ) (last : Option Exc) (w : World N)
      → (last ≡ none → Done named w)
      → (give_up rt fl uni calls cfg named last w).0 ≡ ok tt
      → Done named (give_up rt fl uni calls cfg named last w).1
  unfolding give_up
  give_up-Done named none w done e = done refl
  give_up-Done none (some x) w done e = cc
  give_up-Done (some id) (some x) w done e =
      let failing = mark_failed rt fl uni calls cfg id x in
      (
        id,
        (
          refl,
          inr (
              inl
                (rw (call-ok failing w tt e).1 (mark_failed-closed rt fl uni calls cfg id x w.db))),
        ),
      )

  attempts-Done :
      (payload : Value N) (w : World N)
      → cfg.max_attempts ≢ 0
      → (process_payload_with_retries rt fl uni calls cfg payload w).0 ≡ ok tt
      → Done
          (calls.model_validate payload)
          (process_payload_with_retries rt fl uni calls cfg payload w).1
  unfolding process_payload_with_retries
  attempts-Done payload w tried e =
      let named = calls.model_validate payload in
      let tries = attempt rt fl uni calls cfg cfg.max_attempts none payload in
      let (last, (got, went, same)) = bind-ok tries (give_up rt fl uni calls cfg named) w tt e in
      rw same (
        give_up-Done named last (tries w).1
          (λ clean.
            attempt-Done cfg.max_attempts none payload w (λ zero' _. tried zero') (got ∙ rw clean))
          went)

  settle-ack : (r : Result Exc (Unit {0})) → settle rt fl uni calls cfg r ≡ ack → r ≡ ok tt
  unfolding settle
  settle-ack (ok tt) e = refl
  settle-ack (raise validation_error) e = cc
  settle-ack (raise db_error) e = cc
  settle-ack (raise (build_error x)) e = cc
  settle-ack (raise (llm_error x)) e = cc

  -- A message is acknowledged only if its body is a JSON value that names a session, and then that
  -- session is settled: its row is not there or is deleted, or its grading is graded or failed, or its
  -- skip is logged. At least one attempt must be configured.
  pub handle_queue_message-ack :
      (body : Loaded N) (w : World N)
      → cfg.max_attempts ≢ 0
      → (handle_queue_message rt fl uni calls cfg body w).0 ≡ ack
      → (payload : Value N) × (id : ℕ) × ((body ≡ loaded payload)
          × (calls.model_validate payload ≡ some id)
          × Final id (handle_queue_message rt fl uni calls cfg body w).1.db)
  unfolding handle_queue_message
  handle_queue_message-ack decode_error w tried e = cc
  handle_queue_message-ack value_error w tried e = cc
  handle_queue_message-ack (loaded payload) w tried e =
      let (id, (named, done)) =
        attempts-Done payload w tried
          (settle-ack (process_payload_with_retries rt fl uni calls cfg payload w).0 e) in
      (payload, id, (refl, named, done))

  attempt-unnamed :
      (n : ℕ) (payload : Value N) (w : World N)
      → n ≢ 0
      → calls.model_validate payload ≡ none
      → attempt rt fl uni calls cfg n none payload w ≡ (raise validation_error, w)
  unfolding attempt after_attempt process_session_completed_job process_session
  attempt-unnamed zero payload w tried unnamed = absurd (tried refl)
  attempt-unnamed (suc n) payload w tried unnamed = rw unnamed refl

  -- A message whose body is no JSON, or names no session, is rejected without a call to the database or
  -- to the language model, if at least one attempt is configured.
  pub handle_queue_message-invalid :
      (body : Loaded N) (w : World N)
      → cfg.max_attempts ≢ 0
      → (body ≡ decode_error)
        ⊎ ((payload : Value N) × ((body ≡ loaded payload) × (calls.model_validate payload ≡ none)))
      → handle_queue_message rt fl uni calls cfg body w ≡ (reject, w)
  unfolding handle_queue_message process_payload_with_retries settle
  handle_queue_message-invalid body w tried (inl e) = rw e refl
  handle_queue_message-invalid body w tried (inr (payload, (e, unnamed))) = rw e (
      ap
        (λ x.
          let y = bind (λ _. x) (give_up rt fl uni calls cfg (calls.model_validate payload)) w in
          (settle rt fl uni calls cfg y.0, y.1))
        (attempt-unnamed cfg.max_attempts payload w tried unnamed))
