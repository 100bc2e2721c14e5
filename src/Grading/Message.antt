-- ===== src/Grading/Message.antt =====
-- worker.py: the retries of a job, and how its message is settled with the broker.
pub mod Acked
pub mod Grades
pub mod Idempotent
use luve.Prelude.{
  false, true, if◌then◌else◌, Bool, ◌∷◌, List, ℕ, zero, suc, Option, none, some, List, [], ◌∷◌,
  Result, ok, raise,
}
use luve.Python.Json.{Value, Loaded, loaded, decode_error, value_error, Runtime, Floats, Unicode}
use luve.Grading.World.{
  Exc, validation_error, db_error, build_error, llm_error, World, M, pure, fail, bind, call,
}
use luve.Grading.Worker.{Config, Calls, mark_failed, process_session_completed_job}

-- How a message is settled: acknowledged, rejected for good, or put back into the queue. An exception
-- that `_handle_queue_message` does not catch ends the consumer and leaves the message unsettled.
pub data Settlement : Type 0 where
  ack reject nack unsettled : Settlement

module _ {N : Type 0} (rt : Runtime N) (fl : Floats N) (uni : Unicode) (calls : Calls N)
    (cfg : Config) where
  -- What follows an attempt: an invalid payload is not tried again.
  unfoldable pub after_attempt : (Exc → M N (Option Exc)) → Result Exc (Unit {0}) → M N (Option Exc)
  after_attempt retry (ok _) = pure none
  after_attempt retry (raise validation_error) = fail validation_error
  after_attempt retry (raise other) = retry other

  -- The attempts that are left; `none` when the job is done, otherwise the last exception.
  unfoldable pub attempt : ℕ → Option Exc → Value N → M N (Option Exc)
  attempt zero last_exc payload w = (ok last_exc, w)
  attempt (suc n) last_exc payload w =
      let (r, w') = process_session_completed_job rt fl uni calls cfg payload w in
      after_attempt (λ e. attempt n (some e) payload) r w'

  -- `_payload_session_id_for_logging`: the id that an invalid payload has not.
  abbrev pub payload_session_id : Value N → Option ℕ
  payload_session_id payload = calls.model_validate payload

  -- Once the attempts are used up the session is marked failed.
  unfoldable pub give_up : Option ℕ → Option Exc → M N (Unit {0})
  give_up id none = pure tt
  give_up none (some e) = fail e
  give_up (some id) (some e) = call (mark_failed rt fl uni calls cfg id e)

  unfoldable pub process_payload_with_retries : Value N → M N (Unit {0})
  process_payload_with_retries payload =
      bind (attempt cfg.max_attempts none payload) (give_up (payload_session_id payload))

  unfoldable pub settle : Result Exc (Unit {0}) → Settlement
  settle (ok _) = ack
  settle (raise validation_error) = reject
  settle (raise other) = nack

  -- The message's body as `json.loads` reads it; undecodable bytes count as a `JSONDecodeError`.
  unfoldable pub handle_queue_message : Loaded N → World N → Settlement × World N
  handle_queue_message decode_error w = (reject, w)
  handle_queue_message value_error w = (unsettled, w)
  handle_queue_message (loaded payload) w =
      let (r, w') = process_payload_with_retries payload w in (settle r, w')

  abbrev pub ends_consumer : Settlement → Bool
  ends_consumer unsettled = true
  ends_consumer _ = false

  -- The messages that a consumer takes from its queue, one after the other, until one ends it.
  unfoldable pub handle_all : List (Loaded N) → World N → World N
  handle_all [] w = w
  handle_all (body ∷ bodies) w =
      let (s, w') = handle_queue_message body w in
      let rest = handle_all bodies w' in if ends_consumer s then w' else rest
