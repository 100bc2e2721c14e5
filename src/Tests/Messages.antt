-- ===== src/Tests/Messages.antt =====
-- Messages of the grading worker at the test data.
use luve.Prelude.{ℕ, ◌≡◌, refl, none, some, [], ◌∷◌}
use luve.Python.Json.{Value, num, loaded, decode_error}
use luve.Grading.Store.{GradingRow, graded, fetch_session_row}
use luve.Grading.World.{World, succeeds, fails_after, refused}
use luve.Grading.Worker.Settled.{Final}
use luve.Grading.Message.{handle_queue_message, handle_all, ack}
use luve.Grading.Message.Idempotent.{handle_all-graded}
use luve.Grading.Message.Acked.{handle_queue_message-ack}
use luve.Grading.Message.Grades.{handle_queue_message-grades}
use luve.Tests.Data.{rt, fl, uni, calls, cfg, row, db, world}
use luve.Tests.Grading.{input, row-builds, log-eligible}

abbrev graded_row : GradingRow ℕ
graded_row = record {
  status = graded;
  provider = "llm";
  attempt_count = 1;
  error_code = none;
  error_message = none;
  result = none;
}

-- A call fails after its statement took effect, and the session is graded already.
abbrev graded_world : World ℕ
graded_world = record {
  db = record db { results = λ _. some graded_row };
  outcomes = succeeds ∷ fails_after ∷ [];
  answers = refused ∷ [];
}

handle_all-graded_example :
    (handle_all rt fl uni calls cfg
        (loaded (num 7) ∷ decode_error ∷ loaded (num 7) ∷ [])
        graded_world).db.results
      7
    ≡ some graded_row
handle_all-graded_example =
    handle_all-graded rt fl uni calls cfg 7 graded_row
      (loaded (num 7) ∷ decode_error ∷ loaded (num 7) ∷ []) graded_world refl refl

row-fetched : fetch_session_row 7 world.db ≡ some row
unfolding fetch_session_row
row-fetched = refl

pub session-acked : (handle_queue_message rt fl uni calls cfg (loaded (num 7)) world).0 ≡ ack
session-acked =
    (handle_queue_message-grades rt fl uni calls cfg (num 7) 7 row input world refl (λ e. cc) refl
      refl row-fetched log-eligible row-builds (λ r e. cc)).0

handle_queue_message-ack_example :
    (payload : Value ℕ) × (id : ℕ) × ((loaded (num 7) ≡ loaded payload)
      × (calls.model_validate payload ≡ some id)
      × Final id (handle_queue_message rt fl uni calls cfg (loaded (num 7)) world).1.db)
handle_queue_message-ack_example =
    handle_queue_message-ack rt fl uni calls cfg (loaded (num 7)) world (λ e. cc) session-acked
