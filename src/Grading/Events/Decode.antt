-- ===== src/Grading/Events/Decode.antt =====
-- session_eligibility.py: events that are decoded twice.
use luve.Prelude.{◌≡◌, refl, true, arith}
use luve.Python.Json.{Value, string, Runtime}
use luve.Grading.Events.{decode_event, is_user_turn, is_reliable_student_event}

module _ {N : Type 0} (rt : Runtime N) where
  pub decode_event_idem :
      (event : Value N) → decode_event rt (decode_event rt event) ≡ decode_event rt event
  unfolding decode_event
  decode_event_idem (string s) = ground arith
  decode_event_idem event = refl

  -- Only a USER_TURN is reliable.
  pub reliable-is_user_turn :
      (event : Value N)
      → is_reliable_student_event rt (decode_event rt event) ≡ true
      → is_user_turn rt (decode_event rt event) ≡ true
  unfolding is_reliable_student_event
  reliable-is_user_turn event h = ground (arith, decode_event_idem event)

  pub reliable-decode_event :
      (event : Value N)
      → is_reliable_student_event rt (decode_event rt event) ≡ is_reliable_student_event rt event
  unfolding is_reliable_student_event
  reliable-decode_event event = rw decode_event_idem
