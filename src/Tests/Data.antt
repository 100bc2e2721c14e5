-- ===== src/Tests/Data.antt =====
-- The data of the tests: numbers in hundredths, a small `json.loads`, and a session.
use Prim.Native.String.{String}
use text.Mathlib.Text.{◌==◌ as str_eq}
use luve.Prelude.{
  ℕ, ◌+◌, ◌-◌, ◌*◌, ◌/◌, true, false, Option, none, some, [], ltb, leb, ◌==◌, if◌then◌else◌,
}
use luve.Python.Json.{
  Value, num, string, arr, obj, nil, cons, end, field, loaded, decode_error, Runtime, Floats,
  Unicode, Converted, number, rejected,
}
use luve.Grading.Input.{SessionRow}
use luve.Grading.Store.{Db, Session}
use luve.Grading.World.{World}
use luve.Grading.Worker.{Config, Calls, fake}

abbrev pub turn_event : String → String → Value ℕ
turn_event kind text =
    obj (field "type" (string kind) (field "payload" (obj (field "text" (string text) end)) end))

abbrev pub said : Value ℕ
said = turn_event "user_turn" "I like dogs"

abbrev pub answered_turn : Value ℕ
answered_turn = turn_event "ai_turn" "Why"

abbrev pub reply : Value ℕ
reply = obj (
    field "fluency_score" (num 700) (
      field "grammar_score" (num 800) (
        field "vocab_score" (num 650) (
          field "pronunciation_clarity_score" (num 600) (
            field "overall_score" (num 700) (
              field "summary" (string "Good.")
                (field "corrections" (arr nil) (field "skill_feedback" (arr nil) end))))))))

abbrev pub rt : Runtime ℕ
rt = record {
  is_zero = λ n. n == 0;
  show = λ _. "value";
  loads = λ t.
      if str_eq t "said"
      then loaded said
      else if str_eq t "reply"
      then loaded reply
      else decode_error;
}

abbrev to_float : Value ℕ → Converted ℕ
to_float (num n) = number n
to_float _ = rejected

abbrev pub fl : Floats ℕ
fl = record {
  to_float = to_float;
  is_negative = λ _. false;
  below_60 = λ n. ltb n 6000;
  is_integer = λ n. (n / 100) * 100 == n;
  times_1000 = λ n. n * 1000;
  round_int = λ n. some ((n + 50) / 100);
  of_nat = λ n. n * 100;
  add = λ a b. a + b;
  minus = λ a b. a - b;
  times = λ a b. (a * b) / 100;
  over = λ a b. (a * 100) / b;
  at_most = λ a b. leb a b;
  hundredths = λ n. n;
  round2 = λ n. n;
  show1 = λ _. "1.0";
}

abbrev pub uni : Unicode
uni = record { lower_all = λ s. s; is_alpha = λ _. true }

abbrev named_session : Value ℕ → Option ℕ
named_session (num n) = some n
named_session _ = none

abbrev pub calls : Calls ℕ
calls = record { model_validate = named_session; type_name = λ _. "Error"; message = λ _. "" }

abbrev pub cfg : Config
cfg = record {
  provider = fake;
  fake_fallback = false;
  min_student_words = 3;
  max_attempts = 2;
  stack_depth = 9;
}

abbrev pub log : Value ℕ
log = arr (cons said (cons answered_turn nil))

abbrev pub row : SessionRow ℕ
row = record { id = 7; user_id = some 1; lesson_id = none; raw_backup_json = log }

abbrev stored_sessions : ℕ → Option (Session ℕ)
stored_sessions id = if id == 7 then some (record { row = row; is_deleted = false }) else none

abbrev pub db : Db ℕ
db = record { sessions = stored_sessions; results = λ _. none; skips = λ _. none }

abbrev pub world : World ℕ
world = record { db = db; outcomes = []; answers = [] }
