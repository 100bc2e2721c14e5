-- ===== src/Grading/Scanner.antt =====
-- reconciliation_scanner.py: the sessions that the queue has missed are graded by the worker's own job,
-- or only counted by a dry run. What is printed, the pause between two sessions and the parsing of the
-- command line are left out.
pub mod Dry
use Prim.Native.String.{String, ◌++◌ as str_append}
use text.Mathlib.Text.{starts_with}
use luve.Prelude.{
  ℤ, pos, negsuc, ℕ, ◌+◌, ◌&&◌, Bool, true, false, Option, none, some, List, [], ◌∷◌, length,
  if◌then◌else◌, ltb, leb, not, Result, ok, raise,
}
use luve.Python.Text.{is_empty}
use luve.Python.Json.{Value, string, obj, field, end, Runtime, Floats, Unicode}
use luve.Grading.Eligibility.{
  default_min_student_words, Reason, no_raw_backup, invalid_raw_backup, no_user_turns,
  insufficient_words, eligible, evaluate_grading_eligibility,
}
use luve.Grading.World.{World, Exc}
use luve.Grading.Worker.{Config, Calls, process_session_completed_job}

-- A row of the candidate query. `ended_at` counts in some unit from some time on; `session_id` is its
-- text, as `str` gives it.
pub record Candidate : Type 0 where
  pub session_id : String
  pub ended_at : Option ℕ
  pub raw_json : Option String

-- The arguments that the loop reads. A minimum below 0 admits what 0 admits.
pub record Args : Type 0 where
  pub execute : Bool
  pub min_student_words : ℕ
  -- the start of the grace window
  pub grace_threshold : ℕ
  -- whether a session is named
  pub is_single : Bool

pub record Counters : Type 0 where
  pub would_process : ℕ
  pub processed : ℕ
  pub skipped_no_raw_backup : ℕ
  pub skipped_grace_window : ℕ
  pub skipped_invalid_raw : ℕ
  pub skipped_no_user_turns : ℕ
  pub skipped_insufficient_words : ℕ
  pub errors : ℕ

abbrev pub no_counts : Counters
no_counts = record {
  would_process = 0;
  processed = 0;
  skipped_no_raw_backup = 0;
  skipped_grace_window = 0;
  skipped_invalid_raw = 0;
  skipped_no_user_turns = 0;
  skipped_insufficient_words = 0;
  errors = 0;
}

-- `_parse_min_student_words_env` of what `int` makes of the value: `none` where there is no value, or
-- it is no number.
unfoldable pub parse_min_student_words_env : Option ℤ → ℕ
parse_min_student_words_env none = default_min_student_words
parse_min_student_words_env (some (pos n)) = n
parse_min_student_words_env (some (negsuc n)) = default_min_student_words

abbrev pub or_blank : Option String → String
or_blank none = ""
or_blank (some s) = s

abbrev pub is_recent : Option ℕ → ℕ → Bool
is_recent none grace_threshold = false
is_recent (some ended_at) grace_threshold = leb grace_threshold ended_at

-- The counter of a reason in the dry run; no counter has the two others.
unfoldable pub count_dry : Reason → Counters → Counters
count_dry invalid_raw_backup c = record c { skipped_invalid_raw = c.skipped_invalid_raw + 1 }
count_dry no_user_turns c = record c { skipped_no_user_turns = c.skipped_no_user_turns + 1 }
count_dry insufficient_words c = record c {
  skipped_insufficient_words = c.skipped_insufficient_words + 1;
}
count_dry no_raw_backup c = c
count_dry eligible c = c

-- The same of the gate before a session is graded.
unfoldable pub count_refused : Reason → Counters → Counters
count_refused invalid_raw_backup c = record c { skipped_invalid_raw = c.skipped_invalid_raw + 1 }
count_refused no_user_turns c = record c { skipped_no_user_turns = c.skipped_no_user_turns + 1 }
count_refused insufficient_words c = record c {
  skipped_insufficient_words = c.skipped_insufficient_words + 1;
}
count_refused no_raw_backup c = c
count_refused eligible c = c

module _ {N : Type 0} (rt : Runtime N) where
  -- A row of the dry run.
  unfoldable pub dry_row : Args → Candidate → Counters → Counters
  dry_row args row c =
      let result =
        evaluate_grading_eligibility rt (string (or_blank row.raw_json)) args.min_student_words in
      if result.is_eligible
      then record c { would_process = c.would_process + 1 }
      else count_dry result.reason c

module _ {N : Type 0} (rt : Runtime N) (fl : Floats N) (uni : Unicode) (calls : Calls N)
    (cfg : Config) where
  abbrev pub payload_for : String → String → Value N
  payload_for session_id created_at = obj (
      field "event_type" (string "session.completed") (
        field "schema_version" (string "v1")
          (field "session_id" (string session_id) (field "created_at" (string created_at) end))))

  -- The counters, whether the loop breaks, and the world.
  abbrev pub Scan : Type 0
  Scan = Counters × Bool × World N

  unfoldable pub after_job : Bool → Counters → Result Exc (Unit {0}) × World N → Scan
  after_job is_single c (ok _, w) = (record c { processed = c.processed + 1 }, false, w)
  after_job is_single c (raise _, w) = (record c { errors = c.errors + 1 }, is_single, w)

  -- A row of a run that grades.
  unfoldable pub execute_row : Args → String → Candidate → Counters → World N → Scan
  execute_row args now row c w =
      let result =
        evaluate_grading_eligibility rt (string (or_blank row.raw_json)) args.min_student_words in
      if not result.is_eligible
      then (count_refused result.reason c, false, w)
      else after_job args.is_single c
          (process_session_completed_job rt fl uni calls cfg (payload_for row.session_id now) w)

  -- The body of the loop.
  unfoldable pub scan_row : Args → String → Candidate → Counters → World N → Scan
  scan_row args now row c w =
      if is_empty (or_blank row.raw_json)
      then (record c { skipped_no_raw_backup = c.skipped_no_raw_backup + 1 }, false, w)
      else if is_recent row.ended_at args.grace_threshold
      then (record c { skipped_grace_window = c.skipped_grace_window + 1 }, false, w)
      else if not args.execute
      then (dry_row rt args row c, false, w)
      else execute_row args now row c w

  unfoldable pub scan_rows :
      Args → String → List Candidate → Counters → World N → Counters × World N
  scan_rows args now [] c w = (c, w)
  scan_rows args now (row ∷ rows) c w =
      let (c', breaks, w') = scan_row args now row c w in
      let rest = scan_rows args now rows c' w' in if breaks then (c', w') else rest

  -- `run`, once the arguments are read and the candidates fetched: the exit code.
  unfoldable pub run : Args → String → List Candidate → World N → ℕ × Counters × World N
  run args now rows w =
      let (c, w') = scan_rows args now rows no_counts w in
      (if args.execute && ltb 0 c.errors then 1 else 0, c, w')
