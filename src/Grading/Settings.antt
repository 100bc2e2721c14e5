-- ===== src/Grading/Settings.antt =====
-- worker.py: the settings, as they are read from the environment. A variable that is not set is `none`;
-- `int` is Python's parser, which has no value for a text that is no integer.
use Prim.Native.String.{String}
use luve.Prelude.{
  ℤ, pos, negsuc, at_least, ◌≢◌, arith, ℕ, Bool, Option, none, some, [], ◌∷◌, if◌then◌else◌,
}
use luve.Python.Text.{strip, lower, is_in}
use luve.Python.Json.{Floats}
use luve.Grading.Worker.{Provider, fake, llm, Config}

abbrev pub read_var : String → Option String → String
read_var default none = default
read_var default (some raw) = raw

unfoldable pub get_grading_provider : Option String → Provider
get_grading_provider var =
    if is_in (lower (strip (read_var "fake" var))) ("llm" ∷ []) then llm else fake

unfoldable pub get_fake_fallback_enabled : Option String → Bool
get_fake_fallback_enabled var =
    is_in (lower (strip (read_var "" var))) ("1" ∷ "true" ∷ "yes" ∷ "on" ∷ [])

-- An integer setting: the default where the text is no integer, otherwise at least the floor.
abbrev pub integer : ℕ → ℕ → Option ℤ → ℕ
integer default floor none = default
integer default floor (some parsed) = at_least floor parsed

unfoldable pub get_outbox_relay_enabled : Option String → Bool
get_outbox_relay_enabled var =
    is_in (lower (strip (read_var "" var))) ("1" ∷ "true" ∷ "yes" ∷ "on" ∷ [])

-- Python's `float` of a text and its `max`, which say what becomes of a text like `nan`.
module _ {N : Type 0} (fl : Floats N) (float : String → Option N) (max_of : N → N → N) where
  -- A number setting, in hundredths: the default where the text is no number, otherwise at least the
  -- floor.
  abbrev pub seconds : ℕ → ℕ → Option N → N
  seconds default floor none = fl.hundredths default
  seconds default floor (some parsed) = max_of parsed (fl.hundredths floor)

  unfoldable pub get_retry_delay_seconds : Option String → N
  get_retry_delay_seconds var = seconds 100 0 (float (read_var "1.0" var))

  unfoldable pub get_requeue_backoff_seconds : Option String → N
  get_requeue_backoff_seconds var = seconds 500 0 (float (read_var "5.0" var))

  unfoldable pub get_outbox_relay_poll_interval_seconds : Option String → N
  get_outbox_relay_poll_interval_seconds var = seconds 500 50 (float (read_var "5.0" var))

  unfoldable pub get_outbox_relay_publish_timeout_seconds : Option String → N
  get_outbox_relay_publish_timeout_seconds var = seconds 1000 100 (float (read_var "10.0" var))

module _ (int : String → Option ℤ) where
  unfoldable pub get_min_student_words : Option String → ℕ
  get_min_student_words var = integer 15 0 (int (read_var "15" var))

  unfoldable pub get_max_attempts : Option String → ℕ
  get_max_attempts var = integer 2 1 (int (read_var "2" var))

  unfoldable pub get_outbox_relay_batch_size : Option String → ℕ
  get_outbox_relay_batch_size var = integer 20 1 (int (read_var "20" var))

  unfoldable pub get_outbox_relay_max_attempts : Option String → ℕ
  get_outbox_relay_max_attempts var = integer 5 1 (int (read_var "5" var))

  -- The worker's settings from the environment; the depth is that of Python's stack.
  unfoldable pub config :
      (depth : ℕ) (provider fake_fallback min_student_words max_attempts : Option String) → Config
  config depth provider fake_fallback min_student_words max_attempts = record {
    provider = get_grading_provider provider;
    fake_fallback = get_fake_fallback_enabled fake_fallback;
    min_student_words = get_min_student_words min_student_words;
    max_attempts = get_max_attempts max_attempts;
    stack_depth = depth;
  }

  integer-positive : (default : ℕ) (o : Option ℤ) → default ≢ 0 → integer default 1 o ≢ 0
  integer-positive default none h = h
  integer-positive default (some (pos n)) h = λ e. ground (arith, e)
  integer-positive default (some (negsuc n)) h = λ e. ground (arith, e)

  -- Whatever the environment holds, at least one attempt is configured.
  pub config-tries :
      (depth : ℕ) (provider fake_fallback min_student_words max_attempts : Option String)
      → (config depth provider fake_fallback min_student_words max_attempts).max_attempts ≢ 0
  unfolding config get_max_attempts
  config-tries depth provider fake_fallback min_student_words max_attempts =
      integer-positive 2 (int (read_var "2" max_attempts)) (λ e. ground (arith, e))
