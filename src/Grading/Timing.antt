-- ===== src/Grading/Timing.antt =====
-- evaluation_input_builder.py: when a turn was spoken, in milliseconds.
use luve.Prelude.{
  ℕ, ◌-◌, false, not, ◌&&◌, Option, none, some, List, [], ◌∷◌, if◌then◌else◌, min, max, Result, ok,
  raise, ◌>>=◌,
}
use luve.Python.Text.{is_empty}
use luve.Python.Json.{
  Value, null, string, arr, obj, Fields, to_list, get, get_either, Floats, number, rejected,
  overflow,
}

-- What the builder may raise: a number that no integer stands for, a `ValueError` of `json.loads`
-- that is no `JSONDecodeError`, or the recursion limit.
pub data BuildError : Type 0 where
  bad_number bad_json recursion_error : BuildError

pub record Timing : Type 0 where
  pub start_ms : Option ℕ
  pub end_ms : Option ℕ
  pub duration_ms : Option ℕ

-- `words`' start and end times that are there, in order
pub record Spans : Type 0 where
  pub starts : List ℕ
  pub ends : List ℕ

abbrev pub or_some : Option ℕ → Option ℕ → Option ℕ
or_some none b = b
or_some (some a) _ = some a

-- `min(ns)` and `max(ns)`, `None` if there are none
unfoldable pub least : List ℕ → Option ℕ
least [] = none
least (n ∷ ns) = elim (least ns) [ none ↦ some n | some m ↦ some (min n m) ]

unfoldable pub greatest : List ℕ → Option ℕ
greatest [] = none
greatest (n ∷ ns) = elim (greatest ns) [ none ↦ some n | some m ↦ some (max n m) ]

abbrev pub append_some : Option ℕ → List ℕ → List ℕ
append_some none ns = ns
append_some (some n) ns = n ∷ ns

-- `max(end_ms - start_ms, 0)` where both are known: `-` stops at 0.
abbrev pub span : Option ℕ → Option ℕ → Option ℕ
span (some s) (some e) = some (e - s)
span _ _ = none

module _ {N : Type 0} (fl : Floats N) where
  unfoldable pub round_number : N → Result BuildError (Option ℕ)
  round_number n =
      if fl.is_negative n
      then ok none
      else elim (fl.round_int
          (if fl.below_60 n && not (fl.is_integer n) then fl.times_1000 n else n)) [
            | none ↦ raise bad_number
            | some ms ↦ ok (some ms)
          ]

  unfoldable pub coerce_optional_int : Value N → Result BuildError (Option ℕ)
  unfolding round_number
  coerce_optional_int null = ok none
  coerce_optional_int value =
      if elim value [ string s ↦ is_empty s | _ ↦ false ]
      then ok none
      else elim (fl.to_float value) [
        | number n ↦ round_number n
        | rejected ↦ ok none
        | overflow ↦ raise bad_number
      ]

  -- The loop over `word_timestamps`.
  unfoldable pub word_spans : List (Value N) → Result BuildError Spans
  word_spans [] = ok (record { starts = []; ends = [] })
  word_spans (word ∷ words) = elim word [
    | obj w ↦ do
      start ← coerce_optional_int (get_either "start_ms" "start" w)
      end ← coerce_optional_int (get_either "end_ms" "end" w)
      rest ← word_spans words
      ok (record { starts = append_some start rest.starts; ends = append_some end rest.ends })
    | _ ↦ word_spans words
  ]

  abbrev pub timestamps : Fields N → List (Value N)
  timestamps payload = elim (get "word_timestamps" payload) [ arr ws ↦ to_list ws | _ ↦ [] ]

  -- `audio.audio_ms`, read only where no duration is known
  abbrev pub audio_ms : Fields N → Option ℕ → Result BuildError (Option ℕ)
  audio_ms payload (some d) = ok (some d)
  audio_ms payload none = elim (get "audio" payload) [
    | obj audio ↦ coerce_optional_int (get "audio_ms" audio)
    | _ ↦ ok none
  ]

  unfoldable pub extract_timing_ms : Fields N → Result BuildError Timing
  extract_timing_ms payload = do
    start ← coerce_optional_int (get "start_ms" payload)
    end ← coerce_optional_int (get "end_ms" payload)
    duration ← coerce_optional_int (get "duration_ms" payload)
    spans ← word_spans (timestamps payload)
    let start_ms = or_some start (least spans.starts)
    let end_ms = or_some end (greatest spans.ends)
    known ← audio_ms payload duration
    ok (record {
      start_ms = start_ms;
      end_ms = end_ms;
      duration_ms = or_some known (span start_ms end_ms);
    })
