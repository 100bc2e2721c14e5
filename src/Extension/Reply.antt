-- ===== src/Extension/Reply.antt =====
-- luve_extension.py: the tutor's reply, which is passed on while the model still writes it. The client
-- and the speech get the same pieces; responses are enabled throughout. `str.upper` is taken to keep the
-- length of a text.
pub mod Streams
use Prim.Native.Char.{Char, code}
use Prim.Native.String.{String, ◌++◌ as str_append}
use text.Mathlib.Text.{starts_with}
use luve.Prelude.{
  ℕ, zero, suc, Bool, true, false, Option, none, some, List, [], ◌∷◌, ◌++◌, if◌then◌else◌, ◌==◌,
}
use luve.Python.Text.{is_empty, strip, upper}
use luve.Python.Lines.{find, suffix, prefix}

-- `.replace("\r", "").replace("\n", " ")`
unfoldable pub on_one_line : String → String
on_one_line String.[] = ""
on_one_line (String.◌∷◌ c s) =
    let rest = on_one_line s in
    if code c == 0x0d
    then rest
    else if code c == 0x0a
    then String.◌∷◌ " " rest
    else String.◌∷◌ c rest

abbrev pub before_feedback : String → String
before_feedback text = elim (find "PEDAGOGICAL_FEEDBACK:" (upper text)) [
  | none ↦ text
  | some i ↦ prefix i text
]

unfoldable pub extract_response_text : String → String
extract_response_text raw_stream = elim (find "RESPONSE_TEXT:" (upper raw_stream)) [
  | none ↦ ""
  | some i ↦ strip (on_one_line (before_feedback (suffix 14 (suffix i raw_stream))))
]

-- `current[len(previous):]` if `current` starts with `previous`
unfoldable pub after_prefix : String → String → Option String
after_prefix String.[] current = some current
after_prefix (String.◌∷◌ c previous) String.[] = none
after_prefix (String.◌∷◌ c previous) (String.◌∷◌ d current) =
    let rest = after_prefix previous current in if code c == code d then rest else none

unfoldable pub diff_streamed_text : String → String → String
diff_streamed_text previous current =
    if is_empty current
    then ""
    else elim (after_prefix previous current) [ none ↦ current | some rest ↦ rest ]

-- The two buffers of `_run_llm_pipeline`, and the pieces passed on, in turn.
pub record Reply : Type 0 where
  pub llm_raw_buffer : String
  pub streamed_response_buffer : String
  pub deltas : List String

abbrev pub no_reply : Reply
no_reply = record { llm_raw_buffer = ""; streamed_response_buffer = ""; deltas = [] }

abbrev pub pass_on : String → Reply → Reply
pass_on response_delta r = if is_empty response_delta then r else record r {
  streamed_response_buffer = str_append r.streamed_response_buffer response_delta;
  deltas = r.deltas ++ response_delta ∷ [];
}

unfoldable pub on_token : String → Reply → Reply
on_token delta r =
    let raw = str_append r.llm_raw_buffer delta in
    if is_empty delta
    then r
    else pass_on (diff_streamed_text r.streamed_response_buffer (extract_response_text raw))
        (record r { llm_raw_buffer = raw })

unfoldable pub on_tokens : List String → Reply → Reply
on_tokens [] r = r
on_tokens (delta ∷ tokens) r = on_tokens tokens (on_token delta r)

-- The pieces passed on once the model's answer is there, with its reply.
unfoldable pub finish : String → Reply → List String
finish response_text r =
    let final_tail = diff_streamed_text r.streamed_response_buffer response_text in
    if is_empty final_tail then r.deltas else r.deltas ++ final_tail ∷ []

unfoldable pub run_llm_pipeline : List String → String → List String
run_llm_pipeline tokens response_text = finish response_text (on_tokens tokens no_reply)
