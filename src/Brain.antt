-- ===== src/Brain.antt =====
-- core-api's media/brain.py: the tutor's replies. Pydantic's `str_strip_whitespace` is the parameter
-- `trim`, and what the providers send is an argument. `on_token` is taken not to raise; it and the
-- warnings have no other effect here. A cancelled task is not modelled.
pub mod Prompt
pub mod Replies
pub mod Texts
pub mod RoundTrip
use Prim.Native.String.{String, ◌++◌ as str_append}
use text.Mathlib.Text.{◌==◌ as str_eq}
use luve.Prelude.{
  ℕ, Bool, true, false, not, Option, none, some, List, [], ◌∷◌, ◌++◌, if◌then◌else◌, ltb,
}
use luve.Python.Text.{is_empty, strip, upper, lower, is_in}
use luve.Python.Lines.{split_lines, prefix, startswith, after_colon}
use luve.Python.Json.{Value, Fields, Items, get, string, arr, obj, cons}

pub record PedagogicalReply : Type 0 where
  pub response_text : String
  pub pedagogical_feedback : String
  pub source : String

-- The texts of the two lines.
pub record Output : Type 0 where
  pub response_text : String
  pub pedagogical_feedback : String

-- The loop's body, for one line.
unfoldable pub parse_line : String → Output → Output
parse_line raw_line o =
    let line = strip raw_line in
    if startswith (upper line) "RESPONSE_TEXT:"
    then record o { response_text = strip (after_colon line) }
    else if startswith (upper line) "PEDAGOGICAL_FEEDBACK:"
    then record o { pedagogical_feedback = strip (after_colon line) }
    else o

unfoldable pub parse_lines : List String → Output → Output
parse_lines [] o = o
parse_lines (raw_line ∷ lines) o = parse_lines lines (parse_line raw_line o)

abbrev pub no_output : Output
no_output = record { response_text = ""; pedagogical_feedback = "" }

unfoldable pub feedback_or_blank : String → String
feedback_or_blank feedback =
    if is_in (lower feedback) ("none" ∷ "n/a" ∷ "na" ∷ []) then "" else feedback

-- `lines[0]` of a text that is not empty
abbrev pub first_line : List String → String
first_line [] = ""
first_line (line ∷ _) = line

-- What a provider's call passes to `on_token`, in turn, and its raw output; `none` is an exception or a
-- timeout.
pub record Run : Type 0 where
  pub tokens : List String
  pub raw_output : Option String

abbrev pub failed_run : Run
failed_run = record { tokens = []; raw_output = none }

module _ {N : Type 0} where
  -- `none` is an exception.
  abbrev content_text : Value N → Option String
  content_text (string s) = if is_empty (strip s) then none else some s
  content_text _ = none

  abbrev message_content : Value N → Option String
  message_content (obj message) = content_text (get "content" message)
  message_content _ = none

  abbrev first_choice : Value N → Option String
  first_choice (arr (cons (obj choice) _)) = message_content (get "message" choice)
  first_choice _ = none

  -- What follows the request: the argument is the value that `json.loads` makes of the body.
  unfoldable pub request_groq_completion : Value N → Option String
  request_groq_completion (obj body) = first_choice (get "choices" body)
  request_groq_completion _ = none

-- The request of Groq, with the deadline: no body in time, whatever the reason, or a JSON body.
pub data GroqAnswer (N : Type 0) : Type 0 where
  no_answer : GroqAnswer N
  answered : Value N → GroqAnswer N

abbrev pub groq_run : Option String → Run
groq_run none = failed_run
groq_run (some content) =
    let raw_output = strip content in
    record {
      tokens = if is_empty raw_output then [] else raw_output ∷ [];
      raw_output = some raw_output;
    }

unfoldable pub complete_from_groq : {N : Type 0} → GroqAnswer N → Run
complete_from_groq no_answer = failed_run
complete_from_groq (answered body) = groq_run (request_groq_completion body)

-- The chunks that come before the stream ends, fails or times out, each with its `text` if that is a
-- text, and whether the stream ends in time (and the client is closed) without an exception.
pub record GeminiStream : Type 0 where
  pub chunks : List (Option String)
  pub completes : Bool

unfoldable pub extract_chunk_text : Option String → String
extract_chunk_text none = ""
extract_chunk_text (some text) = text

unfoldable pub collect_gemini_stream : List (Option String) → List String
collect_gemini_stream [] = []
collect_gemini_stream (chunk ∷ chunks) =
    let pieces = collect_gemini_stream chunks in
    if is_empty (extract_chunk_text chunk) then pieces else extract_chunk_text chunk ∷ pieces

-- `"".join(pieces)`
unfoldable pub concat_pieces : List String → String
concat_pieces [] = ""
concat_pieces (piece ∷ pieces) = str_append piece (concat_pieces pieces)

unfoldable pub stream_from_gemini : GeminiStream → Run
stream_from_gemini g =
    let pieces = collect_gemini_stream g.chunks in
    record {
      tokens = pieces;
      raw_output = if g.completes then some (strip (concat_pieces pieces)) else none;
    }

-- `self._provider`, and what the two providers would send.
pub record Providers (N : Type 0) : Type 0 where
  pub provider : String
  pub groq : GroqAnswer N
  pub gemini : GeminiStream

-- `LLMProcessor(provider=…)`, which is normalised.
unfoldable pub normalized_provider : String → String
normalized_provider provider = lower (strip provider)

-- The constructor of `LLMProcessor`, which keeps the provider's name; `none` is its `ValueError`.
unfoldable pub new_processor : String → String → Bool → Option String
new_processor api_key provider timeout_is_at_most_zero =
    if is_empty (strip api_key)
    then none
    else if timeout_is_at_most_zero
    then none
    else some (normalized_provider provider)

unfoldable pub complete : {N : Type 0} → Providers N → Run
complete p =
    if str_eq p.provider "groq"
    then complete_from_groq p.groq
    else if str_eq p.provider "gemini"
    then stream_from_gemini p.gemini
    else failed_run

-- What a call of `stream_response` passes to `on_token`, in turn, and its result; `none` is an
-- exception that it does not handle.
pub record Exchange : Type 0 where
  pub tokens : List String
  pub reply : Option PedagogicalReply

-- The constructor of `PedagogicalReply`; `none` is its `ValidationError`.
unfoldable pub new_reply : (String → String) → String → String → String → Option PedagogicalReply
new_reply trim response_text pedagogical_feedback source =
    if is_empty (trim response_text)
    then none
    else some (record {
      response_text = trim response_text;
      pedagogical_feedback = trim pedagogical_feedback;
      source = trim source;
    })

-- `none` is an exception.
unfoldable pub parse_output : (String → String) → String → String → Option PedagogicalReply
parse_output trim raw_output source =
    let o = parse_lines (split_lines raw_output) no_output in
    let cleaned = strip raw_output in
    if not (is_empty o.response_text)
    then new_reply trim o.response_text (feedback_or_blank o.pedagogical_feedback) source
    else if is_empty cleaned
    then none
    else new_reply trim (prefix 220 (first_line (split_lines cleaned))) "" source

unfoldable pub build_fallback_reply : (String → String) → ℕ → Option PedagogicalReply
build_fallback_reply trim suspicious_count =
    if ltb 0 suspicious_count
    then new_reply trim "Nice try! Can you repeat that once more a bit more clearly?"
        "I detected a few unclear words. Slow down slightly and stress keyword endings."
        "local_fallback"
    else new_reply trim "Great! Tell me a little more about that." "" "local_fallback"

-- The end of `stream_response`.
abbrev pub tell_fallback : List String → Option PedagogicalReply → Exchange
tell_fallback tokens none = record { tokens = tokens; reply = none }
tell_fallback tokens (some fallback) = record {
  tokens = tokens ++ fallback.response_text ∷ [];
  reply = some fallback;
}

unfoldable pub or_fallback :
    (String → String) → ℕ → List String → Option PedagogicalReply → Exchange
or_fallback trim suspicious_count tokens (some reply) = record {
  tokens = tokens;
  reply = some reply;
}
or_fallback trim suspicious_count tokens none =
    tell_fallback tokens (build_fallback_reply trim suspicious_count)

abbrev pub parsed : (String → String) → String → Option String → Option PedagogicalReply
parsed trim source none = none
parsed trim source (some raw_output) = parse_output trim raw_output source

unfoldable pub answer : (String → String) → ℕ → String → Run → Exchange
answer trim suspicious_count source r =
    or_fallback trim suspicious_count r.tokens (parsed trim source r.raw_output)

-- `stt.raw_text` and `stt.suspicious_count`
unfoldable pub stream_response :
    {N : Type 0} → (String → String) → String → ℕ → Providers N → Exchange
stream_response trim raw_text suspicious_count p =
    if is_empty (strip raw_text)
    then record {
      tokens = [];
      reply = new_reply trim "Could you say that one more time?" "" "local_fallback";
    }
    else answer trim suspicious_count p.provider (complete p)
