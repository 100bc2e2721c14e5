-- ===== src/Brain/RoundTrip.antt =====
-- media/brain.py: the two lines of the prompt's output format, and what is read of them.
use Prim.Native.String.{String, ◌++◌ as str_append}
use text.Mathlib.TextLemmas.{cons-append}
use luve.Prelude.{◌≡◌, refl, ◌∙◌, ap, arith, true, false, some, [], ◌∷◌, List, if_both}
use luve.Python.Text.{upper_char, is_empty, is_space, strip, lstrip, rstrip, upper}
use luve.Python.Lines.{split_lines, startswith, after_colon, is_line_break, lines_from}
use luve.Brain.{
  lower, is_in, Output, no_output, parse_line, parse_lines, parse_output, new_reply,
  feedback_or_blank,
}
use luve.Brain.Replies.{IsTrimmed}
use luve.Brain.Texts.{
  is_one_line, is_one_line-append, lines_from-append, map_chars-append, startswith-append,
  startswith_differs, after_colon-append, strip-append_filled, strip-space,
}

-- The output format that the system prompt asks for.
unfoldable pub format_output : String → String → String
format_output response_text pedagogical_feedback =
    str_append (str_append "RESPONSE_TEXT: " response_text)
      (String.◌∷◌ "\n" (str_append "PEDAGOGICAL_FEEDBACK: " pedagogical_feedback))

lines_from_last :
    (s : String) → is_one_line s ≡ true → is_empty s ≡ false → lines_from false s ≡ s ∷ []
unfolding lines_from is_one_line is_line_break
lines_from_last String.[] h filled = absurd (ground (arith, filled))
lines_from_last (String.◌∷◌ c String.[]) h filled = ground (arith, h)
lines_from_last (String.◌∷◌ c (String.◌∷◌ d s)) h filled =
    grind (arith, lines_from_last (String.◌∷◌ d s))

split_lines-format_output :
    (r f : String)
    → is_one_line r ≡ true
    → is_one_line f ≡ true
    → split_lines (format_output r f)
      ≡ str_append "RESPONSE_TEXT: " r ∷ str_append "PEDAGOGICAL_FEEDBACK: " f ∷ []
unfolding split_lines format_output is_one_line is_line_break
split_lines-format_output r f hr hf =
    let last = str_append "PEDAGOGICAL_FEEDBACK: " f in
    lines_from-append (str_append "RESPONSE_TEXT: " r) last
      (is_one_line-append "RESPONSE_TEXT: " r refl hr)
    ∙ ap (λ (ls : List String). str_append "RESPONSE_TEXT: " r ∷ ls)
        (lines_from_last last (is_one_line-append "PEDAGOGICAL_FEEDBACK: " f refl hf)
          (rw (cons-append "P" "EDAGOGICAL_FEEDBACK: " f) refl))

-- A line of which the parser reads a text after the marker.
module _ (line text : String) (o : Output) (whole : strip line ≡ line) where
  parse_line_response :
      startswith (upper line) "RESPONSE_TEXT:" ≡ true
      → strip (after_colon line) ≡ text
      → parse_line line o ≡ record o { response_text = text }
  unfolding parse_line
  parse_line_response found same = rw (whole, found, same) refl

  parse_line_feedback :
      startswith (upper line) "RESPONSE_TEXT:" ≡ false
      → startswith (upper line) "PEDAGOGICAL_FEEDBACK:" ≡ true
      → strip (after_colon line) ≡ text
      → parse_line line o ≡ record o { pedagogical_feedback = text }
  unfolding parse_line
  parse_line_feedback other found same = rw (whole, other, found, same) refl

parse_line-response :
    (r : String) (o : Output)
    → IsTrimmed r
    → is_empty r ≡ false
    → parse_line (str_append "RESPONSE_TEXT: " r) o ≡ record o { response_text = r }
unfolding is_space upper after_colon startswith
parse_line-response r o h filled =
    parse_line_response (str_append "RESPONSE_TEXT: " r) r o
      (strip-append_filled "R" "ESPONSE_TEXT: " r refl h.1 filled)
      (rw (map_chars-append upper_char "RESPONSE_TEXT: " r)
        (startswith-append "RESPONSE_TEXT: " (upper r) "RESPONSE_TEXT:" refl))
      (ap strip (after_colon-append "RESPONSE_TEXT: " r refl) ∙ strip-space r h)

parse_line-feedback :
    (f : String) (o : Output)
    → IsTrimmed f
    → is_empty f ≡ false
    → parse_line (str_append "PEDAGOGICAL_FEEDBACK: " f) o ≡ record o { pedagogical_feedback = f }
unfolding is_space upper after_colon startswith
parse_line-feedback f o h filled =
    parse_line_feedback (str_append "PEDAGOGICAL_FEEDBACK: " f) f o
      (strip-append_filled "P" "EDAGOGICAL_FEEDBACK: " f refl h.1 filled)
      (rw (map_chars-append upper_char "PEDAGOGICAL_FEEDBACK: " f)
        (startswith_differs "P" "R" "EDAGOGICAL_FEEDBACK: " (upper f) "ESPONSE_TEXT:" refl))
      (rw (map_chars-append upper_char "PEDAGOGICAL_FEEDBACK: " f)
        (startswith-append "PEDAGOGICAL_FEEDBACK: " (upper f) "PEDAGOGICAL_FEEDBACK:" refl))
      (ap strip (after_colon-append "PEDAGOGICAL_FEEDBACK: " f refl) ∙ strip-space f h)

parse_line_any-feedback :
    (f : String) (o : Output)
    → IsTrimmed f
    → parse_line (str_append "PEDAGOGICAL_FEEDBACK: " f) o ≡ record o { pedagogical_feedback = f }
unfolding parse_line strip lstrip rstrip is_space upper after_colon startswith
parse_line_any-feedback String.[] o h = refl
parse_line_any-feedback (String.◌∷◌ c f) o h = parse_line-feedback (String.◌∷◌ c f) o h refl

feedback_or_blank-IsTrimmed : (f : String) → IsTrimmed f → IsTrimmed (feedback_or_blank f)
unfolding feedback_or_blank lstrip rstrip
feedback_or_blank-IsTrimmed f h =
    if_both IsTrimmed (is_in (lower f) ("none" ∷ "n/a" ∷ "na" ∷ [])) {x = ""} {y = f} (refl, refl) h

parse_lines-format :
    (r f : String)
    → IsTrimmed r
    → is_empty r ≡ false
    → IsTrimmed f
    → parse_lines
        (str_append "RESPONSE_TEXT: " r ∷ str_append "PEDAGOGICAL_FEEDBACK: " f ∷ [])
        no_output
      ≡ record { response_text = r; pedagogical_feedback = f }
unfolding parse_lines
parse_lines-format r f hr filled hf =
    ap (parse_line (str_append "PEDAGOGICAL_FEEDBACK: " f))
      (parse_line-response r no_output hr filled)
    ∙ parse_line_any-feedback f (record { response_text = r; pedagogical_feedback = "" }) hf

module _ (trim : String → String) (trims : (s : String) → IsTrimmed s → trim s ≡ s) where
  new_reply-IsTrimmed :
      (r f source : String)
      → IsTrimmed r
      → is_empty r ≡ false
      → IsTrimmed f
      → IsTrimmed source
      → new_reply trim r f source
        ≡ some (record { response_text = r; pedagogical_feedback = f; source = source })
  unfolding new_reply
  new_reply-IsTrimmed r f source hr filled hf hs =
      rw (trims r hr, trims f hf, trims source hs, filled) refl

  -- What the system prompt asks the model to write is read back: of a reply and a feedback in one line
  -- each, without outer spaces, the reply not empty, `_parse_output` makes that reply with that
  -- feedback, or with no feedback for none, n/a and na in any case; if pydantic leaves texts without
  -- outer spaces alone.
  pub parse_output-format_output :
      (r f source : String)
      → is_one_line r ≡ true
      → is_one_line f ≡ true
      → IsTrimmed r
      → is_empty r ≡ false
      → IsTrimmed f
      → IsTrimmed source
      → parse_output trim (format_output r f) source
        ≡ some (record {
          response_text = r;
          pedagogical_feedback = feedback_or_blank f;
          source = source;
        })
  unfolding parse_output
  parse_output-format_output r f source line_r line_f hr filled hf hs =
      rw (split_lines-format_output r f line_r line_f, parse_lines-format r f hr filled hf, filled)
        (new_reply-IsTrimmed r (feedback_or_blank f) source hr filled
          (feedback_or_blank-IsTrimmed f hf) hs)
