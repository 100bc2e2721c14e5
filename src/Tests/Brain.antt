-- ===== src/Tests/Brain.antt =====
-- The tutor's replies at concrete outputs of the providers.
use luve.Prelude.{ℕ, ◌≡◌, refl, some, none, false, [], ◌∷◌}
use luve.Python.Text.{strip, lstrip, rstrip, is_space, upper, lower}
use luve.Python.Lines.{find, suffix, prefix, is_line_break, join}
use luve.Extension.Reply.{
  run_llm_pipeline, on_tokens, on_token, extract_response_text, diff_streamed_text, finish,
  after_prefix, on_one_line,
}
use luve.Brain.{
  concat_pieces, Providers, no_answer, stream_response, complete, parsed, parse_output,
  feedback_or_blank,
}
use luve.Brain.Replies.{Tells, stream_response_replies}
use luve.Brain.Texts.{strip-IsTrimmed, is_one_line}
use luve.Brain.RoundTrip.{format_output, parse_output-format_output}
use luve.Brain.Prompt.{show_nat, format_history, history_lines, history_line}

-- Gemini's stream fails after its first chunk.
abbrev cut_off : Providers ℕ
cut_off = record {
  provider = "gemini";
  groq = no_answer;
  gemini = record { chunks = some "RESPONSE_TEXT: I like" ∷ []; completes = false };
}

stream_response_replies_example :
    Tells
      (complete cut_off).tokens
      (parsed strip "gemini" (complete cut_off).raw_output)
      (stream_response strip "I went home" 0 cut_off)
unfolding strip lstrip rstrip is_space
stream_response_replies_example =
    stream_response_replies strip strip-IsTrimmed "I went home" 0 cut_off refl

parse_output-format_output_example :
    parse_output strip (format_output "Nice!" "None") "groq"
    ≡ some (record {
      response_text = "Nice!";
      pedagogical_feedback = feedback_or_blank "None";
      source = "groq";
    })
unfolding lstrip rstrip is_space is_one_line is_line_break
parse_output-format_output_example =
    parse_output-format_output strip strip-IsTrimmed "Nice!" "None" "groq" refl refl (refl, refl)
      refl (refl, refl) (refl, refl)

-- The stream fails after a part of the reply: the client gets the fallback twice, and the first time
-- without a space before it.
fallback_twice :
    run_llm_pipeline
      ("RESPONSE_TEXT: I like" ∷ "Great! Tell me a little more about that." ∷ [])
      "Great! Tell me a little more about that."
    ≡ "I like" ∷ "Great! Tell me a little more about that."
      ∷ "Great! Tell me a little more about that." ∷ []
unfolding run_llm_pipeline on_tokens on_token extract_response_text diff_streamed_text finish
    after_prefix on_one_line find suffix prefix upper strip lstrip rstrip is_space
fallback_twice = refl

format_history_runs :
    format_history (
      record { text = some " Hi "; speaker = some "Tutor" }
      ∷ record { text = some " "; speaker = none }
      ∷ record { text = some "Yes"; speaker = some "user" }
      ∷ [])
    ≡ "Recent conversation (most recent last):\nLucy: Hi\nLearner: Yes\n\n"
unfolding format_history history_lines history_line strip lstrip rstrip is_space lower concat_pieces
    join
format_history_runs = refl

show_nat_runs : show_nat 1207 ≡ "1207"
unfolding show_nat
show_nat_runs = refl
