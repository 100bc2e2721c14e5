-- ===== src/Extension/Transcript/Mixed.antt =====
-- luve_extension.py: the English parts of a transcript that has Vietnamese in it.
use Prim.Native.Char.{Char}
use Prim.Native.String.{String}
use luve.Prelude.{
  ℕ, Bool, true, not, ◌&&◌, ◌||◌, Option, none, some, List, [], ◌∷◌, ◌++◌, length, if◌then◌else◌,
  ltb, ◌==◌,
}
use luve.Python.Text.{is_empty}
use luve.Python.Lines.{join, split_words, length_text}
use luve.Extension.Transcript.{
  Alphabet, Lexicon, has_char, is_ascii, count_words, any_word, normalize_stt_text,
  contains_vietnamese_text, token_contains_vietnamese_marker, is_anchor, is_long_word,
  has_learner_english_evidence, has_strong_learner_english_attempt,
  is_incomplete_short_english_fragment, has_no_information,
}

-- `s.strip(" ,.;:!?")`
abbrev pub is_trimmed_char : Char → Bool
is_trimmed_char c = has_char c " ,.;:!?"

unfoldable pub lstrip_marks : String → String
lstrip_marks String.[] = ""
lstrip_marks (String.◌∷◌ c s) = if is_trimmed_char c then lstrip_marks s else String.◌∷◌ c s

unfoldable pub rstrip_marks : String → String
rstrip_marks String.[] = ""
rstrip_marks (String.◌∷◌ c s) =
    let rest = rstrip_marks s in
    if is_trimmed_char c && is_empty rest then "" else String.◌∷◌ c rest

abbrev pub strip_marks : String → String
strip_marks s = rstrip_marks (lstrip_marks s)

-- A score, and whether it is greater than the best one, where no score is the least.
abbrev pub Score : Type 0
Score = ℕ × ℕ × ℕ

abbrev pub beats : Score → Option (String × Score) → Bool
beats score none = true
beats (a, b, c) (some (_, (a', b', c'))) =
    ltb a' a || (a == a' && (ltb b' b || (b == b' && ltb c' c)))

abbrev pub text_of : Option (String × Score) → Option String
text_of none = none
text_of (some (segment, _)) = some segment

module _ (abc : Alphabet) (lex : Lexicon) where
  abbrev pub end_run : List String → List String → List String
  end_run runs [] = runs
  end_run runs (token ∷ tokens) = runs ++ strip_marks (join " " (token ∷ tokens)) ∷ []

  -- The loop, with the runs and the tokens of the current one.
  unfoldable pub runs_from : List String → List String → List String → List String
  runs_from [] runs current_tokens = end_run runs current_tokens
  runs_from (raw_token ∷ tokens) runs current_tokens =
      let is_marked = token_contains_vietnamese_marker abc lex raw_token in
      runs_from tokens (if is_marked then end_run runs current_tokens else runs)
        (if is_marked then [] else current_tokens ++ raw_token ∷ [])

  unfoldable pub mixed_english_runs : String → List String
  mixed_english_runs text = runs_from (split_words text) [] []

  -- Whether a run is passed over.
  unfoldable pub is_no_segment : String → Bool
  is_no_segment segment =
      let words = split_words (normalize_stt_text abc segment) in
      length words == 0
      || contains_vietnamese_text abc lex segment
      || ltb (length words) 3
      || is_incomplete_short_english_fragment abc lex segment
      || not (
          has_learner_english_evidence abc lex segment
          || has_strong_learner_english_attempt abc lex segment)

  unfoldable pub is_no_fragment : String → Bool
  is_no_fragment segment =
      let words = split_words (normalize_stt_text abc segment) in
      length words == 0
      || ltb 2 (length words)
      || contains_vietnamese_text abc lex segment
      || not (is_ascii segment)
      || has_no_information abc lex words
      || count_words (is_anchor abc lex) words == 0
      || (length words == 2 && not (any_word (is_long_word abc lex) words))

  unfoldable pub score_of : String → Score
  score_of segment =
      let words = split_words (normalize_stt_text abc segment) in
      (count_words (is_anchor abc lex) words, length words, length_text segment)

  -- The loop of both functions: the first run with the best score among those not passed over.
  unfoldable pub best_of :
      (String → Bool) → Option (String × Score) → List String → Option (String × Score)
  best_of is_no best [] = best
  best_of is_no best (segment ∷ segments) =
      let score = score_of segment in
      best_of is_no
        (if is_no segment then best else if beats score best then some (segment, score) else best)
        segments

  unfoldable pub english_segment_from_mixed_text : String → Option String
  english_segment_from_mixed_text text =
      if not (contains_vietnamese_text abc lex text)
      then none
      else text_of (best_of is_no_segment none (mixed_english_runs text))

  unfoldable pub weak_english_fragment_from_mixed_text : String → Option String
  weak_english_fragment_from_mixed_text text =
      if not (contains_vietnamese_text abc lex text)
      then none
      else text_of (best_of is_no_fragment none (mixed_english_runs text))

  -- `if text:`
  abbrev pub or_reason : Option String → String → String × List String → String × List String
  or_reason none reason other = other
  or_reason (some text) reason other = if is_empty text then other else (text, reason ∷ [])

  unfoldable pub split_mixed_language_transcript : String → String × List String
  split_mixed_language_transcript text =
      if not (contains_vietnamese_text abc lex text)
      then (text, [])
      else or_reason (english_segment_from_mixed_text text) "mixed_language_filtered" (
          or_reason (weak_english_fragment_from_mixed_text text) "weak_mixed_language_english"
            ("", "mixed_non_english" ∷ []))
