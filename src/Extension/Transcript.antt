-- ===== src/Extension/Transcript.antt =====
-- luve_extension.py: what is English in a transcript. The word lists of the source are the fields of
-- `Lexicon`, and Python's tables of characters those of `Alphabet`.
pub mod Mixed
pub mod English
use Prim.Native.Char.{Char, code}
use Prim.Native.String.{String, ◌++◌ as str_append}
use text.Mathlib.Text.{◌==◌ as str_eq}
use luve.Prelude.{
  ℕ, zero, suc, ◌+◌, ◌-◌, ◌*◌, Bool, true, false, not, ◌&&◌, ◌||◌, Option, none, some, List, [],
  ◌∷◌, ◌++◌, length, if◌then◌else◌, ltb, leb, ◌==◌,
}
use luve.Python.Text.{is_empty, is_in, is_space}
use luve.Python.Lines.{join, split_words, length_text}

pub record Alphabet : Type 0 where
  -- `str.lower`
  pub lower : String → String
  pub is_alnum : Char → Bool
  pub is_alpha : Char → Bool

pub record Lexicon : Type 0 where
  pub common_english_words : List String
  pub controlled_short_english_utterances : List String
  pub low_information_short_tokens : List String
  pub vietnamese_phonetic_tokens : List String
  pub ambiguous_english_homographs : List String
  pub incomplete_short_english_fragments : List String
  pub vietnamese_accented_chars : String

-- `c in s`
abbrev pub has_char : Char → String → Bool
has_char c String.[] = false
has_char c (String.◌∷◌ d s) = code c == code d || has_char c s

abbrev pub is_ascii : String → Bool
is_ascii String.[] = true
is_ascii (String.◌∷◌ c s) = ltb (code c) 128 && is_ascii s

-- How many of the words pass a test.
unfoldable pub count_words : (String → Bool) → List String → ℕ
count_words test [] = 0
count_words test (word ∷ words) = (if test word then 1 else 0) + count_words test words

unfoldable pub any_word : (String → Bool) → List String → Bool
any_word test [] = false
any_word test (word ∷ words) = test word || any_word test words

module _ (abc : Alphabet) where
  unfoldable pub spaced : String → String
  spaced String.[] = ""
  spaced (String.◌∷◌ c s) =
      str_append (if abc.is_alnum c || is_space c then abc.lower (String.◌∷◌ c "") else " ")
        (spaced s)

  unfoldable pub normalize_stt_text : String → String
  normalize_stt_text text = join " " (split_words (spaced text))

  unfoldable pub english_token_count : String → ℕ
  english_token_count text =
      let normalized = normalize_stt_text text in
      if is_empty normalized then 0 else length (split_words normalized)

  -- `word.isalpha()`
  abbrev pub all_alpha : String → Bool
  all_alpha String.[] = true
  all_alpha (String.◌∷◌ c s) = abc.is_alpha c && all_alpha s

  abbrev pub is_alpha_word : String → Bool
  is_alpha_word word = not (is_empty word) && all_alpha word

module _ (abc : Alphabet) (lex : Lexicon) where
  abbrev pub is_phonetic : String → Bool
  is_phonetic word =
      is_in word lex.vietnamese_phonetic_tokens && not (is_in word lex.ambiguous_english_homographs)

  abbrev pub has_any_char : String → String → Bool
  has_any_char String.[] text = false
  has_any_char (String.◌∷◌ c chars) text = has_char c text || has_any_char chars text

  unfoldable pub contains_vietnamese_text : String → Bool
  contains_vietnamese_text text =
      let normalized = normalize_stt_text abc text in
      if is_empty normalized
      then false
      else if has_any_char lex.vietnamese_accented_chars (abc.lower text)
      then true
      else any_word is_phonetic (split_words normalized)

  unfoldable pub token_contains_vietnamese_marker : String → Bool
  token_contains_vietnamese_marker token =
      let normalized = normalize_stt_text abc token in
      if has_any_char lex.vietnamese_accented_chars (abc.lower token)
      then true
      else if is_empty normalized
      then false
      else any_word is_phonetic (split_words normalized)

  abbrev pub is_common : String → Bool
  is_common word = is_in word lex.common_english_words

  abbrev pub is_anchor : String → Bool
  is_anchor word = is_common word || is_in word lex.controlled_short_english_utterances

  abbrev pub is_low_information : String → Bool
  is_low_information word = is_in word lex.low_information_short_tokens

  abbrev pub is_long_word : String → Bool
  is_long_word word = leb 4 (length_text word)

  -- The quotient of two numbers of words is at least 0.45 as a float exactly if it is as a fraction.
  unfoldable pub has_learner_english_evidence : String → Bool
  has_learner_english_evidence text =
      let normalized = normalize_stt_text abc text in
      let words = split_words normalized in
      let count_english = count_words is_common words in
      if is_empty normalized
      then false
      else if ltb (length words) 2
      then false
      else if contains_vietnamese_text text
      then false
      else if leb 2 count_english
      then true
      else if leb (length words) 5 && leb (45 * length words) (100 * count_english)
      then leb 2 count_english
      else false

  unfoldable pub has_strong_learner_english_attempt : String → Bool
  has_strong_learner_english_attempt text =
      let normalized = normalize_stt_text abc text in
      let words = split_words normalized in
      let english = count_words is_common words in
      let content = count_words (λ w. leb 3 (length_text w) && not (is_low_information w)) words in
      if is_empty normalized
      then false
      else if contains_vietnamese_text text
      then false
      else if ltb (length words) 3
      then false
      else if leb 3 english
      then true
      else if leb 2 english && leb 2 content
      then true
      else leb 6 (length words)
        && leb 2 english
        && leb (30 * length words) (100 * english)
        && leb 4 content

  unfoldable pub is_controlled_short_english_candidate : String → Bool
  is_controlled_short_english_candidate text =
      let normalized = normalize_stt_text abc text in
      let words = split_words normalized in
      if is_empty normalized || contains_vietnamese_text text
      then false
      else if length words == 0 || ltb 2 (length words)
      then false
      else any_word (λ w. is_in w lex.controlled_short_english_utterances) words

  unfoldable pub is_incomplete_short_english_fragment : String → Bool
  is_incomplete_short_english_fragment text =
      let normalized = normalize_stt_text abc text in
      if is_empty normalized then false else is_in normalized lex.incomplete_short_english_fragments

  -- The tests on one or two words that both short forms share.
  abbrev pub has_no_information : List String → Bool
  has_no_information words =
      any_word (λ w. not (is_alpha_word abc w)) words
      || (leb (length words) 2 && not (any_word (λ w. not (is_low_information w)) words))

  abbrev pub is_long_single : String → List String → Bool
  is_long_single text (word ∷ []) =
      is_controlled_short_english_candidate text
      || (is_common word && leb 4 (length_text word))
      || leb 5 (length_text word)
  is_long_single text words = leb 1 (count_words is_anchor words) && any_word is_long_word words

  unfoldable pub is_plausible_short_english_text : String → Bool
  is_plausible_short_english_text text =
      let normalized = normalize_stt_text abc text in
      let words = split_words normalized in
      if is_empty normalized || contains_vietnamese_text text
      then false
      else if not (is_ascii text)
      then false
      else if length words == 0 || ltb 2 (length words)
      then false
      else if is_incomplete_short_english_fragment text
      then false
      else if has_no_information words
      then false
      else is_long_single text words
