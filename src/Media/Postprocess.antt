-- ===== src/Media/Postprocess.antt =====
-- core-api's media/stt_postprocess.py: what is kept of a transcript.
pub mod Repeats
use Prim.Native.Char.{code}
use Prim.Native.String.{String}
use text.Mathlib.Text.{◌==◌ as str_eq}
use luve.Prelude.{
  ℕ, zero, suc, Bool, true, false, ◌&&◌, ◌||◌, not, Option, none, some, List, [], ◌∷◌, length,
  if◌then◌else◌, ltb, ◌==◌,
}
use luve.Python.Text.{is_empty, strip, lower}
use luve.Python.Lines.{find, join, prepend}

abbrev pub hallucination_patterns : List String
hallucination_patterns =
    "spoken english conversation" ∷ "ai tutor" ∷ "learner and an ai"
    ∷ "english conversation between" ∷ "thank you for watching" ∷ "please read or speak" ∷ []

-- `pattern in text`
abbrev pub contains : String → String → Bool
contains pattern text = elim (find pattern text) [ none ↦ false | some _ ↦ true ]

unfoldable pub is_hallucinated : List String → String → Bool
is_hallucinated [] lowered = false
is_hallucinated (pattern ∷ patterns) lowered =
    contains pattern lowered || is_hallucinated patterns lowered

abbrev pub is_single : String → Bool
is_single String.[] = false
is_single (String.◌∷◌ c String.[]) = true
is_single (String.◌∷◌ c (String.◌∷◌ d s)) = false

-- `text.split(". ")`
unfoldable pub split_sentences : String → List String
split_sentences String.[] = "" ∷ []
split_sentences (String.◌∷◌ c String.[]) = String.◌∷◌ c "" ∷ []
split_sentences (String.◌∷◌ c (String.◌∷◌ d s)) =
    let after_both = split_sentences s in
    let after_one = split_sentences (String.◌∷◌ d s) in
    if code c == 0x2e && code d == 0x20 then "" ∷ after_both else prepend c after_one

-- Whether a part is not the last one kept.
abbrev pub is_new : Option String → String → Bool
is_new none part = true
is_new (some last) part = not (str_eq part last)

-- The loop over the parts, after the last one kept. A part that is not kept is the last one kept.
unfoldable pub unique_parts : Option String → List String → List String
unique_parts last [] = []
unique_parts last (raw_part ∷ parts) =
    let part = strip raw_part in
    let rest = unique_parts (some part) parts in if is_new last part then part ∷ rest else rest

unfoldable pub filter_repetitions : String → String
filter_repetitions text =
    let parts = split_sentences text in
    if ltb (length parts) 2 then text else join ". " (unique_parts none parts)

unfoldable pub sanitize_transcript : String → String
sanitize_transcript text =
    let cleaned = strip text in
    if is_empty cleaned
    then ""
    else if is_hallucinated hallucination_patterns (lower cleaned)
    then ""
    else if is_single cleaned
    then ""
    else filter_repetitions cleaned
