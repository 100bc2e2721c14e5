-- ===== src/Speech/Breaks.antt =====
-- media/tts.py: the loop that cuts phrases ends.
use Prim.Native.Char.{Char}
use Prim.Native.String.{String}
use luve.Prelude.{
  ℕ, zero, suc, ◌≤◌, ◌≡◌, refl, ◌∙◌, sym, arith, Option, none, some, List, if◌then◌else◌, if_both,
  ltb, not,
}
use luve.Python.Text.{is_space, strip}
use luve.Python.Lines.{suffix, length_text, rfind}
use luve.Speech.{
  SpeechSettings, is_punctuation, one_more, search_punctuation, after_space, break_or,
  find_phrase_break, cut_step, cut_phrases,
}

-- An index that is not 0.
abbrev IsPositive : Option ℕ → Type 0
IsPositive none = Unit
IsPositive (some k) = 1 ≤ k

one_more-IsPositive : (o : Option ℕ) → IsPositive (one_more o)
one_more-IsPositive none = tt
one_more-IsPositive (some k) = omega arith

search_punctuation-IsPositive : (text : String) → IsPositive (search_punctuation text)
unfolding search_punctuation
search_punctuation-IsPositive String.[] = tt
search_punctuation-IsPositive (String.◌∷◌ c String.[]) =
    if_both IsPositive (is_punctuation c) {x = some 1} {y = none} (omega arith) tt
search_punctuation-IsPositive (String.◌∷◌ c (String.◌∷◌ d s)) =
    let later = one_more (search_punctuation (String.◌∷◌ d s)) in
    let ok = one_more-IsPositive (search_punctuation (String.◌∷◌ d s)) in
    if_both IsPositive (not (is_punctuation c)) {x = later}
      {y = if is_space d then some 2 else later} ok
      (if_both IsPositive (is_space d) {x = some 2} {y = later} (omega arith) ok)

after_space-IsPositive : (o : Option ℕ) → IsPositive (after_space o)
after_space-IsPositive none = tt
after_space-IsPositive (some zero) = tt
after_space-IsPositive (some (suc k)) = omega arith

break_or-IsPositive : (o p : Option ℕ) → IsPositive o → IsPositive p → IsPositive (break_or o p)
break_or-IsPositive none p ho hp = hp
break_or-IsPositive (some k) p ho hp = ho

module _ (cfg : SpeechSettings) where
  find_phrase_break-IsPositive : (text : String) → IsPositive (find_phrase_break cfg text)
  unfolding find_phrase_break
  find_phrase_break-IsPositive text =
      let space = after_space (rfind 0x20 text) in
      break_or-IsPositive (search_punctuation text) _ (search_punctuation-IsPositive text) (
        if_both IsPositive (ltb (length_text (strip text)) cfg.phrase_min_chars) {x = none}
          {y = space} tt (after_space-IsPositive (rfind 0x20 text)))

  find_phrase_break_empty : find_phrase_break cfg "" ≡ none
  unfolding find_phrase_break search_punctuation rfind
  find_phrase_break_empty =
      if_both (λ (o : Option ℕ). o ≡ none) (ltb (length_text (strip "")) cfg.phrase_min_chars)
        {x = none} {y = none} refl refl

length-suffix :
    (k : ℕ) (c : Char) (s : String)
    → 1 ≤ k
    → length_text (suffix k (String.◌∷◌ c s)) ≤ length_text s
unfolding length_text suffix
length-suffix zero c s h = absurd (omega arith)
length-suffix (suc zero) c s h = omega arith
length-suffix (suc (suc k)) c String.[] h = omega arith
length-suffix (suc (suc k)) c (String.◌∷◌ d s) h =
    omega (arith, length-suffix (suc k) d s (omega arith))

module _ (cfg : SpeechSettings) where
  -- Where the loop stands, if it stands at a text without a break.
  abbrev pub Ends : List String × String → Type 0
  Ends (phrases, left) = find_phrase_break cfg left ≡ none

  cut_step-Ends :
      (again : String → List String × String) (text : String) (o : Option ℕ)
      → find_phrase_break cfg text ≡ o
      → IsPositive o
      → ((k : ℕ) → 1 ≤ k → find_phrase_break cfg text ≡ some k → Ends (again (suffix k text)))
      → Ends (cut_step again text o)
  cut_step-Ends again text none e h ih = e
  cut_step-Ends again text (some k) e h ih = ih k h e

  -- The loop of `_drain_ready_phrases` ends on every text, after at most as many rounds as the text has
  -- characters, and then no phrase can be cut from what is left.
  pub cut_phrases-Ends :
      (fuel : ℕ) (text : String) → length_text text ≤ fuel → Ends (cut_phrases cfg fuel text)
  unfolding cut_phrases length_text
  cut_phrases-Ends zero String.[] h = find_phrase_break_empty cfg
  cut_phrases-Ends zero (String.◌∷◌ c s) h = absurd (omega arith)
  cut_phrases-Ends (suc fuel) String.[] h =
      cut_step-Ends (cut_phrases cfg fuel) "" (find_phrase_break cfg "") refl
        (find_phrase_break-IsPositive cfg "")
        λ k hk e.
          absurd (let never : none ≡ some k = sym (find_phrase_break_empty cfg) ∙ e in cc never)
  cut_phrases-Ends (suc fuel) (String.◌∷◌ c s) h =
      let text = String.◌∷◌ c s in
      cut_step-Ends (cut_phrases cfg fuel) text (find_phrase_break cfg text) refl
        (find_phrase_break-IsPositive cfg text)
        λ k hk e. cut_phrases-Ends fuel (suffix k text) (omega (arith, length-suffix k c s hk))
