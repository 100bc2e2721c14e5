-- ===== src/Extension/Transcript/English.antt =====
-- luve_extension.py: what is left of a transcript with Vietnamese in it.
use Prim.Native.String.{String}
use luve.Prelude.{
  ◌≡◌, refl, arith, Bool, false, not, Option, none, some, List, [], ◌∷◌, if◌then◌else◌, if_both,
  if_cases,
}
use luve.Python.Text.{is_empty}
use luve.Python.Lines.{join, split_words}
use luve.Extension.Transcript.{
  Alphabet, Lexicon, normalize_stt_text, spaced, contains_vietnamese_text,
}
use luve.Extension.Transcript.Mixed.{
  Score, beats, text_of, mixed_english_runs, is_no_segment, is_no_fragment, score_of, best_of,
  english_segment_from_mixed_text, weak_english_fragment_from_mixed_text, or_reason,
  split_mixed_language_transcript,
}

module _ (abc : Alphabet) (lex : Lexicon) where
  -- No Vietnamese is found in the text.
  abbrev pub IsFree : String → Type 0
  IsFree text = contains_vietnamese_text abc lex text ≡ false

  abbrev IsFreeBest : Option (String × Score) → Type 0
  IsFreeBest none = Unit
  IsFreeBest (some (segment, _)) = IsFree segment

  abbrev IsFreeIf : Option String → Type 0
  IsFreeIf none = Unit
  IsFreeIf (some text) = IsFree text

  is_no_segment-IsFree : (segment : String) → is_no_segment abc lex segment ≡ false → IsFree segment
  unfolding is_no_segment
  is_no_segment-IsFree segment h = ground (arith, h)

  is_no_fragment-IsFree :
      (segment : String) → is_no_fragment abc lex segment ≡ false → IsFree segment
  unfolding is_no_fragment
  is_no_fragment-IsFree segment h = ground (arith, h)

  best_of-IsFreeBest :
      (is_no : String → Bool) (best : Option (String × Score)) (segments : List String)
      → ((segment : String) → is_no segment ≡ false → IsFree segment)
      → IsFreeBest best
      → IsFreeBest (best_of abc lex is_no best segments)
  unfolding best_of
  best_of-IsFreeBest is_no best [] free h = h
  best_of-IsFreeBest is_no best (segment ∷ segments) free h =
      let score = score_of abc lex segment in
      let next : Option (String × Score) = some (segment, score) in
      best_of-IsFreeBest is_no
        (if is_no segment then best else if beats score best then next else best) segments free
        (if_cases IsFreeBest (is_no segment) {x = best}
          {y = if beats score best then next else best} (λ e. h)
          (λ e. if_both IsFreeBest (beats score best) {x = next} {y = best} (free segment e) h))

  text_of-IsFreeIf : (best : Option (String × Score)) → IsFreeBest best → IsFreeIf (text_of best)
  text_of-IsFreeIf none h = tt
  text_of-IsFreeIf (some (segment, _)) h = h

  segment-IsFreeIf : (text : String) → IsFreeIf (english_segment_from_mixed_text abc lex text)
  unfolding english_segment_from_mixed_text
  segment-IsFreeIf text =
      let best = best_of abc lex (is_no_segment abc lex) none (mixed_english_runs abc lex text) in
      if_both IsFreeIf (not (contains_vietnamese_text abc lex text)) {x = none} {y = text_of best}
        tt
        (text_of-IsFreeIf best (
          best_of-IsFreeBest (is_no_segment abc lex) none (mixed_english_runs abc lex text)
            is_no_segment-IsFree tt))

  fragment-IsFreeIf :
      (text : String) → IsFreeIf (weak_english_fragment_from_mixed_text abc lex text)
  unfolding weak_english_fragment_from_mixed_text
  fragment-IsFreeIf text =
      let best = best_of abc lex (is_no_fragment abc lex) none (mixed_english_runs abc lex text) in
      if_both IsFreeIf (not (contains_vietnamese_text abc lex text)) {x = none} {y = text_of best}
        tt
        (text_of-IsFreeIf best (
          best_of-IsFreeBest (is_no_fragment abc lex) none (mixed_english_runs abc lex text)
            is_no_fragment-IsFree tt))

  empty-IsFree : IsFree ""
  unfolding contains_vietnamese_text normalize_stt_text spaced split_words join
  empty-IsFree = refl

  or_reason-IsFree :
      (o : Option String) (reason : String) (other : String × List String)
      → IsFreeIf o
      → IsFree other.0
      → IsFree (or_reason abc lex o reason other).0
  or_reason-IsFree none reason other h h' = h'
  or_reason-IsFree (some text) reason other h h' =
      if_both (λ (r : String × List String). IsFree r.0) (is_empty text) {x = other}
        {y = (text, reason ∷ [])} h' h

  -- The English that is left of a transcript has no Vietnamese in it, whatever the transcript has and
  -- whatever the word lists are.
  pub split_mixed_language_transcript-IsFree :
      (text : String) → IsFree (split_mixed_language_transcript abc lex text).0
  unfolding split_mixed_language_transcript
  split_mixed_language_transcript-IsFree text =
      let weak =
        or_reason abc lex (weak_english_fragment_from_mixed_text abc lex text)
          "weak_mixed_language_english" ("", "mixed_non_english" ∷ []) in
      let mixed =
        or_reason abc lex (english_segment_from_mixed_text abc lex text) "mixed_language_filtered"
          weak in
      if_cases (λ (r : String × List String). IsFree r.0)
        (not (contains_vietnamese_text abc lex text)) {x = (text, [])} {y = mixed}
        (λ e. ground (arith, e))
        (λ e.
          or_reason-IsFree (english_segment_from_mixed_text abc lex text) "mixed_language_filtered"
            weak (segment-IsFreeIf text)
            (or_reason-IsFree (weak_english_fragment_from_mixed_text abc lex text)
              "weak_mixed_language_english" ("", "mixed_non_english" ∷ []) (fragment-IsFreeIf text)
              empty-IsFree))
