-- ===== src/Extension/Confidence/Quality/Doubts.antt =====
-- luve_extension.py: the quality that is told and the reasons that are told agree.
use Prim.Native.String.{String}
use luve.Prelude.{
  Bool, true, false, not, ◌&&◌, ◌≡◌, refl, sym, ap, ◌∙◌, arith, Option, List, [], ◌∷◌, ◌++◌,
  if◌then◌else◌, if_both, if_cases,
}
use luve.Python.Text.{is_in}
use luve.Python.Json.{Value, string, get, to_list}
use luve.Recognition.Segments.{SttAnalysis}
use luve.Extension.Queue.{AudioStats}
use luve.Extension.Transcript.{Alphabet, Lexicon}
use luve.Extension.Confidence.{Scale, SttSettings, stt_confidence_summary}
use luve.Extension.Confidence.Second.{Verification}
use luve.Extension.Confidence.Payload.{
  Split, when, is_none_yet, append_once, is_weak, told_reasons, add_borderline, add_fragment,
  items_of,
}
use luve.Extension.Confidence.Quality.{
  acoustic_reasons, verification_reasons, stt_uncertainty_reasons, assessed_reasons,
  stt_quality_assessment, reason_items,
}

data IsSome : List String → Type 0 where
  has : (x : String) (xs : List String) → IsSome (x ∷ xs)

none_yet-false : {xs : List String} → IsSome xs → is_none_yet xs ≡ false
none_yet-false (has x xs) = refl

IsSome-append : (xs ys : List String) → IsSome ys → IsSome (xs ++ ys)
IsSome-append [] ys h = h
IsSome-append (x ∷ xs) ys h = has x (xs ++ ys)

IsSome-append_left : (xs ys : List String) → IsSome xs → IsSome (xs ++ ys)
IsSome-append_left xs ys (has x rest) = has x (rest ++ ys)

IsSome-append_once :
    (reason : String) (xs : List String) → IsSome xs → IsSome (append_once reason xs)
IsSome-append_once reason xs h =
    if_both IsSome (is_in reason xs) {x = xs} {y = xs ++ reason ∷ []} h
      (IsSome-append_left xs (reason ∷ []) h)

IsSome-add_borderline :
    (condition : Bool) (xs : List String) → IsSome xs → IsSome (add_borderline condition xs)
unfolding add_borderline
IsSome-add_borderline false xs h = h
IsSome-add_borderline true xs h = IsSome-append_left xs ("borderline_learner_english" ∷ []) h

IsSome-add_fragment :
    (is_fragment : Bool) (xs : List String) → IsSome xs → IsSome (add_fragment is_fragment xs)
unfolding add_fragment
IsSome-add_fragment false xs h = h
IsSome-add_fragment true xs h =
    IsSome-append_once "incomplete_fragment" (append_once "short_utterance" xs)
      (IsSome-append_once "short_utterance" xs h)

-- Whether a list of values is empty.
abbrev pub has_nothing : {N : Type 0} → List (Value N) → Bool
has_nothing [] = true
has_nothing (_ ∷ _) = false

has_nothing-items :
    (N : Type 0) (reasons : List String)
    → has_nothing (to_list (items_of {N = N} reasons)) ≡ is_none_yet reasons
unfolding items_of
has_nothing-items N [] = refl
has_nothing-items N (_ ∷ _) = refl

module _ {N : Type 0} (abc : Alphabet) (lex : Lexicon) (sc : Scale N) (cfg : SttSettings N)
    (analysis : SttAnalysis N) (stats : Option (AudioStats N)) (v : Verification N) where
  uncertain-IsSome :
      (short evidence ascii_like auto : Bool) (mixed : Bool)
      → mixed ≡ true
      → IsSome (
          stt_uncertainty_reasons abc lex sc cfg analysis stats
            (stt_confidence_summary sc cfg analysis)
            short
            evidence
            ascii_like
            auto
            v
            mixed)
  unfolding stt_uncertainty_reasons
  uncertain-IsSome short evidence ascii_like auto false h = cc h
  uncertain-IsSome short evidence ascii_like auto true h =
      let confidence = stt_confidence_summary sc cfg analysis in
      let sound = acoustic_reasons abc lex sc cfg analysis stats confidence short in
      let borderline =
        when (not evidence && not short && ascii_like && not (is_none_yet sound))
          "borderline_learner_english" in
      let mixed = "mixed_language_filtered" ∷ verification_reasons abc lex sc cfg v in
      let corrected = when auto "possible_stt_autocorrection" in
      IsSome-append sound (borderline ++ (corrected ++ mixed))
        (IsSome-append borderline (corrected ++ mixed) (IsSome-append corrected mixed (has _ _)))

  mixed-IsSome :
      (mixed : Bool)
      → mixed ≡ true
      → IsSome (assessed_reasons abc lex sc cfg analysis stats v mixed)
  unfolding assessed_reasons
  mixed-IsSome false h = cc h
  mixed-IsSome true h =
      IsSome-add_fragment _ _ (IsSome-add_borderline _ _ (uncertain-IsSome _ _ _ _ _ refl))

  -- A part of a mixed text has its reason already.
  told-none :
      (s : Split)
      → is_none_yet (
          told_reasons s analysis.raw_text
            (assessed_reasons abc lex sc cfg analysis stats v s.mixed_language_filtered))
        ≡ is_none_yet (assessed_reasons abc lex sc cfg analysis stats v s.mixed_language_filtered)
  told-none s =
      let reasons = assessed_reasons abc lex sc cfg analysis stats v s.mixed_language_filtered in
      if_cases (λ (rs : List String). is_none_yet rs ≡ is_none_yet reasons)
        (is_weak s analysis.raw_text) {x = append_once "weak_mixed_language_english" reasons}
        {y = reasons}
        (λ weak.
          let some_there = mixed-IsSome s.mixed_language_filtered (ground (arith, weak)) in
          none_yet-false (IsSome-append_once "weak_mixed_language_english" reasons some_there)
          ∙ sym (none_yet-false some_there))
        (λ _. refl)

  -- A turn is told to be confident exactly if no reason for doubt is told with it, and uncertain
  -- otherwise, though the quality is decided before the last reason is added.
  pub stt_quality-doubts :
      (audio : Value N) (inference_ms : N) (s : Split)
      → let md = stt_quality_assessment abc lex sc cfg analysis stats audio inference_ms v s in
        get "stt_quality" md
        ≡ string (
            if has_nothing (reason_items (get "uncertainty_reasons" md))
            then "confident"
            else "uncertain")
  unfolding stt_quality_assessment get
  stt_quality-doubts audio inference_ms s =
      let reasons = assessed_reasons abc lex sc cfg analysis stats v s.mixed_language_filtered in
      ap (λ (b : Bool). string (if b then "confident" else "uncertain"))
        (sym (has_nothing-items N (told_reasons s analysis.raw_text reasons) ∙ told-none s))
