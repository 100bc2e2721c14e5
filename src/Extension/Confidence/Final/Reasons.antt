-- ===== src/Extension/Confidence/Final/Reasons.antt =====
-- luve_extension.py: which reasons an assessment can add to those of the verification.
use Prim.Native.String.{String}
use luve.Prelude.{Bool, true, false, ◌≡◌, refl, ◌∙◌, arith, Option, List, [], ◌∷◌, ◌++◌, if_both}
use luve.Python.Text.{is_in}
use luve.Recognition.Segments.{SttAnalysis}
use luve.Extension.Queue.{AudioStats}
use luve.Extension.Transcript.{Alphabet, Lexicon, any_word}
use luve.Extension.Confidence.{Scale, SttSettings, ConfidenceSummary}
use luve.Extension.Confidence.Second.{Verification}
use luve.Extension.Confidence.Quality.{
  verification_reasons, acoustic_reasons, stt_uncertainty_reasons, assessed_reasons,
}
use luve.Extension.Confidence.Payload.{when, append_once, add_borderline, add_fragment}

-- The tests that pass the reasons which exclude nothing.
abbrev pub IsSoft : (String → Bool) → Type 0
IsSoft test =
    (test "low_average_logprob" ≡ false)
    × (test "high_no_speech_probability" ≡ false)
    × (test "many_low_confidence_words" ≡ false)
    × (test "short_utterance" ≡ false)
    × (test "borderline_learner_english" ≡ false)
    × (test "possible_stt_autocorrection" ≡ false)
    × (test "mixed_language_filtered" ≡ false)
    × (test "incomplete_fragment" ≡ false)

any_word-none_append :
    (test : String → Bool) (xs ys : List String)
    → any_word test xs ≡ false
    → any_word test (xs ++ ys) ≡ any_word test ys
unfolding any_word
any_word-none_append test [] ys none_there = refl
any_word-none_append test (x ∷ xs) ys none_there =
    ground (arith, any_word-none_append test xs ys, none_there)

-- A reason that the test passes may be there or not.
any_word-when :
    (test : String → Bool) (condition : Bool) (reason : String) (xs : List String)
    → test reason ≡ false
    → any_word test (when condition reason ++ xs) ≡ any_word test xs
unfolding any_word
any_word-when test false reason xs soft = refl
any_word-when test true reason xs soft = rw soft refl

any_word-append_last :
    (test : String → Bool) (reason : String) (xs : List String)
    → test reason ≡ false
    → any_word test (xs ++ reason ∷ []) ≡ any_word test xs
unfolding any_word
any_word-append_last test reason [] soft = rw soft refl
any_word-append_last test reason (x ∷ xs) soft =
    ground (arith, any_word-append_last test reason xs soft)

any_word-append_once :
    (test : String → Bool) (reason : String) (xs : List String)
    → test reason ≡ false
    → any_word test (append_once reason xs) ≡ any_word test xs
any_word-append_once test reason xs soft =
    if_both (λ (ys : List String). any_word test ys ≡ any_word test xs) (is_in reason xs) {x = xs}
      {y = xs ++ reason ∷ []} refl (any_word-append_last test reason xs soft)

any_word-when_last :
    (test : String → Bool) (condition : Bool) (reason : String)
    → test reason ≡ false
    → any_word test (when condition reason) ≡ false
unfolding any_word
any_word-when_last test false reason soft = refl
any_word-when_last test true reason soft = rw soft refl

any_word-add_borderline :
    (test : String → Bool) (condition : Bool) (xs : List String)
    → test "borderline_learner_english" ≡ false
    → any_word test (add_borderline condition xs) ≡ any_word test xs
unfolding add_borderline
any_word-add_borderline test false xs soft = refl
any_word-add_borderline test true xs soft =
    any_word-append_last test "borderline_learner_english" xs soft

any_word-add_fragment :
    (test : String → Bool) (is_fragment : Bool) (xs : List String)
    → test "short_utterance" ≡ false
    → test "incomplete_fragment" ≡ false
    → any_word test (add_fragment is_fragment xs) ≡ any_word test xs
unfolding add_fragment
any_word-add_fragment test false xs short soft = refl
any_word-add_fragment test true xs short soft =
    any_word-append_once test "incomplete_fragment" (append_once "short_utterance" xs) soft
    ∙ any_word-append_once test "short_utterance" xs short

module _ {N : Type 0} (abc : Alphabet) (lex : Lexicon) (sc : Scale N) (cfg : SttSettings N)
    (test : String → Bool) (soft : IsSoft test) where
  acoustic_reasons-none :
      (analysis : SttAnalysis N) (stats : Option (AudioStats N)) (confidence : ConfidenceSummary N)
      (short : Bool)
      → any_word test (acoustic_reasons abc lex sc cfg analysis stats confidence short) ≡ false
  unfolding acoustic_reasons
  acoustic_reasons-none analysis stats confidence short =
      any_word-when test _ "low_average_logprob" _ (soft.0)
      ∙ any_word-when test _ "high_no_speech_probability" _ (soft.1)
      ∙ any_word-when test _ "many_low_confidence_words" _ (soft.2)
      ∙ any_word-when_last test _ "short_utterance" (soft.3)

  stt_uncertainty_reasons-any :
      (analysis : SttAnalysis N) (stats : Option (AudioStats N)) (confidence : ConfidenceSummary N)
      (short evidence ascii_like auto : Bool) (v : Verification N) (mixed : Bool)
      → any_word test (
          stt_uncertainty_reasons abc lex sc cfg analysis stats confidence short evidence ascii_like
            auto v mixed)
        ≡ any_word test (verification_reasons abc lex sc cfg v)
  unfolding stt_uncertainty_reasons
  stt_uncertainty_reasons-any analysis stats confidence short evidence ascii_like auto v mixed =
      let reasons = acoustic_reasons abc lex sc cfg analysis stats confidence short in
      any_word-none_append test reasons _ (acoustic_reasons-none analysis stats confidence short)
      ∙ any_word-when test _ "borderline_learner_english" _ (soft.4)
      ∙ any_word-when test _ "possible_stt_autocorrection" _ (soft.5)
      ∙ any_word-when test _ "mixed_language_filtered" _ (soft.6)

  -- The assessment adds to the verification's reasons only such as the test passes.
  pub assessed_reasons-any :
      (analysis : SttAnalysis N) (stats : Option (AudioStats N)) (v : Verification N) (mixed : Bool)
      → any_word test (assessed_reasons abc lex sc cfg analysis stats v mixed)
        ≡ any_word test (verification_reasons abc lex sc cfg v)
  unfolding assessed_reasons
  assessed_reasons-any analysis stats v mixed =
      any_word-add_fragment test _ _ (soft.3) (soft.7)
      ∙ any_word-add_borderline test _ _ (soft.4)
      ∙ stt_uncertainty_reasons-any analysis stats _ _ _ _ _ v mixed
