-- ===== src/Extension/Confidence.antt =====
-- luve_extension.py: how far a transcript can be trusted. Python's floats are in `Scale`.
pub mod Short
pub mod Second
pub mod Repeats
pub mod Rejects
pub mod Payload
pub mod Quality
pub mod Final
use Prim.Native.String.{String}
use luve.Prelude.{
  ℕ, ◌+◌, Bool, true, false, not, ◌&&◌, ◌||◌, Option, none, some, List, [], ◌∷◌, length,
  if◌then◌else◌, ltb, ◌==◌,
}
use luve.Python.Text.{is_empty}
use luve.Python.Lines.{find}
use luve.Recognition.Segments.{SttAnalysis, WordPoint}
use luve.Extension.Queue.{AudioStats}

pub record Scale (N : Type 0) : Type 0 where
  pub less : N → N → Bool
  pub at_most : N → N → Bool
  pub of_nat : ℕ → N
  -- the number written n / 100
  pub hundredths : ℕ → N
  pub negative : N → N
  pub times : N → N → N
  pub over : N → N → N
  -- `int(n)` of a number that is not negative
  pub to_int : N → ℕ
  -- `round(n, 2)` and `round(n, 4)`
  pub round2 : N → N
  pub round4 : N → N

-- The settings that the rules read.
pub record SttSettings (N : Type 0) : Type 0 where
  pub stt_reject_low_confidence : Bool
  pub stt_min_word_confidence : N
  pub stt_max_compression_ratio : N
  pub stt_min_speech_ms_for_final : N
  pub stt_min_words_for_llm : ℕ
  pub stt_max_no_speech_prob : N
  pub stt_min_avg_logprob : N
  pub stt_max_low_confidence_word_ratio : N
  -- `self._stt_final_min_speech_ms`
  pub final_min_speech_ms : N
  -- `self._stt_second_pass_verification_enabled`, with a worker
  pub verifies : Bool

-- Of the summary, what the rules read; the rest is copied from the analysis and the settings.
pub record ConfidenceSummary (N : Type 0) : Type 0 where
  pub word_count : ℕ
  pub low_confidence_word_count : ℕ
  pub low_confidence_word_ratio : N

abbrev pub canned_stt_hallucination_phrases : List String
canned_stt_hallucination_phrases =
    "go home now everyone" ∷ "have a good day" ∷ "i don t know what to say"
    ∷ "i dont know what to say" ∷ "don t ask me to speak english" ∷ "dont ask me to speak english"
    ∷ "thank you very much" ∷ "today is a club night" ∷ []

-- `needle in text`
unfoldable pub has_text : String → String → Bool
has_text needle text = elim (find needle text) [ none ↦ false | some _ ↦ true ]

unfoldable pub has_any_text : List String → String → Bool
has_any_text [] text = false
has_any_text (needle ∷ needles) text = has_text needle text || has_any_text needles text

abbrev pub has_canned_phrase : String → Bool
has_canned_phrase normalized = has_any_text canned_stt_hallucination_phrases normalized

module _ {N : Type 0} (sc : Scale N) where
  -- `x is not None and x < bound`
  abbrev pub is_below : Option N → N → Bool
  is_below none bound = false
  is_below (some x) bound = sc.less x bound

  -- `x is not None and x > bound`
  abbrev pub is_above : Option N → N → Bool
  is_above none bound = false
  is_above (some x) bound = sc.less bound x

  -- `x is not None and x >= bound`
  abbrev pub is_at_least : Option N → N → Bool
  is_at_least none bound = false
  is_at_least (some x) bound = sc.at_most bound x

  -- `x is None or x >= bound`
  abbrev pub at_least_if : Option N → N → Bool
  at_least_if none bound = true
  at_least_if (some x) bound = sc.at_most bound x

  -- `x is None or x <= bound`
  abbrev pub at_most_if : Option N → N → Bool
  at_most_if none bound = true
  at_most_if (some x) bound = sc.at_most x bound

  -- `max(a, b)`
  abbrev pub greater : N → N → N
  greater a b = if sc.less a b then b else a

  -- `min(a, b)`
  abbrev pub smaller : N → N → N
  smaller a b = if sc.less b a then b else a

  -- The number written -n / 100
  abbrev pub minus_hundredths : ℕ → N
  minus_hundredths n = sc.negative (sc.hundredths n)

  abbrev pub speech_ms : Option (AudioStats N) → Option N
  speech_ms none = none
  speech_ms (some stats) = some stats.speech_ms

  unfoldable pub count_below : N → List (WordPoint N) → ℕ
  count_below bound [] = 0
  count_below bound (word ∷ words) =
      (if sc.less word.confidence bound then 1 else 0) + count_below bound words

  unfoldable pub stt_confidence_summary : SttSettings N → SttAnalysis N → ConfidenceSummary N
  stt_confidence_summary cfg analysis =
      let low = count_below cfg.stt_min_word_confidence analysis.all_words in
      let words = length analysis.all_words in
      record {
        word_count = words;
        low_confidence_word_count = low;
        low_confidence_word_ratio =
            sc.round4
              (if words == 0 then sc.of_nat 0 else sc.over (sc.of_nat low) (sc.of_nat words));
      }

  -- `word_count > 0 and low_confidence_word_ratio > bound`
  abbrev pub has_ratio_above : ConfidenceSummary N → N → Bool
  has_ratio_above confidence bound =
      ltb 0 confidence.word_count && sc.less bound confidence.low_confidence_word_ratio
