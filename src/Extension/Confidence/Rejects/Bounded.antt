-- ===== src/Extension/Confidence/Rejects/Bounded.antt =====
-- luve_extension.py: the bounds that every accepted final keeps.
use luve.Prelude.{
  ℕ, Bool, true, false, not, ◌&&◌, ◌≡◌, refl, ap, Option, none, some, if◌then◌else◌, if_both, ltb,
}
use luve.Recognition.Segments.{SttAnalysis}
use luve.Extension.Queue.{AudioStats}
use luve.Extension.Transcript.{
  Alphabet, Lexicon, is_controlled_short_english_candidate, has_learner_english_evidence,
  has_strong_learner_english_attempt,
}
use luve.Extension.Confidence.{
  Scale, SttSettings, ConfidenceSummary, is_below, is_above, speech_ms, has_ratio_above, greater,
  smaller, stt_confidence_summary,
}
use luve.Extension.Confidence.Rejects.{
  Bounds, strict_bounds, relaxed_bounds, relax, bounds_for, bounds_of,
  is_plausible_short_or_fragment, is_eligible_learner_english, min_speech_ms, rejection_checks,
  first_reason, stt_rejection_reason,
}
use luve.Extension.Confidence.Rejects.Order.{
  IsOrdered, IsLooser, first_reason-none, skips, and_mono, greater_left, greater_right,
  greater_mono, smaller_left, smaller_right, smaller_mono,
}

module _ {N : Type 0} (abc : Alphabet) (lex : Lexicon) (sc : Scale N) (cfg : SttSettings N)
    (laws : IsOrdered sc) where
  relax-IsLooser :
      (no_speech logprob ratio : ℕ) (b : Bounds N)
      → IsLooser sc laws b (relax abc lex sc cfg no_speech logprob ratio b)
  relax-IsLooser no_speech logprob ratio b = (
    greater_left sc laws b.max_no_speech (sc.hundredths no_speech),
    smaller_left sc laws b.min_avg_logprob (sc.negative (sc.hundredths logprob)),
    greater_left sc laws b.max_low_conf_ratio (sc.hundredths ratio),
  )

  relax_mono :
      (no_speech logprob ratio : ℕ) (b b' : Bounds N)
      → IsLooser sc laws b b'
      → IsLooser sc laws
          (relax abc lex sc cfg no_speech logprob ratio b)
          (relax abc lex sc cfg no_speech logprob ratio b')
  relax_mono no_speech logprob ratio b b' (p, q, r) = (
    greater_mono sc laws b.max_no_speech b'.max_no_speech (sc.hundredths no_speech) p,
    smaller_mono sc laws b.min_avg_logprob b'.min_avg_logprob (sc.negative (sc.hundredths logprob))
        q,
    greater_mono sc laws b.max_low_conf_ratio b'.max_low_conf_ratio (sc.hundredths ratio) r,
  )

  -- Where a relaxation may be made or not, its result is not beyond the relaxed bounds.
  relax_if :
      (condition : Bool) (no_speech logprob ratio : ℕ) (b b' : Bounds N)
      → IsLooser sc laws b b'
      → IsLooser sc laws
          (if condition then relax abc lex sc cfg no_speech logprob ratio b else b)
          (relax abc lex sc cfg no_speech logprob ratio b')
  relax_if condition no_speech logprob ratio b b' h =
      let top = relax abc lex sc cfg no_speech logprob ratio b' in
      let up = relax-IsLooser no_speech logprob ratio b' in
      if_both (λ (c : Bounds N). IsLooser sc laws c top) condition
        {x = relax abc lex sc cfg no_speech logprob ratio b} {y = b}
        (relax_mono no_speech logprob ratio b b' h)
        (
          laws.not_less_trans top.max_no_speech b'.max_no_speech b.max_no_speech (up.0) (h.0),
          laws.not_less_trans b.min_avg_logprob b'.min_avg_logprob top.min_avg_logprob (h.1) (up.1),
          laws.not_less_trans top.max_low_conf_ratio b'.max_low_conf_ratio b.max_low_conf_ratio
              (up.2) (h.2),
        )

  -- All relaxations at once.
  abbrev pub loosest : Bounds N
  loosest = relax abc lex sc cfg 90 130 85 (
      relax abc lex sc cfg 35 78 45 (relax abc lex sc cfg 80 115 75 (strict_bounds abc lex sc cfg)))

  bounds_for-IsLooser :
      (eligible short strong : Bool)
      → IsLooser sc laws (bounds_for abc lex sc cfg eligible short strong) loosest
  unfolding bounds_for
  bounds_for-IsLooser eligible short strong =
      let strict = strict_bounds abc lex sc cfg in
      let relaxed = relax abc lex sc cfg 80 115 75 strict in
      let first = if eligible then relaxed_bounds abc lex sc cfg else strict in
      relax_if strong 90 130 85 (if short then relax abc lex sc cfg 35 78 45 first else first)
        (relax abc lex sc cfg 35 78 45 relaxed)
        (relax_if short 35 78 45 first relaxed (
          if_both (λ (c : Bounds N). IsLooser sc laws c relaxed) eligible
            {x = relaxed_bounds abc lex sc cfg} {y = strict}
            (
              greater_right sc laws strict.max_no_speech (sc.hundredths 80),
              smaller_right sc laws strict.min_avg_logprob (sc.negative (sc.hundredths 115)),
              greater_right sc laws strict.max_low_conf_ratio (sc.hundredths 75),
            )
            (relax-IsLooser 80 115 75 strict)))

  -- The least time of speech that is ever asked for.
  abbrev pub least_speech_ms : N
  least_speech_ms =
      smaller sc (smaller sc (sc.of_nat 300) (greater sc cfg.final_min_speech_ms (sc.of_nat 500)))
        cfg.stt_min_speech_ms_for_final

  min_speech-least :
      (analysis : SttAnalysis N) (stats : Option (AudioStats N)) (confidence : ConfidenceSummary N)
      → sc.less (min_speech_ms abc lex sc cfg analysis stats confidence) least_speech_ms ≡ false
  unfolding min_speech_ms
  min_speech-least analysis stats confidence =
      let phrase = greater sc cfg.final_min_speech_ms (sc.of_nat 500) in
      let either = smaller sc (sc.of_nat 300) phrase in
      let strict = cfg.stt_min_speech_ms_for_final in
      let down = smaller_left sc laws either strict in
      if_both (λ (m : N). sc.less m least_speech_ms ≡ false)
        (is_plausible_short_or_fragment abc lex sc cfg analysis stats confidence)
        {x = sc.of_nat 300}
        {y = if is_eligible_learner_english abc lex sc cfg analysis stats confidence
          then phrase
          else strict}
        (laws.not_less_trans (sc.of_nat 300) either least_speech_ms
          (smaller_left sc laws (sc.of_nat 300) phrase) down)
        (if_both (λ (m : N). sc.less m least_speech_ms ≡ false)
          (is_eligible_learner_english abc lex sc cfg analysis stats confidence) {x = phrase}
          {y = strict}
          (laws.not_less_trans phrase either least_speech_ms
            (smaller_right sc laws (sc.of_nat 300) phrase) down)
          (smaller_right sc laws either strict))

  -- What an accepted final keeps: each of its measures that is known.
  abbrev pub KeepsBounds : SttAnalysis N → Option (AudioStats N) → Type 0
  KeepsBounds analysis stats =
      (is_below sc (speech_ms sc stats) least_speech_ms ≡ false)
      × (is_above sc analysis.compression_ratio cfg.stt_max_compression_ratio ≡ false)
      × (is_above sc analysis.no_speech_prob loosest.max_no_speech ≡ false)
      × (is_below sc analysis.avg_logprob loosest.min_avg_logprob ≡ false)
      × (has_ratio_above sc (stt_confidence_summary sc cfg analysis) loosest.max_low_conf_ratio
          ≡ false)

  is_below_mono :
      (o : Option N) (a b : N)
      → is_below sc o a ≡ false
      → sc.less a b ≡ false
      → is_below sc o b ≡ false
  is_below_mono none a b h le = refl
  is_below_mono (some x) a b h le = laws.not_less_trans x a b h le

  is_above_mono :
      (o : Option N) (a b : N)
      → is_above sc o a ≡ false
      → sc.less b a ≡ false
      → is_above sc o b ≡ false
  is_above_mono none a b h le = refl
  is_above_mono (some x) a b h le = laws.not_less_trans b a x le h

  -- With the rejection enabled: a final is accepted only if its measures that are known keep the loosest
  -- bounds, whatever is made of its text; the floats are numbers in their order.
  pub accepted-KeepsBounds :
      (analysis : SttAnalysis N) (stats : Option (AudioStats N))
      → cfg.stt_reject_low_confidence ≡ true
      → stt_rejection_reason abc lex sc cfg analysis true stats ≡ none
      → KeepsBounds analysis stats
  unfolding stt_rejection_reason
  accepted-KeepsBounds analysis stats on accepted =
      let confidence = stt_confidence_summary sc cfg analysis in
      let checks = rejection_checks abc lex sc cfg analysis stats confidence in
      let bounds = bounds_of abc lex sc cfg analysis stats confidence in
      let loose =
        bounds_for-IsLooser (is_eligible_learner_english abc lex sc cfg analysis stats confidence)
          (is_controlled_short_english_candidate abc lex analysis.raw_text
            && not (has_learner_english_evidence abc lex analysis.raw_text))
          (has_strong_learner_english_attempt abc lex analysis.raw_text) in
      let ran : first_reason checks ≡ none =
        skips (not cfg.stt_reject_low_confidence) none (first_reason checks) (ap not on) accepted in
      let (_, (_, (_, (speech, (_, (compression, (silence, (logprob, (ratio, _))))))))) =
        first_reason-none checks ran in
      (
        is_below_mono (speech_ms sc stats) (min_speech_ms abc lex sc cfg analysis stats confidence)
            least_speech_ms speech (min_speech-least analysis stats confidence),
        compression,
        is_above_mono analysis.no_speech_prob bounds.max_no_speech loosest.max_no_speech silence
            (loose.0),
        is_below_mono analysis.avg_logprob bounds.min_avg_logprob loosest.min_avg_logprob logprob
            (loose.1),
        and_mono (ltb 0 confidence.word_count)
            (sc.less bounds.max_low_conf_ratio confidence.low_confidence_word_ratio)
            (sc.less loosest.max_low_conf_ratio confidence.low_confidence_word_ratio) ratio
            (laws.not_less_trans loosest.max_low_conf_ratio bounds.max_low_conf_ratio
              confidence.low_confidence_word_ratio (loose.2)),
      )
