-- ===== src/Extension/Confidence/Final/Judged.antt =====
-- luve_extension.py: what holds of every turn that _inference_loop logs.
use Prim.Native.String.{String}
use text.Mathlib.Text.{◌==◌ as str_eq}
use text.Mathlib.TextEquality.{eq_iff}
use luve.Prelude.{
  Bool, true, false, not, ◌&&◌, ◌||◌, ◌≡◌, refl, arith, Option, none, some, List, [], ◌∷◌, length,
  if◌then◌else◌, if_both, if_cases, subst,
}
use luve.Python.Text.{is_empty, is_in, strip, lstrip, rstrip}
use luve.Media.Postprocess.{sanitize_transcript}
use luve.Recognition.Segments.{SttAnalysis}
use luve.Extension.Transcript.{Alphabet, Lexicon, contains_vietnamese_text}
use luve.Extension.Transcript.Mixed.{
  split_mixed_language_transcript, or_reason, english_segment_from_mixed_text,
  weak_english_fragment_from_mixed_text,
}
use luve.Extension.Transcript.English.{split_mixed_language_transcript-IsFree}
use luve.Extension.Confidence.{Scale, SttSettings}
use luve.Extension.Confidence.Second.{Verification, skipped, unavailable, suppressed, verified}
use luve.Extension.Confidence.Repeats.{is_probable_stt_hallucination}
use luve.Extension.Confidence.Rejects.{stt_rejection_reason}
use luve.Extension.Confidence.Quality.{
  stt_quality_assessment, final_stt_acceptance_rejection_reason,
}
use luve.Extension.Confidence.Payload.{Split}
use luve.Extension.Confidence.Final.{
  Fields, Judgement, unless_withheld, withheld, told, logged, Heard, accept, after_verification,
  verification_of, after_split, prepared, unsplit, judge_sanitized, judge,
}

strip_filled : (s : String) → is_empty (strip s) ≡ false → is_empty s ≡ false
unfolding strip lstrip rstrip
strip_filled String.[] h = absurd (ground (arith, h))
strip_filled (String.◌∷◌ c s) h = refl

module _ {N : Type 0} (abc : Alphabet) (lex : Lexicon) (sc : Scale N) (cfg : SttSettings N) where
  -- An empty part of a text that is not empty comes with the reason.
  abbrev Tells : String × List String → Type 0
  Tells (text, reasons) = is_empty text ≡ true → is_in "mixed_non_english" reasons ≡ true

  or_reason-Tells :
      (o : Option String) (reason : String) (other : String × List String)
      → Tells other
      → Tells (or_reason abc lex o reason other)
  or_reason-Tells none reason other h = h
  or_reason-Tells (some text) reason other h =
      if_cases Tells (is_empty text) {x = other} {y = (text, reason ∷ [])} (λ e. h)
        (λ filled e. ground (arith, filled, e))

  split-Tells :
      (text : String) → is_empty text ≡ false → Tells (split_mixed_language_transcript abc lex text)
  unfolding split_mixed_language_transcript is_in
  split-Tells text filled =
      let weak =
        or_reason abc lex (weak_english_fragment_from_mixed_text abc lex text)
          "weak_mixed_language_english" ("", "mixed_non_english" ∷ []) in
      if_both Tells (not (contains_vietnamese_text abc lex text)) {x = (text, [])}
        {y = or_reason abc lex (english_segment_from_mixed_text abc lex text)
          "mixed_language_filtered" weak}
        (λ e. ground (arith, filled, e))
        (or_reason-Tells (english_segment_from_mixed_text abc lex text) "mixed_language_filtered"
          weak
          (or_reason-Tells (weak_english_fragment_from_mixed_text abc lex text)
            "weak_mixed_language_english" ("", "mixed_non_english" ∷ []) (λ e. refl)))

  abbrev pub is_spoken : Heard N → SttAnalysis N → Bool
  is_spoken h analysis = h.job.is_final && not (is_empty (strip analysis.raw_text))

  abbrev IsFree : SttAnalysis N → Type 0
  IsFree analysis = contains_vietnamese_text abc lex analysis.raw_text ≡ false

  abbrev IsPassed : Heard N → SttAnalysis N → Type 0
  IsPassed h analysis =
      stt_rejection_reason abc lex sc cfg analysis h.job.is_final h.job.audio_stats ≡ none

  abbrev IsPlausible : Heard N → SttAnalysis N → Type 0
  IsPlausible h analysis =
      is_probable_stt_hallucination abc sc analysis.raw_text h.job.is_final h.job.audio_stats
        (length h.job.pcm_bytes)
      ≡ false

  abbrev pub metadata_of : Heard N → Verification N → Split → SttAnalysis N → Fields N
  metadata_of h v s analysis =
      stt_quality_assessment abc lex sc cfg analysis h.job.audio_stats h.audio h.inference_ms v s

  -- A turn that is logged: its text is some English of a final that no rule withholds, and its metadata
  -- is the assessment.
  abbrev pub IsJudged : Heard N → Judgement N → Type 0
  IsJudged h (logged analysis turn_metadata) =
      (is_spoken h analysis ≡ true)
      × IsFree analysis
      × IsPlausible h analysis
      × IsPassed h analysis
      × (final_stt_acceptance_rejection_reason analysis turn_metadata ≡ none)
      × ((v : Verification N) × ((s : Split) × (turn_metadata ≡ metadata_of h v s analysis)))
  IsJudged h _ = Unit

  unless_withheld-IsJudged :
      (h : Heard N) (o : Option String) (j : Judgement N)
      → (o ≡ none → IsJudged h j)
      → IsJudged h (unless_withheld o j)
  unless_withheld-IsJudged h none j f = f refl
  unless_withheld-IsJudged h (some reason) j f = tt

  accept-IsJudged :
      (h : Heard N) (v : Verification N) (s : Split) (analysis : SttAnalysis N)
      → (is_spoken h analysis ≡ true → IsFree analysis)
      → IsPlausible h analysis
      → IsPassed h analysis
      → IsJudged h (accept abc lex sc cfg h v s analysis)
  unfolding accept
  accept-IsJudged h v s analysis free plausible passed =
      let md = metadata_of h v s analysis in
      let reason = final_stt_acceptance_rejection_reason analysis md in
      if_cases (IsJudged h) (not h.job.is_final || is_empty (strip analysis.raw_text))
        {x = told analysis} {y = unless_withheld reason (logged analysis md)} (λ e. tt)
        (λ e.
          let spoken : is_spoken h analysis ≡ true = ground (arith, e) in
          unless_withheld-IsJudged h reason (logged analysis md)
            (λ ok. (spoken, free spoken, plausible, passed, ok, (v, (s, refl)))))

  after_verification-IsJudged :
      (h : Heard N) (v : Verification N) (s : Split) (analysis : SttAnalysis N)
      → (is_spoken h analysis ≡ true → IsFree analysis)
      → IsPlausible h analysis
      → IsJudged h (after_verification abc lex sc cfg h s analysis v)
  unfolding after_verification
  after_verification-IsJudged h (suppressed _) s analysis free plausible = tt
  after_verification-IsJudged h skipped s analysis free plausible =
      unless_withheld-IsJudged h _ _ (accept-IsJudged h skipped s analysis free plausible)
  after_verification-IsJudged h unavailable s analysis free plausible =
      unless_withheld-IsJudged h _ _ (accept-IsJudged h unavailable s analysis free plausible)
  after_verification-IsJudged h (verified v) s analysis free plausible =
      unless_withheld-IsJudged h _ _ (accept-IsJudged h (verified v) s analysis free plausible)

  after_split-IsJudged :
      (h : Heard N) (s : Split) (analysis : SttAnalysis N)
      → (is_spoken h analysis ≡ true → IsFree analysis)
      → IsJudged h (after_split abc lex sc cfg h s analysis)
  unfolding after_split
  after_split-IsJudged h s analysis free =
      let v = verification_of abc lex sc cfg h s analysis in
      if_cases (IsJudged h)
        (is_probable_stt_hallucination abc sc analysis.raw_text h.job.is_final h.job.audio_stats
          (length h.job.pcm_bytes))
        {x = withheld "probable_hallucination"}
        {y = after_verification abc lex sc cfg h s analysis v} (λ e. tt)
        (after_verification-IsJudged h v s analysis free)

  -- The text that the rules go on with, of a split that has found some English.
  prepared-IsFree :
      (analysis : SttAnalysis N) (text : String)
      → contains_vietnamese_text abc lex text ≡ false
      → is_empty text ≡ false
      → IsFree (
          if not (is_empty text) && not (str_eq text analysis.raw_text)
          then record analysis { raw_text = text }
          else analysis)
  prepared-IsFree analysis text free filled =
      if_cases IsFree (not (is_empty text) && not (str_eq text analysis.raw_text))
        {x = record analysis { raw_text = text }} {y = analysis} (λ e. free)
        (λ e.
          let same : text ≡ analysis.raw_text =
            ground (arith, e, filled, eq_iff text analysis.raw_text) in
          subst (λ (t : String). contains_vietnamese_text abc lex t ≡ false) same free)

  prepared-IsJudged :
      (h : Heard N) (analysis : SttAnalysis N) (split : String × List String)
      → contains_vietnamese_text abc lex split.0 ≡ false
      → Tells split
      → IsJudged h (prepared abc lex sc cfg h analysis split)
  prepared-IsJudged h analysis (text, reasons) free tells =
      let is_new = not (is_empty text) && not (str_eq text analysis.raw_text) in
      let next : SttAnalysis N = if is_new then record analysis { raw_text = text } else analysis in
      let s : Split = record {
        original_text = analysis.raw_text;
        mixed_language_filtered = is_new;
        mixed_language_reasons = reasons;
      } in
      if_cases (IsJudged h) (is_in "mixed_non_english" reasons) {x = withheld "mixed_non_english"}
        {y = after_split abc lex sc cfg h s next} (λ e. tt)
        (λ e.
          after_split-IsJudged h s next
            (λ _. prepared-IsFree analysis text free (ground (arith, e, tells))))

  judge_sanitized-IsJudged :
      (h : Heard N) (analysis : SttAnalysis N)
      → IsJudged h (judge_sanitized abc lex sc cfg h analysis)
  unfolding judge_sanitized
  judge_sanitized-IsJudged h analysis =
      let split = split_mixed_language_transcript abc lex analysis.raw_text in
      if_cases (IsJudged h) (is_spoken h analysis) {x = prepared abc lex sc cfg h analysis split}
        {y = after_split abc lex sc cfg h (unsplit abc lex sc cfg analysis) analysis}
        (λ e.
          prepared-IsJudged h analysis split
            (split_mixed_language_transcript-IsFree abc lex analysis.raw_text)
            (split-Tells analysis.raw_text (strip_filled analysis.raw_text (ground (arith, e)))))
        (λ e. after_split-IsJudged h (unsplit abc lex sc cfg analysis) analysis (λ e'. cc (e, e')))

  -- Whatever the model hears: a turn that is logged has a text with no Vietnamese in it that is no
  -- hallucination and that no rule rejects, and its metadata is the assessment.
  pub judge-IsJudged :
      (h : Heard N) (analysis : SttAnalysis N) → IsJudged h (judge abc lex sc cfg h analysis)
  unfolding judge
  judge-IsJudged h analysis =
      judge_sanitized-IsJudged h
        (record analysis { raw_text = sanitize_transcript analysis.raw_text })
