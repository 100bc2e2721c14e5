-- ===== src/Extension/Confidence/Final/Graded.antt =====
-- luve_extension.py with session_eligibility.py of the grading worker: which logged turns count.
use Prim.Native.String.{String}
use luve.Prelude.{
  ◌⊎◌, Bool, true, false, not, ◌&&◌, ◌||◌, ◌≡◌, refl, sym, ap, ◌∙◌, arith, none, List, [], ◌∷◌,
  if◌then◌else◌, if_both, inl, inr, subst,
}
use luve.Python.Text.{is_space, is_empty, is_in, strip, lstrip, rstrip}
use luve.Python.Json.{Value, null, bool, string, Fields, get, Runtime}
use luve.Grading.Events.{get_event_grading_text, is_reliable_student_event}
use luve.Recognition.Segments.{SttAnalysis, WordPoint}
use luve.Extension.Transcript.{Alphabet, Lexicon, any_word}
use luve.Extension.Confidence.{Scale, SttSettings, stt_confidence_summary}
use luve.Extension.Confidence.Short.{is_acoustically_plausible_incomplete_fragment}
use luve.Extension.Confidence.Second.{Verification, skipped, unavailable, suppressed, verified}
use luve.Extension.Confidence.Quality.{
  verification_reasons, is_other_language, assessed_reasons, stt_quality_assessment, has_reason,
  reason_items, final_stt_acceptance_rejection_reason,
}
use luve.Extension.Confidence.Payload.{
  Split, words_field, part_fields, is_part, is_weak, told_reasons,
}
use luve.Extension.Confidence.Final.{
  Judgement, withheld, told, logged, Heard, judge, user_turn_event,
}
use luve.Extension.Confidence.Final.Reasons.{assessed_reasons-any}
use luve.Extension.Confidence.Final.Judged.{IsJudged, judge-IsJudged, metadata_of}
use luve.Extension.Confidence.Final.Counted.{
  is_hard, is_mismatch, has_reason-any, is_hard-IsSoft, is_mismatch-IsSoft, grading_text-none,
  grading_text-same, reliable-flag,
}

-- `grading_eligible` of the metadata
abbrev pub is_flagged : {N : Type 0} → Value N → Bool
is_flagged (bool b) = b
is_flagged _ = false

module _ {N : Type 0} (abc : Alphabet) (lex : Lexicon) (sc : Scale N) (cfg : SttSettings N) where
  excluded-field :
      (part w : Bool) (original raw_text : String) (ws : List (WordPoint N))
      → get "excluded_from_grading_reason"
          (part_fields part (part && w) original raw_text (words_field sc cfg ws))
        ≡ (if part && w then string "weak_mixed_language_english" else null)
  unfolding get
  excluded-field false w original raw_text [] = refl
  excluded-field false w original raw_text (_ ∷ _) = refl
  excluded-field true true original raw_text ws = refl
  excluded-field true false original raw_text [] = refl
  excluded-field true false original raw_text (_ ∷ _) = refl

  english-field :
      (part w : Bool) (original raw_text : String) (ws : List (WordPoint N))
      → get "english_segment"
          (part_fields part (part && w) original raw_text (words_field sc cfg ws))
        ≡ (if part then string (if part && w then "" else raw_text) else null)
  unfolding get
  english-field false w original raw_text [] = refl
  english-field false w original raw_text (_ ∷ _) = refl
  english-field true w original raw_text ws = refl

-- A final that is accepted has no verification in another language.
accepted-none :
    {N : Type 0} (analysis : SttAnalysis N) (md : Fields N)
    → final_stt_acceptance_rejection_reason analysis md ≡ none
    → has_reason "verification_language_mismatch" (reason_items (get "uncertainty_reasons" md))
      ≡ false
unfolding final_stt_acceptance_rejection_reason
accepted-none analysis md h = ground (arith, h)

segment_cases :
    {N : Type 0} (part w : Bool) (raw_text : String) (segment : Value N)
    → segment ≡ (if part then string (if part && w then "" else raw_text) else null)
    → ((segment ≡ null) ⊎ (segment ≡ string "")) ⊎ (segment ≡ string raw_text)
segment_cases false w raw_text segment e = inl (inl e)
segment_cases true true raw_text segment e = inl (inr e)
segment_cases true false raw_text segment e = inr e

told_reasons-strong :
    (s : Split) (raw_text : String) (reasons : List String)
    → is_weak s raw_text ≡ false
    → told_reasons s raw_text reasons ≡ reasons
told_reasons-strong s raw_text reasons strong = rw strong refl

module _ {N : Type 0} (abc : Alphabet) (lex : Lexicon) (sc : Scale N) (cfg : SttSettings N)
    (h : Heard N) (v : Verification N) (s : Split) (analysis : SttAnalysis N) where
  abbrev metadata : Fields N
  metadata = metadata_of abc lex sc cfg h v s analysis

  abbrev reasons_first : List String
  reasons_first =
      assessed_reasons abc lex sc cfg analysis h.job.audio_stats v s.mixed_language_filtered

  abbrev is_eligible : Bool
  is_eligible = not (
      is_acoustically_plausible_incomplete_fragment abc lex sc cfg analysis h.job.audio_stats
        (stt_confidence_summary sc cfg analysis)
      || is_weak s analysis.raw_text)

  eligible-strong : is_eligible ≡ true → is_weak s analysis.raw_text ≡ false
  eligible-strong e = ground (arith, e)

  verification-hard :
      (w : Verification N)
      → any_word is_hard (verification_reasons abc lex sc cfg w)
        ≡ any_word is_mismatch (verification_reasons abc lex sc cfg w)
  unfolding any_word is_in strip lstrip rstrip is_space
  verification-hard skipped = refl
  verification-hard unavailable = refl
  verification-hard (suppressed _) = refl
  verification-hard (verified w) =
      if_both (λ (rs : List String). any_word is_hard rs ≡ any_word is_mismatch rs)
        (is_other_language abc lex sc cfg w.detected_language w.detected_language_probability)
        {x = "verification_language_mismatch" ∷ []} {y = []} refl refl

  hard-none :
      final_stt_acceptance_rejection_reason analysis metadata ≡ none
      → is_eligible ≡ true
      → any_word is_hard (told_reasons s analysis.raw_text reasons_first) ≡ false
  unfolding stt_quality_assessment get
  hard-none accepted e =
      let told = told_reasons-strong s analysis.raw_text reasons_first (eligible-strong e) in
      ap (any_word is_hard) told
      ∙ assessed_reasons-any abc lex sc cfg is_hard is_hard-IsSoft analysis h.job.audio_stats v
          s.mixed_language_filtered
      ∙ verification-hard v
      ∙ sym (
          assessed_reasons-any abc lex sc cfg is_mismatch is_mismatch-IsSoft analysis
            h.job.audio_stats v s.mixed_language_filtered)
      ∙ sym (ap (any_word is_mismatch) told)
      ∙ sym (has_reason-any N (told_reasons s analysis.raw_text reasons_first))
      ∙ accepted-none analysis metadata accepted

  excluded-none : is_eligible ≡ true → get "excluded_from_grading_reason" metadata ≡ null
  unfolding stt_quality_assessment get
  excluded-none e =
      excluded-field abc lex sc cfg (is_part s analysis.raw_text)
        (is_in "weak_mixed_language_english" s.mixed_language_reasons) s.original_text
        analysis.raw_text analysis.all_words
      ∙ ap (λ (b : Bool). if b then string "weak_mixed_language_english" else null)
          (eligible-strong e)

  counted_text :
      (rt : Runtime N) (timestamp : String)
      → get_event_grading_text rt (user_turn_event timestamp analysis metadata)
        ≡ strip analysis.raw_text
  unfolding stt_quality_assessment get
  counted_text rt timestamp =
      let part = is_part s analysis.raw_text in
      let w = is_in "weak_mixed_language_english" s.mixed_language_reasons in
      elim (segment_cases part w analysis.raw_text (get "english_segment" metadata) (
        english-field abc lex sc cfg part w s.original_text analysis.raw_text analysis.all_words)) [
          | inl nothing ↦ grading_text-none rt timestamp analysis metadata nothing
          | inr same ↦ grading_text-same rt timestamp analysis metadata same
        ]

  reliable_eligible :
      (rt : Runtime N) (timestamp : String)
      → is_empty (strip analysis.raw_text) ≡ false
      → final_stt_acceptance_rejection_reason analysis metadata ≡ none
      → is_reliable_student_event rt (user_turn_event timestamp analysis metadata) ≡ is_eligible
  unfolding stt_quality_assessment get
  reliable_eligible rt timestamp filled accepted =
      reliable-flag rt timestamp analysis metadata is_eligible s.mixed_language_filtered
        (told_reasons s analysis.raw_text reasons_first) (counted_text rt timestamp) filled refl
        refl refl excluded-none (hard-none accepted)

module _ {N : Type 0} (abc : Alphabet) (lex : Lexicon) (sc : Scale N) (cfg : SttSettings N)
    (rt : Runtime N) (timestamp : String) where
  -- The grading worker counts a turn exactly as its metadata says, and all its words.
  abbrev pub IsCounted : Judgement N → Type 0
  IsCounted (logged analysis md) =
      (is_reliable_student_event rt (user_turn_event timestamp analysis md)
        ≡ is_flagged (get "grading_eligible" md))
      × (get_event_grading_text rt (user_turn_event timestamp analysis md)
          ≡ strip analysis.raw_text)
  IsCounted _ = Unit

  judged-IsCounted : (h : Heard N) (j : Judgement N) → IsJudged abc lex sc cfg h j → IsCounted j
  unfolding stt_quality_assessment get
  judged-IsCounted h (withheld _) facts = tt
  judged-IsCounted h (told _) facts = tt
  judged-IsCounted h (logged analysis md) (spoken, _, _, _, accepted, (v, (s, same))) =
      let filled : is_empty (strip analysis.raw_text) ≡ false = ground (arith, spoken) in
      subst (λ (m : Fields N). IsCounted (logged analysis m)) (sym same)
        (
          reliable_eligible abc lex sc cfg h v s analysis rt timestamp filled (
              subst (λ (m : Fields N). final_stt_acceptance_rejection_reason analysis m ≡ none) same
                accepted),
          counted_text abc lex sc cfg h v s analysis rt timestamp,
        )

  -- Of the turns that the extension logs, the grading worker takes those for reliable whose metadata
  -- says that they may be graded, though it looks at the reasons, the language and the exclusion as
  -- well; and the text that it counts is the turn's.
  pub judge-IsCounted :
      (h : Heard N) (analysis : SttAnalysis N) → IsCounted (judge abc lex sc cfg h analysis)
  judge-IsCounted h analysis =
      judged-IsCounted h (judge abc lex sc cfg h analysis)
        (judge-IsJudged abc lex sc cfg h analysis)
