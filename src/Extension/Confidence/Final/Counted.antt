-- ===== src/Extension/Confidence/Final/Counted.antt =====
-- session_eligibility.py of the grading worker: how it reads a turn that the extension logs.
use Prim.Native.String.{String}
use text.Mathlib.Text.{◌==◌ as str_eq}
use luve.Prelude.{
  ◌⊎◌, Bool, true, false, ◌||◌, ◌≡◌, refl, ap, List, [], ◌∷◌, if◌then◌else◌, if_both, inl, inr,
}
use luve.Python.Text.{is_space, is_empty, is_in, strip, lstrip, rstrip, upper, lower, map_chars}
use luve.Python.Json.{null, bool, string, arr, Fields, get, to_list, Runtime}
use luve.Grading.Events.{
  get_event_kind, get_event_grading_text, get_event_text, get_event_payload, has_hard_reason,
  decode_event, is_reliable_student_event, is_user_turn, hard_exclude_stt_reasons,
}
use luve.Recognition.Segments.{SttAnalysis}
use luve.Extension.Transcript.{any_word}
use luve.Extension.Confidence.Quality.{has_reason}
use luve.Extension.Confidence.Payload.{items_of}
use luve.Extension.Confidence.Final.{user_turn_event}
use luve.Extension.Confidence.Final.Reasons.{IsSoft}

-- The hard reasons of the grading worker, for one reason.
abbrev pub is_hard : String → Bool
is_hard reason = is_in (strip reason) hard_exclude_stt_reasons

abbrev pub is_mismatch : String → Bool
is_mismatch reason = str_eq (strip reason) "verification_language_mismatch"

has_hard_reason-any :
    {N : Type 0} (rt : Runtime N) (reasons : List String)
    → has_hard_reason rt (to_list (items_of reasons)) ≡ any_word is_hard reasons
unfolding has_hard_reason items_of any_word
has_hard_reason-any rt [] = refl
has_hard_reason-any rt (r ∷ reasons) =
    ap (λ (b : Bool). is_hard r || b) (has_hard_reason-any rt reasons)

pub has_reason-any :
    (N : Type 0) (reasons : List String)
    → has_reason {N = N} "verification_language_mismatch" (to_list (items_of reasons))
      ≡ any_word is_mismatch reasons
unfolding items_of any_word
has_reason-any N [] = refl
has_reason-any N (r ∷ reasons) = ap (λ (b : Bool). is_mismatch r || b) (has_reason-any N reasons)

pub is_hard-IsSoft : IsSoft is_hard
unfolding is_in strip lstrip rstrip is_space
is_hard-IsSoft = (refl, refl, refl, refl, refl, refl, refl, refl)

pub is_mismatch-IsSoft : IsSoft is_mismatch
unfolding strip lstrip rstrip is_space
is_mismatch-IsSoft = (refl, refl, refl, refl, refl, refl, refl, refl)

module _ {N : Type 0} (rt : Runtime N) (timestamp : String) (analysis : SttAnalysis N)
    (md : Fields N) where
  is_user_turn-event : is_user_turn rt (user_turn_event timestamp analysis md) ≡ true
  unfolding user_turn_event get_event_kind get upper map_chars strip lstrip rstrip is_space
  is_user_turn-event = refl

  -- A segment that is not there or empty leaves the text.
  pub grading_text-none :
      (get "english_segment" md ≡ null) ⊎ (get "english_segment" md ≡ string "")
      → get_event_grading_text rt (user_turn_event timestamp analysis md) ≡ strip analysis.raw_text
  unfolding user_turn_event get_event_grading_text get_event_text get strip lstrip rstrip
  grading_text-none (inl e) = rw e refl
  grading_text-none (inr e) = rw e refl

  pub grading_text-same :
      get "english_segment" md ≡ string analysis.raw_text
      → get_event_grading_text rt (user_turn_event timestamp analysis md) ≡ strip analysis.raw_text
  unfolding user_turn_event get_event_grading_text get_event_text get
  grading_text-same e = rw e (
      if_both (λ (t : String). t ≡ strip analysis.raw_text) (is_empty (strip analysis.raw_text))
        {x = strip analysis.raw_text} {y = strip analysis.raw_text} refl refl)

  pub reliable-flag :
      (b mixed : Bool) (reasons : List String)
      → get_event_grading_text rt (user_turn_event timestamp analysis md) ≡ strip analysis.raw_text
      → is_empty (strip analysis.raw_text) ≡ false
      → get "grading_eligible" md ≡ bool b
      → get "turn_language_type" md ≡ string (if mixed then "mixed" else "english")
      → get "uncertainty_reasons" md ≡ arr (items_of reasons)
      → (b ≡ true → get "excluded_from_grading_reason" md ≡ null)
      → (b ≡ true → any_word is_hard reasons ≡ false)
      → is_reliable_student_event rt (user_turn_event timestamp analysis md) ≡ b
  unfolding is_reliable_student_event decode_event user_turn_event get_event_payload get
      get_event_kind upper map_chars strip lstrip rstrip is_space is_in lower
  reliable-flag false mixed reasons text filled flag lang listed excl hard =
      rw (text, filled, flag) refl
  reliable-flag true true reasons text filled flag lang listed excl hard =
      rw (text, filled, flag, excl refl, lang, listed, has_hard_reason-any rt reasons, hard refl)
        refl
  reliable-flag true false reasons text filled flag lang listed excl hard =
      rw (text, filled, flag, excl refl, lang, listed, has_hard_reason-any rt reasons, hard refl)
        refl
