-- ===== src/Service/Canonical.antt =====
-- services/session_service.py against session_eligibility.py: the words that both count.
use Prim.Native.String.{String}
use luve.Prelude.{
  Bool, ltb, ◌⊎◌, ℕ, ◌≤◌, ◌≡◌, refl, ap, ◌∙◌, arith, subst, true, false, none, some, List, [], ◌∷◌,
  Bool-cases, inl, inr,
}
use luve.Python.Json.{
  num, Loaded, bool, Value, null, string, arr, obj, Fields, loaded, decode_error, value_error,
  Runtime,
}
use luve.Grading.Events.{
  decode_event, get_event_kind, get_event_payload, is_reliable_student_event,
  parse_raw_backup_events,
}
use luve.Grading.Eligibility.{evaluate_grading_eligibility, reliable_words}
use luve.Grading.Eligibility.Decides.{evaluate-is_eligible_iff}
use luve.Grading.Eligibility.Totals.{reliable_words-eq}
use luve.Grading.Eligibility.Totals.{event_words, words_of}
use luve.Service.Words.{
  parse_events, event_fields, turn_words, total_words, compute_student_word_count,
  session_has_student_content,
}
use luve.Service.Forms.{IsWritten, IsCanonical, same_kind, same_words}

module _ {N : Type 0} (rt : Runtime N) where
  -- A reliable turn has the same words for both.
  reliable-words :
      (m : Fields N)
      → IsWritten rt m
      → is_reliable_student_event rt (obj m) ≡ true
      → turn_words rt m ≡ event_words rt (obj m)
  unfolding turn_words event_words is_reliable_student_event decode_event get_event_payload
  reliable-words m w h = ground (arith, same_kind rt m w, same_words rt m w)

  -- A text is decoded to a mapping, or left a text.
  text-cases :
      (s : String) (l : Loaded N)
      → rt.loads s ≡ l
      → ((m : Fields N) × (rt.loads s ≡ loaded (obj m))) ⊎ (decode_event rt (string s) ≡ string s)
  unfolding decode_event
  text-cases s (loaded (obj m)) e = inl (m, e)
  text-cases s (loaded null) e = inr (ground (arith, e))
  text-cases s (loaded (bool b)) e = inr (ground (arith, e))
  text-cases s (loaded (num n)) e = inr (ground (arith, e))
  text-cases s (loaded (string t)) e = inr (ground (arith, e))
  text-cases s (loaded (arr vs)) e = inr (ground (arith, e))
  text-cases s decode_error e = inr (ground (arith, e))
  text-cases s value_error e = inr (ground (arith, e))

  text-words : (s : String) → decode_event rt (string s) ≡ string s → event_words rt (string s) ≡ 0
  unfolding event_words is_reliable_student_event get_event_kind
  text-words s e = rw e refl

  loaded-decode :
      (s : String) (m : Fields N)
      → rt.loads s ≡ loaded (obj m)
      → (decode_event rt (string s) ≡ obj m) × (event_fields rt (string s) ≡ some m)
  unfolding decode_event event_fields
  loaded-decode s m e = (ground (arith, e), ground (arith, e))

  -- The mapping that the one reads is the one that the other reads, or there is none.
  abbrev Reads : Value N → Type 0
  Reads e =
      ((m : Fields N) × ((decode_event rt e ≡ obj m) × (event_fields rt e ≡ some m)))
      ⊎ (event_words rt (decode_event rt e) ≡ 0)

  text-Reads : (s : String) → Reads (string s)
  text-Reads s = elim (text-cases s (rt.loads s) refl) [
    | inl (m, e) ↦ inl (m, loaded-decode s m e)
    | inr plain ↦ inr (ap (event_words rt) plain ∙ text-words s plain)
  ]

  reads : (e : Value N) → Reads e
  unfolding decode_event event_fields event_words is_reliable_student_event get_event_kind
  reads (obj m) = inl (m, (refl, refl))
  reads (string s) = text-Reads s
  reads null = inr refl
  reads (bool b) = inr refl
  reads (num n) = inr refl
  reads (arr vs) = inr refl

  excluded-words : (e : Value N) → is_reliable_student_event rt e ≡ false → event_words rt e ≡ 0
  unfolding event_words
  excluded-words e h = rw h refl

  -- An event that is not reliable has no words for the eligibility check.
  mapping-words-le : (m : Fields N) → IsWritten rt m → event_words rt (obj m) ≤ turn_words rt m
  mapping-words-le m w = elim (Bool-cases (is_reliable_student_event rt (obj m))) [
    | inl reliable ↦ omega (arith, reliable-words m w reliable)
    | inr excluded ↦ omega (arith, excluded-words (obj m) excluded)
  ]

  event-words-le :
      (e : Value N)
      → ((m : Fields N) → event_fields rt e ≡ some m → IsWritten rt m)
      → event_words rt (decode_event rt e)
        ≤ (elim (event_fields rt e) [ none ↦ 0 | some m ↦ turn_words rt m ])
  event-words-le e w = elim (reads e) [
    | inl (m, (decoded, found)) ↦ rw decoded (rw found (mapping-words-le m (w m found)))
    | inr silent ↦ omega (arith, silent)
  ]

  words-le :
      (events : List (Value N)) → IsCanonical rt events → words_of rt events ≤ total_words rt events
  unfolding words_of total_words
  words-le [] h = omega arith
  words-le (e ∷ events) h = omega (arith, event-words-le e h.0, words-le events h.1)

  parsed :
      (raw : Value N) (events : List (Value N))
      → parse_raw_backup_events rt raw ≡ some events
      → compute_student_word_count rt raw ≡ some (total_words rt events)
  unfolding parse_raw_backup_events compute_student_word_count parse_events
  parsed null events h = cc
  parsed (arr vs) events h = ground (arith, h)
  parsed (string s) events h = ground (arith, h)
  parsed raw events h = ground (arith, h)

  content_shown :
      (raw : Value N) (n : ℕ)
      → compute_student_word_count rt raw ≡ some n
      → session_has_student_content rt raw ≡ ltb 0 n
  unfolding session_has_student_content
  content_shown raw n h =
      ap (λ o. elim o as (λ _. Bool) [ none ↦ false | some words ↦ ltb 0 words ]) h

  -- For a log in the form that core-api writes, the words of the grading status are at least the
  -- reliable words of the eligibility check. So a session that is eligible under a minimum is not below
  -- that minimum for the status. The history shows a session exactly when that number is not 0.
  pub eligible-has_content :
      (raw : Value N) (m : ℕ) (events : List (Value N))
      → parse_raw_backup_events rt raw ≡ some events
      → IsCanonical rt events
      → (evaluate_grading_eligibility rt raw m).is_eligible ≡ true
      → (n : ℕ) × (compute_student_word_count rt raw ≡ some n)
        × (m ≤ n)
        × (session_has_student_content rt raw ≡ ltb 0 n)
  eligible-has_content raw m events p canonical eligible =
      let (es, p', turn, enough) = (evaluate-is_eligible_iff rt raw m).0 eligible in
      let count = parsed raw events p in
      let same : es ≡ events = cc (p, p') in
      let le = words-le events canonical in
      let total = reliable_words-eq rt 0 events in
      let enough' : m ≤ reliable_words rt 0 events =
        subst (λ x. m ≤ reliable_words rt 0 x) same enough in
      (total_words rt events, count, omega arith, content_shown raw (total_words rt events) count)
