-- ===== src/Grading/Eligibility/Decides.antt =====
-- What the evaluation decides, on every log.
use mathlib.Core.Option
use luve.Prelude.{
  ℕ, ◌≤◌, ◌<◌, ◌≡◌, refl, ◌∙◌, ap, true, arith, inl, inr, none, some, List, ◌↔◌, ◌++◌, Option-cases,
}
use luve.Python.Json.{Value, null, Runtime}
use luve.Grading.Events.{parse_raw_backup_events}
use luve.Grading.Eligibility.{
  Tally, no_events, tally, verdict, unread, Reason, no_raw_backup, invalid_raw_backup, user_turns,
  reliable_words, count_user_turns, count_reliable_student_words, evaluate_grading_eligibility,
}
use luve.Grading.Eligibility.Totals.{
  reliable_turns, words_of, reliable-le-user, user_turns_zero, totals-append, reliable_words-eq,
  tally-eq,
}

module _ {N : Type 0} (rt : Runtime N) where
  counted : List (Value N) → Tally
  counted events = record {
    user_turn_count = user_turns rt events;
    reliable_student_word_count = words_of rt events;
    reliable_user_turn_count = reliable_turns rt events;
  }

  tally-counted : (events : List (Value N)) → tally rt no_events events ≡ counted events
  unfolding counted
  tally-counted events = tally-eq rt no_events events ∙ ground arith

  pub evaluate-tally :
      (raw : Value N) (m : ℕ) (events : List (Value N))
      → parse_raw_backup_events rt raw ≡ some events
      → evaluate_grading_eligibility rt raw m ≡ verdict m (tally rt no_events events)
  unfolding evaluate_grading_eligibility parse_raw_backup_events
  evaluate-tally null m events h = cc
  evaluate-tally raw m events h = ground arith

  evaluate_read :
      (raw : Value N) (m : ℕ) (events : List (Value N))
      → parse_raw_backup_events rt raw ≡ some events
      → evaluate_grading_eligibility rt raw m ≡ verdict m (counted events)
  evaluate_read raw m events h =
      evaluate-tally raw m events h ∙ ap (verdict m) (tally-counted events)

  evaluate_unread :
      (raw : Value N) (m : ℕ)
      → parse_raw_backup_events rt raw ≡ none
      → (r : Reason) × (evaluate_grading_eligibility rt raw m ≡ unread r)
  unfolding evaluate_grading_eligibility parse_raw_backup_events
  evaluate_unread null m h = (no_raw_backup, refl)
  evaluate_unread raw m h = (invalid_raw_backup, ground arith)

  -- What the verdict says of counts that belong to a log.
  verdict-is_eligible_iff :
      (m : ℕ) (events : List (Value N))
      → ((verdict m (counted events)).is_eligible ≡ true)
        ↔ ((0 < reliable_turns rt events) × (m ≤ words_of rt events))
  unfolding verdict counted
  verdict-is_eligible_iff m events = ground (arith, reliable-le-user rt events)

  -- A session is eligible exactly when its log can be read, some student turn in it is reliable, and
  -- the reliable turns have at least the minimum of words.
  pub evaluate-is_eligible_iff :
      (raw : Value N) (m : ℕ)
      → ((evaluate_grading_eligibility rt raw m).is_eligible ≡ true) ↔ (
          (events : List (Value N)) × (parse_raw_backup_events rt raw ≡ some events)
          × (0 < reliable_turns rt events)
          × (m ≤ reliable_words rt 0 events))
  evaluate-is_eligible_iff raw m = elim (Option-cases (parse_raw_backup_events rt raw)) [
    | inl e ↦ (λ h. let (r, u) = evaluate_unread raw m e in cc, λ (es, p, _, _). cc)
    | inr (events, e) ↦
        let read = evaluate_read raw m events e in
        let (there, back) = verdict-is_eligible_iff m events in
        let words = reliable_words-eq rt 0 events in
        (
          λ h. let (turn, enough) = there (rw read at h) in (events, e, turn, omega arith),
          λ (es, p, turn, enough).
              let words' = reliable_words-eq rt 0 es in
              rw (evaluate_read raw m es p) ((verdict-is_eligible_iff m es).1 (turn, omega arith)),
        )
  ]

  verdict-counts :
      (m : ℕ) (events : List (Value N))
      → let v = verdict m (counted events) in
        (v.user_turn_count ≡ user_turns rt events)
        × (v.student_word_count ≡ some (words_of rt events))
        × (v.reliable_student_word_count ≡ some (words_of rt events))
  unfolding verdict counted
  verdict-counts m events = ground (arith, user_turns_zero rt events)

  -- Whatever it decides, the evaluation reports the counts of the functions that count alone: the user
  -- turns, 0 if the log cannot be read, and the reliable words in both word counts.
  pub evaluate-counts :
      (raw : Value N) (m : ℕ)
      → let r = evaluate_grading_eligibility rt raw m in
        (r.user_turn_count ≡ Option.get_or (count_user_turns rt raw) 0)
        × (r.student_word_count ≡ count_reliable_student_words rt raw)
        × (r.reliable_student_word_count ≡ count_reliable_student_words rt raw)
  unfolding count_user_turns count_reliable_student_words
  evaluate-counts raw m = elim (Option-cases (parse_raw_backup_events rt raw)) [
    | inl e ↦ let (r, u) = evaluate_unread raw m e in ground arith
    | inr (events, e) ↦ ground (
      arith,
      evaluate_read raw m events e,
      verdict-counts m events,
      reliable_words-eq rt 0 events,
    )
  ]

  -- A session that is eligible stays so when its log grows and when the minimum falls.
  pub evaluate-append :
      (raw raw' : Value N) (m m' : ℕ) (xs ys : List (Value N))
      → parse_raw_backup_events rt raw ≡ some xs
      → parse_raw_backup_events rt raw' ≡ some (xs ++ ys)
      → m' ≤ m
      → (evaluate_grading_eligibility rt raw m).is_eligible ≡ true
      → (evaluate_grading_eligibility rt raw' m').is_eligible ≡ true
  evaluate-append raw raw' m m' xs ys p p' le h =
      let (turn, enough) = (verdict-is_eligible_iff m xs).0 (rw (evaluate_read raw m xs p) at h) in
      let (words, turns) = totals-append rt xs ys in
      rw (evaluate_read raw' m' (xs ++ ys) p')
        ((verdict-is_eligible_iff m' (xs ++ ys)).1 (omega arith, omega arith))
