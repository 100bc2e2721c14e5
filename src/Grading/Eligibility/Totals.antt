-- ===== src/Grading/Eligibility/Totals.antt =====
-- The loop of the evaluation against the counting functions of the same module.
use luve.Prelude.{
  ◌++◌, refl, ◌≤◌, ℕ, ◌+◌, ◌≡◌, ◌∙◌, ap, arith, List, [], ◌∷◌, if◌then◌else◌, not, ◌&&◌,
}
use luve.Python.Text.{word_count, is_empty}
use luve.Python.Json.{Value, Runtime}
use luve.Grading.Events.{
  decode_event, is_user_turn, is_reliable_student_event, get_event_grading_text,
}
use luve.Grading.Events.Decode.{reliable-is_user_turn}
use luve.Grading.Eligibility.{Tally, tally_event, tally, user_turns, reliable_words}

module _ {N : Type 0} (rt : Runtime N) where
  -- How many student turns are reliable.
  abbrev pub reliable_turns : List (Value N) → ℕ
  reliable_turns [] = 0
  reliable_turns (event ∷ events) =
      (if is_reliable_student_event rt (decode_event rt event) then 1 else 0)
      + reliable_turns events

  -- The words of one decoded event, if it is reliable.
  unfoldable pub event_words : Value N → ℕ
  event_words event =
      if is_reliable_student_event rt event && not (is_empty (get_event_grading_text rt event))
      then word_count (get_event_grading_text rt event)
      else 0

  -- The words of all reliable events, with no accumulator.
  unfoldable pub words_of : List (Value N) → ℕ
  words_of [] = 0
  words_of (event ∷ events) = event_words (decode_event rt event) + words_of events

  reliable_words-cons :
      (total : ℕ) (event : Value N) (events : List (Value N))
      → reliable_words rt total (event ∷ events)
        ≡ reliable_words rt (total + event_words (decode_event rt event)) events
  unfolding reliable_words event_words
  reliable_words-cons total event events = ap (λ n. reliable_words rt n events) (ground arith)

  pub reliable_words-eq :
      (total : ℕ) (events : List (Value N))
      → reliable_words rt total events ≡ total + words_of events
  unfolding reliable_words words_of
  reliable_words-eq total [] = omega arith
  reliable_words-eq total (event ∷ events) =
      reliable_words-cons total event events
      ∙ (reliable_words-eq (total + event_words (decode_event rt event)) events ∙ omega arith)

  -- One round of the evaluation's loop, as sums.
  tally_event-eq :
      (t : Tally) (event : Value N)
      → tally_event rt t event ≡ record {
        user_turn_count =
            t.user_turn_count + (if is_user_turn rt (decode_event rt event) then 1 else 0);
        reliable_student_word_count =
            t.reliable_student_word_count + event_words (decode_event rt event);
        reliable_user_turn_count =
            t.reliable_user_turn_count
            + (if is_reliable_student_event rt (decode_event rt event) then 1 else 0);
      }
  unfolding tally_event event_words
  tally_event-eq t event = ground (arith, reliable-is_user_turn rt event)

  -- The loop counts the user turns, the reliable turns and the reliable words.
  pub tally-eq :
      (t : Tally) (events : List (Value N))
      → tally rt t events ≡ record {
        user_turn_count = t.user_turn_count + user_turns rt events;
        reliable_student_word_count = t.reliable_student_word_count + words_of events;
        reliable_user_turn_count = t.reliable_user_turn_count + reliable_turns events;
      }
  unfolding tally user_turns words_of
  tally-eq t [] = ground arith
  tally-eq t (event ∷ events) =
      tally-eq (tally_event rt t event) events ∙ ground (arith, tally_event-eq t event)

  pub reliable-le-user : (events : List (Value N)) → reliable_turns events ≤ user_turns rt events
  unfolding user_turns
  reliable-le-user [] = omega arith
  reliable-le-user (event ∷ events) =
      ground (arith, reliable-is_user_turn rt event, reliable-le-user events)

  -- Without a reliable turn there are no words.
  pub no_turns_no_words :
      (events : List (Value N)) → reliable_turns events ≡ 0 → words_of events ≡ 0
  unfolding words_of event_words
  no_turns_no_words [] h = refl
  no_turns_no_words (event ∷ events) h = ground (arith, no_turns_no_words events)

  pub user_turns_zero : (events : List (Value N)) → user_turns rt events ≡ 0 → words_of events ≡ 0
  user_turns_zero events h = no_turns_no_words events (omega (arith, reliable-le-user events))

  pub totals-append :
      (xs ys : List (Value N))
      → (words_of (xs ++ ys) ≡ words_of xs + words_of ys)
        × (reliable_turns (xs ++ ys) ≡ reliable_turns xs + reliable_turns ys)
  unfolding words_of
  totals-append [] ys = (omega arith, omega arith)
  totals-append (x ∷ xs) ys = let (words, turns) = totals-append xs ys in (omega arith, omega arith)
