-- ===== src/Extension/Lifecycle/Completes.antt =====
-- The completion of a session and its event in the outbox.
use Prim.Native.String.{String}
use text.Mathlib.Text.{◌==◌ as str_eq}
use text.Mathlib.TextEquality.{eq_iff}
use text.Mathlib.TextPositions.{eq_refl}
use luve.Prelude.{
  not, ℕ, ◌+◌, ◌≤◌, ◌≡◌, refl, arith, ◌||◌, Bool, true, false, Option, none, some, List, [], ◌∷◌,
  ◌++◌, if◌then◌else◌, if_cases, if_both, ◌∙◌, Bool-cases, inl, inr,
}
use luve.Python.Text.{is_empty}
use luve.Python.Json.{Value}
use luve.Sessions.{StoredSession}
use luve.Extension.Lifecycle.{
  persist_for, SessionEvent, CoreDb, Transaction, commits, rolls_back, commits_unseen, Live,
  is_event, has_event, enqueue_session_event, insert_event, is_there, after_statements,
  completed_event, complete_session, statements, transact, persist_event_log,
}

-- The rows of an event.
abbrev pub row_count : String → String → List SessionEvent → ℕ
row_count sid event_type [] = 0
row_count sid event_type (event ∷ events) =
    (if is_event sid event_type event then 1 else 0) + row_count sid event_type events

-- No event of a session has two rows.
abbrev pub IsUnique : List SessionEvent → Type 0
IsUnique events = (sid event_type : String) → row_count sid event_type events ≤ 1

abbrev pub is_completed : {N : Type 0} → Option (StoredSession N) → Bool
is_completed none = false
is_completed (some s) = elim s.status [ none ↦ false | some t ↦ str_eq t "completed" ]

-- A session that is completed has its event in the outbox.
abbrev pub IsAnnounced : {N : Type 0} → CoreDb N → Type 0
IsAnnounced db =
    (sid : String)
    → (not (is_completed (db.sessions sid)) || has_event sid "session.completed" db.outbox) ≡ true

row_count-append :
    (sid ty : String) (xs : List SessionEvent) (event : SessionEvent)
    → row_count sid ty (xs ++ event ∷ [])
      ≡ row_count sid ty xs + (if is_event sid ty event then 1 else 0)
row_count-append sid ty [] event = omega arith
row_count-append sid ty (x ∷ xs) event = omega (arith, row_count-append sid ty xs event)

row_count-absent :
    (sid ty : String) (xs : List SessionEvent)
    → has_event sid ty xs ≡ false
    → row_count sid ty xs ≡ 0
row_count-absent sid ty [] h = refl
row_count-absent sid ty (x ∷ xs) h = ground (arith, h, row_count-absent sid ty xs)

has_event-append :
    (sid ty : String) (xs : List SessionEvent) (event : SessionEvent)
    → has_event sid ty (xs ++ event ∷ []) ≡ has_event sid ty xs || is_event sid ty event
has_event-append sid ty [] event = ground arith
has_event-append sid ty (x ∷ xs) event = ground (arith, has_event-append sid ty xs event)

is_event_self : (event : SessionEvent) → is_event event.session_id event.event_type event ≡ true
is_event_self event = rw (eq_refl event.session_id) (eq_refl event.event_type)

-- An event that is not of another's session and kind is the same event.
is_event-same :
    (sid ty : String) (event : SessionEvent)
    → is_event sid ty event ≡ true
    → (event.session_id ≡ sid) × (event.event_type ≡ ty)
is_event-same sid ty event h =
    let both : (str_eq event.session_id sid ≡ true) × (str_eq event.event_type ty ≡ true) =
      ground (arith, h) in
    ((eq_iff event.session_id sid).0 both.0, (eq_iff event.event_type ty).0 both.1)

pub insert-has :
    (event : SessionEvent) (events : List SessionEvent)
    → has_event event.session_id event.event_type (insert_event event events) ≡ true
unfolding insert_event
insert-has event events =
    if_cases (λ x. has_event event.session_id event.event_type x ≡ true)
      (has_event event.session_id event.event_type events) (λ there. there)
      (λ _.
        has_event-append event.session_id event.event_type events event
        ∙ ground (arith, is_event_self event))

insert-keeps :
    (sid ty : String) (event : SessionEvent) (events : List SessionEvent)
    → has_event sid ty events ≡ true
    → has_event sid ty (insert_event event events) ≡ true
unfolding insert_event
insert-keeps sid ty event events h =
    if_both (λ x. has_event sid ty x ≡ true) (has_event event.session_id event.event_type events) h
      (has_event-append sid ty events event ∙ ground (arith, h))

insert-IsUnique :
    (event : SessionEvent) (events : List SessionEvent)
    → IsUnique events
    → IsUnique (insert_event event events)
unfolding insert_event
insert-IsUnique event events unique sid ty =
    if_cases (λ x. row_count sid ty x ≤ 1) (has_event event.session_id event.event_type events)
      (λ _. unique sid ty)
      λ absent. elim (Bool-cases (is_event sid ty event)) [
        | inl same ↦
            let (same_session, same_type) = is_event-same sid ty event same in
            let none_there : row_count sid ty events ≡ 0 =
              row_count-absent sid ty events (rw⁻¹ same_session (rw⁻¹ same_type absent)) in
            ground (arith, row_count-append sid ty events event, none_there, same)
        | inr other ↦ ground (arith, row_count-append sid ty events event, unique sid ty, other)
      ]

module _ {N : Type 0} where
  -- Every completed session has its event, and no event of a session has two rows.
  abbrev IsSound : CoreDb N → Type 0
  IsSound db = IsAnnounced db × IsUnique db.outbox

  abbrev IsSoundIf : Option (CoreDb N) → Type 0
  IsSoundIf none = Unit
  IsSoundIf (some db) = IsSound db

  inserted-IsAnnounced :
      (sid : String) (log : List (Value N)) (created_at : String) (db : CoreDb N)
      → IsAnnounced db
      → IsAnnounced (record (complete_session sid log db) {
        outbox = insert_event (completed_event sid created_at) db.outbox;
      })
  unfolding complete_session
  inserted-IsAnnounced sid log created_at db announced id =
      let event = completed_event sid created_at in
      let kept = insert-keeps id "session.completed" event db.outbox in
      elim (Bool-cases (str_eq id sid)) [
        | inl same ↦
            let has : has_event id "session.completed" (insert_event event db.outbox) ≡ true =
              rw ((eq_iff id sid).0 same) (insert-has event db.outbox) in
            ground (arith, has)
        | inr other ↦ ground (arith, other, announced id, kept)
      ]

  statements-IsSoundIf :
      (sid : String) (log : List (Value N)) (created_at : String) (db : CoreDb N)
      → IsSound db
      → IsSoundIf (statements sid log created_at db)
  unfolding statements enqueue_session_event complete_session
  statements-IsSoundIf sid log created_at db (announced, unique) =
      let event = completed_event sid created_at in
      let completed = complete_session sid log db in
      if_both IsSoundIf
        (has_event sid "session.completed" db.outbox || is_there (completed.sessions sid))
        {x = some (record completed { outbox = insert_event event db.outbox })} {y = none}
        (
          inserted-IsAnnounced sid log created_at db announced,
          insert-IsUnique event db.outbox unique,
        )
        tt

  after_statements-IsSound :
      (seen : Bool) (sid : String) (live : Live N) (db : CoreDb N) (o : Option (CoreDb N))
      → IsSound db
      → IsSoundIf o
      → IsSound (after_statements seen sid live db o).1
  after_statements-IsSound seen sid live db none sound h = sound
  after_statements-IsSound true sid live db (some db') sound h = h
  after_statements-IsSound false sid live db (some db') sound h = h

  transact_sound :
      (tx : Transaction) (sid created_at : String) (live : Live N) (db : CoreDb N)
      → IsAnnounced db × IsUnique db.outbox
      → let db' = (transact tx sid created_at live db).1 in IsAnnounced db' × IsUnique db'.outbox
  unfolding transact
  transact_sound commits sid created_at live db sound =
      after_statements-IsSound true sid live db (statements sid live.event_log created_at db) sound
        (statements-IsSoundIf sid live.event_log created_at db sound)
  transact_sound rolls_back sid created_at live db sound = sound
  transact_sound commits_unseen sid created_at live db sound =
      after_statements-IsSound false sid live db (statements sid live.event_log created_at db) sound
        (statements-IsSoundIf sid live.event_log created_at db sound)

  persist_for_sound :
      (o : Option String) (tx : Transaction) (created_at : String) (live : Live N) (db : CoreDb N)
      → IsAnnounced db × IsUnique db.outbox
      → let db' = (persist_for o tx created_at live db).1 in IsAnnounced db' × IsUnique db'.outbox
  unfolding persist_for
  persist_for_sound none tx created_at live db sound = sound
  persist_for_sound (some sid) tx created_at live db sound =
      if_both (λ (r : Live N × CoreDb N). IsAnnounced r.1 × IsUnique r.1.outbox) (is_empty sid)
        sound (transact_sound tx sid created_at live db sound)

  -- However the transaction that completes a session ends, every completed session still has its event
  -- in the outbox, and no event of a session has two rows there.
  pub persist_event_log_sound :
      (tx : Transaction) (created_at : String) (live : Live N) (db : CoreDb N)
      → IsAnnounced db × IsUnique db.outbox
      → let db' = (persist_event_log tx created_at live db).1 in
        IsAnnounced db' × IsUnique db'.outbox
  persist_event_log_sound tx created_at live db sound =
      persist_for_sound live.voice.session_id tx created_at live db sound
