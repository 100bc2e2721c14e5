-- ===== src/Extension/Lifecycle/Ends.antt =====
-- What the end of a session does, and what it leaves.
use Prim.Native.String.{String}
use text.Mathlib.TextPositions.{eq_refl}
use luve.Prelude.{
  ◌||◌, inr, inl, Bool-cases, arith, subst, if_both, ◌≡◌, refl, Bool, true, false, Option, none,
  some, List, [], ◌∷◌, ◌++◌, ap, sym, ◌∙◌,
}
use luve.Python.Text.{is_empty}
use luve.Python.Json.{Value}
use luve.Sessions.{StoredSession}
use luve.Extension.Voice.{
  reset_current_utterance, Message, Voice, VoiceSettings, finalize_utterance, enqueue,
  stop_tts_pipeline, emit_json, session_ended,
}
use luve.Extension.Voice.Frames.{Signal}
use luve.Extension.Lifecycle.{
  persist_event_log, completed_event, CoreDb, Transaction, commits, rolls_back, commits_unseen,
  Waited, Live, differs_from, has_event, SessionEvent, insert_event, is_there,
  enqueue_session_event, after_statements, complete_row, complete_session, statements, transact,
  persist_for, reset_session_runtime_state, settle_tasks, end_session, end_for, handle_session_end,
}
use luve.Extension.Lifecycle.Completes.{insert-has}

insert-kept :
    (event : SessionEvent) (events : List SessionEvent)
    → has_event event.session_id event.event_type events ≡ true
    → insert_event event events ≡ events
unfolding insert_event
insert-kept event events there = rw there refl

module _ {N : Type 0} where
  -- A session that is there has its log and is completed, and its event is in the outbox; one that is
  -- not there is still missing, and the outbox is as it was.
  abbrev pub IsSavedFor :
      Option (StoredSession N) → String → List (Value N) → CoreDb N → CoreDb N → Type 0
  IsSavedFor none sid log db db' = (db'.sessions sid ≡ none) × (db'.outbox ≡ db.outbox)
  IsSavedFor (some s) sid log db db' =
      (db'.sessions sid ≡ complete_row log (some s))
      × (has_event sid "session.completed" db'.outbox ≡ true)

  abbrev pub IsSaved : String → List (Value N) → CoreDb N → CoreDb N → Type 0
  IsSaved sid log db db' = IsSavedFor (db.sessions sid) sid log db db'

  -- What the transaction has done.
  abbrev pub Stored : Transaction → String → List (Value N) → CoreDb N → CoreDb N → Type 0
  Stored rolls_back sid log db db' = db' ≡ db
  Stored _ sid log db db' = IsSaved sid log db db'

  -- The extension has no session, no log and no utterance; the client is told last that the session
  -- has ended, and the dialogue history is the given one.
  abbrev pub IsOver : String → List (Value N) → Live N → Type 0
  IsOver sid dialogue live' =
      (live'.voice.session_id ≡ none)
      × (live'.event_log ≡ [])
      × (live'.voice.utterance_pcm ≡ [])
      × ((before : List (Message N)) × (live'.voice.sent ≡ before ++ session_ended sid ∷ []))
      × (live'.dialogue_history ≡ dialogue)

  completed-at :
      (sid : String) (log : List (Value N)) (db : CoreDb N)
      → (complete_session sid log db).sessions sid ≡ complete_row log (db.sessions sid)
  unfolding complete_session
  completed-at sid log db = rw (eq_refl sid) refl

  refused :
      (seen : Bool) (sid : String) (log : List (Value N)) (created_at : String) (live : Live N)
      (db : CoreDb N)
      → db.sessions sid ≡ none
      → has_event sid "session.completed" db.outbox ≡ false
      → after_statements seen sid live db (statements sid log created_at db) ≡ (live, db)
  unfolding statements enqueue_session_event complete_session
  refused seen sid log created_at live db missing fresh = rw (fresh, eq_refl sid, missing) refl

  accepted-db :
      (seen : Bool) (sid : String) (live : Live N) (db db' : CoreDb N)
      → (after_statements seen sid live db (some db')).1 ≡ db'
  accepted-db true sid live db db' = refl
  accepted-db false sid live db db' = refl

  -- The database that the statements leave when they are not refused.
  abbrev stored : String → List (Value N) → String → CoreDb N → CoreDb N
  stored sid log created_at db = record (complete_session sid log db) {
    outbox = insert_event (completed_event sid created_at) db.outbox;
  }

  accepted :
      (seen : Bool) (sid : String) (log : List (Value N)) (created_at : String) (live : Live N)
      (db : CoreDb N)
      → (has_event sid "session.completed" db.outbox
          || is_there ((complete_session sid log db).sessions sid))
        ≡ true
      → (after_statements seen sid live db (statements sid log created_at db)).1
        ≡ stored sid log created_at db
  unfolding statements enqueue_session_event complete_session
  accepted seen sid log created_at live db allowed =
      rw allowed (accepted-db seen sid live db (stored sid log created_at db))

  saved-for :
      (o : Option (StoredSession N)) (seen : Bool) (sid : String) (log : List (Value N))
      (created_at : String) (live : Live N) (db : CoreDb N)
      → db.sessions sid ≡ o
      → IsSavedFor o sid log db
          (after_statements seen sid live db (statements sid log created_at db)).1
  saved-for (some s) seen sid log created_at live db found =
      let at = completed-at sid log db ∙ ap (complete_row log) found in
      let there : is_there ((complete_session sid log db).sessions sid) ≡ true = ap is_there at in
      let same = accepted seen sid log created_at live db (ground (arith, there)) in
      subst (IsSavedFor (some s) sid log db) (sym same)
        (at, insert-has (completed_event sid created_at) db.outbox)
  saved-for none seen sid log created_at live db missing =
      elim (Bool-cases (has_event sid "session.completed" db.outbox)) [
        | inl there ↦
            let same = accepted seen sid log created_at live db (ground (arith, there)) in
            subst (IsSavedFor none sid log db) (sym same) (
              completed-at sid log db ∙ ap (complete_row log) missing,
              insert-kept (completed_event sid created_at) db.outbox there,
            )
        | inr fresh ↦
            subst (λ r. IsSavedFor none sid log db r.1)
              (sym (refused seen sid log created_at live db missing fresh)) (missing, refl)
      ]

  transact-Stored :
      (tx : Transaction) (sid created_at : String) (live : Live N) (db : CoreDb N)
      → Stored tx sid live.event_log db (transact tx sid created_at live db).1
  unfolding transact
  transact-Stored commits sid created_at live db =
      saved-for (db.sessions sid) true sid live.event_log created_at live db refl
  transact-Stored rolls_back sid created_at live db = refl
  transact-Stored commits_unseen sid created_at live db =
      saved-for (db.sessions sid) false sid live.event_log created_at live db refl

  after_statements-live :
      (seen : Bool) (sid : String) (live : Live N) (db : CoreDb N) (o : Option (CoreDb N))
      → (after_statements seen sid live db o).0.dialogue_history ≡ live.dialogue_history
  after_statements-live seen sid live db none = refl
  after_statements-live true sid live db (some db') = refl
  after_statements-live false sid live db (some db') = refl

  transact-live :
      (tx : Transaction) (sid created_at : String) (live : Live N) (db : CoreDb N)
      → (transact tx sid created_at live db).0.dialogue_history ≡ live.dialogue_history
  unfolding transact
  transact-live commits sid created_at live db = after_statements-live true sid live db _
  transact-live rolls_back sid created_at live db = refl
  transact-live commits_unseen sid created_at live db = after_statements-live false sid live db _

module _ {N : Type 0} (sig : Signal N) (cfg : VoiceSettings N) where
  finalize-session :
      (trigger : String) (suppress : Bool) (now : N) (v : Voice N)
      → (finalize_utterance sig cfg trigger suppress now v).session_id ≡ v.session_id
  unfolding finalize_utterance enqueue reset_current_utterance
  finalize-session trigger suppress now v =
      if_both (λ (w : Voice N). w.session_id ≡ v.session_id) _ refl refl

  persisted :
      (sid : String) (tx : Transaction) (created_at : String) (live : Live N) (db : CoreDb N)
      → live.voice.session_id ≡ some sid
      → is_empty sid ≡ false
      → persist_event_log tx created_at live db ≡ transact tx sid created_at live db
  unfolding persist_for
  persisted sid tx created_at live db active named =
      ap (λ o. persist_for o tx created_at live db) active ∙ rw named refl

  end-all :
      (sid : String) (tx : Transaction) (created_at : String) (live : Live N) (db : CoreDb N)
      → live.voice.session_id ≡ some sid
      → is_empty sid ≡ false
      → let (live', db') = end_session sig cfg sid tx created_at live db in
        IsOver sid live.dialogue_history live' × Stored tx sid live.event_log db db'
  unfolding end_session reset_session_runtime_state emit_json
  end-all sid tx created_at live db active named =
      let same = persisted sid tx created_at live db active named in
      let kept : (persist_event_log tx created_at live db).0.dialogue_history
          ≡ live.dialogue_history =
        ap (λ x. x.0.dialogue_history) same ∙ transact-live tx sid created_at live db in
      (
        (refl, refl, refl, (_, refl), kept),
        subst (λ x. Stored tx sid live.event_log db x.1) (sym same)
            (transact-Stored tx sid created_at live db),
      )

  -- The end of a session, if the command names it or none: the client is told last that the session has
  -- ended, the extension has no session, no log and no utterance any more, and its dialogue history is
  -- not reset but the one that the tasks left. If the transaction is not rolled back and the session is
  -- there, it is completed with all that was logged, and its event is in the outbox; if the session is
  -- missing, it stays so and the outbox is as it was. If it is rolled back, so is the database.
  pub handle_session_end-all :
      (sid : String) (requested : Option String) (now : N) (waited : Waited N) (tx : Transaction)
      (created_at : String) (live : Live N) (db : CoreDb N)
      → live.voice.session_id ≡ some sid
      → is_empty sid ≡ false
      → differs_from requested sid ≡ false
      → let (live', db') = handle_session_end sig cfg requested now waited tx created_at live db in
        IsOver sid waited.dialogue live' × Stored tx sid (live.event_log ++ waited.logged) db db'
  unfolding end_for settle_tasks stop_tts_pipeline
  handle_session_end-all sid requested now waited tx created_at live db active named meant =
      let settled =
        settle_tasks sig cfg waited
          (record live { voice = finalize_utterance sig cfg "session_end" true now live.voice }) in
      let active' : settled.voice.session_id ≡ some sid =
        finalize-session "session_end" true now live.voice ∙ active in
      let ends = end-all sid tx created_at settled db active' named in
      let same : handle_session_end sig cfg requested now waited tx created_at live db
          ≡ end_session sig cfg sid tx created_at settled db =
        ap (λ o. end_for sig cfg o requested now waited tx created_at live db) active
        ∙ rw meant refl in
      subst
        (λ (x : Live N × CoreDb N).
          IsOver sid waited.dialogue x.0 × Stored tx sid (live.event_log ++ waited.logged) db x.1)
        (sym same) ends
