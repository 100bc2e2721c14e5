-- ===== src/Sessions/Completed.antt =====
-- realtime/session_store.py: reservations, before and after a log is persisted.
use luve.Prelude.{
  All, refl, sym, subst, ◌∙◌, ◌≡◌, ◌≢◌, ◌↔◌, ◌⊎◌, arith, ℕ, true, false, Bool-cases, inl, inr,
  Option, some, Option-cases, List, [], ◌∷◌, ok, ◌==◌,
}
use luve.Python.Text.{lower, is_in, map_chars}
use luve.Python.Json.{Value}
use luve.Sessions.{
  StoredSession, Table, set_where, select_live, mark_session_status, is_joinable,
  reserve_persisted_session, complete, persist_event_log, StoreCall, reserves, marks, persists,
  run_call, run_calls,
}

same-id : (id j : ℕ) → (id == j) ≡ true → id ≡ j
same-id id j h = ground (arith, h)

module _ {N : Type 0} where
  completed-closed : (s : StoredSession N) → s.status ≡ some "completed" → is_joinable s ≡ false
  unfolding is_joinable lower map_chars is_in
  completed-closed s e = rw e refl

  -- The session is there, with its log, and completed.
  abbrev pub IsCompleted : ℕ → Option (List (Value N)) → Table N → Type 0
  IsCompleted id log sessions =
      (s : StoredSession N) × ((sessions id ≡ some s)
        × (s.status ≡ some "completed")
        × (s.raw_backup_json ≡ log))

  not_reserved :
      (id : ℕ) (log : Option (List (Value N))) (sessions : Table N)
      → IsCompleted id log sessions
      → ((reserve_persisted_session id sessions).1 ≡ sessions)
        × ((reserve_persisted_session id sessions).0 ≢ ok tt)
  unfolding reserve_persisted_session select_live
  not_reserved id log sessions (s, (there, done, _)) = (
    ground (arith, there, completed-closed s done),
    λ e. ground (arith, there, completed-closed s done, e),
  )

  other-reserved :
      (id j : ℕ) (sessions : Table N)
      → (id == j) ≡ false
      → (reserve_persisted_session j sessions).1 id ≡ sessions id
  unfolding reserve_persisted_session mark_session_status set_where
  other-reserved id j sessions other = ground (arith, other)

  reserve-IsCompleted :
      (id j : ℕ) (log : Option (List (Value N))) (sessions : Table N)
      → IsCompleted id log sessions
      → IsCompleted id log (reserve_persisted_session j sessions).1
  reserve-IsCompleted id j log sessions (s, (there, done, kept)) = elim (Bool-cases (id == j)) [
    | inl same ↦
        subst (λ x. IsCompleted id log (reserve_persisted_session x sessions).1) (same-id id j same)
          (subst (IsCompleted id log)
            (sym (not_reserved id log sessions (s, (there, done, kept))).0)
            (s, (there, done, kept)))
    | inr other ↦ (s, (other-reserved id j sessions other ∙ there, done, kept))
  ]

  -- The call sets the status of another session, or is a stream that tries to join any.
  abbrev pub SparesStatus : ℕ → StoreCall N → Type 0
  SparesStatus id (reserves j) = Unit
  SparesStatus id (marks j status_value) = (id == j) ≡ false
  SparesStatus id (persists j event_log) = (id == j) ≡ false

  other-set :
      (id j : ℕ) (set : StoredSession N → StoredSession N) (sessions : Table N)
      → (id == j) ≡ false
      → set_where j set sessions id ≡ sessions id
  unfolding set_where
  other-set id j set sessions other = ground (arith, other)

  run_call-IsCompleted :
      (id : ℕ) (call : StoreCall N) (log : Option (List (Value N))) (sessions : Table N)
      → SparesStatus id call
      → IsCompleted id log sessions
      → IsCompleted id log (run_call call sessions)
  unfolding mark_session_status persist_event_log
  run_call-IsCompleted id (reserves j) log sessions spares h =
      reserve-IsCompleted id j log sessions h
  run_call-IsCompleted id (marks j status_value) log sessions other (s, (there, done, kept)) =
      (s, (other-set id j _ sessions other ∙ there, done, kept))
  run_call-IsCompleted id (persists j event_log) log sessions other (s, (there, done, kept)) =
      (s, (other-set id j (complete event_log) sessions other ∙ there, done, kept))

  run_calls-IsCompleted :
      (id : ℕ) (calls : List (StoreCall N)) (log : Option (List (Value N))) (sessions : Table N)
      → All (SparesStatus id) calls
      → IsCompleted id log sessions
      → IsCompleted id log (run_calls calls sessions)
  unfolding run_calls
  run_calls-IsCompleted id [] log sessions spare h = h
  run_calls-IsCompleted id (call ∷ calls) log sessions (spares, rest) h =
      run_calls-IsCompleted id calls log (run_call call sessions) rest
        (run_call-IsCompleted id call log sessions spares h)

  complete-status :
      (event_log : List (Value N)) (s : StoredSession N)
      → (complete event_log s).status ≡ some "completed"
  complete-status [] s = refl
  complete-status (event ∷ events) s = refl

  persist-IsCompleted :
      (id : ℕ) (event_log : List (Value N)) (sessions : Table N) (s : StoredSession N)
      → sessions id ≡ some s
      → IsCompleted id
          (complete event_log s).raw_backup_json
          (persist_event_log id event_log sessions)
  unfolding persist_event_log set_where
  persist-IsCompleted id event_log sessions s there =
      (complete event_log s, (ground (arith, there), complete-status event_log s, refl))

  -- Once the event log of a session is persisted, it keeps its completed status and its log, and no
  -- stream joins it, whatever calls of the store follow, as long as none marks the status of this
  -- session or persists a log for it again: streams may try to join any session, and other sessions may
  -- be marked and completed.
  pub persist_event_log-closes :
      (id : ℕ) (calls : List (StoreCall N)) (event_log : List (Value N)) (sessions : Table N)
      (s : StoredSession N)
      → sessions id ≡ some s
      → All (SparesStatus id) calls
      → let after = run_calls calls (persist_event_log id event_log sessions) in
        IsCompleted id (complete event_log s).raw_backup_json after
        × ((reserve_persisted_session id after).0 ≢ ok tt)
  persist_event_log-closes id calls event_log sessions s there spare =
      let log = (complete event_log s).raw_backup_json in
      let after = run_calls calls (persist_event_log id event_log sessions) in
      let done =
        run_calls-IsCompleted id calls log (persist_event_log id event_log sessions) spare
          (persist-IsCompleted id event_log sessions s there) in
      (done, (not_reserved id log after done).1)

  -- A stream joins a session exactly when the session is there, is not deleted, and its status in lower
  -- case is ready or streaming; otherwise the table stays as it is.
  pub reserve_persisted_session-ok_iff :
      (id : ℕ) (sessions : Table N)
      → let (r, after) = reserve_persisted_session id sessions in
        ((r ≡ ok tt)
          ↔ ((s : StoredSession N) × (select_live id sessions ≡ some s) × (is_joinable s ≡ true)))
        × ((r ≡ ok tt) ⊎ (after ≡ sessions))
  unfolding reserve_persisted_session
  reserve_persisted_session-ok_iff id sessions = elim (Option-cases (select_live id sessions)) [
    | inl gone ↦ (
      (λ e. ground (arith, gone, e), λ (s, found, _). ground (arith, gone, found)),
      ground (arith, gone),
    )
    | inr (s, found) ↦ (
      (
        λ e. (s, found, ground (arith, found, e)),
        λ (t, found', joins). ground (arith, found, found', joins),
      ),
      ground (arith, found),
    )
  ]
