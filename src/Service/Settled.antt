-- ===== src/Service/Settled.antt =====
-- What a reader sees of a session once the worker has acknowledged its message, and of the grades that
-- the two graders write.
use luve.Prelude.{
  subst, ◌∙◌, sym, ap, ℤ, ℕ, ◌≡◌, ◌≢◌, ◌⊎◌, arith, inl, inr, Bool, true, false, Option, none, some,
  ok,
}
use luve.Python.Json.{Value, Runtime, Floats, Unicode, loaded}
use luve.Grading.Store.{Db, Session, GradingRow, SkipRow, fetch_session_row}
use luve.Grading.World.{World}
use luve.Grading.Worker.{Config, Calls}
use luve.Grading.Worker.Settled.{Final, is_final}
use luve.Grading.Message.{handle_queue_message, ack}
use luve.Grading.Message.Acked.{handle_queue_message-ack}
use luve.Service.Status.{
  GradingStatusRead, pending, live_session, skipped_status, row_status, get_session_grading_status,
}

module _ {N : Type 0} (rt : Runtime N) (min_words : ℤ) where
  skipped-closed :
      (id : ℕ) (skip : Option SkipRow) (raw : Value N)
      → (elim skip as (λ _. Bool) [ none ↦ false | some _ ↦ true ]) ≡ true
      → (skipped_status rt min_words id skip raw).status ≢ pending
  unfolding skipped_status
  skipped-closed id none raw h = absurd cc
  skipped-closed id (some x) raw h = λ e. cc

  -- A row that is there decides the status, and so does a skip.
  row-closed :
      (id : ℕ) (row : Option (GradingRow N)) (skip : Option SkipRow) (raw : Value N)
      → ((elim row as (λ _. Bool) [ none ↦ false | some r ↦ is_final r.status ]) ≡ true)
        ⊎ ((elim skip as (λ _. Bool) [ none ↦ false | some _ ↦ true ]) ≡ true)
      → (row_status rt min_words id row skip raw).status ≢ pending
  unfolding row_status
  row-closed id none skip raw (inl h) = absurd cc
  row-closed id none skip raw (inr h) = skipped-closed id skip raw h
  row-closed id (some r) skip raw h = ground arith

  -- What a successful read is of.
  read-of :
      (id user_id : ℕ) (db : Db N) (read : GradingStatusRead)
      → get_session_grading_status rt min_words id user_id db ≡ ok read
      → (s : Session N) × ((live_session id db ≡ some s)
          × (read ≡ row_status rt min_words id (db.results id) (db.skips id) s.row.raw_backup_json))
  unfolding get_session_grading_status
  read-of id user_id db read h = ground (arith, h)

  live-fetched :
      (id : ℕ) (db : Db N) (s : Session N)
      → live_session id db ≡ some s
      → fetch_session_row id db ≢ none
  unfolding live_session fetch_session_row
  live-fetched id db s h = λ e. ground (arith, h, e)

  -- A session that is settled is never read as pending.
  Final-closed :
      (id user_id : ℕ) (db : Db N) (read : GradingStatusRead)
      → Final id db
      → get_session_grading_status rt min_words id user_id db ≡ ok read
      → read.status ≢ pending
  Final-closed id user_id db read final h =
      let (s, (live, shown)) = read-of id user_id db read h in
      let closed = row-closed id (db.results id) (db.skips id) s.row.raw_backup_json (elim final [
        | inl gone ↦ absurd (live-fetched id db s live gone)
        | inr settled ↦ settled
      ]) in
      λ e. closed (ap (λ r. r.status) (sym shown) ∙ e)

module _ {N : Type 0} (rt : Runtime N) (fl : Floats N) (uni : Unicode) (calls : Calls N)
    (cfg : Config) where
  -- Once the message of a session is acknowledged, no reader finds the session's grading pending: it is
  -- graded, failed, in work or with too little evidence. At least one attempt must be configured for the
  -- worker; the reader may be anyone who is not refused, with any minimum.
  pub acked-read_status :
      (payload : Value N) (id : ℕ) (w : World N) (min_words : ℤ) (user_id : ℕ)
      (read : GradingStatusRead)
      → cfg.max_attempts ≢ 0
      → calls.model_validate payload ≡ some id
      → (handle_queue_message rt fl uni calls cfg (loaded payload) w).0 ≡ ack
      → get_session_grading_status rt min_words id user_id
          (handle_queue_message rt fl uni calls cfg (loaded payload) w).1.db
        ≡ ok read
      → read.status ≢ pending
  acked-read_status payload id w min_words user_id read tried named e h =
      let db = (handle_queue_message rt fl uni calls cfg (loaded payload) w).1.db in
      let (payload', id', (is_payload, named', final)) =
        handle_queue_message-ack rt fl uni calls cfg (loaded payload) w tried e in
      let same_payload : payload ≡ payload' = cc (is_payload) in
      let same : id' ≡ id = cc (same_payload, named, named') in
      Final-closed rt min_words id user_id db read (subst (λ x. Final x db) same final) h
