-- ===== src/Sessions.antt =====
-- core-api's realtime/session_store.py: the status of a session, from its reservation by a stream to
-- its completion. Each method is one transaction; ids are numbers, and ended_at is left out.
pub mod Completed
use Prim.Native.String.{String}
use luve.Prelude.{
  ℕ, Bool, true, false, Option, none, some, List, [], ◌∷◌, Result, ok, raise, ◌==◌, if◌then◌else◌,
}
use luve.Python.Text.{lower, is_in}
use luve.Python.Json.{Value}

pub record StoredSession (N : Type 0) : Type 0 where
  pub user_id : String
  -- the column may be empty
  pub status : Option String
  pub raw_backup_json : Option (List (Value N))
  pub is_deleted : Bool

-- `SessionStoreError`, by its status code: 404 and 409.
pub data StoreError : Type 0 where
  not_found : StoreError
  not_joinable : String → StoreError

abbrev pub Table : Type 0 → Type 0
Table N = ℕ → Option (StoredSession N)

abbrev pub or_blank : Option String → String
or_blank none = ""
or_blank (some s) = s

module _ {N : Type 0} where
  -- `UPDATE sessions SET … WHERE id = :session_id`
  unfoldable pub set_where : ℕ → (StoredSession N → StoredSession N) → Table N → Table N
  set_where id set sessions j = elim (sessions j) [
    | none ↦ none
    | some s ↦ if j == id then some (set s) else some s
  ]

  -- `… AND deleted_at IS NULL`
  abbrev pub unless_deleted :
      (StoredSession N → StoredSession N) → StoredSession N → StoredSession N
  unless_deleted set s = if s.is_deleted then s else set s

  unfoldable pub select_live : ℕ → Table N → Option (StoredSession N)
  select_live id sessions = elim (sessions id) [
    | none ↦ none
    | some s ↦ if s.is_deleted then none else some s
  ]

  unfoldable pub mark_session_status : ℕ → String → Table N → Table N
  mark_session_status id status_value sessions =
      set_where id (unless_deleted (λ s. record s { status = some status_value })) sessions

  unfoldable pub is_joinable : StoredSession N → Bool
  is_joinable s = is_in (lower (or_blank s.status)) ("ready" ∷ "streaming" ∷ [])

  unfoldable pub reserve_persisted_session : ℕ → Table N → Result StoreError (Unit {0}) × Table N
  reserve_persisted_session id sessions = elim (select_live id sessions) [
    | none ↦ (raise not_found, sessions)
    | some s ↦
        if is_joinable s
        then (ok tt, mark_session_status id "streaming" sessions)
        else (raise (not_joinable (lower (or_blank s.status))), sessions)
  ]

  unfoldable pub get_session_owner : ℕ → Table N → Result StoreError String
  get_session_owner id sessions = elim (select_live id sessions) [
    | none ↦ raise not_found
    | some s ↦ ok s.user_id
  ]

  abbrev pub complete : List (Value N) → StoredSession N → StoredSession N
  complete [] s = record s { status = some "completed" }
  complete (event ∷ events) s = record s {
    status = some "completed";
    raw_backup_json = some (event ∷ events);
  }

  -- A deleted session is completed too.
  unfoldable pub persist_event_log : ℕ → List (Value N) → Table N → Table N
  persist_event_log id event_log sessions = set_where id (complete event_log) sessions

-- A call of the store that may write.
pub data StoreCall (N : Type 0) : Type 0 where
  reserves : ℕ → StoreCall N
  marks : ℕ → String → StoreCall N
  persists : ℕ → List (Value N) → StoreCall N

module _ {N : Type 0} where
  abbrev pub run_call : StoreCall N → Table N → Table N
  run_call (reserves id) sessions = (reserve_persisted_session id sessions).1
  run_call (marks id status_value) sessions = mark_session_status id status_value sessions
  run_call (persists id event_log) sessions = persist_event_log id event_log sessions

  -- Calls of all the tasks, one transaction after the other.
  unfoldable pub run_calls : List (StoreCall N) → Table N → Table N
  run_calls [] sessions = sessions
  run_calls (call ∷ calls) sessions = run_calls calls (run_call call sessions)
