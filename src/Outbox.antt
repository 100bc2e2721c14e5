-- ===== src/Outbox.antt =====
-- The transactional outbox: outbox_repository.py, and worker.py's `_relay_drain_once`, which publishes
-- its pending rows.
pub mod Relay
use Prim.Native.String.{String}
use luve.Prelude.{
  ℕ, ◌+◌, Bool, true, false, Option, none, some, List, [], ◌∷◌, map, take, leb, ◌==◌, if◌then◌else◌,
}
use luve.Python.Lines.{prefix}

pub data OutboxStatus : Type 0 where
  pending published failed : OutboxStatus

-- A row of session_outbox; its time stamps are left out.
pub record OutboxRow : Type 0 where
  pub id : ℕ
  pub payload : String
  pub attempt_count : ℕ
  pub status : OutboxStatus
  pub last_error : Option String

abbrev pub is_pending : OutboxStatus → Bool
is_pending pending = true
is_pending _ = false

unfoldable pub pending_rows : List OutboxRow → List OutboxRow
pending_rows [] = []
pending_rows (row ∷ rows) =
    let rest = pending_rows rows in if is_pending row.status then row ∷ rest else rest

-- The table lists its rows by their time of creation. No other relay holds a lock here.
unfoldable pub claim_pending_session_events : ℕ → List OutboxRow → List OutboxRow
claim_pending_session_events limit rows = take limit (pending_rows rows)

-- `UPDATE session_outbox SET … WHERE id = $1`
unfoldable pub update_where : ℕ → (OutboxRow → OutboxRow) → List OutboxRow → List OutboxRow
update_where id set [] = []
update_where id set (row ∷ rows) =
    (if row.id == id then set row else row) ∷ update_where id set rows

abbrev pub set_published : OutboxRow → OutboxRow
set_published row = record row { status = published }

abbrev pub set_retry_or_failed : String → ℕ → OutboxRow → OutboxRow
set_retry_or_failed bounded_error max_attempts row = record row {
  attempt_count = row.attempt_count + 1;
  last_error = some bounded_error;
  status = if leb max_attempts (row.attempt_count + 1) then failed else pending;
}

unfoldable pub mark_session_event_published : ℕ → List OutboxRow → List OutboxRow
mark_session_event_published id rows = update_where id set_published rows

unfoldable pub mark_session_event_retry_or_failed : ℕ → String → ℕ → List OutboxRow → List OutboxRow
mark_session_event_retry_or_failed id error max_attempts rows =
    update_where id (set_retry_or_failed (prefix 1000 error) max_attempts) rows

-- How the turn of a claimed row goes: the broker confirms and the row is marked; the publish raises and
-- the row is marked; or a mark fails, after the broker confirmed or before, and the transaction with it.
pub data Turn : Type 0 where
  confirmed : Turn
  refused : String → Turn
  lost_after lost_before : Turn

-- The rows of the transaction, or `none` if it is rolled back, and what was sent to the broker.
-- Past the end of the turns the process is gone.
unfoldable pub publish_all :
    ℕ
    → List OutboxRow
    → List Turn
    → List OutboxRow
    → List OutboxRow
    → Option (List OutboxRow) × List OutboxRow
publish_all max_attempts [] turns rows sent = (some rows, sent)
publish_all max_attempts (row ∷ claimed) [] rows sent = (none, sent)
publish_all max_attempts (row ∷ claimed) (confirmed ∷ turns) rows sent =
    publish_all max_attempts claimed turns (mark_session_event_published row.id rows) (row ∷ sent)
publish_all max_attempts (row ∷ claimed) (refused error ∷ turns) rows sent =
    publish_all max_attempts claimed turns
      (mark_session_event_retry_or_failed row.id error max_attempts rows) sent
publish_all max_attempts (row ∷ claimed) (lost_after ∷ turns) rows sent = (none, row ∷ sent)
publish_all max_attempts (row ∷ claimed) (lost_before ∷ turns) rows sent = (none, sent)

-- The table, and the rows whose payload the broker has.
pub record Outbox : Type 0 where
  pub rows : List OutboxRow
  pub sent : List OutboxRow

abbrev pub committed : List OutboxRow → Option (List OutboxRow) → List OutboxRow
committed before none = before
committed before (some after) = after

-- One transaction of the relay.
unfoldable pub relay_drain_once : ℕ → ℕ → List Turn → Outbox → Outbox
relay_drain_once batch_size max_attempts turns box =
    let claimed = claim_pending_session_events batch_size box.rows in
    let (after, sent) = publish_all max_attempts claimed turns box.rows box.sent in
    record { rows = committed box.rows after; sent = sent }

-- The relay's transactions, one after the other.
unfoldable pub relay_drain_all : ℕ → ℕ → List (List Turn) → Outbox → Outbox
relay_drain_all batch_size max_attempts [] box = box
relay_drain_all batch_size max_attempts (turns ∷ rest) box =
    relay_drain_all batch_size max_attempts rest
      (relay_drain_once batch_size max_attempts turns box)
