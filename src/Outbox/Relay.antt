-- ===== src/Outbox/Relay.antt =====
-- worker.py: the relay's transactions, and the rows of the outbox.
use Prim.Native.String.{String}
use luve.Prelude.{refl, ◌≡◌, arith, ℕ, Bool, true, false, List, [], ◌∷◌, ltb, ◌==◌, ◌||◌, ◌&&◌}
use luve.Outbox.{
  prefix, pending, published, failed, OutboxRow, update_where, set_published, set_retry_or_failed,
  mark_session_event_published, mark_session_event_retry_or_failed, Turn, confirmed, refused,
  lost_after, lost_before, publish_all, Outbox, committed, claim_pending_session_events,
  relay_drain_once, relay_drain_all,
}

-- A row of the id is among those that were sent.
unfoldable pub is_sent : ℕ → List OutboxRow → Bool
is_sent id [] = false
is_sent id (row ∷ rows) = (row.id == id) || is_sent id rows

-- A pending row has an attempt left, and a published row was sent.
abbrev pub row_ok : ℕ → List OutboxRow → OutboxRow → Bool
row_ok max_attempts sent row = elim row.status [
  | pending ↦ ltb row.attempt_count max_attempts
  | published ↦ is_sent row.id sent
  | failed ↦ true
]

unfoldable pub rows_ok : ℕ → List OutboxRow → List OutboxRow → Bool
rows_ok max_attempts sent [] = true
rows_ok max_attempts sent (row ∷ rows) =
    row_ok max_attempts sent row && rows_ok max_attempts sent rows

mark_published-ok :
    (max_attempts : ℕ) (row : OutboxRow) (sent rows : List OutboxRow)
    → rows_ok max_attempts sent rows ≡ true
    → rows_ok max_attempts (row ∷ sent) (update_where row.id set_published rows) ≡ true
unfolding rows_ok update_where is_sent
mark_published-ok max_attempts row sent [] h = refl
mark_published-ok max_attempts row sent (r ∷ rows) h =
    ground (arith, h, mark_published-ok max_attempts row sent rows)

mark_retry-ok :
    (max_attempts id : ℕ) (error : String) (sent rows : List OutboxRow)
    → rows_ok max_attempts sent rows ≡ true
    → rows_ok max_attempts sent (update_where id (set_retry_or_failed error max_attempts) rows)
      ≡ true
unfolding rows_ok update_where
mark_retry-ok max_attempts id error sent [] h = refl
mark_retry-ok max_attempts id error sent (r ∷ rows) h =
    ground (arith, h, mark_retry-ok max_attempts id error sent rows)

sent-ok :
    (max_attempts : ℕ) (row : OutboxRow) (sent rows : List OutboxRow)
    → rows_ok max_attempts sent rows ≡ true
    → rows_ok max_attempts (row ∷ sent) rows ≡ true
unfolding rows_ok is_sent
sent-ok max_attempts row sent [] h = refl
sent-ok max_attempts row sent (r ∷ rows) h = ground (arith, h, sent-ok max_attempts row sent rows)

publish_all-ok :
    (max_attempts : ℕ) (claimed : List OutboxRow) (turns : List Turn)
    (before rows sent : List OutboxRow)
    → rows_ok max_attempts sent before ≡ true
    → rows_ok max_attempts sent rows ≡ true
    → (let (after, sent') = publish_all max_attempts claimed turns rows sent in
        rows_ok max_attempts sent' (committed before after) ≡ true)
unfolding publish_all mark_session_event_published mark_session_event_retry_or_failed
publish_all-ok max_attempts [] turns before rows sent hb h = h
publish_all-ok max_attempts (row ∷ claimed) [] before rows sent hb h = hb
publish_all-ok max_attempts (row ∷ claimed) (confirmed ∷ turns) before rows sent hb h =
    publish_all-ok max_attempts claimed turns before (mark_session_event_published row.id rows)
      (row ∷ sent) (sent-ok max_attempts row sent before hb)
      (mark_published-ok max_attempts row sent rows h)
publish_all-ok max_attempts (row ∷ claimed) (refused error ∷ turns) before rows sent hb h =
    publish_all-ok max_attempts claimed turns before
      (mark_session_event_retry_or_failed row.id error max_attempts rows) sent hb
      (mark_retry-ok max_attempts row.id (prefix 1000 error) sent rows h)
publish_all-ok max_attempts (row ∷ claimed) (lost_after ∷ turns) before rows sent hb h =
    sent-ok max_attempts row sent before hb
publish_all-ok max_attempts (row ∷ claimed) (lost_before ∷ turns) before rows sent hb h = hb

drain_once-ok :
    (batch_size max_attempts : ℕ) (turns : List Turn) (box : Outbox)
    → rows_ok max_attempts box.sent box.rows ≡ true
    → (let box' = relay_drain_once batch_size max_attempts turns box in
        rows_ok max_attempts box'.sent box'.rows ≡ true)
unfolding relay_drain_once
drain_once-ok batch_size max_attempts turns box h =
    publish_all-ok max_attempts (claim_pending_session_events batch_size box.rows) turns box.rows
      box.rows box.sent h h

-- Whatever the broker and the database do in the relay's transactions, it keeps true that each published
-- row has been sent to the broker and that each pending row has been tried fewer times than the cap.
pub relay_drain_all-ok :
    (batch_size max_attempts : ℕ) (rest : List (List Turn)) (box : Outbox)
    → rows_ok max_attempts box.sent box.rows ≡ true
    → (let box' = relay_drain_all batch_size max_attempts rest box in
        rows_ok max_attempts box'.sent box'.rows ≡ true)
unfolding relay_drain_all
relay_drain_all-ok batch_size max_attempts [] box h = h
relay_drain_all-ok batch_size max_attempts (turns ∷ rest) box h =
    relay_drain_all-ok batch_size max_attempts rest
      (relay_drain_once batch_size max_attempts turns box)
      (drain_once-ok batch_size max_attempts turns box h)
