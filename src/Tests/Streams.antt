-- ===== src/Tests/Streams.antt =====
-- The audio buffer, the outbox and the session store at small data.
use luve.Prelude.{
  false, ℕ, ◌+◌, ◌<◌, ◌≡◌, refl, ◌≢◌, false, arith, Option, none, some, List, [], ◌∷◌, true, ok,
  if◌then◌else◌, ◌==◌,
}
use luve.Python.Text.{lower, map_chars, is_in, strip, is_space}
use luve.Python.Lines.{find, join}
use luve.Media.Postprocess.{
  sanitize_transcript, is_hallucinated, filter_repetitions, split_sentences, unique_parts,
}
use luve.Media.Buffer.{
  sweep, clear, AudioBuffer, new, get_flat_audio, concat, add_chunk, accept, accept_unless, lookup,
  flush_contiguous, flush_from, flush_turns, after_pop, remove,
}
use luve.Media.Buffer.Order.{receive, holds_at, run}
use luve.Media.Buffer.Stream.{
  Input, arrives, sweeps, hear, forget, feed, receive_all, feed-audio, feed-order,
}
use luve.Outbox.{pending, Turn, confirmed, refused, lost_after, Outbox, relay_drain_all}
use luve.Outbox.Relay.{rows_ok, relay_drain_all-ok}
use luve.Python.Json.{null}
use luve.Sessions.{
  StoredSession, Table, select_live, is_joinable, reserve_persisted_session, persist_event_log,
  StoreCall, reserves, marks, persists, run_calls,
}
use luve.Sessions.Completed.{IsCompleted, persist_event_log-closes}

abbrev arrival : ℕ → ℕ → ℕ → Input ℕ
arrival time n byte = arrives (record { time = time; sequence_number = n; head = byte; tail = [] })

-- A chunk that a pause makes void, and three others.
abbrev ordered : List (Input ℕ)
ordered =
    arrival 1 9 90 ∷ sweeps 6 ∷ arrival 7 4 40 ∷ arrival 8 5 50 ∷ sweeps 11 ∷ arrival 12 6 60 ∷ []

abbrev swapped : List (Input ℕ)
swapped = arrival 0 4 40 ∷ arrival 1 6 60 ∷ sweeps 2 ∷ arrival 2 5 50 ∷ []

abbrev empty_buffer : AudioBuffer ℕ
empty_buffer = record {
  silence_ttl = 5;
  ordered_chunks = [];
  pending_by_sequence = [];
  next_expected_sequence = none;
  total_bytes = 0;
  flat_cache = none;
  last_activity = 0;
  is_monitored = false;
  is_closed = false;
}

abbrev chunks : ℕ → Option (List ℕ)
chunks j =
    if j == 6
    then some (60 ∷ [])
    else if j == 5
    then some (50 ∷ [])
    else if j == 4
    then some (40 ∷ [])
    else none

abbrev swapped_chunks : ℕ → Option (List ℕ)
swapped_chunks j =
    if j == 5
    then some (50 ∷ [])
    else if j == 6
    then some (60 ∷ [])
    else if j == 4
    then some (40 ∷ [])
    else none

ordered_runs : (get_flat_audio (feed ordered empty_buffer)).0 ≡ ok (40 ∷ 50 ∷ 60 ∷ [])
unfolding get_flat_audio feed add_chunk accept accept_unless lookup flush_contiguous flush_from
    flush_turns after_pop remove concat sweep clear
ordered_runs = refl

chunks-swapped : (j : ℕ) → chunks j ≡ swapped_chunks j
chunks-swapped j = ground arith

feed-audio_example :
    (count : ℕ) × ((i : ℕ) → i < count → holds_at chunks (4 + i) ≡ true)
    × (chunks (4 + count) ≡ none)
    × ((get_flat_audio (feed ordered empty_buffer)).0 ≡ ok (concat (run chunks 4 count)))
unfolding new receive_all receive hear forget
feed-audio_example = feed-audio ordered 5 1 0 12 empty_buffer 4 chunks refl refl

feed-order_example :
    (get_flat_audio (feed ordered empty_buffer)).0 ≡ (get_flat_audio (feed swapped empty_buffer)).0
unfolding new receive_all receive hear forget
feed-order_example =
    feed-order ordered swapped 5 1 0 12 2 empty_buffer 4 chunks swapped_chunks refl refl refl
      chunks-swapped

abbrev box : Outbox
box = record {
  rows =
      record { id = 1; payload = "a"; attempt_count = 0; status = pending; last_error = none }
      ∷ record { id = 2; payload = "b"; attempt_count = 4; status = pending; last_error = none }
      ∷ [];
  sent = [];
}

abbrev drains : List (List Turn)
drains = (lost_after ∷ []) ∷ (confirmed ∷ refused "timeout" ∷ []) ∷ []

relay_drain_all-ok_example :
    rows_ok 5 (relay_drain_all 20 5 drains box).sent (relay_drain_all 20 5 drains box).rows ≡ true
unfolding rows_ok
relay_drain_all-ok_example = relay_drain_all-ok 20 5 drains box refl

abbrev streaming : StoredSession ℕ
streaming = record {
  user_id = "u";
  status = some "Streaming";
  raw_backup_json = none;
  is_deleted = false;
}

abbrev sessions : Table ℕ
sessions id = if id == 3 then some streaming else none

-- A stream that tries to join, and another session that is marked and completed.
abbrev later : List (StoreCall ℕ)
later = reserves 3 ∷ marks 4 "ready" ∷ reserves 4 ∷ persists 4 [] ∷ []

persist_event_log-closes_example :
    IsCompleted 3 (some (null ∷ [])) (run_calls later (persist_event_log 3 (null ∷ []) sessions))
    × ((reserve_persisted_session 3 (run_calls later (persist_event_log 3 (null ∷ []) sessions))).0
        ≢ ok tt)
persist_event_log-closes_example =
    persist_event_log-closes 3 later (null ∷ []) sessions streaming refl
      (tt, (refl, (tt, (refl, tt))))

reserve_runs : (reserve_persisted_session 3 sessions).0 ≡ ok tt
unfolding reserve_persisted_session select_live is_joinable lower map_chars is_in
reserve_runs = refl

sanitized : sanitize_transcript " I like. I like. dogs" ≡ "I like. dogs"
unfolding sanitize_transcript is_hallucinated find lower map_chars filter_repetitions
    split_sentences unique_parts join strip is_space
sanitized = refl
