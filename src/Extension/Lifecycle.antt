-- ===== src/Extension/Lifecycle.antt =====
-- luve_extension.py: the start and the end of a session, with outbox_repository.py, which puts the
-- event of its completion into the outbox. A session's key is a text here.
pub mod Completes
pub mod Ends
use Prim.Native.String.{String}
use text.Mathlib.Text.{◌==◌ as str_eq}
use luve.Prelude.{
  ℕ, ◌&&◌, ◌||◌, Bool, true, false, Option, none, some, List, [], ◌∷◌, ◌++◌, if◌then◌else◌, not,
}
use luve.Python.Text.{is_empty}
use luve.Python.Json.{Value}
use luve.Sessions.{StoredSession}
use luve.Extension.Queue.{InferenceQueue}
use luve.Extension.Voice.{
  Message, Voice, VoiceSettings, finalize_utterance, stop_tts_pipeline, emit_json, ten_started,
  ten_busy, session_ended,
}
use luve.Extension.Voice.Frames.{Signal}

-- A row of session_outbox as it is inserted; it is pending.
pub record SessionEvent : Type 0 where
  pub session_id : String
  pub event_type : String
  pub schema_version : String
  -- the payload's fields: event_type, schema_version, session_id and created_at
  pub payload : String × String × String × String

pub record CoreDb (N : Type 0) : Type 0 where
  pub sessions : String → Option (StoredSession N)
  pub outbox : List SessionEvent

-- How the transaction ends: it commits, an exception rolls it back, or it commits and an exception
-- follows.
pub data Transaction : Type 0 where
  commits rolls_back commits_unseen : Transaction

-- What the tasks do while the end of the session waits for the queue, for 5 seconds at most: the events
-- that they log, the messages that they send, the dialogue history as their turns leave it, and what is
-- left in the queue.
pub record Waited (N : Type 0) : Type 0 where
  pub logged : List (Value N)
  pub sent : List (Message N)
  pub dialogue : List (Value N)
  pub queue : Option (InferenceQueue N)

-- The extension; `voice` has what the audio acts on.
pub record Live (N : Type 0) : Type 0 where
  pub voice : Voice N
  pub event_log : List (Value N)
  pub dialogue_history : List (Value N)
  pub opener_sent : Bool
  pub stt_only_mode : Bool
  pub tts_output_enabled : Bool
  pub previous_stt_text : String
  -- the sessions for which `publish_session_completed` is called
  pub published : List String

-- `UNIQUE(session_id, event_type)`
abbrev pub is_event : String → String → SessionEvent → Bool
is_event session_id event_type event =
    str_eq event.session_id session_id && str_eq event.event_type event_type

abbrev pub has_event : String → String → List SessionEvent → Bool
has_event session_id event_type [] = false
has_event session_id event_type (event ∷ events) =
    is_event session_id event_type event || has_event session_id event_type events

-- `ON CONFLICT (session_id, event_type) DO NOTHING`
unfoldable pub insert_event : SessionEvent → List SessionEvent → List SessionEvent
insert_event event events =
    if has_event event.session_id event.event_type events then events else events ++ event ∷ []

abbrev pub completed_event : String → String → SessionEvent
completed_event session_id created_at = record {
  session_id = session_id;
  event_type = "session.completed";
  schema_version = "v1";
  payload = ("session.completed", "v1", session_id, created_at);
}

-- `a and a != b`
abbrev pub differs_from : Option String → String → Bool
differs_from none id = false
differs_from (some other) id = not (is_empty other) && not (str_eq other id)

module _ {N : Type 0} where
  abbrev pub complete_row : List (Value N) → Option (StoredSession N) → Option (StoredSession N)
  complete_row event_log none = none
  complete_row event_log (some s) =
      some (record s { raw_backup_json = some event_log; status = some "completed" })

  -- `UPDATE SESSIONS SET … WHERE id = :sid`
  unfoldable pub complete_session : String → List (Value N) → CoreDb N → CoreDb N
  complete_session sid event_log db = record db {
    sessions =
        λ id. if str_eq id sid then complete_row event_log (db.sessions id) else db.sessions id;
  }

  abbrev pub is_there : Option (StoredSession N) → Bool
  is_there none = false
  is_there (some s) = true

  -- `none`: the row that is inserted names no session, which its foreign key refuses.
  unfoldable pub enqueue_session_event : SessionEvent → CoreDb N → Option (CoreDb N)
  enqueue_session_event event db =
      if has_event event.session_id event.event_type db.outbox
        || is_there (db.sessions event.session_id)
      then some (record db { outbox = insert_event event db.outbox })
      else none

  -- Both statements of the transaction.
  unfoldable pub statements : String → List (Value N) → String → CoreDb N → Option (CoreDb N)
  statements sid event_log created_at db =
      enqueue_session_event (completed_event sid created_at) (complete_session sid event_log db)

  -- The event is published when the commit has been seen; a refused statement rolls all back.
  abbrev pub after_statements :
      (seen : Bool) → String → Live N → CoreDb N → Option (CoreDb N) → Live N × CoreDb N
  after_statements seen sid live db none = (live, db)
  after_statements true sid live db (some db') =
      (record live { published = live.published ++ sid ∷ [] }, db')
  after_statements false sid live db (some db') = (live, db')

  unfoldable pub transact : Transaction → String → String → Live N → CoreDb N → Live N × CoreDb N
  transact commits sid created_at live db =
      after_statements true sid live db (statements sid live.event_log created_at db)
  transact rolls_back sid created_at live db = (live, db)
  transact commits_unseen sid created_at live db =
      after_statements false sid live db (statements sid live.event_log created_at db)

  unfoldable pub persist_for :
      Option String → Transaction → String → Live N → CoreDb N → Live N × CoreDb N
  persist_for none tx created_at live db = (live, db)
  persist_for (some sid) tx created_at live db =
      if is_empty sid then (live, db) else transact tx sid created_at live db

  abbrev pub persist_event_log : Transaction → String → Live N → CoreDb N → Live N × CoreDb N
  persist_event_log tx created_at live db = persist_for live.voice.session_id tx created_at live db

  -- The state of START, after the command is read.
  unfoldable pub start_session : String → Bool → Bool → Live N → Live N
  start_session session_id stt_only tts_enabled live =
      let voice = live.voice in
      let mute = stt_only || not tts_enabled in
      let active = elim voice.session_id as (λ _. String) [ none ↦ "" | some id ↦ id ] in
      if differs_from voice.session_id session_id
      then record live { voice = emit_json (ten_busy active session_id) voice }
      else record live {
        stt_only_mode = stt_only;
        tts_output_enabled = tts_enabled;
        voice = emit_json (ten_started session_id stt_only tts_enabled) (record voice {
          session_id = some session_id;
          is_assistant_speaking = if mute then false else voice.is_assistant_speaking;
        });
      }

module _ {N : Type 0} (sig : Signal N) (cfg : VoiceSettings N) where
  unfoldable pub reset_session_runtime_state : Live N → Live N
  reset_session_runtime_state live = record live {
    event_log = [];
    opener_sent = false;
    stt_only_mode = false;
    tts_output_enabled = true;
    previous_stt_text = "";
    voice = record live.voice {
      session_id = none;
      is_assistant_speaking = false;
      stt_inference_busy = false;
      utterance_pcm = [];
      pre_roll_pcm = [];
      is_speaking = false;
      silence_duration_seconds = sig.of_nat 0;
      last_partial_emit_at = sig.of_nat 0;
      pending_speech_frames = 0;
      current_utterance_stats = none;
    };
  }

  -- From the wait for the queue to the transaction.
  unfoldable pub settle_tasks : Waited N → Live N → Live N
  settle_tasks waited live = record live {
    event_log = live.event_log ++ waited.logged;
    dialogue_history = waited.dialogue;
    voice = record (stop_tts_pipeline live.voice) {
      inference_queue = waited.queue;
      llm_tasks = 0;
      sent = live.voice.sent ++ waited.sent;
    };
  }

  unfoldable pub end_session : String → Transaction → String → Live N → CoreDb N → Live N × CoreDb N
  end_session active tx created_at live db =
      let (saved, db') = persist_event_log tx created_at live db in
      (
        reset_session_runtime_state
            (record saved { voice = emit_json (session_ended active) saved.voice }),
        db',
      )

  unfoldable pub end_for :
      Option String
      → Option String
      → N
      → Waited N
      → Transaction
      → String
      → Live N
      → CoreDb N
      → Live N × CoreDb N
  end_for none requested now waited tx created_at live db = (live, db)
  end_for (some active) requested now waited tx created_at live db =
      if differs_from requested active
      then (live, db)
      else end_session active tx created_at
          (settle_tasks waited
            (record live { voice = finalize_utterance sig cfg "session_end" true now live.voice }))
          db

  abbrev pub handle_session_end :
      Option String → N → Waited N → Transaction → String → Live N → CoreDb N → Live N × CoreDb N
  handle_session_end requested now waited tx created_at live db =
      end_for live.voice.session_id requested now waited tx created_at live db
