-- ===== src/Tests/Lifecycle.antt =====
-- The end of a session, the reply and the login stores at small data.
use Prim.Native.String.{String}
use text.Mathlib.Text.{◌==◌ as str_eq}
use text.Mathlib.TextEquality.{eq_iff}
use text.Mathlib.TextPositions.{eq_refl}
use luve.Prelude.{
  Bool-cases, inl, inr, ℕ, ◌≡◌, ◌≢◌, refl, arith, true, false, Option, none, some, List, [], ◌∷◌,
  ◌==◌, if◌then◌else◌,
}
use luve.Python.Json.{num, null, obj, loaded, decode_error, Runtime}
use luve.Sessions.{StoredSession}
use luve.Extension.Lifecycle.{CoreDb, Live, Waited, commits, handle_session_end, persist_event_log}
use luve.Extension.Lifecycle.Completes.{IsAnnounced, IsUnique, persist_event_log_sound}
use luve.Extension.Lifecycle.Ends.{IsOver, Stored, handle_session_end-all}
use luve.Oauth.{Redis, store_tx, pop_tx, store_code, pop_code}
use luve.Oauth.Single.{IsRedis, login, pop_tx-store_tx}
use luve.Tests.Voice.{sig, voice_settings, quiet}

abbrev live : Live ℕ
live = record {
  voice = quiet;
  event_log = null ∷ [];
  dialogue_history = null ∷ [];
  opener_sent = true;
  stt_only_mode = false;
  tts_output_enabled = true;
  previous_stt_text = "";
  published = [];
}

abbrev waited : Waited ℕ
waited = record { logged = num 1 ∷ []; sent = []; dialogue = null ∷ num 2 ∷ []; queue = none }

abbrev streaming : StoredSession ℕ
streaming = record {
  user_id = "u";
  status = some "streaming";
  raw_backup_json = none;
  is_deleted = false;
}

abbrev core_db : CoreDb ℕ
core_db = record { sessions = λ _. some streaming; outbox = [] }

handle_session_end-all_example :
    let (live', db') =
      handle_session_end sig voice_settings none 1 waited commits "now" live core_db in
    IsOver "s" (null ∷ num 2 ∷ []) live' × Stored commits "s" (null ∷ num 1 ∷ []) core_db db'
handle_session_end-all_example =
    handle_session_end-all sig voice_settings "s" none 1 waited commits "now" live core_db refl refl
      refl

core_db-IsAnnounced : IsAnnounced core_db
core_db-IsAnnounced sid = refl

persist_event_log_sound_example :
    let db' = (persist_event_log commits "now" live core_db).1 in
    IsAnnounced db' × IsUnique db'.outbox
persist_event_log_sound_example =
    persist_event_log_sound commits "now" live core_db
      (core_db-IsAnnounced, λ sid event_type. omega arith)

abbrev dict : Redis (String → Option String)
dict = record {
  set = λ key value ex r. λ j. if str_eq j key then some value else r j;
  getdel = λ key r. (r key, λ j. if str_eq j key then none else r j);
}

apart : (a b : String) → a ≢ b → str_eq a b ≡ false
apart a b h = elim (Bool-cases (str_eq a b)) [
  | inl same ↦ absurd (h ((eq_iff a b).0 same))
  | inr other ↦ other
]

dict-IsRedis : IsRedis dict
dict-IsRedis = record {
  reads = λ key value ex r. rw (eq_refl key) refl;
  deletes = λ key r. rw (eq_refl key) refl;
  others = λ key other value ex r h. rw (apart key other h) refl;
  leaves = λ key other r h. rw (apart key other h) refl;
}

abbrev nonce_rt : Runtime ℕ
nonce_rt = record {
  is_zero = λ n. n == 0;
  show = λ _. "value";
  loads = λ t. if str_eq t "n" then loaded (obj (login "abc")) else decode_error;
}

pop_tx-store_tx_example :
    let (popped, r') =
      pop_tx nonce_rt
        (λ _. "n")
        dict
        "state"
        (store_code dict "code" "token"
          (store_tx nonce_rt (λ _. "n") dict "state" "abc" (λ _. none))) in
    (popped ≡ some (login "abc"))
    × ((pop_tx nonce_rt (λ _. "n") dict "state" r').0 ≡ none)
    × ((pop_code dict "code" r').0 ≡ some "token")
pop_tx-store_tx_example =
    pop_tx-store_tx nonce_rt (λ _. "n") dict dict-IsRedis "state" "abc" "code" "token" (λ _. none)
      refl

abbrev tokens : List String
tokens = "RESPONSE_TEXT: Go" ∷ " on." ∷ []
