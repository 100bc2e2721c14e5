-- ===== src/Service/Create.antt =====
-- services/session_service.py: `create_webrtc_session`, against the session store that the stream
-- joins. The row's counters and times are left out.
use Prim.Native.String.{String}
use luve.Python.Text.{lower, map_chars, is_in}
use luve.Prelude.{
  ==_iff, ℕ, ◌≡◌, refl, arith, Bool, true, false, Option, none, some, ◌==◌, if◌then◌else◌, Result,
  ok, raise,
}
use luve.Python.Json.{string, Fields, field, end}
use luve.Sessions.{
  StoredSession, Table, select_live, is_joinable, reserve_persisted_session, get_session_owner,
}
use luve.Service.Listing.{ServiceError, not_found}

-- A request, its lesson and its metadata.
pub record SessionCreateRequest (N : Type 0) : Type 0 where
  pub lesson_id : Option ℕ
  pub metadata : Fields N

-- A row that is returned.
pub record SessionRead (N : Type 0) : Type 0 where
  pub id : ℕ
  pub session : StoredSession N
  pub lesson_id : Option ℕ
  pub metadata : Fields N

-- Whether the lesson is asked for and not there; `lessons` says of each lesson whether it is deleted.
abbrev pub is_missing : (ℕ → Option Bool) → Option ℕ → Bool
is_missing lessons none = false
is_missing lessons (some lesson) = elim (lessons lesson) [
  | none ↦ true
  | some is_deleted ↦ is_deleted
]

module _ {N : Type 0} where
  -- `{…, **metadata}`: a key of the request hides a default, and the first entry of a key counts.
  unfoldable pub with_defaults : Fields N → Fields N
  with_defaults end =
      field "transport" (string "webrtc_ten") (field "created_by" (string "core_api") end)
  with_defaults (field key value rest) = field key value (with_defaults rest)

  abbrev pub new_session : String → StoredSession N
  new_session user_id = record {
    user_id = user_id;
    status = some "ready";
    raw_backup_json = none;
    is_deleted = false;
  }

  -- The id is the one that the database chooses.
  unfoldable pub create_webrtc_session :
      (ℕ → Option Bool)
      → String
      → SessionCreateRequest N
      → ℕ
      → Table N
      → Result ServiceError (SessionRead N) × Table N
  create_webrtc_session lessons user_id payload id sessions =
      if is_missing lessons payload.lesson_id then (raise not_found, sessions) else (
        ok (record {
          id = id;
          session = new_session user_id;
          lesson_id = payload.lesson_id;
          metadata = with_defaults payload.metadata;
        }),
        λ j. if j == id then some (new_session user_id) else sessions j,
      )

ready-joinable : (M : Type 0) (user_id : String) → is_joinable (new_session {N = M} user_id) ≡ true
unfolding is_joinable lower map_chars is_in
ready-joinable M user_id = refl

module _ {N : Type 0} where
  created-live :
      (lessons : ℕ → Option Bool) (user_id : String) (payload : SessionCreateRequest N) (id : ℕ)
      (sessions : Table N)
      → is_missing lessons payload.lesson_id ≡ false
      → select_live id (create_webrtc_session lessons user_id payload id sessions).1
        ≡ some (new_session user_id)
  unfolding create_webrtc_session select_live
  created-live lessons user_id payload id sessions there =
      rw (there, select_live) (rw ((==_iff id id).1 refl, select_live) refl)

  owner_of :
      (id : ℕ) (sessions : Table N) (s : StoredSession N)
      → select_live id sessions ≡ some s
      → get_session_owner id sessions ≡ ok s.user_id
  unfolding get_session_owner
  owner_of id sessions s h = ground (arith, h)

  reserved :
      (id : ℕ) (sessions : Table N) (s : StoredSession N)
      → select_live id sessions ≡ some s
      → is_joinable s ≡ true
      → (reserve_persisted_session id sessions).0 ≡ ok tt
  unfolding reserve_persisted_session
  reserved id sessions s h joins = ground (arith, h, joins)

  -- A session is created unless its lesson is missing; then it belongs to the user, a stream can join
  -- it at once, and another session is as it was.
  pub create_webrtc_session-joined :
      (lessons : ℕ → Option Bool) (user_id : String) (payload : SessionCreateRequest N) (id j : ℕ)
      (sessions : Table N)
      → is_missing lessons payload.lesson_id ≡ false
      → (j == id) ≡ false
      → let (_, created) = create_webrtc_session lessons user_id payload id sessions in
        (get_session_owner id created ≡ ok user_id)
        × ((reserve_persisted_session id created).0 ≡ ok tt)
        × (created j ≡ sessions j)
  unfolding create_webrtc_session
  create_webrtc_session-joined lessons user_id payload id j sessions there other =
      let (_, created) = create_webrtc_session lessons user_id payload id sessions in
      let found = created-live lessons user_id payload id sessions there in
      (
        owner_of id created (new_session user_id) found,
        reserved id created (new_session user_id) found (ready-joinable N user_id),
        rw there (rw other refl),
      )
