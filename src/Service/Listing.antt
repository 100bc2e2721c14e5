-- ===== src/Service/Listing.antt =====
-- services/session_service.py: `list_user_sessions` and `get_user_session`. The columns that are only
-- passed on are left out.
use luve.Prelude.{
  ℤ, at_least, ℕ, min, Bool, true, false, ◌&&◌, ◌||◌, not, List, [], ◌∷◌, if◌then◌else◌, ltb, ◌==◌,
  length, take, drop, Result, ok, raise,
}
use luve.Python.Json.{Value, Runtime}
use luve.Service.Words.{session_has_student_content}

-- The HTTP errors, by their status codes: 404 and 403.
pub data ServiceError : Type 0 where
  not_found forbidden not_ready : ServiceError

pub record HistoryRow (N : Type 0) : Type 0 where
  pub id : ℕ
  pub user_id : ℕ
  pub started_at : ℕ
  pub raw_backup_json : Value N
  pub is_deleted : Bool

pub record SessionListResponse (N : Type 0) : Type 0 where
  pub items : List (HistoryRow N)
  pub limit : ℕ
  pub offset : ℕ
  pub total : ℕ

module _ {N : Type 0} where
  -- `ORDER BY started_at DESC, id DESC`
  abbrev pub comes_first : HistoryRow N → HistoryRow N → Bool
  comes_first a b = ltb b.started_at a.started_at || (a.started_at == b.started_at && ltb b.id a.id)

  unfoldable pub insert_row : HistoryRow N → List (HistoryRow N) → List (HistoryRow N)
  insert_row row [] = row ∷ []
  insert_row row (r ∷ rows) = if comes_first r row then r ∷ insert_row row rows else row ∷ r ∷ rows

  abbrev pub is_visible : ℕ → HistoryRow N → Bool
  is_visible user_id row = row.user_id == user_id && not row.is_deleted

  unfoldable pub select_user_rows : ℕ → List (HistoryRow N) → List (HistoryRow N)
  select_user_rows user_id [] = []
  select_user_rows user_id (row ∷ table) =
      let rest = select_user_rows user_id table in
      if is_visible user_id row then insert_row row rest else rest

  abbrev pub is_asked_for : ℕ → ℕ → HistoryRow N → Bool
  is_asked_for session_id user_id row = row.id == session_id && is_visible user_id row

  unfoldable pub get_user_session : ℕ → ℕ → List (HistoryRow N) → Result ServiceError (HistoryRow N)
  get_user_session session_id user_id [] = raise not_found
  get_user_session session_id user_id (row ∷ table) =
      if is_asked_for session_id user_id row
      then ok row
      else get_user_session session_id user_id table

abbrev pub session_list_max_limit : ℕ
session_list_max_limit = 100

module _ {N : Type 0} (rt : Runtime N) where
  unfoldable pub with_content : List (HistoryRow N) → List (HistoryRow N)
  with_content [] = []
  with_content (row ∷ rows) =
      let rest = with_content rows in
      if session_has_student_content rt row.raw_backup_json then row ∷ rest else rest

  unfoldable pub kept_rows : Bool → List (HistoryRow N) → List (HistoryRow N)
  kept_rows true all_rows = all_rows
  kept_rows false all_rows = with_content all_rows

  unfoldable pub list_user_sessions : ℕ → ℤ → ℤ → Bool → List (HistoryRow N) → SessionListResponse N
  list_user_sessions user_id limit offset include_incomplete table =
      let safe_limit = min (at_least 1 limit) session_list_max_limit in
      let safe_offset = at_least 0 offset in
      let kept = kept_rows include_incomplete (select_user_rows user_id table) in
      record {
        items = take safe_limit (drop safe_offset kept);
        limit = safe_limit;
        offset = safe_offset;
        total = length kept;
      }
