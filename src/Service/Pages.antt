-- ===== src/Service/Pages.antt =====
-- services/session_service.py: reading the history page by page.
use luve.Prelude.{
  ℤ, pos, at_least, ℕ, zero, suc, ◌+◌, ◌*◌, ◌≤◌, ◌<◌, min, ◌≡◌, refl, ap, ◌∙◌, sym, arith, Bool,
  true, false, ◌||◌, List, [], ◌∷◌, ◌++◌, length, take, drop, length-take-le, All, Bool-cases, inl,
  inr,
}
use luve.Python.Json.{Runtime}
use luve.Service.Words.{session_has_student_content}
use luve.Service.Listing.{
  comes_first, HistoryRow, SessionListResponse, insert_row, is_visible, select_user_rows,
  with_content, kept_rows, list_user_sessions,
}

module _ {ℓ} {A : Type ℓ} where
  take-none : (n : ℕ) → take n [] ≡ (let xs : List A = [] in xs)
  take-none zero = refl
  take-none (suc n) = refl

  -- A part of a list, and the part after it.
  take-add : (m n : ℕ) (xs : List A) → take (m + n) xs ≡ take m xs ++ take n (drop m xs)
  take-add zero n xs = ap (λ k. take k xs) (omega arith)
  take-add (suc m) n [] = take-none (suc m + n) ∙ sym (take-none n)
  take-add (suc m) n (x ∷ xs) =
      let e : suc m + n ≡ suc (m + n) = omega arith in
      ap (λ k. take k (x ∷ xs)) e ∙ ap (λ ys. x ∷ ys) (take-add m n xs)

  take-all : (n : ℕ) (xs : List A) → length xs ≤ n → take n xs ≡ xs
  take-all zero [] h = refl
  take-all (suc n) [] h = refl
  take-all zero (x ∷ xs) h = absurd (omega arith)
  take-all (suc n) (x ∷ xs) h = ap (λ ys. x ∷ ys) (take-all n xs (omega arith))

module _ {ℓ} {A : Type ℓ} where
  All-take : (P : A → Type 0) (n : ℕ) (xs : List A) → All P xs → All P (take n xs)
  All-take P zero xs h = tt
  All-take P (suc n) [] h = tt
  All-take P (suc n) (x ∷ xs) h = (h.0, All-take P n xs h.1)

  All-drop : (P : A → Type 0) (n : ℕ) (xs : List A) → All P xs → All P (drop n xs)
  All-drop P zero xs h = h
  All-drop P (suc n) [] h = tt
  All-drop P (suc n) (x ∷ xs) h = All-drop P n xs h.1

module _ {N : Type 0} (rt : Runtime N) (user_id limit : ℕ) (include_incomplete : Bool)
    (table : List (HistoryRow N)) where
  abbrev pub page : ℕ → SessionListResponse N
  page i = list_user_sessions rt user_id (pos limit) (pos (i * limit)) include_incomplete table

  -- The items of the first `n` pages.
  abbrev pub pages : ℕ → List (HistoryRow N)
  pages zero = []
  pages (suc n) = pages n ++ (page n).items

  abbrev kept : List (HistoryRow N)
  kept = kept_rows rt include_incomplete (select_user_rows user_id table)

  page-items :
      (i : ℕ) → 0 < limit → limit ≤ 100 → (page i).items ≡ take limit (drop (i * limit) kept)
  unfolding list_user_sessions
  page-items i positive small =
      let e : min (at_least 1 (pos limit)) 100 ≡ limit = omega arith in
      let o : at_least 0 (pos (i * limit)) ≡ i * limit = omega arith in
      ap (λ k. take k (drop (at_least 0 (pos (i * limit))) kept)) e
      ∙ ap (λ k. take limit (drop k kept)) o

  pages-take : (n : ℕ) → 0 < limit → limit ≤ 100 → pages n ≡ take (n * limit) kept
  pages-take zero positive small = let e : 0 ≡ 0 * limit = omega arith in ap (λ k. take k kept) e
  pages-take (suc n) positive small =
      let e : suc n * limit ≡ n * limit + limit = grind arith in
      ap (λ xs. xs ++ (page n).items) (pages-take n positive small)
      ∙ (ap (λ ys. take (n * limit) kept ++ ys) (page-items n positive small)
          ∙ (sym (take-add (n * limit) limit kept) ∙ ap (λ k. take k kept) (sym e)))

  -- Pages of one size up to 100, read one after the other until the total is reached, give the whole
  -- history in its order, each row once: the user's sessions, or of those the ones with student words.
  pub pages-history :
      (n : ℕ)
      → 0 < limit
      → limit ≤ 100
      → (page 0).total ≤ n * limit
      → pages n ≡ kept_rows rt include_incomplete (select_user_rows user_id table)
  unfolding list_user_sessions
  pages-history n positive small reached =
      pages-take n positive small ∙ take-all (n * limit) kept reached

module _ {N : Type 0} (rt : Runtime N) (user_id : ℕ) where
  -- A row that the default history may show.
  abbrev pub IsListed : Bool → HistoryRow N → Type 0
  IsListed include_incomplete row =
      (is_visible user_id row ≡ true)
      × ((include_incomplete || session_has_student_content rt row.raw_backup_json) ≡ true)

  insert_row-All :
      (P : HistoryRow N → Type 0) (row : HistoryRow N) (rows : List (HistoryRow N))
      → P row
      → All P rows
      → All P (insert_row row rows)
  unfolding insert_row
  insert_row-All P row [] h hs = (h, tt)
  insert_row-All P row (r ∷ rows) h hs = elim (Bool-cases (comes_first r row)) [
    | inl first ↦ rw first (hs.0, insert_row-All P row rows h hs.1)
    | inr later ↦ rw later (h, hs)
  ]

  select_user_rows-All :
      (table : List (HistoryRow N))
      → All (λ row. is_visible user_id row ≡ true) (select_user_rows user_id table)
  unfolding select_user_rows
  select_user_rows-All [] = tt
  select_user_rows-All (row ∷ table) = elim (Bool-cases (is_visible user_id row)) [
    | inl shown ↦ rw shown (
        insert_row-All (λ r. is_visible user_id r ≡ true) row (select_user_rows user_id table) shown
          (select_user_rows-All table))
    | inr hidden ↦ rw hidden (select_user_rows-All table)
  ]

  with_content-All :
      (rows : List (HistoryRow N))
      → All (λ row. is_visible user_id row ≡ true) rows
      → All (IsListed false) (with_content rt rows)
  unfolding with_content
  with_content-All [] h = tt
  with_content-All (row ∷ rows) h =
      elim (Bool-cases (session_has_student_content rt row.raw_backup_json)) [
        | inl full ↦ rw full ((h.0, full), with_content-All rows h.1)
        | inr empty ↦ rw empty (with_content-All rows h.1)
      ]

  visible-All :
      (rows : List (HistoryRow N))
      → All (λ row. is_visible user_id row ≡ true) rows
      → All (IsListed true) rows
  visible-All [] h = tt
  visible-All (row ∷ rows) h = ((h.0, refl), visible-All rows h.1)

  kept_rows-All :
      (include_incomplete : Bool) (rows : List (HistoryRow N))
      → All (λ row. is_visible user_id row ≡ true) rows
      → All (IsListed include_incomplete) (kept_rows rt include_incomplete rows)
  unfolding kept_rows
  kept_rows-All true rows h = visible-All rows h
  kept_rows-All false rows h = with_content-All rows h

  -- Whatever limit and offset are asked for, a page has at most 100 rows, and each is a session of the
  -- user that is not deleted and, unless incomplete ones are asked for, has student words.
  pub list_user_sessions-IsListed :
      (limit offset : ℤ) (include_incomplete : Bool) (table : List (HistoryRow N))
      → (let response = list_user_sessions rt user_id limit offset include_incomplete table in
          (length response.items ≤ 100) × All (IsListed include_incomplete) response.items)
  unfolding list_user_sessions
  list_user_sessions-IsListed limit offset include_incomplete table =
      let rows = select_user_rows user_id table in
      let kept = kept_rows rt include_incomplete rows in
      let skipped = drop (at_least 0 offset) kept in
      (
        omega (arith, length-take-le {0} (min (at_least 1 limit) 100) skipped),
        All-take (IsListed include_incomplete) (min (at_least 1 limit) 100) skipped (
            All-drop (IsListed include_incomplete) (at_least 0 offset) kept
              (kept_rows-All include_incomplete rows (select_user_rows-All table))),
      )
