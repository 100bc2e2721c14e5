-- ===== src/Grading/Worker/Settled.antt =====
-- What a job that returns has left in the database.
use luve.Prelude.{
  Bool-cases, ◌∙◌, sym, arith, refl, ◌≡◌, ◌⊎◌, inl, inr, Bool, true, false, ℕ, Option, none, some,
  Result, ok, raise,
}
use luve.Python.Json.{Runtime, Floats, Unicode}
use luve.Grading.Store.{
  GradingResult, mark_grading_failed, SkipRow, mark_grading_processing, upsert_grading_result,
  log_grading_skip, Db, GradingStatus, graded, failed, fetch_session_row,
}
use luve.Grading.Builder.{build-session_id}
use luve.Grading.Worker.Graded.{with_quality-session_id, grade-session_id, fetched-id}
use luve.Grading.World.{bind-ok, call-ok, Exc, World, M, call}
use luve.Grading.Worker.{
  fetch, process_session, skip, evaluate_grading_eligibility, build_evaluation_input, BuildError,
  provider_name, SessionRow, grade_built, grade_session, process_row, grade, with_quality, store,
  EvaluationInput, after_mark, String, mark_failed, Config, Calls,
}

-- A status that ends a session's grading.
abbrev pub is_final : GradingStatus → Bool
is_final graded = true
is_final failed = true
is_final _ = false

-- The session's row is graded or failed.
abbrev pub is_closed : {N : Type 0} → ℕ → Db N → Bool
is_closed id db = elim (db.results id) [ none ↦ false | some r ↦ is_final r.status ]

abbrev pub is_skipped : {N : Type 0} → ℕ → Db N → Bool
is_skipped id db = elim (db.skips id) [ none ↦ false | some _ ↦ true ]

-- The session is not there, or its row is graded or failed, or its skip is logged.
abbrev pub Final : {N : Type 0} → ℕ → Db N → Type 0
Final id db =
    (fetch_session_row id db ≡ none) ⊎ ((is_closed id db ≡ true) ⊎ (is_skipped id db ≡ true))

module _ {N : Type 0} (rt : Runtime N) (fl : Floats N) (uni : Unicode) (calls : Calls N)
    (cfg : Config) where
  pub mark_failed-closed :
      (id : ℕ) (e : Exc) (db : Db N)
      → is_closed id (mark_failed rt fl uni calls cfg id e db).1 ≡ true
  unfolding mark_failed mark_grading_failed
  mark_failed-closed id e db = ground arith

  refused_mark :
      (id : ℕ) (p : String) (db : Db N)
      → (mark_grading_processing id p db).0 ≡ false
      → is_closed id (mark_grading_processing id p db).1 ≡ true
  unfolding mark_grading_processing
  refused_mark id p db h = ground arith

  stored :
      (id : ℕ) (result : GradingResult N) (db : Db N)
      → result.session_id ≡ id
      → is_closed id (upsert_grading_result result db) ≡ true
  unfolding upsert_grading_result
  stored id result db own = ground arith

  logged : (id : ℕ) (s : SkipRow) (db : Db N) → is_skipped id (log_grading_skip id s db) ≡ true
  unfolding log_grading_skip
  logged id s db = ground arith

  after_mark-closed :
      (id : ℕ) (input : EvaluationInput) (fresh : Bool) (w : World N)
      → input.session_id ≡ id
      → (fresh ≡ false → is_closed id w.db ≡ true)
      → (after_mark rt fl uni calls cfg id input fresh w).0 ≡ ok tt
      → is_closed id (after_mark rt fl uni calls cfg id input fresh w).1.db ≡ true
  unfolding after_mark
  after_mark-closed id input false w own h e = h refl
  after_mark-closed id input true w own h e =
      let quality = with_quality rt fl uni calls cfg input in
      let writes : GradingResult N → M N (Unit {0}) =
        λ result. call (store rt fl uni calls cfg (quality result)) in
      let (result, (got, wrote, same)) =
        bind-ok (grade rt fl uni calls cfg cfg.provider id input) writes w tt e in
      let w' = (grade rt fl uni calls cfg cfg.provider id input w).1 in
      let ran = (call-ok (store rt fl uni calls cfg (quality result)) w' tt wrote).1 in
      let own' =
        with_quality-session_id rt fl uni calls cfg input result
        ∙ grade-session_id rt fl uni calls cfg cfg.provider id input w result got
        ∙ own in
      rw (same, ran) (stored id (quality result) w'.db own')

  grade_session-closed :
      (id : ℕ) (input : EvaluationInput) (w : World N)
      → input.session_id ≡ id
      → (grade_session rt fl uni calls cfg id input w).0 ≡ ok tt
      → is_closed id (grade_session rt fl uni calls cfg id input w).1.db ≡ true
  unfolding grade_session
  grade_session-closed id input w own e =
      let mark : Db N → Bool × Db N = mark_grading_processing id (provider_name cfg.provider) in
      let (fresh, (got, went, same)) =
        bind-ok (call mark) (after_mark rt fl uni calls cfg id input) w tt e in
      let (said, ran) = call-ok mark w fresh got in
      rw same (
        after_mark-closed id input fresh (call mark w).1 own
          (λ no. rw ran (refused_mark id (provider_name cfg.provider) w.db (sym said ∙ no))) went)

  grade_built-closed :
      (id : ℕ) (x : Result BuildError EvaluationInput) (w : World N)
      → ((input : EvaluationInput) → x ≡ ok input → input.session_id ≡ id)
      → (grade_built rt fl uni calls cfg id x w).0 ≡ ok tt
      → is_closed id (grade_built rt fl uni calls cfg id x w).1.db ≡ true
  unfolding grade_built
  grade_built-closed id (ok input) w own e = grade_session-closed id input w (own input refl) e
  grade_built-closed id (raise x) w own e = cc

  process_row-Final :
      (id : ℕ) (row : Option (SessionRow N)) (w : World N)
      → ((s : SessionRow N) → row ≡ some s → s.id ≡ id)
      → (row ≡ none → fetch_session_row id w.db ≡ none)
      → (process_row rt fl uni calls cfg id row w).0 ≡ ok tt
      → Final id (process_row rt fl uni calls cfg id row w).1.db
  unfolding process_row
  process_row-Final id none w own gone e = inl (gone refl)
  process_row-Final id (some s) w own gone e =
      let built = build_evaluation_input rt fl cfg.stack_depth s in
      let verdict = evaluate_grading_eligibility rt s.raw_backup_json cfg.min_student_words in
      elim (Bool-cases verdict.is_eligible) [
        | inl passes ↦ inr (
            inl (
              rw passes (
                grade_built-closed id built w
                  (λ input x. build-session_id rt fl cfg.stack_depth s input x ∙ own s refl)
                  (rw passes at e))))
        | inr fails ↦ inr (
            inr (
              rw fails (
                rw ((call-ok (skip rt fl uni calls cfg id verdict) w tt (rw fails at e)).1)
                  (logged id _ w.db))))
      ]

  -- A job that returns has settled its session.
  pub process_session-Final :
      (id : ℕ) (w : World N)
      → (process_session rt fl uni calls cfg (some id) w).0 ≡ ok tt
      → Final id (process_session rt fl uni calls cfg (some id) w).1.db
  unfolding process_session
  process_session-Final id w e =
      let fetching : Db N → Option (SessionRow N) × Db N = fetch rt fl uni calls cfg id in
      let (row, (got, went, same)) =
        bind-ok (call fetching) (process_row rt fl uni calls cfg id) w tt e in
      let (said, ran) = call-ok fetching w row got in
      rw same (
        process_row-Final id row (call fetching w).1
          (λ s x. fetched-id rt fl uni calls cfg id w.db s (sym said ∙ x))
          (λ x. rw ran (sym said ∙ x)) went)
