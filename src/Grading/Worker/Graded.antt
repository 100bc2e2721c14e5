-- ===== src/Grading/Worker/Graded.antt =====
-- worker.py: a graded row under the actions of a job.
use luve.Prelude.{
  ◌∙◌, subst, sym, ◌≡◌, refl, true, false, arith, ℕ, Bool, Option, none, some, Result, ok, raise,
  Bool-cases, inl, inr, ◌==◌, Result-cases,
}
use luve.Python.Json.{Value, Runtime, Floats, Unicode}
use luve.Grading.Input.{SessionRow, EvaluationInput}
use luve.Grading.Fake.{fake_grade}
use luve.Grading.Builder.{build-session_id}
use luve.Grading.Store.{
  SkipRow, Db, GradingRow, GradingResult, is_graded, fetch_session_row, mark_grading_processing,
  mark_grading_failed, upsert_grading_result, log_grading_skip,
}
use luve.Grading.World.{
  bind-db, call-ok, Keeps-call, ask-db, Exc, Answer, refused, answered, World, call, ask, Keeps,
}
use luve.Grading.Llm.{parse_grading_response}
use luve.Grading.Llm.Reply.{parse_grading_response-IsGrade}
use luve.Grading.Worker.{
  skip, build_evaluation_input, BuildError, fetch, evaluate_grading_eligibility, grade_built,
  after_mark, Provider, fake, llm, finish, finish, String, Config, Calls, grade, grade_session,
  llm_grade, llm_result, with_quality, store, mark_failed, mark_failed_if_supported, process_row,
  process_session, process_session_completed_job, provider_name,
}

module _ {N : Type 0} (k : ℕ) (r : GradingRow N) (graded : is_graded r.status ≡ true) where
  -- The database holds the row.
  abbrev pub HasRow : Db N → Type 0
  HasRow db = db.results k ≡ some r

  log_grading_skip-HasRow :
      (id : ℕ) (s : SkipRow) (db : Db N) → HasRow db → HasRow (log_grading_skip id s db)
  unfolding log_grading_skip
  log_grading_skip-HasRow id s db h = h

  mark_grading_failed-HasRow :
      (id : ℕ) (p c m : String) (db : Db N) → HasRow db → HasRow (mark_grading_failed id p c m db)
  unfolding mark_grading_failed
  mark_grading_failed-HasRow id p c m db row = ground (arith, row, graded)

  -- If the mark is granted, the session is another one.
  mark_grading_processing-HasRow :
      (id : ℕ) (p : String) (db : Db N)
      → HasRow db
      → HasRow (mark_grading_processing id p db).1
        × ((mark_grading_processing id p db).0 ≡ true → (k == id) ≡ false)
  unfolding mark_grading_processing
  mark_grading_processing-HasRow id p db row =
      (ground (arith, row, graded), ground (arith, row, graded))

  upsert_grading_result-HasRow :
      (result : GradingResult N) (db : Db N)
      → (k == result.session_id) ≡ false
      → HasRow db
      → HasRow (upsert_grading_result result db)
  unfolding upsert_grading_result
  upsert_grading_result-HasRow result db other row = rw other row

module _ {N : Type 0} (rt : Runtime N) (fl : Floats N) (uni : Unicode) (calls : Calls N)
    (cfg : Config) where
  llm_grade-session_id :
      (input : EvaluationInput) (answer : Answer) (result : GradingResult N)
      → llm_grade rt fl uni calls cfg input answer ≡ ok result
      → result.session_id ≡ input.session_id
  unfolding llm_grade llm_result
  llm_grade-session_id input refused result h = cc
  llm_grade-session_id input (answered reply) result h =
      elim (Result-cases (parse_grading_response rt fl reply input.session_id)) [
        | inl (g, e) ↦
            ground
              (arith, e, (parse_grading_response-IsGrade rt fl reply input.session_id g e).session)
        | inr (_, e) ↦ ground (arith, e)
      ]

  finish-session_id :
      (id : ℕ) (input : EvaluationInput) (r : Result Exc (GradingResult N)) (w : World N)
      (result : GradingResult N)
      → ((x : GradingResult N) → r ≡ ok x → x.session_id ≡ input.session_id)
      → (finish rt fl uni calls cfg id input r w).0 ≡ ok result
      → result.session_id ≡ input.session_id
  unfolding finish fake_grade mark_failed_if_supported
  finish-session_id id input (ok x) w result own h = ground (arith, own x refl)
  finish-session_id id input (raise e) w result own h = ground arith

  -- A grade is for the session of its input.
  pub grade-session_id :
      (p : Provider) (id : ℕ) (input : EvaluationInput) (w : World N) (result : GradingResult N)
      → (grade rt fl uni calls cfg p id input w).0 ≡ ok result
      → result.session_id ≡ input.session_id
  unfolding grade fake_grade
  grade-session_id fake id input w result h = ground arith
  grade-session_id llm id input w result h =
      finish-session_id id input (llm_grade rt fl uni calls cfg input (ask w).0) (ask w).1 result
        (llm_grade-session_id input (ask w).0) h

  pub with_quality-session_id :
      (input : EvaluationInput) (result : GradingResult N)
      → (with_quality rt fl uni calls cfg input result).session_id ≡ result.session_id
  unfolding with_quality
  with_quality-session_id input result = ground arith

  pub fetched-id :
      (id : ℕ) (db : Db N) (s : SessionRow N) → fetch_session_row id db ≡ some s → s.id ≡ id
  unfolding fetch_session_row
  fetched-id id db s e = ground (arith, e)

  module _ (k : ℕ) (r : GradingRow N) (graded : is_graded r.status ≡ true) where
    abbrev P : Db N → Type 0
    P = HasRow k r graded

    pub mark_failed-Keeps :
        (id : ℕ) (e : Exc) → Keeps P (call (mark_failed rt fl uni calls cfg id e))
    unfolding mark_failed
    mark_failed-Keeps id e =
        Keeps-call P _ (λ db h. mark_grading_failed-HasRow k r graded id _ _ _ db h)

    finish-Keeps :
        (id : ℕ) (input : EvaluationInput) (x : Result Exc (GradingResult N))
        → Keeps P (finish rt fl uni calls cfg id input x)
    unfolding finish mark_failed_if_supported
    finish-Keeps id input (ok x) w h = h
    finish-Keeps id input (raise e) w h = elim (Bool-cases cfg.fake_fallback) [
      | inl stands_in ↦ rw stands_in h
      | inr gives_up ↦ rw gives_up (mark_failed-Keeps id e w h)
    ]

    grade-Keeps :
        (p : Provider) (id : ℕ) (input : EvaluationInput)
        → Keeps P (grade rt fl uni calls cfg p id input)
    unfolding grade
    grade-Keeps fake id input w h = h
    grade-Keeps llm id input w h =
        finish-Keeps id input (llm_grade rt fl uni calls cfg input (ask w).0) (ask w).1
          (subst P (sym (ask-db w)) h)

    store-Keeps :
        (input : EvaluationInput) (result : GradingResult N)
        → (k == result.session_id) ≡ false
        → Keeps P (call (store rt fl uni calls cfg (with_quality rt fl uni calls cfg input result)))
    store-Keeps input result other = Keeps-call P _ (λ db h.
        upsert_grading_result-HasRow k r graded _ db
          (rw (with_quality-session_id input result) other) h)

    after_mark-Keeps :
        (id : ℕ) (input : EvaluationInput) (fresh : Bool)
        → input.session_id ≡ id
        → (fresh ≡ true → (k == id) ≡ false)
        → Keeps P (after_mark rt fl uni calls cfg id input fresh)
    unfolding after_mark
    after_mark-Keeps id input false own other w h = h
    after_mark-Keeps id input true own other w h =
        bind-db P (grade rt fl uni calls cfg cfg.provider id input)
          (λ result.
            call (store rt fl uni calls cfg (with_quality rt fl uni calls cfg input result)))
          w (grade-Keeps cfg.provider id input w h)
          (λ result e.
            store-Keeps input result
              (rw (grade-session_id cfg.provider id input w result e) (rw own (other refl)))
              (grade rt fl uni calls cfg cfg.provider id input w).1
              (grade-Keeps cfg.provider id input w h))

    grade_session-Keeps :
        (id : ℕ) (input : EvaluationInput)
        → input.session_id ≡ id
        → Keeps P (grade_session rt fl uni calls cfg id input)
    unfolding grade_session
    grade_session-Keeps id input own w h =
        let mark : Db N → Bool × Db N = mark_grading_processing id (provider_name cfg.provider) in
        let marks = mark_grading_processing-HasRow k r graded id (provider_name cfg.provider) in
        let kept = Keeps-call P mark (λ db h'. (marks db h').0) w h in
        bind-db P (call mark) (after_mark rt fl uni calls cfg id input) w kept (λ fresh e.
          after_mark-Keeps id input fresh own
            (λ yes. (marks w.db h).1 (sym (call-ok mark w fresh e).0 ∙ yes)) (call mark w).1 kept)

    grade_built-Keeps :
        (id : ℕ) (x : Result BuildError EvaluationInput)
        → ((input : EvaluationInput) → x ≡ ok input → input.session_id ≡ id)
        → Keeps P (grade_built rt fl uni calls cfg id x)
    unfolding grade_built
    grade_built-Keeps id (ok input) own w h = grade_session-Keeps id input (own input refl) w h
    grade_built-Keeps id (raise e) own w h = h

    process_row-Keeps :
        (id : ℕ) (row : Option (SessionRow N))
        → ((s : SessionRow N) → row ≡ some s → s.id ≡ id)
        → Keeps P (process_row rt fl uni calls cfg id row)
    unfolding process_row
    process_row-Keeps id none own w h = h
    process_row-Keeps id (some s) own w h =
        elim (Bool-cases
          (evaluate_grading_eligibility rt s.raw_backup_json cfg.min_student_words).is_eligible) [
            | inl passes ↦ rw passes (
                grade_built-Keeps id (build_evaluation_input rt fl cfg.stack_depth s)
                  (λ input e. build-session_id rt fl cfg.stack_depth s input e ∙ own s refl) w h)
            | inr fails ↦ rw fails (
                Keeps-call P
                  (skip rt fl uni calls cfg id
                    (evaluate_grading_eligibility rt s.raw_backup_json cfg.min_student_words))
                  (λ db h'. log_grading_skip-HasRow k r graded id _ db h') w h)
          ]

    process_session-Keeps : (id : Option ℕ) → Keeps P (process_session rt fl uni calls cfg id)
    unfolding process_session
    process_session-Keeps none w h = h
    process_session-Keeps (some id) w h =
        let fetching : Db N → Option (SessionRow N) × Db N = fetch rt fl uni calls cfg id in
        let kept = Keeps-call P fetching (λ db h'. h') w h in
        bind-db P (call fetching) (process_row rt fl uni calls cfg id) w kept (λ row e.
          process_row-Keeps id row
            (λ s e'. fetched-id id w.db s (sym (call-ok fetching w row e).0 ∙ e'))
            (call fetching w).1 kept)

    pub process_session_completed_job-Keeps :
        (payload : Value N) → Keeps P (process_session_completed_job rt fl uni calls cfg payload)
    unfolding process_session_completed_job
    process_session_completed_job-Keeps payload =
        process_session-Keeps (calls.model_validate payload)
