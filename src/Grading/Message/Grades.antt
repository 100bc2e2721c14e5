-- ===== src/Grading/Message/Grades.antt =====
-- worker.py: the message of a session that can be graded, in a run without faults.
use Prim.Native.String.{String}
use luve.Prelude.{
  subst, ap, inr, inl, refl, ◌≡◌, ◌≢◌, arith, sym, ◌∙◌, [], true, false, ℕ, zero, suc, none, some,
  Option-cases, ok,
}
use luve.Python.Json.{Value, loaded, Runtime, Floats, Unicode}
use luve.Grading.Eligibility.{evaluate_grading_eligibility}
use luve.Grading.Input.{SessionRow, EvaluationInput}
use luve.Grading.Builder.{build_evaluation_input, build-session_id}
use luve.Grading.Fake.{fake_grade}
use luve.Grading.Store.{
  Db, GradingRow, GradingResult, graded, is_graded, fetch_session_row, mark_grading_processing,
  upsert_grading_result,
}
use luve.Grading.World.{World, M, call, bind}
use luve.Grading.Worker.{
  Provider, fake, llm, Config, Calls, provider_name, grade, after_mark, grade_session, grade_built,
  process_row, process_session, process_session_completed_job, with_quality, store, fetch,
}
use luve.Grading.Worker.Graded.{fetched-id}
use luve.Grading.Message.{
  Bool, ack, settle, after_attempt, attempt, give_up, process_payload_with_retries,
  handle_queue_message,
}

module _ {N : Type 0} where
  bind-step :
      {A B : Type 0} (m : M N A) (f : A → M N B) (w : World N) (a : A) (w' : World N)
      → m w ≡ (ok a, w')
      → bind m f w ≡ f a w'
  bind-step m f w a w' e = ap (λ x. bind (λ _. x) f w) e

  call-succeeds :
      {A : Type 0} (f : Db N → A × Db N) (w : World N)
      → w.outcomes ≡ []
      → call f w ≡ (ok (f w.db).0, record w { db = (f w.db).1 })
  unfolding call
  call-succeeds f w calm = rw calm refl

  -- The mark is granted unless the row is graded.
  granted :
      (id : ℕ) (p : String) (db : Db N)
      → ((r : GradingRow N) → db.results id ≡ some r → is_graded r.status ≡ false)
      → (mark_grading_processing id p db).0 ≡ true
  unfolding mark_grading_processing
  granted id p db ungraded = elim (Option-cases (db.results id)) [
    | inl new ↦ ground (arith, new)
    | inr (r, there) ↦ ground (arith, there, ungraded r there)
  ]

  -- The session's row is graded with the result.
  abbrev pub IsStored : ℕ → GradingResult N → Db N → Type 0
  IsStored id result db =
      (r : GradingRow N) × ((db.results id ≡ some r)
        × (r.status ≡ graded)
        × (r.result ≡ some result))

  stored :
      (id : ℕ) (result : GradingResult N) (db : Db N)
      → result.session_id ≡ id
      → IsStored id result (upsert_grading_result result db)
  unfolding upsert_grading_result
  stored id result db own =
      let attempts : ℕ = elim (db.results result.session_id) [
        | none ↦ 0
        | some r ↦ r.attempt_count
      ] in
      let row : GradingRow N = record {
        status = graded;
        provider = result.provider;
        attempt_count = attempts;
        error_code = none;
        error_message = none;
        result = some result;
      } in
      (row, (ground (arith, own), refl, refl))

module _ {N : Type 0} (rt : Runtime N) (fl : Floats N) (uni : Unicode) (calls : Calls N)
    (cfg : Config) where
  -- The world after a session is graded by the fake provider.
  abbrev after : ℕ → EvaluationInput → World N → World N
  after id input w = record w {
    db =
        upsert_grading_result (fake_grade fl uni input)
          (mark_grading_processing id (provider_name cfg.provider) w.db).1;
  }

  with_quality-fake :
      (input : EvaluationInput)
      → with_quality rt fl uni calls cfg input (fake_grade fl uni input) ≡ fake_grade fl uni input
  unfolding with_quality fake_grade
  with_quality-fake input = refl

  fake-session_id :
      (input : EvaluationInput) → (fake_grade fl uni input).session_id ≡ input.session_id
  unfolding fake_grade
  fake-session_id input = refl

  grade-fake :
      (p : Provider) (id : ℕ) (input : EvaluationInput) (w : World N)
      → p ≡ fake
      → grade rt fl uni calls cfg p id input w ≡ (ok (fake_grade fl uni input), w)
  unfolding grade
  grade-fake fake id input w e = refl
  grade-fake llm id input w e = cc

  grade_session-grades :
      (id : ℕ) (input : EvaluationInput) (w : World N)
      → cfg.provider ≡ fake
      → w.outcomes ≡ []
      → ((r : GradingRow N) → w.db.results id ≡ some r → is_graded r.status ≡ false)
      → grade_session rt fl uni calls cfg id input w ≡ (ok tt, after id input w)
  unfolding grade_session after_mark
  grade_session-grades id input w is_fake calm ungraded =
      let mark : Db N → Bool × Db N = mark_grading_processing id (provider_name cfg.provider) in
      let w' = record w { db = (mark w.db).1 } in
      let grading = grade rt fl uni calls cfg cfg.provider id input in
      let writes : GradingResult N → M N (Unit {0}) = λ result.
        call (store rt fl uni calls cfg (with_quality rt fl uni calls cfg input result)) in
      bind-step (call mark) (after_mark rt fl uni calls cfg id input) w (mark w.db).0 w'
        (call-succeeds mark w calm)
      ∙ (rw (granted id (provider_name cfg.provider) w.db ungraded) (
          bind-step grading writes w' (fake_grade fl uni input) w'
            (grade-fake cfg.provider id input w' is_fake)
          ∙ (rw (with_quality-fake input)
              (call-succeeds (store rt fl uni calls cfg (fake_grade fl uni input)) w' calm))))

  process_session-grades :
      (id : ℕ) (row : SessionRow N) (input : EvaluationInput) (w : World N)
      → cfg.provider ≡ fake
      → w.outcomes ≡ []
      → fetch_session_row id w.db ≡ some row
      → (evaluate_grading_eligibility rt row.raw_backup_json cfg.min_student_words).is_eligible
        ≡ true
      → build_evaluation_input rt fl cfg.stack_depth row ≡ ok input
      → ((r : GradingRow N) → w.db.results id ≡ some r → is_graded r.status ≡ false)
      → process_session rt fl uni calls cfg (some id) w ≡ (ok tt, after id input w)
  unfolding process_session process_row grade_built
  process_session-grades id row input w is_fake calm found passes built ungraded =
      bind-step (call (fetch rt fl uni calls cfg id)) (process_row rt fl uni calls cfg id) w
        (fetch_session_row id w.db) w (call-succeeds (fetch rt fl uni calls cfg id) w calm)
      ∙ (rw found (rw passes (rw built (grade_session-grades id input w is_fake calm ungraded))))

  attempt-done :
      (n : ℕ) (payload : Value N) (w w' : World N)
      → n ≢ 0
      → process_session rt fl uni calls cfg (calls.model_validate payload) w ≡ (ok tt, w')
      → attempt rt fl uni calls cfg n none payload w ≡ (ok none, w')
  unfolding attempt after_attempt process_session_completed_job
  attempt-done zero payload w w' tried e = absurd (tried refl)
  attempt-done (suc n) payload w w' tried e =
      ap
        (λ x.
          after_attempt rt fl uni calls cfg (λ y. attempt rt fl uni calls cfg n (some y) payload)
            x.0 x.1)
        e

  pub handle_queue_message-grades :
      (payload : Value N) (id : ℕ) (row : SessionRow N) (input : EvaluationInput) (w : World N)
      → cfg.provider ≡ fake
      → cfg.max_attempts ≢ 0
      → w.outcomes ≡ []
      → calls.model_validate payload ≡ some id
      → fetch_session_row id w.db ≡ some row
      → (evaluate_grading_eligibility rt row.raw_backup_json cfg.min_student_words).is_eligible
        ≡ true
      → build_evaluation_input rt fl cfg.stack_depth row ≡ ok input
      → ((r : GradingRow N) → w.db.results id ≡ some r → is_graded r.status ≡ false)
      → ((handle_queue_message rt fl uni calls cfg (loaded payload) w).0 ≡ ack)
        × IsStored id
            (fake_grade fl uni input)
            (handle_queue_message rt fl uni calls cfg (loaded payload) w).1.db
  unfolding handle_queue_message process_payload_with_retries give_up settle
  handle_queue_message-grades payload id row input w is_fake tried calm named found passes built
        ungraded =
      let tries = attempt rt fl uni calls cfg cfg.max_attempts none payload in
      let finished = after id input w in
      let handled =
        bind-step tries (give_up rt fl uni calls cfg (calls.model_validate payload)) w none finished
          (attempt-done cfg.max_attempts payload w finished tried (
            rw named
              (process_session-grades id row input w is_fake calm found passes built ungraded))) in
      let own =
        fake-session_id input
        ∙ build-session_id rt fl cfg.stack_depth row input built
        ∙ fetched-id rt fl uni calls cfg id w.db row found in
      subst
        (λ x. (settle rt fl uni calls cfg x.0 ≡ ack) × IsStored id (fake_grade fl uni input) x.1.db)
        (sym handled)
        (
          refl,
          stored id (fake_grade fl uni input)
              (mark_grading_processing id (provider_name cfg.provider) w.db).1 own,
        )
