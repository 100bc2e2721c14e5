-- ===== src/Grading/Scanner/Dry.antt =====
-- A dry run against a run that grades.
use Prim.Native.String.{String}
use luve.Prelude.{
  Bool, not, if◌then◌else◌, if_both, refl, ap, ◌∙◌, subst, ◌+◌, ◌≡◌, arith, true, false, List, [],
  ◌∷◌, sym, Result, ok, raise,
}
use luve.Python.Json.{string, Runtime, Floats, Unicode}
use luve.Python.Text.{is_empty}
use luve.Grading.Eligibility.{Reason, evaluate_grading_eligibility}
use luve.Grading.World.{World, Exc}
use luve.Grading.Worker.{Config, Calls, process_session_completed_job}
use luve.Grading.Scanner.{
  payload_for, Candidate, Args, Counters, Scan, or_blank, is_recent, count_dry, count_refused,
  dry_row, execute_row, scan_row, after_job, scan_rows,
}

abbrev pub dry : Args → Args
dry args = record args { execute = false }

abbrev pub live : Args → Args
live args = record args { execute = true }

-- The dry run skips the same rows for the same reasons, and would process what the other one processes
-- or fails at.
pub record Foretells (c c' : Counters) : Type 0 where
  pub no_raw_backups : c.skipped_no_raw_backup ≡ c'.skipped_no_raw_backup
  pub grace_windows : c.skipped_grace_window ≡ c'.skipped_grace_window
  pub invalid_raws : c.skipped_invalid_raw ≡ c'.skipped_invalid_raw
  pub no_turns : c.skipped_no_user_turns ≡ c'.skipped_no_user_turns
  pub few_words : c.skipped_insufficient_words ≡ c'.skipped_insufficient_words
  pub attempts : c.would_process ≡ c'.processed + c'.errors

reason-Foretells :
    (reason : Reason) (c c' : Counters)
    → Foretells c c'
    → Foretells (count_dry reason c) (count_refused reason c')
unfolding count_dry count_refused
reason-Foretells Reason.invalid_raw_backup c c' f = record {
  no_raw_backups = f.no_raw_backups;
  grace_windows = f.grace_windows;
  invalid_raws = omega (arith, f.invalid_raws);
  no_turns = f.no_turns;
  few_words = f.few_words;
  attempts = f.attempts;
}
reason-Foretells Reason.no_user_turns c c' f = record {
  no_raw_backups = f.no_raw_backups;
  grace_windows = f.grace_windows;
  invalid_raws = f.invalid_raws;
  no_turns = omega (arith, f.no_turns);
  few_words = f.few_words;
  attempts = f.attempts;
}
reason-Foretells Reason.insufficient_words c c' f = record {
  no_raw_backups = f.no_raw_backups;
  grace_windows = f.grace_windows;
  invalid_raws = f.invalid_raws;
  no_turns = f.no_turns;
  few_words = omega (arith, f.few_words);
  attempts = f.attempts;
}
reason-Foretells Reason.no_raw_backup c c' f = f
reason-Foretells Reason.eligible c c' f = f

module _ {N : Type 0} (rt : Runtime N) (fl : Floats N) (uni : Unicode) (calls : Calls N)
    (cfg : Config) where
  job-Foretells :
      (c c' : Counters) (r : Result Exc (Unit {0})) (w : World N)
      → Foretells c c'
      → Foretells
          (record c { would_process = c.would_process + 1 })
          (after_job rt fl uni calls cfg false c' (r, w)).0
  unfolding after_job
  job-Foretells c c' (ok tt) w f = record {
    no_raw_backups = f.no_raw_backups;
    grace_windows = f.grace_windows;
    invalid_raws = f.invalid_raws;
    no_turns = f.no_turns;
    few_words = f.few_words;
    attempts = omega (arith, f.attempts);
  }
  job-Foretells c c' (raise e) w f = record {
    no_raw_backups = f.no_raw_backups;
    grace_windows = f.grace_windows;
    invalid_raws = f.invalid_raws;
    no_turns = f.no_turns;
    few_words = f.few_words;
    attempts = omega (arith, f.attempts);
  }

  -- The two runs test the same.
  branch-Foretells :
      (test : Bool) (x y x' y' : Scan rt fl uni calls cfg)
      → Foretells x.0 x'.0
      → Foretells y.0 y'.0
      → Foretells (if test then x else y).0 (if test then x' else y').0
  branch-Foretells true x y x' y' f g = f
  branch-Foretells false x y x' y' f g = g

  -- One run tests that the session is eligible, the other one that it is not.
  gate-Foretells :
      (is_eligible : Bool) (reason : Reason) (c c' : Counters) (r : Result Exc (Unit {0}))
      (w' x : World N)
      → Foretells c c'
      → Foretells
          (if is_eligible
            then record c { would_process = c.would_process + 1 }
            else count_dry reason c)
          (if not is_eligible
            then (count_refused reason c', false, w')
            else after_job rt fl uni calls cfg false c' (r, x)).0
  gate-Foretells true reason c c' r w' x f = job-Foretells c c' r x f
  gate-Foretells false reason c c' r w' x f = reason-Foretells reason c c' f

  eligible-Foretells :
      (args : Args) (now' : String) (row : Candidate) (c c' : Counters) (w' : World N)
      → args.is_single ≡ false
      → Foretells c c'
      → Foretells
          (dry_row rt (dry args) row c)
          (execute_row rt fl uni calls cfg (live args) now' row c' w').0
  unfolding dry_row execute_row
  eligible-Foretells args now' row c c' w' several f =
      let result =
        evaluate_grading_eligibility rt (string (or_blank row.raw_json)) args.min_student_words in
      let job =
        process_session_completed_job rt fl uni calls cfg
          (payload_for rt fl uni calls cfg row.session_id now') w' in
      subst
        (λ b.
          Foretells (dry_row rt (dry args) row c)
            (if not result.is_eligible
              then (count_refused result.reason c', false, w')
              else after_job rt fl uni calls cfg b c' job).0)
        (sym several) (gate-Foretells result.is_eligible result.reason c c' job.0 w' job.1 f)

  row-Foretells :
      (args : Args) (now now' : String) (row : Candidate) (c c' : Counters) (w w' : World N)
      → args.is_single ≡ false
      → Foretells c c'
      → Foretells
          (scan_row rt fl uni calls cfg (dry args) now row c w).0
          (scan_row rt fl uni calls cfg (live args) now' row c' w').0
  unfolding scan_row
  row-Foretells args now now' row c c' w w' several f =
      branch-Foretells (is_empty (or_blank row.raw_json)) _ _ _ _
        (record {
          no_raw_backups = omega (arith, f.no_raw_backups);
          grace_windows = f.grace_windows;
          invalid_raws = f.invalid_raws;
          no_turns = f.no_turns;
          few_words = f.few_words;
          attempts = f.attempts;
        })
        (branch-Foretells (is_recent row.ended_at args.grace_threshold) _ _ _ _
          (record {
            no_raw_backups = f.no_raw_backups;
            grace_windows = omega (arith, f.grace_windows);
            invalid_raws = f.invalid_raws;
            no_turns = f.no_turns;
            few_words = f.few_words;
            attempts = f.attempts;
          })
          (eligible-Foretells args now' row c c' w' several f))

  -- The loop goes on, if no session is named.
  after_job-on :
      (c : Counters) (r : Result Exc (Unit {0})) (w : World N)
      → (after_job rt fl uni calls cfg false c (r, w)).1 ≡ false
  unfolding after_job
  after_job-on c (ok tt) w = refl
  after_job-on c (raise e) w = refl

  scan_row-on :
      (args : Args) (now : String) (row : Candidate) (c : Counters) (w : World N)
      → args.is_single ≡ false
      → (scan_row rt fl uni calls cfg args now row c w).1 ≡ false
  unfolding scan_row execute_row
  scan_row-on args now row c w several =
      let job =
        process_session_completed_job rt fl uni calls cfg
          (payload_for rt fl uni calls cfg row.session_id now) w in
      let goes_on = λ (x : Scan rt fl uni calls cfg). x.1 ≡ false in
      if_both goes_on (is_empty (or_blank row.raw_json)) refl (
        if_both goes_on (is_recent row.ended_at args.grace_threshold) refl (
          if_both goes_on (not args.execute) refl (
            if_both goes_on
              (not
                (evaluate_grading_eligibility rt (string (or_blank row.raw_json))
                  args.min_student_words).is_eligible)
              refl
              (ap (λ b. (after_job rt fl uni calls cfg b c job).1) several
                ∙ after_job-on c job.0 job.1))))

  scan_rows-cons :
      (args : Args) (now : String) (row : Candidate) (rows : List Candidate) (c : Counters)
      (w : World N)
      → args.is_single ≡ false
      → let (c', breaks, w') = scan_row rt fl uni calls cfg args now row c w in
        scan_rows rt fl uni calls cfg args now (row ∷ rows) c w
        ≡ scan_rows rt fl uni calls cfg args now rows c' w'
  unfolding scan_rows
  scan_rows-cons args now row rows c w several =
      let (c', breaks, w') = scan_row rt fl uni calls cfg args now row c w in
      ap (λ b. if b then (c', w') else scan_rows rt fl uni calls cfg args now rows c' w')
        (scan_row-on args now row c w several)

  -- A dry run says what a run that grades does with the same candidates: it skips the same rows for the
  -- same reasons, and would process as many as the other one processes or fails at. No session is
  -- named. The two runs may find the world in any states and at any times.
  pub scan_rows-Foretells :
      (args : Args) (now now' : String) (rows : List Candidate) (c c' : Counters) (w w' : World N)
      → args.is_single ≡ false
      → Foretells c c'
      → Foretells
          (scan_rows rt fl uni calls cfg (dry args) now rows c w).0
          (scan_rows rt fl uni calls cfg (live args) now' rows c' w').0
  unfolding scan_rows
  scan_rows-Foretells args now now' [] c c' w w' several f = f
  scan_rows-Foretells args now now' (row ∷ rows) c c' w w' several f =
      let (d, _, x) = scan_row rt fl uni calls cfg (dry args) now row c w in
      let (d', _, x') = scan_row rt fl uni calls cfg (live args) now' row c' w' in
      subst
        (λ (y : Counters × World N).
          Foretells y.0 (scan_rows rt fl uni calls cfg (live args) now' (row ∷ rows) c' w').0)
        (sym (scan_rows-cons (dry args) now row rows c w several))
        (subst
          (λ (y : Counters × World N).
            Foretells (scan_rows rt fl uni calls cfg (dry args) now rows d x).0 y.0)
          (sym (scan_rows-cons (live args) now' row rows c' w' several))
          (scan_rows-Foretells args now now' rows d d' x x' several
            (row-Foretells args now now' row c c' w w' several f)))
