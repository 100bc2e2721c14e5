-- ===== src/Tests/Scanner.antt =====
-- The scanner at the test data.
use luve.Prelude.{refl, true, false, none, some, List, [], ◌∷◌}
use luve.Grading.Scanner.{Candidate, Args, no_counts, scan_rows}
use luve.Grading.Scanner.Dry.{dry, live, Foretells, scan_rows-Foretells}
use luve.Tests.Data.{rt, fl, uni, calls, cfg, world}

abbrev args : Args
args = record { execute = true; min_student_words = 3; grace_threshold = 100; is_single = false }

abbrev candidates : List Candidate
candidates =
    record { session_id = "a"; ended_at = some 50; raw_json = some "said" }
    ∷ record { session_id = "b"; ended_at = some 150; raw_json = some "said" }
    ∷ record { session_id = "c"; ended_at = none; raw_json = none }
    ∷ []

scan_rows-Foretells_example :
    Foretells
      (scan_rows rt fl uni calls cfg (dry args) "now" candidates no_counts world).0
      (scan_rows rt fl uni calls cfg (live args) "later" candidates no_counts world).0
scan_rows-Foretells_example =
    scan_rows-Foretells rt fl uni calls cfg args "now" "later" candidates no_counts no_counts world
      world refl
      (record {
        no_raw_backups = refl;
        grace_windows = refl;
        invalid_raws = refl;
        no_turns = refl;
        few_words = refl;
        attempts = refl;
      })
