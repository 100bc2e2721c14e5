-- ===== src/Coordinator/Drains.antt =====
-- media/coordinator.py: `stop` with a loop that takes jobs.
pub mod Stages
pub mod Stopping
pub mod Undisturbed
use Prim.Native.String.{String}
use text.Mathlib.Text.{◌==◌ as str_eq}
use luve.Prelude.{
  arith, ◌&&◌, Bool, not, some, List, [], ◌∷◌, ◌++◌, if◌then◌else◌, if_both, if_cases,
}
use luve.Python.Text.{is_empty, strip}
use luve.Media.Postprocess.{sanitize_transcript}
use luve.Coordinator.{
  Coordinator, Job, LoopTask, StopCall, is_full, send_json, subtitle, not_started, transcribing,
  raised, not_called, failed,
}
use luve.Coordinator.Loop.{
  Analysis, next_from, take_first, take_job, is_short, transcribed_from, after_transcription,
  put_from, stop_job, join_from, end_stop,
}
use luve.Coordinator.Turns.{Turn, takes, puts_stop, joins, transcribes}
use luve.Coordinator.Keeps.{record_user_turn-core}
use luve.Coordinator.Drains.Stages.{is_alive}

-- The turns in which a running loop meets the job of `stop`; each transcription returns `result`.
abbrev pub ending : {N : Type 0} → Analysis → List (Turn N)
ending result =
    transcribes (some result) ∷ takes ∷ transcribes (some result) ∷ puts_stop ∷ takes ∷ joins ∷ []
