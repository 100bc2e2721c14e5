-- ===== src/Coordinator/Turns.antt =====
-- media/coordinator.py: the turns of the tasks that share a coordinator, in any order.
use Prim.Native.String.{String}
use luve.Prelude.{ℕ, zero, suc, Bool, Option, none, some, List, [], ◌∷◌, if◌then◌else◌}
use luve.Brain.{PedagogicalReply, build_fallback_reply}
use luve.Extension.Voice.Frames.{Signal}
use luve.Extension.Reply.{Reply}
use luve.Coordinator.{
  Coordinator, CoordinatorSettings, Generation, notify_audio_chunk, notify_silence,
}
use luve.Coordinator.Loop.{
  Analysis, next_job, transcribed, begin_stop, put_stop, join_loop, on_token, finish_pipeline,
  emit_local_fallback_reply,
}

-- A turn of a task. A task of a reply is named by its place among those that are not done.
pub data Turn (N : Type 0) : Type 0 where
  -- a frame, the clock, and whether speech is pending
  hears : List ℕ → N → Bool → Turn N
  silences takes stops puts_stop joins : Turn N
  transcribes : Option Analysis → Turn N
  -- a token, and the result, of a task
  tokens : ℕ → String → Turn N
  replies : ℕ → Option PedagogicalReply → Turn N

abbrev pub without : ℕ → List Generation → List Generation
without n [] = []
without zero (task ∷ tasks) = tasks
without (suc n) (task ∷ tasks) = task ∷ without n tasks

abbrev pub with_reply : ℕ → Reply → List Generation → List Generation
with_reply n r [] = []
with_reply zero r (task ∷ tasks) = record task { reply = r } ∷ tasks
with_reply (suc n) r (task ∷ tasks) = task ∷ with_reply n r tasks

abbrev pub task_at : ℕ → List Generation → Option Generation
task_at n [] = none
task_at zero (task ∷ tasks) = some task
task_at (suc n) (task ∷ tasks) = task_at n tasks

module _ {N : Type 0} (cfg : CoordinatorSettings N) where
  abbrev pub stored : ℕ → Reply × Coordinator N → Coordinator N
  stored n (r, st) = record st { llm_tasks = with_reply n r st.llm_tasks }

  -- A coordinator without a tutor has tasks that get no tokens.
  abbrev pub token_to : ℕ → String → Option Generation → Coordinator N → Coordinator N
  token_to n delta none st = st
  token_to n delta (some task) st =
      if cfg.has_llm_processor then stored n (on_token cfg delta task.reply st) else st

  abbrev pub fallback_of : Option PedagogicalReply → Coordinator N → Coordinator N
  fallback_of none st = st
  fallback_of (some result) st = emit_local_fallback_reply cfg result st

  abbrev pub reply_of :
      (String → String)
      → ℕ
      → Option PedagogicalReply
      → Option Generation
      → Coordinator N
      → Coordinator N
  reply_of trim n result none st = st
  reply_of trim n result (some task) st =
      let done = record st { llm_tasks = without n st.llm_tasks } in
      if cfg.has_llm_processor
      then finish_pipeline cfg result task.reply done
      else fallback_of (build_fallback_reply trim task.suspicious_count) done

module _ {N : Type 0} (sig : Signal N) (cfg : CoordinatorSettings N) (trim : String → String) where
  unfoldable pub step : Turn N → Coordinator N → Coordinator N
  step (hears payload now pending) st = notify_audio_chunk sig cfg payload now pending st
  step silences st = notify_silence sig st
  step takes st = next_job cfg st
  step stops st = begin_stop sig st
  step puts_stop st = put_stop st
  step joins st = join_loop st
  step (transcribes result) st = transcribed result st
  step (tokens n delta) st = token_to cfg n delta (task_at n st.llm_tasks) st
  step (replies n result) st = reply_of cfg trim n result (task_at n st.llm_tasks) st

  unfoldable pub run : List (Turn N) → Coordinator N → Coordinator N
  run [] st = st
  run (turn ∷ turns) st = run turns (step turn st)
