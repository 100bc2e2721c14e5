-- ===== src/Coordinator/Drains/Undisturbed.antt =====
-- media/coordinator.py: no turn disturbs a call of `stop`.
use Prim.Native.String.{String}
use luve.Prelude.{ℕ, ◌≡◌, refl, sym, subst, Bool, true, none, some, List, [], ◌∷◌, All}
use luve.Extension.Voice.Frames.{Signal}
use luve.Coordinator.{notify_audio_chunk, notify_silence, Coordinator, CoordinatorSettings}
use luve.Coordinator.Loop.{next_job, transcribed, begin_stop, put_stop, join_loop}
use luve.Coordinator.Turns.{
  Turn, hears, silences, takes, stops, puts_stop, joins, transcribes, tokens, replies, task_at,
  step, run,
}
use luve.Coordinator.Keeps.{token_to-core, reply_of-core}
use luve.Coordinator.Drains.Stopping.{
  Closing, Closes, closing-closed, next_from-Closes, transcribed_from-Closes, put_from-Closes,
  join_from-Closes,
}

-- What is transcribed in the turn returns.
abbrev pub ReturnsIf : {N : Type 0} → Turn N → Type 0
ReturnsIf (transcribes none) = ⊥
ReturnsIf turn = Unit

module _ {N : Type 0} (sig : Signal N) (cfg : CoordinatorSettings N) (trim : String → String) where
  -- Nothing is heard and no job is queued once the coordinator is closed.
  hears-same :
      (payload : List ℕ) (now : N) (pending : Bool) (st : Coordinator N)
      → st.closed ≡ true
      → notify_audio_chunk sig cfg payload now pending st ≡ st
  unfolding notify_audio_chunk
  hears-same payload now pending st closed = rw closed refl

  silences-same : (st : Coordinator N) → st.closed ≡ true → notify_silence sig st ≡ st
  unfolding notify_silence
  silences-same st closed = rw closed refl

  stops-same : (st : Coordinator N) → st.closed ≡ true → begin_stop sig st ≡ st
  unfolding begin_stop
  stops-same st closed = rw closed refl

  step-Closes :
      (turn : Turn N) (st : Coordinator N)
      → ReturnsIf turn
      → Closes st
      → Closes (step sig cfg trim turn st)
  unfolding step next_job transcribed put_stop join_loop
  step-Closes (hears payload now pending) st _ h =
      subst Closes (sym (hears-same payload now pending st (closing-closed h))) h
  step-Closes silences st _ h = subst Closes (sym (silences-same st (closing-closed h))) h
  step-Closes takes st _ h = next_from-Closes cfg st.inference_task st refl h
  step-Closes stops st _ h = subst Closes (sym (stops-same st (closing-closed h))) h
  step-Closes puts_stop st _ h = put_from-Closes st.stop_call st refl h
  step-Closes joins st _ h = join_from-Closes st.stop_call st h
  step-Closes (transcribes none) st never h = absurd never
  step-Closes (transcribes (some result)) st _ h =
      transcribed_from-Closes st.inference_task result st refl h
  step-Closes (tokens n delta) st _ h =
      subst Closing (sym (token_to-core cfg n delta (task_at n st.llm_tasks) st)) h
  step-Closes (replies n result) st _ h =
      subst Closing (sym (reply_of-core cfg trim n result (task_at n st.llm_tasks) st)) h

  pub run-Closes :
      (turns : List (Turn N)) (st : Coordinator N)
      → All ReturnsIf turns
      → Closes st
      → Closes (run sig cfg trim turns st)
  unfolding run
  run-Closes [] st _ h = h
  run-Closes (turn ∷ turns) st (returns, rest) h =
      run-Closes turns (step sig cfg trim turn st) rest (step-Closes turn st returns h)
