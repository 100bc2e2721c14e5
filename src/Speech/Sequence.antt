-- ===== src/Speech/Sequence.antt =====
-- media/tts.py: the sequence numbers over all phrases, whatever happens between them.
use Prim.Native.String.{String, ◌++◌ as str_append}
use luve.Prelude.{
  not, ℕ, suc, ◌+◌, ◌≡◌, refl, subst, arith, Bool, true, false, Option, none, some, List, [], ◌∷◌,
  ◌++◌, length, length-append, if◌then◌else◌, if_both,
}
use luve.Python.Text.{is_empty, strip}
use luve.Python.Lines.{join, split_words}
use luve.Extension.Queue.{is_empty_list}
use luve.Speech.{
  Tts, PhraseJob, SpeechSettings, add_job, enqueue_phrase, enqueue_phrases, feed_text, force_flush,
  drain_ready_phrases, stop_immediately, clear_phrase_queue, begin_stop, end_stop,
}
use luve.Speech.Worker.{
  TtsAudioChunk, Synthesizers, SpeechTurn, chunk_size, emit_audio_chunks, finish_phrase, spoken_job,
  step, run, take_phrase, synthesize_phrase, taken_from, taken_if_free, feed, flush, barge_in,
  take_next, finish_next, begins_stop,
}
use luve.Speech.Chunks.{Splits, emit_audio_chunks-Splits}

-- The sequence numbers go up by one, from a number on.
abbrev pub IsSequenced : ℕ → List TtsAudioChunk → Type 0
IsSequenced n [] = Unit
IsSequenced n (chunk ∷ chunks) = (chunk.sequence_number ≡ n) × IsSequenced (suc n) chunks

Splits-IsSequenced :
    (size phrase_id index n : ℕ) (chunks : List TtsAudioChunk)
    → Splits size phrase_id index n chunks
    → IsSequenced n chunks
Splits-IsSequenced size phrase_id index n [] h = tt
Splits-IsSequenced size phrase_id index n (chunk ∷ chunks) (_, _, named, _, _, _, rest) =
    (named, Splits-IsSequenced size phrase_id (suc index) (suc n) chunks rest)

append-IsSequenced :
    (n : ℕ) (xs ys : List TtsAudioChunk)
    → IsSequenced n xs
    → IsSequenced (n + length xs) ys
    → IsSequenced n (xs ++ ys)
append-IsSequenced n [] ys hx hy =
    let same : n + 0 ≡ n = omega arith in subst (λ m. IsSequenced m ys) same hy
append-IsSequenced n (x ∷ xs) ys (named, hx) hy =
    let same : n + suc (length xs) ≡ suc n + length xs = omega arith in
    (named, append-IsSequenced (suc n) xs ys hx (subst (λ m. IsSequenced m ys) same hy))

-- The number that the next chunk gets.
abbrev Counts : ℕ → Tts → Type 0
Counts n t = t.next_audio_sequence ≡ n

module _ (n : ℕ) where
  enqueue_phrase-Counts :
      (phrase : String) (t : Tts) → Counts n t → Counts n (enqueue_phrase phrase t)
  unfolding enqueue_phrase
  enqueue_phrase-Counts phrase t h =
      let normalized = join " " (split_words phrase) in
      if_both (Counts n) (is_empty normalized) {x = t} {y = add_job normalized t} h h

  enqueue_phrases-Counts :
      (phrases : List String) (t : Tts) → Counts n t → Counts n (enqueue_phrases phrases t)
  unfolding enqueue_phrases
  enqueue_phrases-Counts [] t h = h
  enqueue_phrases-Counts (phrase ∷ phrases) t h =
      enqueue_phrases-Counts phrases (enqueue_phrase phrase t) (enqueue_phrase-Counts phrase t h)

  feed_text-Counts :
      (cfg : SpeechSettings) (delta : String) (is_final : Bool) (t : Tts)
      → Counts n t
      → Counts n (feed_text cfg delta is_final t)
  unfolding feed_text
  feed_text-Counts cfg delta is_final t h =
      let (phrases, pending) =
        drain_ready_phrases cfg is_final (str_append t.phrase_buffer delta) in
      let start : Tts = record t { phrase_buffer = pending } in
      if_both (Counts n) t.closed {x = t} {y = enqueue_phrases phrases start} h
        (enqueue_phrases-Counts phrases start h)

  force_flush-Counts : (t : Tts) → Counts n t → Counts n (force_flush t)
  unfolding force_flush
  force_flush-Counts t h =
      let pending = strip t.phrase_buffer in
      let emptied : Tts = record t { phrase_buffer = "" } in
      if_both (Counts n) t.closed {x = t}
        {y = if is_empty pending then emptied else enqueue_phrase pending emptied} h
        (if_both (Counts n) (is_empty pending) {x = emptied} {y = enqueue_phrase pending emptied} h
          (enqueue_phrase-Counts pending emptied h))

  stop_immediately-Counts :
      (cfg : SpeechSettings) (t : Tts) → Counts n t → Counts n (stop_immediately cfg t)
  unfolding stop_immediately clear_phrase_queue
  stop_immediately-Counts cfg t h =
      if_both (Counts n) t.closed {x = t}
        {y = clear_phrase_queue cfg
          (record t { phrase_buffer = ""; working = none; has_communicator = false })}
        h h

  taken_from-Counts :
      (items : List (Option PhraseJob)) (t : Tts) → Counts n t → Counts n (taken_from items t)
  unfolding end_stop
  taken_from-Counts [] t h = h
  taken_from-Counts (none ∷ items) t h = h
  taken_from-Counts (some job ∷ items) t h = h

  taken_if_free-Counts :
      (working : Option PhraseJob) (t : Tts) → Counts n t → Counts n (taken_if_free working t)
  taken_if_free-Counts (some _) t h = h
  taken_if_free-Counts none t h =
      if_both (Counts n) t.is_started {x = taken_from t.phrase_queue t} {y = t}
        (taken_from-Counts t.phrase_queue t h) h

  take_phrase-Counts : (t : Tts) → Counts n t → Counts n (take_phrase t)
  unfolding take_phrase
  take_phrase-Counts t h = taken_if_free-Counts t.working t h

  begin_stop-Counts :
      (cfg : SpeechSettings) (with_flush : Bool) (t : Tts)
      → Counts n t
      → Counts n (begin_stop cfg with_flush t)
  unfolding begin_stop
  begin_stop-Counts cfg with_flush t h =
      let flushed = if with_flush then feed_text cfg "" true t else t in
      let kept : Counts n flushed =
        if_both (Counts n) with_flush {x = feed_text cfg "" true t} {y = t}
          (feed_text-Counts cfg "" true t h) h in
      if_both (λ (u : Tts). Counts n u) (not t.is_started) {x = t}
        {y = record flushed { closed = true; phrase_queue = flushed.phrase_queue ++ none ∷ [] }} h
        kept

-- The chunks go on from the number of the state before, and the state after them goes on from theirs.
abbrev GoesOn : Tts → List TtsAudioChunk × Tts → Type 0
GoesOn t (chunks, t') =
    IsSequenced t.next_audio_sequence chunks
    × (t'.next_audio_sequence ≡ t.next_audio_sequence + length chunks)

GoesOn-Counts : (t t' : Tts) → Counts t.next_audio_sequence t' → GoesOn t ([], t')
GoesOn-Counts t t' h = (tt, omega (arith, h))

module _ (cfg : SpeechSettings) (s : Synthesizers) where
  spoken_job-GoesOn : (working : Option PhraseJob) (t : Tts) → GoesOn t (spoken_job cfg s working t)
  spoken_job-GoesOn none t = GoesOn-Counts t t refl
  spoken_job-GoesOn (some job) t =
      let pcm = synthesize_phrase cfg s job.text in
      let idle : Tts = record t { working = none; has_communicator = false } in
      let (_, numbered, more) = emit_audio_chunks-Splits cfg job.phrase_id pcm idle in
      let chunks = (emit_audio_chunks cfg job.phrase_id pcm idle).0 in
      if_both (GoesOn t) (is_empty_list pcm) {x = ([], idle)}
        {y = emit_audio_chunks cfg job.phrase_id pcm idle} (GoesOn-Counts t idle refl)
        (
          Splits-IsSequenced (chunk_size cfg) job.phrase_id 0 t.next_audio_sequence chunks numbered,
          more,
        )

  step-GoesOn : (turn : SpeechTurn) (t : Tts) → GoesOn t (step cfg s turn t)
  unfolding step finish_phrase
  step-GoesOn (feed delta is_final) t =
      GoesOn-Counts t (feed_text cfg delta is_final t)
        (feed_text-Counts _ cfg delta is_final t refl)
  step-GoesOn flush t = GoesOn-Counts t (force_flush t) (force_flush-Counts _ t refl)
  step-GoesOn barge_in t =
      GoesOn-Counts t (stop_immediately cfg t) (stop_immediately-Counts _ cfg t refl)
  step-GoesOn take_next t = GoesOn-Counts t (take_phrase t) (take_phrase-Counts _ t refl)
  step-GoesOn finish_next t = spoken_job-GoesOn t.working t
  step-GoesOn (begins_stop with_flush) t =
      GoesOn-Counts t (begin_stop cfg with_flush t) (begin_stop-Counts _ cfg with_flush t refl)

  -- Whatever the order in which texts are fed, the buffer is flushed, the user barges in, the processor
  -- is stopped and the worker takes and ends its phrases: the sequence numbers of all the chunks that
  -- are passed on go up by one from the number the processor stood at.
  pub run-IsSequenced :
      (turns : List SpeechTurn) (t : Tts)
      → IsSequenced t.next_audio_sequence (run cfg s turns t).0
        × ((run cfg s turns t).1.next_audio_sequence
            ≡ t.next_audio_sequence + length (run cfg s turns t).0)
  unfolding run
  run-IsSequenced [] t = GoesOn-Counts t t refl
  run-IsSequenced (turn ∷ turns) t =
      let (chunks, next) = step cfg s turn t in
      let (numbered, counted) = step-GoesOn turn t in
      let (numbered', counted') = run-IsSequenced turns next in
      (
        append-IsSequenced t.next_audio_sequence chunks (run cfg s turns next).0 numbered
            (subst (λ m. IsSequenced m (run cfg s turns next).0) counted numbered'),
        omega (arith, counted, counted', length-append chunks (run cfg s turns next).0),
      )
