-- ===== src/Speech/Worker.antt =====
-- media/tts.py: the worker, which speaks the phrases. The two synthesizers are parameters, and a
-- synthesis that ends passes its chunks on in the same turn. The worker has a callback from its start.
use luve.Prelude.{
  ℕ, zero, suc, ◌+◌, ◌-◌, Bool, false, Option, none, some, List, [], ◌∷◌, ◌++◌, length, take, drop,
  if◌then◌else◌, ltb, leb, min, max,
}
use Prim.Native.String.{String}
use luve.Extension.Queue.{is_empty_list}
use luve.Speech.{
  Tts, PhraseJob, SpeechSettings, feed_text, force_flush, stop_immediately, begin_stop, end_stop,
}

-- How long the synthesis took has no effect.
pub record TtsAudioChunk : Type 0 where
  pub phrase_id : ℕ
  pub chunk_index : ℕ
  pub sequence_number : ℕ
  pub is_last_chunk : Bool
  pub pcm16_mono_16khz : List ℕ

unfoldable pub chunk_size : SpeechSettings → ℕ
chunk_size cfg = max cfg.chunk_ms_bytes 640

-- The loop of `_emit_audio_chunks`, on fuel, of which the number of bytes is enough.
unfoldable pub emit_from : ℕ → ℕ → ℕ → List ℕ → ℕ → ℕ → ℕ → List TtsAudioChunk
emit_from zero size phrase_id pcm chunk_index offset next = []
emit_from (suc fuel) size phrase_id pcm chunk_index offset next =
    let end_at = min (offset + size) (length pcm) in
    let later = emit_from fuel size phrase_id pcm (suc chunk_index) end_at (suc next) in
    if ltb offset (length pcm)
    then record {
      phrase_id = phrase_id;
      chunk_index = chunk_index;
      sequence_number = next;
      is_last_chunk = leb (length pcm) end_at;
      pcm16_mono_16khz = take (end_at - offset) (drop offset pcm);
    }
      ∷ later
    else []

unfoldable pub emit_audio_chunks : SpeechSettings → ℕ → List ℕ → Tts → List TtsAudioChunk × Tts
emit_audio_chunks cfg phrase_id pcm t =
    let chunks = emit_from (length pcm) (chunk_size cfg) phrase_id pcm 0 0 t.next_audio_sequence in
    (chunks, record t { next_audio_sequence = t.next_audio_sequence + length chunks })

-- What the two synthesizers return for a text; `none` is an exception.
pub record Synthesizers : Type 0 where
  pub edge_tts : String → Option (List ℕ)
  pub piper : String → Option (List ℕ)

abbrev or_silence : Option (List ℕ) → List ℕ
or_silence none = []
or_silence (some pcm) = pcm

abbrev or_local : Option (List ℕ) → Bool → Option (List ℕ) → List ℕ
or_local (some pcm) enabled local = pcm
or_local none enabled local = if enabled then or_silence local else []

unfoldable pub synthesize_phrase : SpeechSettings → Synthesizers → String → List ℕ
synthesize_phrase cfg s text = or_local (s.edge_tts text) cfg.local_fallback_enabled (s.piper text)

-- The first item of the queue; the item `none` ends the worker.
abbrev pub taken_from : List (Option PhraseJob) → Tts → Tts
taken_from [] t = t
taken_from (none ∷ items) t = end_stop (record t { phrase_queue = items })
taken_from (some job ∷ items) t = record t { phrase_queue = items; working = some job }

-- A worker that is free takes the next item.
abbrev pub taken_if_free : Option PhraseJob → Tts → Tts
taken_if_free (some _) t = t
taken_if_free none t = if t.is_started then taken_from t.phrase_queue t else t

unfoldable pub take_phrase : Tts → Tts
take_phrase t = taken_if_free t.working t

abbrev pub spoken_job :
    SpeechSettings → Synthesizers → Option PhraseJob → Tts → List TtsAudioChunk × Tts
spoken_job cfg s none t = ([], t)
spoken_job cfg s (some job) t =
    let pcm = synthesize_phrase cfg s job.text in
    let idle : Tts = record t { working = none; has_communicator = false } in
    if is_empty_list pcm then ([], idle) else emit_audio_chunks cfg job.phrase_id pcm idle

-- The synthesis of the phrase in work, if it was not cancelled, ends.
unfoldable pub finish_phrase : SpeechSettings → Synthesizers → Tts → List TtsAudioChunk × Tts
finish_phrase cfg s t = spoken_job cfg s t.working t

pub data SpeechTurn : Type 0 where
  feed : String → Bool → SpeechTurn
  flush barge_in take_next finish_next : SpeechTurn
  begins_stop : Bool → SpeechTurn

unfoldable pub step : SpeechSettings → Synthesizers → SpeechTurn → Tts → List TtsAudioChunk × Tts
step cfg s (feed delta is_final) t = ([], feed_text cfg delta is_final t)
step cfg s flush t = ([], force_flush t)
step cfg s barge_in t = ([], stop_immediately cfg t)
step cfg s take_next t = ([], take_phrase t)
step cfg s finish_next t = finish_phrase cfg s t
step cfg s (begins_stop with_flush) t = ([], begin_stop cfg with_flush t)

-- The chunks that a sequence of turns passes to the callback, in turn.
unfoldable pub run :
    SpeechSettings → Synthesizers → List SpeechTurn → Tts → List TtsAudioChunk × Tts
run cfg s [] t = ([], t)
run cfg s (turn ∷ turns) t =
    let (chunks, next) = step cfg s turn t in
    let (more, last) = run cfg s turns next in (chunks ++ more, last)
