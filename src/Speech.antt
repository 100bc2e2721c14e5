-- ===== src/Speech.antt =====
-- core-api's media/tts.py: the queue of phrases of `TTSProcessor`. The texts are fed by one task at a
-- time; closing the synthesizer's connection and the logs have no effect here.
pub mod Texts
pub mod Conserves
pub mod Feeds
pub mod Breaks
pub mod Chunks
pub mod Sequence
pub mod Worker
use Prim.Native.Char.{Char, code}
use Prim.Native.String.{String, ◌++◌ as str_append}
use luve.Prelude.{
  ℕ, zero, suc, ◌+◌, Bool, true, false, not, ◌||◌, Option, none, some, List, [], ◌∷◌, ◌++◌,
  if◌then◌else◌, ltb, ◌==◌, drop,
}
use luve.Python.Text.{is_empty, is_space, strip}
use luve.Python.Lines.{join, prefix, suffix, split_words, length_text, rfind}

-- The phrase's queueing time has no effect.
pub record PhraseJob : Type 0 where
  pub phrase_id : ℕ
  pub text : String

pub record SpeechSettings : Type 0 where
  pub phrase_min_chars : ℕ
  pub queue_maxsize : ℕ
  pub local_fallback_enabled : Bool
  -- `int((chunk_ms / 1000) * 32000)`
  pub chunk_ms_bytes : ℕ

-- `phrase_queue` has the items of the queue, the oldest first, and then those whose `put` waits for
-- room; `none` is the item that stops the worker. `working` is the phrase whose synthesis is active, and
-- `has_communicator` says whether a connection is.
pub record Tts : Type 0 where
  pub phrase_buffer : String
  pub phrase_queue : List (Option PhraseJob)
  pub next_phrase_id : ℕ
  pub next_audio_sequence : ℕ
  pub closed : Bool
  pub is_started : Bool
  pub working : Option PhraseJob
  pub has_communicator : Bool

abbrev pub new_tts : Tts
new_tts = record {
  phrase_buffer = "";
  phrase_queue = [];
  next_phrase_id = 0;
  next_audio_sequence = 0;
  closed = false;
  is_started = false;
  working = none;
  has_communicator = false;
}

-- The constructor, with `int((chunk_ms / 1000) * 32000)` as a parameter; `none` is its `ValueError`. A
-- number below 0 is refused as 0 is.
unfoldable pub new_processor : (ℕ → ℕ) → ℕ → ℕ → ℕ → Bool → ℕ → Option (SpeechSettings × Tts)
new_processor bytes_of phrase_min_chars queue_maxsize chunk_ms local_fallback_enabled
      piper_sample_rate =
    if phrase_min_chars == 0 || queue_maxsize == 0 || chunk_ms == 0 || piper_sample_rate == 0
    then none
    else some (
      record {
        phrase_min_chars = phrase_min_chars;
        queue_maxsize = queue_maxsize;
        local_fallback_enabled = local_fallback_enabled;
        chunk_ms_bytes = bytes_of chunk_ms;
      },
      new_tts,
    )

-- `[,.!?;:]`
unfoldable pub is_punctuation : Char → Bool
is_punctuation c =
    let n = code c in n == b',' || n == b'.' || n == b'!' || n == b'?' || n == b';' || n == b':'

abbrev one_more : Option ℕ → Option ℕ
one_more none = none
one_more (some i) = some (suc i)

-- The end of the first match of `_PUNCTUATION_PATTERN`.
unfoldable pub search_punctuation : String → Option ℕ
search_punctuation String.[] = none
search_punctuation (String.◌∷◌ c String.[]) = if is_punctuation c then some 1 else none
search_punctuation (String.◌∷◌ c (String.◌∷◌ d s)) =
    let later = one_more (search_punctuation (String.◌∷◌ d s)) in
    if not (is_punctuation c) then later else if is_space d then some 2 else later

-- `none` is -1.
abbrev after_space : Option ℕ → Option ℕ
after_space none = none
after_space (some zero) = none
after_space (some (suc i)) = some (suc (suc i))

abbrev break_or : Option ℕ → Option ℕ → Option ℕ
break_or (some i) other = some i
break_or none other = other

-- A round of the loop, before the rounds `again`.
abbrev pub cut_step : (String → List String × String) → String → Option ℕ → List String × String
cut_step again pending none = ([], pending)
cut_step again pending (some cut_index) =
    let (phrases, left) = again (suffix cut_index pending) in
    let phrase = strip (prefix cut_index pending) in
    (if is_empty phrase then phrases else phrase ∷ phrases, left)

module _ (cfg : SpeechSettings) where
  unfoldable pub find_phrase_break : String → Option ℕ
  find_phrase_break text = break_or (search_punctuation text) (
      if ltb (length_text (strip text)) cfg.phrase_min_chars
      then none
      else after_space (rfind 0x20 text))

  -- The loop, on fuel: the phrases, and what is left.
  unfoldable pub cut_phrases : ℕ → String → List String × String
  cut_phrases zero pending = ([], pending)
  cut_phrases (suc fuel) pending = cut_step (cut_phrases fuel) pending (find_phrase_break pending)

  -- The phrases, and the buffer after them.
  unfoldable pub drain_ready_phrases : Bool → String → List String × String
  drain_ready_phrases is_final phrase_buffer =
      let (phrases, pending) = cut_phrases (length_text phrase_buffer) phrase_buffer in
      if is_final
      then if is_empty (strip pending)
        then (phrases, pending)
        else (phrases ++ strip pending ∷ [], "")
      else (phrases, pending)

abbrev pub add_job : String → Tts → Tts
add_job normalized t = record t {
  next_phrase_id = suc t.next_phrase_id;
  phrase_queue =
      t.phrase_queue ++ some (record { phrase_id = t.next_phrase_id; text = normalized }) ∷ [];
}

unfoldable pub enqueue_phrase : String → Tts → Tts
enqueue_phrase phrase t =
    let normalized = join " " (split_words phrase) in
    if is_empty normalized then t else add_job normalized t

unfoldable pub enqueue_phrases : List String → Tts → Tts
enqueue_phrases [] t = t
enqueue_phrases (phrase ∷ phrases) t = enqueue_phrases phrases (enqueue_phrase phrase t)

module _ (cfg : SpeechSettings) where
  unfoldable pub feed_text : String → Bool → Tts → Tts
  feed_text delta is_final t =
      let (phrases, pending) =
        drain_ready_phrases cfg is_final (str_append t.phrase_buffer delta) in
      if t.closed then t else enqueue_phrases phrases (record t { phrase_buffer = pending })

  -- An empty queue, whose waiting items then enter it.
  unfoldable pub clear_phrase_queue : Tts → Tts
  clear_phrase_queue t = record t { phrase_queue = drop cfg.queue_maxsize t.phrase_queue }

  unfoldable pub stop_immediately : Tts → Tts
  stop_immediately t =
      if t.closed
      then t
      else clear_phrase_queue
          (record t { phrase_buffer = ""; working = none; has_communicator = false })

unfoldable pub force_flush : Tts → Tts
force_flush t =
    let pending = strip t.phrase_buffer in
    let emptied = record t { phrase_buffer = "" } in
    if t.closed then t else if is_empty pending then emptied else enqueue_phrase pending emptied

-- Whether a list has an item.
abbrev is_filled : List (Option PhraseJob) → Bool
is_filled [] = false
is_filled (_ ∷ _) = true

abbrev is_there : Option PhraseJob → Bool
is_there none = false
is_there (some _) = true

unfoldable pub has_pending_output : Tts → Bool
has_pending_output t =
    not (is_empty (strip t.phrase_buffer))
    || is_filled t.phrase_queue
    || is_there t.working
    || t.has_communicator

-- The worker's task is not done before it is stopped.
unfoldable pub start_worker : Tts → Tts
start_worker t = if t.is_started then t else record t { closed = false; is_started = true }

-- Up to `put(None)`; the worker then ends, and the rest of the text goes.
unfoldable pub begin_stop : SpeechSettings → Bool → Tts → Tts
begin_stop cfg flush t =
    let flushed = if flush then feed_text cfg "" true t else t in
    if not t.is_started
    then t
    else record flushed { closed = true; phrase_queue = flushed.phrase_queue ++ none ∷ [] }

unfoldable pub end_stop : Tts → Tts
end_stop t = record t { is_started = false; phrase_buffer = "" }
