-- ===== src/Media/Buffer.antt =====
-- core-api's media/buffer.py: the audio chunks of a stream, put in the order of their sequence numbers.
-- The lock makes each method one step; a method that reads the clock takes the time as an argument.
pub mod Order
pub mod Refines
pub mod Live
pub mod Stream
use luve.Prelude.{
  ℤ, pos, negsuc, ℕ, zero, suc, ◌+◌, ◌-◌, Bool, true, false, Option, none, some, List, [], ◌∷◌,
  ◌++◌, length, Result, ok, raise, ltb, leb, ◌==◌, ◌&&◌, ◌||◌, not, if◌then◌else◌,
}

pub data BufferError : Type 0 where
  value_error buffer_closed : BufferError

-- A dictionary from sequence numbers to chunks, its last entry first.
abbrev pub Pending : Type 0 → Type 0
Pending B = List (ℕ × List B)

abbrev pub expected : ℕ → Option ℕ → ℕ
expected n none = n
expected n (some next) = next

abbrev pub is_nonempty {ℓ} : {A : Type ℓ} → List A → Bool
is_nonempty [] = false
is_nonempty (_ ∷ _) = true

module _ {B : Type 0} where
  unfoldable pub lookup : ℕ → Pending B → Option (List B)
  lookup n [] = none
  lookup n ((k, chunk) ∷ pending) = if k == n then some chunk else lookup n pending

  unfoldable pub remove : ℕ → Pending B → Pending B
  remove n [] = []
  remove n ((k, chunk) ∷ pending) =
      let rest = remove n pending in if k == n then rest else (k, chunk) ∷ rest

  unfoldable pub concat : List (List B) → List B
  concat [] = []
  concat (chunk ∷ chunks) = chunk ++ concat chunks

pub record AudioBuffer (B : Type 0) : Type 0 where
  pub silence_ttl : ℕ
  pub ordered_chunks : List (List B)
  pub pending_by_sequence : List (ℕ × List B)
  pub next_expected_sequence : Option ℕ
  pub total_bytes : ℕ
  pub flat_cache : Option (List B)
  pub last_activity : ℕ
  -- a task is there that looks for silence
  pub is_monitored : Bool
  pub is_closed : Bool

abbrev pub Op : Type 0 → Type 0 → Type 0
Op B A = AudioBuffer B → Result BufferError A × AudioBuffer B

module _ {B : Type 0} where
  -- `none`: a `ValueError`. The sweep interval only paces the sweeps.
  unfoldable pub new : ℕ → ℕ → ℕ → Option (AudioBuffer B)
  new silence_ttl sweep_interval now =
      if (silence_ttl == 0) || (sweep_interval == 0)
      then none
      else some (record {
        silence_ttl = silence_ttl;
        ordered_chunks = [];
        pending_by_sequence = [];
        next_expected_sequence = none;
        total_bytes = 0;
        flat_cache = none;
        last_activity = now;
        is_monitored = false;
        is_closed = false;
      })

  unfoldable pub start : Op B (Unit {0})
  start b =
      if b.is_closed then (raise buffer_closed, b) else (ok tt, record b { is_monitored = true })

  unfoldable pub clear : ℕ → AudioBuffer B → AudioBuffer B
  clear now b = record b {
    ordered_chunks = [];
    pending_by_sequence = [];
    next_expected_sequence = none;
    total_bytes = 0;
    flat_cache = some [];
    last_activity = now;
  }

  unfoldable pub close : ℕ → AudioBuffer B → AudioBuffer B
  unfolding clear
  close now b =
      if b.is_closed then b else record (clear now b) { is_closed = true; is_monitored = false }

  -- One turn of the loop, which has popped the chunk under the next number.
  abbrev pub turn : ℕ → List B → AudioBuffer B → AudioBuffer B
  turn next chunk b = record b {
    pending_by_sequence = remove next b.pending_by_sequence;
    ordered_chunks = b.ordered_chunks ++ chunk ∷ [];
    total_bytes = b.total_bytes + length chunk;
    flat_cache = none;
    next_expected_sequence = some (suc next);
  }

  -- What follows the pop: the loop ends, or another turn is taken.
  unfoldable pub after_pop :
      (AudioBuffer B → AudioBuffer B) → ℕ → AudioBuffer B → Option (List B) → AudioBuffer B
  after_pop loop next b none = b
  after_pop loop next b (some chunk) = loop (turn next chunk b)

  -- As many turns as there are entries are enough.
  unfoldable pub flush_turns : ℕ → ℕ → AudioBuffer B → AudioBuffer B
  flush_turns zero next b = b
  flush_turns (suc n) next b =
      after_pop (flush_turns n (suc next)) next b (lookup next b.pending_by_sequence)

  unfoldable pub flush_from : AudioBuffer B → Option ℕ → AudioBuffer B
  flush_from b none = b
  flush_from b (some next) = flush_turns (length b.pending_by_sequence) next b

  unfoldable pub flush_contiguous : AudioBuffer B → AudioBuffer B
  flush_contiguous b = flush_from b b.next_expected_sequence

  -- A chunk is put in unless it is late or one of its number waits already.
  unfoldable pub accept_unless :
      (late : Bool) (waiting : Option (List B)) → ℕ → List B → AudioBuffer B → AudioBuffer B
  accept_unless true waiting n chunk b = b
  accept_unless false (some _) n chunk b = b
  accept_unless false none n chunk b =
      flush_contiguous (record b { pending_by_sequence = (n, chunk) ∷ b.pending_by_sequence })

  unfoldable pub accept : ℕ → List B → AudioBuffer B → AudioBuffer B
  accept n chunk b =
      accept_unless (ltb n (expected n b.next_expected_sequence)) (lookup n b.pending_by_sequence) n
        chunk b

  -- The chunk is already normalized to bytes.
  unfoldable pub add_chunk : ℕ → ℤ → List B → Op B (Unit {0})
  add_chunk now (negsuc n) chunk b = (raise value_error, b)
  add_chunk now (pos n) [] b = (ok tt, b)
  add_chunk now (pos n) (byte ∷ bytes) b = if b.is_closed then (raise buffer_closed, b) else (
    ok tt,
    accept n (byte ∷ bytes) (record b {
      is_monitored = true;
      last_activity = now;
      next_expected_sequence = some (expected n b.next_expected_sequence);
    }),
  )

  unfoldable pub get_flat_audio : Op B (List B)
  get_flat_audio b = if b.is_closed then (raise buffer_closed, b) else elim b.flat_cache [
    | some audio ↦ (ok audio, b)
    | none ↦ if b.total_bytes == 0 then (ok [], record b { flat_cache = some [] }) else (
      ok (concat b.ordered_chunks),
      record b { flat_cache = some (concat b.ordered_chunks) },
    )
  ]

  -- One turn of the task that looks for silence.
  unfoldable pub sweep : ℕ → AudioBuffer B → AudioBuffer B
  sweep now b =
      let is_idle = leb b.silence_ttl (now - b.last_activity) in
      let has_audio = is_nonempty b.ordered_chunks || is_nonempty b.pending_by_sequence in
      if not b.is_closed && (is_idle && has_audio) then clear now b else b

pub record Stats : Type 0 where
  pub ordered_chunk_count : ℕ
  pub pending_chunk_count : ℕ
  pub stats_total_bytes : ℕ
  pub stats_next_expected : Option ℕ
  pub silence_ttl_seconds : ℕ

module _ {B : Type 0} where
  unfoldable pub stats : AudioBuffer B → Stats
  stats b = record {
    ordered_chunk_count = length b.ordered_chunks;
    pending_chunk_count = length b.pending_by_sequence;
    stats_total_bytes = b.total_bytes;
    stats_next_expected = b.next_expected_sequence;
    silence_ttl_seconds = b.silence_ttl;
  }
