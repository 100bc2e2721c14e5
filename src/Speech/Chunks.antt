-- ===== src/Speech/Chunks.antt =====
-- media/tts.py: the chunks of a phrase are its audio, and the sequence numbers have no gap.
use luve.Prelude.{
  ℕ, zero, suc, ◌+◌, ◌-◌, ◌≤◌, ◌≡◌, refl, ◌∙◌, sym, ap, arith, List, [], ◌∷◌, ◌++◌, length,
  length-take, length-drop, take-drop, drop-drop, take, drop, if_cases, ltb, leb, min, ltb→lt,
}
use luve.Speech.{Tts, SpeechSettings}
use luve.Speech.Worker.{TtsAudioChunk, chunk_size, emit_from, emit_audio_chunks}

abbrev pub audio : List TtsAudioChunk → List ℕ
audio [] = []
audio (chunk ∷ chunks) = chunk.pcm16_mono_16khz ++ audio chunks

-- The chunks of a phrase: numbered from an index and a sequence number, no chunk is empty or longer
-- than the size, and the last one alone is marked.
abbrev pub Splits : ℕ → ℕ → ℕ → ℕ → List TtsAudioChunk → Type 0
Splits size phrase_id chunk_index next [] = Unit
Splits size phrase_id chunk_index next (chunk ∷ chunks) =
    (chunk.phrase_id ≡ phrase_id)
    × (chunk.chunk_index ≡ chunk_index)
    × (chunk.sequence_number ≡ next)
    × (1 ≤ length chunk.pcm16_mono_16khz)
    × (length chunk.pcm16_mono_16khz ≤ size)
    × (chunk.is_last_chunk ≡ (leb (length chunks) 0))
    × Splits size phrase_id (suc chunk_index) (suc next) chunks

drop_all : (n : ℕ) (xs : List ℕ) → length xs ≤ n → drop n xs ≡ []
drop_all zero [] h = refl
drop_all zero (x ∷ xs) h = absurd (omega arith)
drop_all (suc n) [] h = refl
drop_all (suc n) (x ∷ xs) h = drop_all n xs (omega arith)

-- The next part of the rest, and the rest after it.
next_part : (a b : ℕ) (xs : List ℕ) → a ≤ b → take (b - a) (drop a xs) ++ drop b xs ≡ drop a xs
next_part a b xs h =
    let more : b ≡ a + (b - a) = omega arith in
    ap (λ k. take (b - a) (drop a xs) ++ drop k xs) more
    ∙ ap (λ (ys : List ℕ). take (b - a) (drop a xs) ++ ys) (sym (drop-drop (b - a) a xs))
    ∙ take-drop (b - a) (drop a xs)

length_part :
    (a b : ℕ) (xs : List ℕ) → a ≤ b → b ≤ length xs → length (take (b - a) (drop a xs)) ≡ b - a
length_part a b xs h h' = length-take (b - a) (drop a xs) (omega (arith, length-drop a xs))

module _ (size : ℕ) (phrase_id : ℕ) (pcm : List ℕ) (large : 1 ≤ size) where
  -- Whether chunks are left at an offset.
  emit_from-length :
      (fuel index offset next : ℕ)
      → length pcm ≤ fuel + offset
      → leb (length (emit_from fuel size phrase_id pcm index offset next)) 0
        ≡ leb (length pcm) offset
  unfolding emit_from
  emit_from-length zero index offset next h = ground arith
  emit_from-length (suc fuel) index offset next h = ground arith

  emit_from-audio :
      (fuel index offset next : ℕ)
      → length pcm ≤ fuel + offset
      → audio (emit_from fuel size phrase_id pcm index offset next) ≡ drop offset pcm
  unfolding emit_from
  emit_from-audio zero index offset next h = sym (drop_all offset pcm (omega arith))
  emit_from-audio (suc fuel) index offset next h =
      let end_at = min (offset + size) (length pcm) in
      if_cases (λ (x : List TtsAudioChunk). audio x ≡ drop offset pcm) (ltb offset (length pcm))
        {y = []}
        (λ e.
          let below = ltb→lt offset (length pcm) e in
          ap (λ (ys : List ℕ). take (end_at - offset) (drop offset pcm) ++ ys)
            (emit_from-audio fuel (suc index) end_at (suc next) (omega arith))
          ∙ next_part offset end_at pcm (omega arith))
        (λ e. sym (drop_all offset pcm (ground arith)))

  emit_from-Splits :
      (fuel index offset next : ℕ)
      → length pcm ≤ fuel + offset
      → Splits size phrase_id index next (emit_from fuel size phrase_id pcm index offset next)
  unfolding emit_from
  emit_from-Splits zero index offset next h = tt
  emit_from-Splits (suc fuel) index offset next h =
      let end_at = min (offset + size) (length pcm) in
      if_cases (Splits size phrase_id index next) (ltb offset (length pcm)) {y = []}
        (λ e.
          let below = ltb→lt offset (length pcm) e in
          let long = length_part offset end_at pcm (omega arith) (omega arith) in
          (
            refl,
            refl,
            refl,
            omega (arith, long),
            omega (arith, long),
            sym (emit_from-length fuel (suc index) end_at (suc next) (omega arith)),
            emit_from-Splits fuel (suc index) end_at (suc next) (omega arith),
          ))
        (λ e. tt)

chunk_size_pos : (cfg : SpeechSettings) → 1 ≤ chunk_size cfg
unfolding chunk_size
chunk_size_pos cfg = omega arith

-- The chunks of a phrase make its audio, byte for byte; none is empty or longer than the size that is
-- set; they are numbered from 0 in the phrase and go on from the last sequence number; exactly the last
-- one is marked as the last; and the next phrase's numbers follow theirs.
pub emit_audio_chunks-Splits :
    (cfg : SpeechSettings) (phrase_id : ℕ) (pcm : List ℕ) (t : Tts)
    → let chunks = (emit_audio_chunks cfg phrase_id pcm t).0 in
      (audio chunks ≡ pcm)
      × Splits (chunk_size cfg) phrase_id 0 t.next_audio_sequence chunks
      × ((emit_audio_chunks cfg phrase_id pcm t).1.next_audio_sequence
          ≡ t.next_audio_sequence + length chunks)
unfolding emit_audio_chunks
emit_audio_chunks-Splits cfg phrase_id pcm t =
    let size = chunk_size cfg in
    let large = chunk_size_pos cfg in
    (
      emit_from-audio size phrase_id pcm large (length pcm) 0 0 t.next_audio_sequence (omega arith),
      emit_from-Splits size phrase_id pcm large (length pcm) 0 0 t.next_audio_sequence
          (omega arith),
      refl,
    )
