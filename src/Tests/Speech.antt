-- ===== src/Tests/Speech.antt =====
-- The speech of a reply at small data.
use Prim.Native.String.{◌++◌ as str_append}
use luve.Prelude.{◌≡◌, ◌+◌, arith, some, none, true, false, List, [], ◌∷◌, length}
use luve.Python.Lines.{length_text}
use luve.Speech.{SpeechSettings, new_tts, find_phrase_break, cut_phrases}
use luve.Speech.Feeds.{Input, feeds, flushes}
use luve.Speech.Breaks.{cut_phrases-Ends}
use luve.Speech.Worker.{
  Synthesizers, SpeechTurn, feed, take_next, finish_next, barge_in, begins_stop, chunk_size,
  emit_audio_chunks, run,
}
use luve.Speech.Chunks.{Splits, audio, emit_audio_chunks-Splits}
use luve.Speech.Sequence.{IsSequenced, run-IsSequenced}

abbrev speech_settings : SpeechSettings
speech_settings = record {
  phrase_min_chars = 8;
  queue_maxsize = 2;
  local_fallback_enabled = true;
  chunk_ms_bytes = 700;
}

abbrev reply : List Input
reply = feeds "Hi! What did y" false ∷ flushes ∷ feeds "ou eat" false ∷ []

cut_phrases-Ends_example :
    find_phrase_break speech_settings (cut_phrases speech_settings 20 "Hi! How are you").1 ≡ none
unfolding length_text
cut_phrases-Ends_example = cut_phrases-Ends speech_settings 20 "Hi! How are you" (omega arith)

emit_audio_chunks-Splits_example :
    let chunks = (emit_audio_chunks speech_settings 3 (1 ∷ 2 ∷ []) new_tts).0 in
    (audio chunks ≡ 1 ∷ 2 ∷ [])
    × Splits (chunk_size speech_settings) 3 0 0 chunks
    × ((emit_audio_chunks speech_settings 3 (1 ∷ 2 ∷ []) new_tts).1.next_audio_sequence
        ≡ 0 + length chunks)
emit_audio_chunks-Splits_example = emit_audio_chunks-Splits speech_settings 3 (1 ∷ 2 ∷ []) new_tts

abbrev synthesizers : Synthesizers
synthesizers = record { edge_tts = λ _. none; piper = λ _. some (5 ∷ 6 ∷ []) }

abbrev lesson : List SpeechTurn
lesson =
    feed "Hello there. " false
    ∷ take_next
    ∷ finish_next
    ∷ feed "Bye." true
    ∷ take_next
    ∷ barge_in
    ∷ finish_next
    ∷ begins_stop false
    ∷ []

run-IsSequenced_example :
    IsSequenced 0 (run speech_settings synthesizers lesson new_tts).0
    × ((run speech_settings synthesizers lesson new_tts).1.next_audio_sequence
        ≡ 0 + length (run speech_settings synthesizers lesson new_tts).0)
run-IsSequenced_example = run-IsSequenced speech_settings synthesizers lesson new_tts
