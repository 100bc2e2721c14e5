-- ===== src/Extension/Confidence/Repeats.antt =====
-- luve_extension.py: the guard against what Whisper makes up.
pub mod Phrases
use Prim.Native.String.{String}
use text.Mathlib.Text.{◌==◌ as str_eq}
use text.Mathlib.TextEquality.{eq_iff}
use luve.Prelude.{
  ℕ, zero, suc, ◌+◌, ◌-◌, ◌*◌, ◌/◌, ◌≤◌, ◌<◌, ◌≡◌, ◌↔◌, refl, sym, ap, ◌∙◌, max, arith, Bool, true,
  false, not, ◌&&◌, ◌||◌, Option, none, some, List, [], ◌∷◌, ◌++◌, length, take, drop,
  if◌then◌else◌, leb, ltb, ◌==◌,
}
use luve.Python.Text.{is_empty, is_in}
use luve.Python.Lines.{split_words}
use luve.Extension.Queue.{AudioStats}
use luve.Extension.Voice.Frames.{bytes_per_second}
use luve.Extension.Transcript.{Alphabet, normalize_stt_text}
use luve.Extension.Confidence.{Scale, has_text, has_canned_phrase, is_below, speech_ms}

-- Equality of lists of words.
unfoldable pub eq_words : List String → List String → Bool
eq_words [] [] = true
eq_words (a ∷ as') (b ∷ bs) = str_eq a b && eq_words as' bs
eq_words _ _ = false

-- `any(test(i) for i in range(n))`
unfoldable pub any_below : (ℕ → Bool) → ℕ → Bool
any_below test zero = false
any_below test (suc n) = test n || any_below test n

-- `words[i:i + k] == words[i + k:i + 2 * k]`
abbrev pub repeats_at : List String → ℕ → ℕ → Bool
repeats_at words k i = eq_words (take k (drop i words)) (take k (drop (i + k) words))

-- The two loops, for k from 3 to n // 2.
unfoldable pub has_repeated_phrase : List String → Bool
has_repeated_phrase words =
    any_below (λ k. leb 3 k && any_below (repeats_at words k) (length words + 1 - 2 * k))
      (length words / 2 + 1)

-- The least time of speech in milliseconds, and of audio in tenths of seconds, of a canned phrase.
abbrev pub canned_minimum : String → ℕ × ℕ
canned_minimum normalized =
    if has_text "thank you very much" normalized
    then (1500, 20)
    else if has_text "have a good day" normalized
        || has_text "i don t know what to say" normalized
        || has_text "i dont know what to say" normalized
        || has_text "don t ask me to speak english" normalized
        || has_text "dont ask me to speak english" normalized
    then (1800, 25)
    else (3000, 35)

abbrev pub short_fillers : List String
short_fillers =
    "thank you" ∷ "thanks" ∷ "thank you thank you" ∷ "please subscribe" ∷ "thanks for watching" ∷ []

module _ {N : Type 0} (abc : Alphabet) (sc : Scale N) where
  abbrev pub audio_ms : ℕ → N
  audio_ms pcm_bytes =
      sc.times (sc.over (sc.of_nat pcm_bytes) (sc.of_nat bytes_per_second)) (sc.of_nat 1000)

  abbrev pub audio_seconds : ℕ → N
  audio_seconds pcm_bytes = sc.over (audio_ms pcm_bytes) (sc.of_nat 1000)

  unfoldable pub is_forced_phrase : String → Option (AudioStats N) → ℕ → Bool
  is_forced_phrase normalized audio_stats pcm_bytes =
      let (min_speech, min_audio) = canned_minimum normalized in
      has_canned_phrase normalized
      && (is_below sc (speech_ms sc audio_stats) (sc.of_nat min_speech)
          || sc.less (audio_seconds pcm_bytes) (sc.hundredths (min_audio * 10)))

  unfoldable pub is_probable_stt_hallucination : String → Bool → Option (AudioStats N) → ℕ → Bool
  is_probable_stt_hallucination text is_final audio_stats pcm_bytes =
      let normalized = normalize_stt_text abc text in
      let words = split_words normalized in
      let plausible = sc.to_int (sc.times (audio_seconds pcm_bytes) (sc.hundredths 480)) + 4 in
      if is_empty normalized
      then false
      else if has_repeated_phrase words
      then true
      else if is_forced_phrase normalized audio_stats pcm_bytes
      then true
      else if is_in normalized short_fillers
      then (if not is_final
          then sc.less (audio_ms pcm_bytes) (sc.of_nat 3500)
          else is_below sc (speech_ms sc audio_stats) (sc.of_nat 900))
      else if ltb (max 7 plausible) (length words)
      then true
      else not is_final
        && sc.less (audio_seconds pcm_bytes) (sc.hundredths 150)
        && ltb 5 (length words)
