-- ===== src/Speech/Feeds.antt =====
-- media/tts.py: `feed_text` and `force_flush`, one after another.
use Prim.Native.String.{String, ◌++◌ as str_append}
use luve.Prelude.{◌≡◌, Bool, List, [], ◌∷◌, ◌++◌}
use luve.Speech.{Tts, SpeechSettings, feed_text, force_flush}
use luve.Speech.Conserves.{said}

-- The calls that a reply makes while it is spoken.
pub data Input : Type 0 where
  feeds : String → Bool → Input
  flushes : Input

abbrev pub text_of : Input → String
text_of (feeds delta _) = delta
text_of flushes = ""

abbrev pub texts_of : List Input → String
texts_of [] = ""
texts_of (input ∷ inputs) = str_append (text_of input) (texts_of inputs)

module _ (cfg : SpeechSettings) where
  abbrev pub take_input : Input → Tts → Tts
  take_input (feeds delta is_final) t = feed_text cfg delta is_final t
  take_input flushes t = force_flush t

  abbrev pub take_inputs : List Input → Tts → Tts
  take_inputs [] t = t
  take_inputs (input ∷ inputs) t = take_inputs inputs (take_input input t)

-- The text on its way grows by a text, and the processor stays open.
abbrev Says : String → Tts → Tts → Type 0
Says text t t' = (said t' ≡ str_append (said t) text) × (t'.closed ≡ t.closed)
