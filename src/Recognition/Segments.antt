-- ===== src/Recognition/Segments.antt =====
-- media/stt_worker.py and schemas/ai_logic.py: the analysis that the model's segments make.
use Prim.Native.String.{String}
use luve.Prelude.{
  ℕ, Bool, not, ◌&&◌, Option, none, some, List, [], ◌∷◌, ◌++◌, length, if◌then◌else◌, ltb,
}
use luve.Python.Text.{is_empty, strip}
use luve.Python.Lines.{join}

-- Python's floats and what is used of numpy.
pub record Measures (N : Type 0) : Type 0 where
  pub zero : N
  pub is_zero : N → Bool
  pub at_most : N → N → Bool
  pub one : N
  -- `np.clip(n, 0.0, 1.0)`
  pub clip : N → N
  -- of a list that is not empty
  pub mean : List N → N
  pub largest : List N → N
  -- `int(round(n * 1000))`; `none` where it raises
  pub milliseconds : N → Option ℕ

-- A text and a time that are `None` or not there are `none`, and a measure of another type than a number
-- too. A probability that is not there is `none`; `some none` is one that is `None` or no number.
pub record Word (N : Type 0) : Type 0 where
  pub word : Option String
  pub probability : Option (Option N)
  pub start : Option N
  pub end : Option N

pub record Segment (N : Type 0) : Type 0 where
  pub text : Option String
  pub avg_logprob : Option N
  pub no_speech_prob : Option N
  pub compression_ratio : Option N
  pub words : List (Word N)

pub record Info (N : Type 0) : Type 0 where
  pub language : Option String
  pub language_probability : Option N

pub record WordPoint (N : Type 0) : Type 0 where
  pub word : String
  pub confidence : N
  pub start_ms : ℕ
  pub end_ms : ℕ

pub record SttAnalysis (N : Type 0) : Type 0 where
  pub raw_text : String
  pub all_words : List (WordPoint N)
  pub avg_logprob : Option N
  pub no_speech_prob : Option N
  pub compression_ratio : Option N
  pub segment_count : ℕ
  pub detected_language : Option String
  pub detected_language_probability : Option N

abbrev pub or_blank : Option String → String
or_blank none = ""
or_blank (some s) = s

abbrev and_more {ℓ} : {A : Type ℓ} → Option A → List A → List A
and_more none rest = rest
and_more (some a) rest = a ∷ rest

abbrev if_any {ℓ} : {A : Type ℓ} → (List A → A) → List A → Option A
if_any f [] = none
if_any f (a ∷ rest) = some (f (a ∷ rest))

module _ {N : Type 0} (ms : Measures N) where
  abbrev pub in_unit : N → Bool
  in_unit n = ms.at_most ms.zero n && ms.at_most n ms.one

  abbrev pub timed : String → N → Option ℕ → Option ℕ → Option (WordPoint N)
  timed word confidence (some start_ms) (some end_ms) =
      if ltb end_ms start_ms
      then none
      else some
          (record { word = word; confidence = confidence; start_ms = start_ms; end_ms = end_ms })
  timed word confidence _ _ = none

  abbrev pub to_milliseconds : N → Option ℕ
  to_milliseconds n = if not (ms.at_most ms.zero n) then none else ms.milliseconds n

  -- The constructor of `WordPoint`, of times in seconds; `none` is its `ValidationError`.
  unfoldable pub word_point : String → N → N → N → Option (WordPoint N)
  word_point word confidence start_s end_s =
      if is_empty word
      then none
      else if not (in_unit confidence)
      then none
      else timed word confidence (to_milliseconds start_s) (to_milliseconds end_s)

  -- `float(n or default)`
  abbrev pub or_number : N → Option N → N
  or_number default none = default
  or_number default (some n) = if ms.is_zero n then default else n

  -- `float(np.clip(probability, 0.0, 1.0))`, which raises on what is no number.
  abbrev pub confidence_of : Option (Option N) → Option N
  confidence_of none = some (ms.clip ms.zero)
  confidence_of (some none) = none
  confidence_of (some (some n)) = some (ms.clip n)

  abbrev pub point_with : String → N → Option N → Option N → Option (WordPoint N)
  point_with token start_s end_s none = none
  point_with token start_s end_s (some confidence) =
      word_point token confidence start_s (or_number start_s end_s)

  abbrev pub point_of : Word N → Option (WordPoint N)
  point_of w =
      point_with (strip (or_blank w.word)) (or_number ms.zero w.start) w.end
        (confidence_of w.probability)

  -- `none` is the exception of a word.
  abbrev pub added :
      Option (WordPoint N) → Option (List (WordPoint N)) → Option (List (WordPoint N))
  added (some p) (some ps) = some (p ∷ ps)
  added _ _ = none

  unfoldable pub word_points : List (Word N) → Option (List (WordPoint N))
  word_points [] = some []
  word_points (w ∷ ws) =
      let rest = word_points ws in
      if is_empty (strip (or_blank w.word)) then rest else added (point_of w) rest

  unfoldable pub all_words : List (Segment N) → List (Word N)
  all_words [] = []
  all_words (s ∷ segments) = s.words ++ all_words segments

  unfoldable pub raw_text_parts : List (Segment N) → List String
  raw_text_parts [] = []
  raw_text_parts (s ∷ segments) =
      let rest = raw_text_parts segments in
      if is_empty (strip (or_blank s.text)) then rest else strip (or_blank s.text) ∷ rest

  unfoldable pub numbers_of : (Segment N → Option N) → List (Segment N) → List N
  numbers_of field [] = []
  numbers_of field (s ∷ segments) = and_more (field s) (numbers_of field segments)

  abbrev language_if : Option String → Option String
  language_if none = none
  language_if (some language) = if is_empty (strip language) then none else some language

  abbrev pub analysis :
      List (Segment N) → Info N → Option (List (WordPoint N)) → Option (SttAnalysis N)
  analysis segments info none = none
  analysis segments info (some points) = some (record {
    raw_text = strip (join " " (raw_text_parts segments));
    all_words = points;
    avg_logprob = if_any ms.mean (numbers_of (λ s. s.avg_logprob) segments);
    no_speech_prob = if_any ms.largest (numbers_of (λ s. s.no_speech_prob) segments);
    compression_ratio = if_any ms.largest (numbers_of (λ s. s.compression_ratio) segments);
    segment_count = length segments;
    detected_language = language_if info.language;
    detected_language_probability = info.language_probability;
  })

  -- `none` is an exception.
  unfoldable pub map_segments_to_schema : List (Segment N) → Info N → Option (SttAnalysis N)
  map_segments_to_schema segments info = analysis segments info (word_points (all_words segments))

-- What the model returns of an audio: the segments as a list, and what it says of the whole.
abbrev pub Transcription : Type 0 → Type 0
Transcription N = List (Segment N) × Info N

abbrev pub schema_of : {N : Type 0} → Measures N → Transcription N → Option (SttAnalysis N)
schema_of ms (segments, info) = map_segments_to_schema ms segments info

-- `STTAnalysis(raw_text="", all_words=[])`
abbrev pub empty_analysis : {N : Type 0} → SttAnalysis N
empty_analysis = record {
  raw_text = "";
  all_words = [];
  avg_logprob = none;
  no_speech_prob = none;
  compression_ratio = none;
  segment_count = 0;
  detected_language = none;
  detected_language_probability = none;
}
