-- ===== src/Brain/Prompt.antt =====
-- media/brain.py: the prompt of the learner's turn.
use Prim.Native.String.{String, ◌++◌ as str_append, char_at}
use text.Mathlib.Text.{◌==◌ as str_eq}
use luve.Prelude.{
  ℕ, zero, suc, ◌+◌, ◌/◌, ◌-◌, ◌*◌, not, Option, none, some, List, [], ◌∷◌, if◌then◌else◌, ltb,
}
use luve.Python.Text.{is_empty, strip, lower}
use luve.Python.Lines.{join}
use luve.Brain.{concat_pieces}
use luve.Python.Json.{
  Value, Items, Fields, Runtime, Floats, get, or_else, str, string, arr, nil, cons,
}

-- `str(n)` of a number with at most as many digits as the fuel, which `n` itself is enough for.
decimal : ℕ → ℕ → String
decimal zero n = ""
decimal (suc fuel) n =
    let digit = String.◌∷◌ (char_at "0123456789" (n - 10 * (n / 10))) "" in
    let rest = decimal fuel (n / 10) in if ltb n 10 then digit else str_append rest digit

unfoldable pub show_nat : ℕ → String
unfolding decimal
show_nat n = decimal (suc n) n

pub record WordPoint (N : Type 0) : Type 0 where
  pub word : String
  pub confidence : N

-- The fields of `STTAnalysis` that the prompt reads.
pub record SttAnalysis (N : Type 0) : Type 0 where
  pub raw_text : String
  pub all_words : List (WordPoint N)

-- A turn of the history: a key that is not there is `none`.
pub record HistoryTurn : Type 0 where
  pub text : Option String
  pub speaker : Option String

-- `turn.get(key, "")`
abbrev pub or_blank : Option String → String
or_blank none = ""
or_blank (some s) = s

unfoldable pub history_line : HistoryTurn → String
history_line turn =
    let label =
      if str_eq (lower (strip (or_blank turn.speaker))) "tutor" then "Lucy" else "Learner" in
    concat_pieces (label ∷ ": " ∷ strip (or_blank turn.text) ∷ [])

unfoldable pub history_lines : List HistoryTurn → List String
history_lines [] = []
history_lines (turn ∷ turns) =
    let lines = history_lines turns in
    if is_empty (strip (or_blank turn.text)) then lines else history_line turn ∷ lines

abbrev rendered : List String → String
rendered [] = ""
rendered (line ∷ lines) =
    concat_pieces
      ("Recent conversation (most recent last):\n" ∷ join "\n" (line ∷ lines) ∷ "\n\n" ∷ [])

-- A history that is `None` is the empty list.
unfoldable pub format_history : List HistoryTurn → String
format_history history = rendered (history_lines history)

-- `a if a else "…"` over the joined items
abbrev joined_or : String → List String → String
joined_or default [] = default
joined_or default (item ∷ items) = join ", " (item ∷ items)

module _ {N : Type 0} where
  unfoldable pub reason_list : Items N → List String
  reason_list nil = []
  reason_list (cons (string s) items) =
      let reasons = reason_list items in if is_empty (strip s) then reasons else strip s ∷ reasons
  reason_list (cons _ items) = reason_list items

  abbrev listed : Value N → List String
  listed (arr items) = reason_list items
  listed _ = []

module _ {N : Type 0} (rt : Runtime N) where
  abbrev note_of : Fields N → String
  note_of stt_metadata =
      let quality =
        lower (strip (str rt (or_else rt (get "stt_quality" stt_metadata) (string "")))) in
      let reason_text =
        joined_or "uncertain_transcript" (listed (get "uncertainty_reasons" stt_metadata)) in
      if not (str_eq quality "uncertain")
      then ""
      else concat_pieces (
          "Transcription reliability: uncertain (" ∷ reason_text ∷ "). "
          ∷ "Use caution; do not mention this note to the learner.\n\n" ∷ [])

  -- `none` is no mapping.
  unfoldable pub build_stt_note : Option (Fields N) → String
  build_stt_note none = ""
  build_stt_note (some stt_metadata) = note_of stt_metadata

module _ {N : Type 0} (rt : Runtime N) (fl : Floats N) where
  unfoldable pub low_confidence_words : List (WordPoint N) → List String
  low_confidence_words [] = []
  low_confidence_words (item ∷ items) =
      let rest = low_confidence_words items in
      if fl.below_60 item.confidence then item.word ∷ rest else rest

  unfoldable pub suspicious_count : List (WordPoint N) → ℕ
  suspicious_count [] = 0
  suspicious_count (item ∷ items) =
      (if fl.below_60 item.confidence then 1 else 0) + suspicious_count items

  unfoldable pub build_user_prompt : SttAnalysis N → Option (Fields N) → List HistoryTurn → String
  build_user_prompt stt stt_metadata history = concat_pieces (
      format_history history
      ∷ "Learner transcript:\n"
      ∷ strip stt.raw_text
      ∷ "\n\n"
      ∷ build_stt_note rt stt_metadata
      ∷ "Low-confidence tokens (likely pronunciation uncertainty):\n"
      ∷ joined_or "None" (low_confidence_words stt.all_words)
      ∷ "\n\n"
      ∷ "Suspicious count: "
      ∷ show_nat (suspicious_count stt.all_words)
      ∷ "\n"
      ∷ "Do not quote or mention transcription reliability notes directly unless asking for clarification.\n"
      ∷ "Provide the 2-line output format exactly."
      ∷ [])
