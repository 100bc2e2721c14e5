-- ===== src/Extension/Options.antt =====
-- luve_extension.py: the settings of the recognition, and the texts that are put together. The warnings
-- have no effect here.
use Prim.Native.String.{String, ◌++◌ as str_append}
use text.Mathlib.Text.{◌==◌ as str_eq}
use luve.Prelude.{◌-◌, Bool, true, false, not, Option, none, some, [], ◌∷◌, if◌then◌else◌}
use luve.Python.Text.{is_empty, strip, lower, is_in}
use luve.Python.Lines.{prefix, suffix, length_text}
use luve.Python.Json.{Value, Runtime, bool, num, string, or_else, str}

unfoldable pub append_text : String → String → String
append_text previous new_piece =
    let cleaned = strip new_piece in
    if is_empty cleaned
    then previous
    else if is_empty previous
    then cleaned
    else str_append previous (str_append " " cleaned)

-- `s.endswith(".en")`
abbrev ends_in_en : String → Bool
ends_in_en s = str_eq (suffix (length_text s - 3) s) ".en"

module _ {N : Type 0} (rt : Runtime N) where
  unfoldable pub normalize_stt_language_mode : Value N → String
  normalize_stt_language_mode value =
      let mode = lower (strip (str rt (or_else rt value (string "forced_en")))) in
      if is_in mode ("forced_en" ∷ "auto" ∷ "auto_en_vi" ∷ []) then mode else "forced_en"

  unfoldable pub stt_transcription_language : String → Option String
  stt_transcription_language language_mode =
      if str_eq (normalize_stt_language_mode (string language_mode)) "forced_en"
      then some "en"
      else none

  -- `stt_model_size` is the setting.
  unfoldable pub select_stt_model_size : String → Value N → String → String
  select_stt_model_size stt_model_size configured_model language_mode =
      let configured = strip (str rt (or_else rt configured_model (string ""))) in
      let model = if is_empty configured then stt_model_size else configured in
      if str_eq (normalize_stt_language_mode (string language_mode)) "forced_en"
      then model
      else if ends_in_en model
      then prefix (length_text model - 3) model
      else model

  unfoldable pub coerce_bool : Bool → Value N → Bool
  coerce_bool default (bool b) = b
  coerce_bool default (string s) =
      let normalized = lower (strip s) in
      if is_in normalized ("1" ∷ "true" ∷ "yes" ∷ "on" ∷ [])
      then true
      else if is_in normalized ("0" ∷ "false" ∷ "no" ∷ "off" ∷ [])
      then false
      else default
  coerce_bool default (num n) = not (rt.is_zero n)
  coerce_bool default _ = default
