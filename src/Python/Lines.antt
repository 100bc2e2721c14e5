-- ===== src/Python/Lines.antt =====
-- `str.splitlines`, `str.join` and slices of texts.
use Prim.Native.Char.{Char, code}
use Prim.Native.String.{String, ◌++◌ as str_append}
use text.Mathlib.Text.{starts_with}
use luve.Python.Text.{is_space}
use luve.Prelude.{
  Option, none, some, ℕ, zero, suc, Bool, true, false, not, ◌&&◌, ◌||◌, ◌≡◌, refl, List, [], ◌∷◌,
  leb, ◌==◌, if◌then◌else◌,
}

unfoldable pub is_line_break : Char → Bool
is_line_break c =
    let n = code c in
    (leb 0x0a n && leb n 0x0d)
    || (leb 0x1c n && leb n 0x1e)
    || n == 0x85
    || n == 0x2028
    || n == 0x2029

abbrev pub prepend : Char → List String → List String
prepend c [] = String.◌∷◌ c "" ∷ []
prepend c (l ∷ ls) = String.◌∷◌ c l ∷ ls

-- The flag says that the character before was a carriage return, which a line feed completes.
unfoldable pub lines_from : Bool → String → List String
lines_from after_cr String.[] = []
lines_from after_cr (String.◌∷◌ c s) =
    let rest = lines_from (code c == 0x0d) s in
    if after_cr && code c == 0x0a
    then rest
    else if is_line_break c
    then "" ∷ rest
    else prepend c rest

-- `s.splitlines()`
unfoldable pub split_lines : String → List String
unfolding lines_from is_line_break
split_lines s = lines_from false s

-- `sep.join(lines)`
unfoldable pub join : String → List String → String
join sep [] = ""
join sep (l ∷ []) = l
join sep (l ∷ l' ∷ ls) = str_append l (str_append sep (join sep (l' ∷ ls)))

-- `s[:n]`
unfoldable pub prefix : ℕ → String → String
prefix zero s = ""
prefix (suc n) String.[] = ""
prefix (suc n) (String.◌∷◌ c s) = String.◌∷◌ c (prefix n s)

-- `s.find(needle)` of a needle that is not empty; `none` is -1.
unfoldable pub find : String → String → Option ℕ
find needle String.[] = none
find needle (String.◌∷◌ c s) =
    let later = find needle s in
    if starts_with (String.◌∷◌ c s) needle
    then some 0
    else elim later [ none ↦ none | some i ↦ some (suc i) ]

-- `s[n:]`
unfoldable pub suffix : ℕ → String → String
suffix zero s = s
suffix (suc n) String.[] = ""
suffix (suc n) (String.◌∷◌ c s) = suffix n s

-- `s.startswith(needle)`, by its characters
unfoldable pub startswith : String → String → Bool
startswith s String.[] = true
startswith String.[] (String.◌∷◌ d needle) = false
startswith (String.◌∷◌ c s) (String.◌∷◌ d needle) = code c == code d && startswith s needle

-- `s.split(":", 1)[1]`, where the source has seen that `s` has a colon.
unfoldable pub after_colon : String → String
after_colon String.[] = ""
after_colon (String.◌∷◌ c s) = let rest = after_colon s in if code c == 0x3a then s else rest

-- Whether the first character of a text belongs to its first word.
abbrev pub begins_word : String → Bool
begins_word String.[] = false
begins_word (String.◌∷◌ c _) = not (is_space c)

-- `s.split()`
unfoldable pub split_words : String → List String
split_words String.[] = []
split_words (String.◌∷◌ c s) =
    let rest = split_words s in
    if is_space c then rest else if begins_word s then prepend c rest else String.◌∷◌ c "" ∷ rest

-- `len(s)`
unfoldable pub length_text : String → ℕ
length_text String.[] = 0
length_text (String.◌∷◌ c s) = suc (length_text s)

-- `s.rfind(c)` of one character, given by its code; `none` is -1.
unfoldable pub rfind : ℕ → String → Option ℕ
rfind n String.[] = none
rfind n (String.◌∷◌ c s) = elim (rfind n s) [
  | some i ↦ some (suc i)
  | none ↦ if code c == n then some 0 else none
]

split_lines_runs : split_lines "ab\r\nc\n\nd" ≡ "ab" ∷ "c" ∷ "" ∷ "d" ∷ []
unfolding split_lines
split_lines_runs = refl

join_runs : join "\n" ("ab" ∷ "c" ∷ []) ≡ "ab\nc"
unfolding join
join_runs = refl
