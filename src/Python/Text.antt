-- ===== src/Python/Text.antt =====
-- The methods of `str` that the source calls. A text is a native string: its characters are the
-- code points of the Python text.
use Prim.Native.Char.{Char, code}
use Prim.Native.String.{String, char_at}
use text.Mathlib.Text.{◌==◌ as str_eq}
use luve.Prelude.{
  ℕ, ◌+◌, ◌-◌, ◌≡◌, refl, Bool, true, false, not, ◌&&◌, ◌||◌, List, [], ◌∷◌, leb, ◌==◌,
  if◌then◌else◌,
}

-- `str.isspace` of one character: every code point for which it holds.
unfoldable pub is_space : Char → Bool
is_space c =
    let n = code c in
    (leb 0x09 n && leb n 0x0d)
    || (leb 0x1c n && leb n 0x20)
    || n == 0x85
    || n == 0xa0
    || n == 0x1680
    || (leb 0x2000 n && leb n 0x200a)
    || n == 0x2028
    || n == 0x2029
    || n == 0x202f
    || n == 0x205f
    || n == 0x3000

-- `not s`
abbrev pub is_empty : String → Bool
is_empty String.[] = true
is_empty (String.◌∷◌ _ _) = false

unfoldable pub lstrip : String → String
lstrip String.[] = ""
lstrip (String.◌∷◌ c s) = if is_space c then lstrip s else String.◌∷◌ c s

unfoldable pub rstrip : String → String
rstrip String.[] = ""
rstrip (String.◌∷◌ c s) =
    let rest = rstrip s in if is_space c && is_empty rest then "" else String.◌∷◌ c rest

-- `s.strip()`
unfoldable pub strip : String → String
unfolding lstrip rstrip
strip s = rstrip (lstrip s)

-- `len(s.split())`, the number of runs of characters that are no spaces; the flag says whether the
-- character before was no space.
unfoldable pub words_from : Bool → String → ℕ
words_from inside String.[] = 0
words_from inside (String.◌∷◌ c s) =
    (if inside || is_space c then 0 else 1) + words_from (not (is_space c)) s

unfoldable pub word_count : String → ℕ
unfolding words_from
word_count s = words_from false s

-- `s.upper()` and `s.lower()`, as far as the source's comparisons with ASCII texts can tell: the ASCII
-- letters, and the other code points whose other case is one ASCII letter. The code points whose upper
-- case is a pair of ASCII letters (SS, FF, FI, FL, ST) are left: no compared text has such a pair.
abbrev upper_letters : String
upper_letters = "ABCDEFGHIJKLMNOPQRSTUVWXYZ"

abbrev lower_letters : String
lower_letters = "abcdefghijklmnopqrstuvwxyz"

abbrev pub upper_char : Char → Char
upper_char c =
    if leb b'a' (code c) && leb (code c) b'z'
    then char_at upper_letters (code c - b'a')
    else if code c == 0x131
    then "I"
    else if code c == 0x17f
    then "S"
    else c

abbrev pub lower_char : Char → Char
lower_char c =
    if leb b'A' (code c) && leb (code c) b'Z'
    then char_at lower_letters (code c - b'A')
    else if code c == 0x212a
    then "k"
    else c

unfoldable pub map_chars : (Char → Char) → String → String
map_chars f String.[] = ""
map_chars f (String.◌∷◌ c s) = String.◌∷◌ (f c) (map_chars f s)

unfoldable pub upper : String → String
unfolding map_chars
upper = map_chars upper_char

unfoldable pub lower : String → String
unfolding map_chars
lower = map_chars lower_char

-- `s in {…}` over texts.
unfoldable pub is_in : String → List String → Bool
is_in s [] = false
is_in s (t ∷ ts) = str_eq s t || is_in s ts

strip_runs : strip "\t hi there \n" ≡ "hi there"
unfolding strip is_space
strip_runs = refl

word_count_runs : word_count "  I like  dogs " ≡ 3
unfolding word_count is_space
word_count_runs = refl

upper_runs : upper (strip " user_turn ") ≡ "USER_TURN"
unfolding upper strip is_space
upper_runs = refl
