-- ===== src/Brain/Texts.antt =====
-- media/brain.py: how the methods of texts go with a text that is put before another.
use Prim.Native.Char.{Char, code}
use Prim.Native.String.{String, ◌++◌ as str_append}
use text.Mathlib.TextLemmas.{cons-append, nil-append}
use luve.Prelude.{◌≡◌, refl, ◌∙◌, ap, arith, Bool, true, false, not, ◌&&◌, ◌∷◌, if◌then◌else◌, ◌==◌}
use luve.Python.Text.{is_empty, is_space, strip, lstrip, rstrip, map_chars}
use luve.Python.Lines.{startswith, after_colon, is_line_break, lines_from}
use luve.Brain.Replies.{IsTrimmed}

-- No line ends in the text.
unfoldable pub is_one_line : String → Bool
is_one_line String.[] = true
is_one_line (String.◌∷◌ c s) = not (is_line_break c) && is_one_line s

abbrev pub has_colon : String → Bool
has_colon String.[] = false
has_colon (String.◌∷◌ c s) = let rest = has_colon s in if code c == 0x3a then true else rest

pub is_one_line-append :
    (s t : String)
    → is_one_line s ≡ true
    → is_one_line t ≡ true
    → is_one_line (str_append s t) ≡ true
unfolding is_one_line
is_one_line-append String.[] t hs ht = rw (nil-append t) ht
is_one_line-append (String.◌∷◌ c s) t hs ht =
    rw (cons-append c s t) (ground (arith, is_one_line-append s t))

-- A line feed ends a line.
pub lines_from-append :
    (s t : String)
    → is_one_line s ≡ true
    → lines_from false (str_append s (String.◌∷◌ "\n" t)) ≡ s ∷ lines_from false t
unfolding lines_from is_one_line is_line_break
lines_from-append String.[] t h = rw (nil-append (String.◌∷◌ "\n" t)) refl
lines_from-append (String.◌∷◌ c s) t h =
    rw (cons-append c s (String.◌∷◌ "\n" t)) (grind (arith, lines_from-append s t))

pub map_chars-append :
    (f : Char → Char) (s t : String)
    → map_chars f (str_append s t) ≡ str_append (map_chars f s) (map_chars f t)
unfolding map_chars
map_chars-append f String.[] t = rw (nil-append t, nil-append (map_chars f t)) refl
map_chars-append f (String.◌∷◌ c s) t =
    rw (cons-append c s t, cons-append (f c) (map_chars f s) (map_chars f t))
      (ap (String.◌∷◌ (f c)) (map_chars-append f s t))

pub startswith-append :
    (s t needle : String) → startswith s needle ≡ true → startswith (str_append s t) needle ≡ true
unfolding startswith
startswith-append s t String.[] h = refl
startswith-append String.[] t (String.◌∷◌ d needle) h = absurd (ground (arith, h))
startswith-append (String.◌∷◌ c s) t (String.◌∷◌ d needle) h =
    rw (cons-append c s t) (ground (arith, startswith-append s t needle))

-- Texts with other first characters.
pub startswith_differs :
    (c d : Char) (s t needle : String)
    → (code c == code d) ≡ false
    → startswith (str_append (String.◌∷◌ c s) t) (String.◌∷◌ d needle) ≡ false
unfolding startswith
startswith_differs c d s t needle h = rw (cons-append c s t) (rw h refl)

pub after_colon-append :
    (s t : String)
    → has_colon s ≡ true
    → after_colon (str_append s t) ≡ str_append (after_colon s) t
unfolding after_colon
after_colon-append String.[] t h = absurd (ground (arith, h))
after_colon-append (String.◌∷◌ c s) t h =
    rw (cons-append c s t) (ground (arith, after_colon-append s t))

rstrip-append :
    (s t : String)
    → rstrip t ≡ t
    → is_empty t ≡ false
    → (rstrip (str_append s t) ≡ str_append s t) × (is_empty (str_append s t) ≡ false)
unfolding rstrip
rstrip-append String.[] t h filled = rw (nil-append t) (h, filled)
rstrip-append (String.◌∷◌ c s) t h filled =
    let (same, more) = rstrip-append s t h filled in
    rw (cons-append c s t) (rw (same, more) (ground arith), refl)

-- A text that ends in no space keeps its end, and the space before it goes with the other spaces.
pub strip-append_filled :
    (c : Char) (s t : String)
    → is_space c ≡ false
    → rstrip t ≡ t
    → is_empty t ≡ false
    → strip (str_append (String.◌∷◌ c s) t) ≡ str_append (String.◌∷◌ c s) t
unfolding strip lstrip
strip-append_filled c s t h trimmed filled =
    let whole = (rstrip-append (String.◌∷◌ c s) t trimmed filled).0 in
    let started : lstrip (str_append (String.◌∷◌ c s) t) ≡ str_append (String.◌∷◌ c s) t =
      rw (cons-append c s t) (rw h refl) in
    ap rstrip started ∙ whole

pub strip-space : (t : String) → IsTrimmed t → strip (str_append " " t) ≡ t
unfolding strip lstrip is_space
strip-space t (left, right) =
    let step : lstrip (str_append " " t) ≡ lstrip t =
      rw (cons-append " " "" t, nil-append t) refl in
    ap rstrip (step ∙ left) ∙ right

pub strip-IsTrimmed : (t : String) → IsTrimmed t → strip t ≡ t
unfolding strip
strip-IsTrimmed t (left, right) = ap rstrip left ∙ right
