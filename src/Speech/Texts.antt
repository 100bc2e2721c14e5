-- ===== src/Speech/Texts.antt =====
-- media/tts.py: the characters of a text that are no spaces, which cutting and joining keep.
use Prim.Native.Char.{Char}
use Prim.Native.String.{String, ◌++◌ as str_append}
use text.Mathlib.TextLemmas.{cons-append, nil-append, append-nil}
use luve.Prelude.{
  ℕ, zero, suc, ◌≡◌, refl, ◌∙◌, sym, ap, arith, true, false, List, [], ◌∷◌, if◌then◌else◌, if_cases,
  if_both,
}
use luve.Python.Text.{is_empty, is_space, strip, lstrip, rstrip}
use luve.Python.Lines.{join, prefix, suffix, split_words, begins_word, prepend}

unfoldable pub squeeze : String → String
squeeze String.[] = ""
squeeze (String.◌∷◌ c s) = let rest = squeeze s in if is_space c then rest else String.◌∷◌ c rest

unfoldable pub squeeze_all : List String → String
squeeze_all [] = ""
squeeze_all (s ∷ ss) = str_append (squeeze s) (squeeze_all ss)

pub squeeze-append : (s t : String) → squeeze (str_append s t) ≡ str_append (squeeze s) (squeeze t)
unfolding squeeze
squeeze-append String.[] t = rw (nil-append t, nil-append (squeeze t)) refl
squeeze-append (String.◌∷◌ c s) t =
    let rest = squeeze-append s t in
    rw (cons-append c s t) (
      if_cases
        (λ (x : String).
          (if is_space c then squeeze (str_append s t) else String.◌∷◌ c (squeeze (str_append s t)))
          ≡ str_append x (squeeze t))
        (is_space c) {x = squeeze s} {y = String.◌∷◌ c (squeeze s)} (λ e. rw e rest)
        (λ e. rw e (ap (String.◌∷◌ c) rest ∙ sym (cons-append c (squeeze s) (squeeze t)))))

pub squeeze-prefix :
    (n : ℕ) (s : String) → str_append (squeeze (prefix n s)) (squeeze (suffix n s)) ≡ squeeze s
unfolding squeeze prefix suffix
squeeze-prefix zero s = nil-append (squeeze s)
squeeze-prefix (suc n) String.[] = refl
squeeze-prefix (suc n) (String.◌∷◌ c s) =
    let rest = squeeze-prefix n s in
    if_cases
      (λ (x : String).
        str_append x (squeeze (suffix n s))
        ≡ (if is_space c then squeeze s else String.◌∷◌ c (squeeze s)))
      (is_space c) {x = squeeze (prefix n s)} {y = String.◌∷◌ c (squeeze (prefix n s))}
      (λ e. rw e rest)
      (λ e.
        rw e (cons-append c (squeeze (prefix n s)) (squeeze (suffix n s)) ∙ ap (String.◌∷◌ c) rest))

squeeze-lstrip : (s : String) → squeeze (lstrip s) ≡ squeeze s
unfolding squeeze lstrip
squeeze-lstrip String.[] = refl
squeeze-lstrip (String.◌∷◌ c s) = grind (arith, squeeze-lstrip s)

pub squeeze_blank : (s : String) → is_empty s ≡ true → squeeze s ≡ ""
unfolding squeeze
squeeze_blank String.[] h = refl
squeeze_blank (String.◌∷◌ c s) h = absurd (ground (arith, h))

squeeze-rstrip : (s : String) → squeeze (rstrip s) ≡ squeeze s
unfolding squeeze rstrip
squeeze-rstrip String.[] = refl
squeeze-rstrip (String.◌∷◌ c s) = grind (arith, squeeze-rstrip s, squeeze_blank (rstrip s))

pub squeeze-strip : (s : String) → squeeze (strip s) ≡ squeeze s
unfolding strip
squeeze-strip s = squeeze-rstrip (lstrip s) ∙ squeeze-lstrip s

-- A text of which nothing is left without its outer spaces has only spaces.
pub squeeze_empty : (s : String) → is_empty (strip s) ≡ true → squeeze s ≡ ""
squeeze_empty s h = sym (squeeze-strip s) ∙ squeeze_blank (strip s) h

squeeze_all-prepend :
    (c : Char) (ws : List String)
    → is_space c ≡ false
    → squeeze_all (prepend c ws) ≡ String.◌∷◌ c (squeeze_all ws)
unfolding squeeze_all squeeze
squeeze_all-prepend c [] h = rw h (append-nil (String.◌∷◌ c ""))
squeeze_all-prepend c (w ∷ ws) h = rw h (cons-append c (squeeze w) (squeeze_all ws))

pub squeeze_all-split_words : (s : String) → squeeze_all (split_words s) ≡ squeeze s
unfolding squeeze_all squeeze split_words
squeeze_all-split_words String.[] = refl
squeeze_all-split_words (String.◌∷◌ c s) =
    let rest = squeeze_all-split_words s in
    if_cases (λ (x : List String). squeeze_all x ≡ squeeze (String.◌∷◌ c s)) (is_space c)
      {x = split_words s}
      {y = if begins_word s then prepend c (split_words s) else String.◌∷◌ c "" ∷ split_words s}
      (λ e. rw e rest)
      (λ e.
        if_both (λ (x : List String). squeeze_all x ≡ squeeze (String.◌∷◌ c s)) (begins_word s)
          {x = prepend c (split_words s)} {y = String.◌∷◌ c "" ∷ split_words s}
          (squeeze_all-prepend c (split_words s) e ∙ rw e (ap (String.◌∷◌ c) rest))
          (rw e (
            cons-append c "" (squeeze_all (split_words s))
            ∙ ap (String.◌∷◌ c) (nil-append (squeeze_all (split_words s)) ∙ rest))))

pub squeeze-join : (ws : List String) → squeeze (join " " ws) ≡ squeeze_all ws
unfolding squeeze squeeze_all join is_space
squeeze-join [] = refl
squeeze-join (w ∷ []) = sym (append-nil (squeeze w))
squeeze-join (w ∷ w' ∷ ws) =
    let more = join " " (w' ∷ ws) in
    squeeze-append w (str_append " " more)
    ∙ ap (str_append (squeeze w))
        (squeeze-append " " more ∙ nil-append (squeeze more) ∙ squeeze-join (w' ∷ ws))
