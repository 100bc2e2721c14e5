-- ===== src/Extension/Confidence/Repeats/Phrases.antt =====
-- luve_extension.py: the two loops of the guard find exactly the phrases that are said twice.
use Prim.Native.String.{String}
use text.Mathlib.TextEquality.{eq_iff}
use luve.Prelude.{
  ℕ, zero, suc, ◌+◌, ◌-◌, ◌*◌, ◌/◌, ◌≤◌, ◌<◌, ◌≡◌, ◌↔◌, refl, sym, ap, ◌∙◌, subst, arith, Bool,
  true, ◌&&◌, List, [], ◌∷◌, ◌++◌, length, take, drop, leb, ◌==◌, Bool-cases, inl, inr,
  length-append, length-drop, length-take, take-drop, drop-drop,
}
use luve.Extension.Confidence.Repeats.{eq_words, any_below, repeats_at, has_repeated_phrase}

eq_words_refl : (words : List String) → eq_words words words ≡ true
unfolding eq_words
eq_words_refl [] = refl
eq_words_refl (a ∷ words) = ground (arith, eq_iff a a, eq_words_refl words)

eq_words-eq : (as' bs : List String) → eq_words as' bs ≡ true → as' ≡ bs
unfolding eq_words
eq_words-eq [] [] h = refl
eq_words-eq [] (b ∷ bs) h = absurd (ground (arith, h))
eq_words-eq (a ∷ as') [] h = absurd (ground (arith, h))
eq_words-eq (a ∷ as') (b ∷ bs) h = ground (arith, eq_iff a b, eq_words-eq as' bs)

any_below-found :
    (test : ℕ → Bool) (n : ℕ) → any_below test n ≡ true → (i : ℕ) × (i < n) × (test i ≡ true)
unfolding any_below
any_below-found test zero h = absurd (ground (arith, h))
any_below-found test (suc n) h = elim (Bool-cases (test n)) [
  | inl found ↦ (n, omega arith, found)
  | inr not_here ↦
      let (i, below, found) = any_below-found test n (ground (arith, h, not_here)) in
      (i, omega arith, found)
]

any_below-finds : (test : ℕ → Bool) (n i : ℕ) → i < n → test i ≡ true → any_below test n ≡ true
unfolding any_below
any_below-finds test zero i below found = absurd (omega arith)
any_below-finds test (suc n) i below found = elim (Bool-cases (i == n)) [
  | inl same ↦ let here : i ≡ n = ground (arith, same) in rw (sym here, found) refl
  | inr other ↦ ground (arith, any_below-finds test n i, other)
]

-- A phrase of three words or more that stands twice in a row.
abbrev pub HasRepeat : List String → Type 0
HasRepeat words =
    (before : List String) × (phrase : List String) × (after : List String) × (words
      ≡ before ++ (phrase ++ (phrase ++ after)))
    × (3 ≤ length phrase)

repeats_at-HasRepeat :
    (words : List String) (k i : ℕ)
    → 3 ≤ k
    → i + 2 * k ≤ length words
    → repeats_at words k i ≡ true
    → HasRepeat words
repeats_at-HasRepeat words k i long fits h =
    let rest = drop i words in
    let same = eq_words-eq (take k rest) (take k (drop (i + k) words)) h in
    let next = drop-drop k i words in
    let split = take-drop k (drop k rest) in
    (
      take i words,
      take k rest,
      drop k (drop k rest),
      sym (take-drop i words)
          ∙ ap (λ (ys : List String). take i words ++ ys)
              (sym (take-drop k rest)
                ∙ ap (λ (ys : List String). take k rest ++ ys)
                    (sym split
                      ∙ ap (λ (ys : List String). ys ++ drop k (drop k rest))
                          (ap (λ (ys : List String). take k ys) next ∙ sym same))),
      subst (λ n. 3 ≤ n) (sym (length-take k rest (omega (arith, length-drop i words)))) long,
    )

drop-length-append : (xs ys : List String) → drop (length xs) (xs ++ ys) ≡ ys
drop-length-append [] ys = refl
drop-length-append (x ∷ xs) ys = drop-length-append xs ys

take-length-append : (xs ys : List String) → take (length xs) (xs ++ ys) ≡ xs
take-length-append [] ys = refl
take-length-append (x ∷ xs) ys = ap (λ (zs : List String). x ∷ zs) (take-length-append xs ys)

HasRepeat-repeats_at :
    (before phrase after : List String)
    → repeats_at (before ++ (phrase ++ (phrase ++ after))) (length phrase) (length before) ≡ true
HasRepeat-repeats_at before phrase after =
    let words = before ++ (phrase ++ (phrase ++ after)) in
    let k = length phrase in
    let first = drop-length-append before (phrase ++ (phrase ++ after)) in
    let second =
      sym (drop-drop k (length before) words)
      ∙ ap (λ (ys : List String). drop k ys) first
      ∙ drop-length-append phrase (phrase ++ after) in
    ap (λ (ys : List String). eq_words (take k ys) (take k (drop (length before + k) words))) first
    ∙ ap (λ (ys : List String). eq_words ys (take k (drop (length before + k) words)))
        (take-length-append phrase (phrase ++ after))
    ∙ ap (λ (ys : List String). eq_words phrase (take k ys)) second
    ∙ ap (λ (ys : List String). eq_words phrase ys) (take-length-append phrase after)
    ∙ eq_words_refl phrase

found-HasRepeat : (words : List String) → has_repeated_phrase words ≡ true → HasRepeat words
unfolding has_repeated_phrase
found-HasRepeat words h =
    let loop = λ (k : ℕ). any_below (repeats_at words k) (length words + 1 - 2 * k) in
    let (k, fits, found) = any_below-found (λ k. leb 3 k && loop k) (length words / 2 + 1) h in
    let (i, below, here) =
      any_below-found (repeats_at words k) (length words + 1 - 2 * k) (ground (arith, found)) in
    let long : 3 ≤ k = ground (arith, found) in
    repeats_at-HasRepeat words k i long (omega arith) here

HasRepeat-found : (words : List String) → HasRepeat words → has_repeated_phrase words ≡ true
unfolding has_repeated_phrase
HasRepeat-found words (before, phrase, after, e, long) =
    let k = length phrase in
    let loop = λ (k : ℕ). any_below (repeats_at words k) (length words + 1 - 2 * k) in
    let size : length words ≡ length before + (k + (k + length after)) =
      ap length e
      ∙ length-append before (phrase ++ (phrase ++ after))
      ∙ omega (arith, length-append phrase (phrase ++ after), length-append phrase after) in
    let here =
      any_below-finds (repeats_at words k) (length words + 1 - 2 * k) (length before) (omega arith)
        (ap (λ (ys : List String). repeats_at ys k (length before)) e
          ∙ HasRepeat-repeats_at before phrase after) in
    any_below-finds (λ k. leb 3 k && loop k) (length words / 2 + 1) k (omega arith)
      (ground (arith, here, long))

-- The guard finds a repetition exactly if three words or more are said twice in a row.
pub has_repeated_phrase_iff :
    (words : List String) → (has_repeated_phrase words ≡ true) ↔ HasRepeat words
has_repeated_phrase_iff words = (found-HasRepeat words, HasRepeat-found words)
