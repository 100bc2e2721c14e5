-- ===== src/Extension/Reply/Streams.antt =====
-- The pieces of a reply make the reply.
use Prim.Native.String.{String, ◌++◌ as str_append}
use Prim.Native.Char.{Char, code}
use text.Mathlib.TextEquality.{Char-path}
use text.Mathlib.TextLemmas.{cons≢nil, append-nil, append_assoc, cons-append, nil-append}
use luve.Prelude.{
  ◌≡◌, refl, arith, true, Option, none, some, List, [], ◌∷◌, ◌++◌, if◌then◌else◌, if_cases, if_both,
  ◌==◌, ==_iff, subst, ap, sym, ◌∙◌, Bool-cases, inl, inr,
}
use luve.Python.Text.{map_chars, is_empty, upper}
use luve.Python.Lines.{find}
use luve.Extension.Reply.{
  Reply, no_reply, after_prefix, diff_streamed_text, extract_response_text, pass_on, on_token,
  on_tokens, finish, run_llm_pipeline,
}

-- The pieces put together.
unfoldable pub spoken : List String → String
spoken [] = ""
spoken (delta ∷ deltas) = str_append delta (spoken deltas)

-- The second text starts with the first.
abbrev pub Extends : String → String → Type 0
Extends previous current = (rest : String) × (after_prefix previous current ≡ some rest)

-- Each token extends the reply that can be read from the raw text.
abbrev pub Grows : String → List String → Type 0
Grows raw [] = Unit
Grows raw (delta ∷ tokens) =
    Extends (extract_response_text raw) (extract_response_text (str_append raw delta))
    × Grows (str_append raw delta) tokens

abbrev pub all_tokens : String → List String → String
all_tokens raw [] = raw
all_tokens raw (delta ∷ tokens) = all_tokens (str_append raw delta) tokens

heads :
    (c d : Char) (o : Option String) (rest : String)
    → (if code c == code d then o else none) ≡ some rest
    → (c ≡ d) × (o ≡ some rest)
heads c d o rest h = elim (Bool-cases (code c == code d)) [
  | inl same ↦ (Char-path c d ((==_iff (code c) (code d)).0 same), sym (rw same refl) ∙ h)
  | inr other ↦ absurd (ground (arith, other, h))
]

after_prefix-append :
    (previous current rest : String)
    → after_prefix previous current ≡ some rest
    → current ≡ str_append previous rest
unfolding after_prefix
after_prefix-append String.[] current rest h =
    let same : current ≡ rest = ground (arith, h) in same ∙ sym (nil-append rest)
after_prefix-append (String.◌∷◌ c previous) String.[] rest h = cc
after_prefix-append (String.◌∷◌ c previous) (String.◌∷◌ d current) rest h =
    let (same, found) = heads c d (after_prefix previous current) rest h in
    ap (λ x. String.◌∷◌ x current) (sym same)
    ∙ ap (String.◌∷◌ c) (after_prefix-append previous current rest found)
    ∙ sym (cons-append c previous rest)

blank : (s : String) → is_empty s ≡ true → s ≡ ""
blank String.[] h = refl
blank (String.◌∷◌ c s) h = cc

blank_rest : (previous rest : String) → str_append previous rest ≡ "" → previous ≡ ""
blank_rest String.[] rest h = refl
blank_rest (String.◌∷◌ c previous) rest h =
    absurd (cons≢nil (sym (cons-append c previous rest) ∙ h))

diff-append :
    (previous current : String)
    → Extends previous current
    → str_append previous (diff_streamed_text previous current) ≡ current
unfolding diff_streamed_text
diff-append previous current (rest, h) =
    let whole = after_prefix-append previous current rest h in
    if_cases (λ x. str_append previous x ≡ current) (is_empty current)
      (λ none_left.
        let gone : current ≡ "" = blank current none_left in
        append-nil previous ∙ blank_rest previous rest (sym whole ∙ gone) ∙ sym gone)
      (λ _.
        ap (λ o. str_append previous (elim o as (λ _. String) [ none ↦ current | some r ↦ r ])) h
        ∙ sym whole)

spoken-append :
    (xs : List String) (delta : String) → spoken (xs ++ delta ∷ []) ≡ str_append (spoken xs) delta
unfolding spoken
spoken-append [] delta = append-nil delta ∙ sym (nil-append delta)
spoken-append (x ∷ xs) delta =
    ap (str_append x) (spoken-append xs delta) ∙ sym (append_assoc x (spoken xs) delta)

-- What is passed on is what the buffer of the reply has, and it is the reply read from the raw text.
abbrev InStep : Reply → Type 0
InStep r =
    (spoken r.deltas ≡ r.streamed_response_buffer)
    × (r.streamed_response_buffer ≡ extract_response_text r.llm_raw_buffer)

pass_on-InStep :
    (delta current : String) (r : Reply)
    → spoken r.deltas ≡ r.streamed_response_buffer
    → str_append r.streamed_response_buffer delta ≡ current
    → (spoken (pass_on delta r).deltas ≡ (pass_on delta r).streamed_response_buffer)
      × ((pass_on delta r).streamed_response_buffer ≡ current)
pass_on-InStep delta current r said whole =
    if_cases
      (λ (x : Reply).
        (spoken x.deltas ≡ x.streamed_response_buffer) × (x.streamed_response_buffer ≡ current))
      (is_empty delta)
      (λ nothing. (
        said,
        sym (append-nil r.streamed_response_buffer)
            ∙ ap (str_append r.streamed_response_buffer) (sym (blank delta nothing))
            ∙ whole,
      ))
      (λ _. (spoken-append r.deltas delta ∙ ap (λ x. str_append x delta) said, whole))

pass_on-raw : (delta : String) (r : Reply) → (pass_on delta r).llm_raw_buffer ≡ r.llm_raw_buffer
pass_on-raw delta r =
    if_both (λ (x : Reply). x.llm_raw_buffer ≡ r.llm_raw_buffer) (is_empty delta) refl refl

on_token-InStep :
    (delta : String) (r : Reply)
    → InStep r
    → Extends
        (extract_response_text r.llm_raw_buffer)
        (extract_response_text (str_append r.llm_raw_buffer delta))
    → InStep (on_token delta r)
      × ((on_token delta r).llm_raw_buffer ≡ str_append r.llm_raw_buffer delta)
unfolding on_token
on_token-InStep delta r (said, read) extends =
    let raw = str_append r.llm_raw_buffer delta in
    let current = extract_response_text raw in
    let piece = diff_streamed_text r.streamed_response_buffer current in
    let moved = record r { llm_raw_buffer = raw } in
    let whole : str_append r.streamed_response_buffer piece ≡ current =
      ap (λ x. str_append x (diff_streamed_text x current)) read
      ∙ diff-append (extract_response_text r.llm_raw_buffer) current extends in
    let (said', read') = pass_on-InStep piece current moved said whole in
    if_cases (λ (x : Reply). InStep x × (x.llm_raw_buffer ≡ raw)) (is_empty delta)
      (λ nothing. (
        (said, read),
        sym (append-nil r.llm_raw_buffer)
            ∙ ap (str_append r.llm_raw_buffer) (sym (blank delta nothing)),
      ))
      (λ _.
        let same = pass_on-raw piece moved in
        ((said', read' ∙ ap extract_response_text (sym same)), same))

on_tokens-InStep :
    (tokens : List String) (r : Reply)
    → InStep r
    → Grows r.llm_raw_buffer tokens
    → InStep (on_tokens tokens r)
      × ((on_tokens tokens r).llm_raw_buffer ≡ all_tokens r.llm_raw_buffer tokens)
unfolding on_tokens
on_tokens-InStep [] r s grows = (s, refl)
on_tokens-InStep (delta ∷ tokens) r s (extends, grows) =
    let (s', raw) = on_token-InStep delta r s extends in
    let (s'', raw') =
      on_tokens-InStep tokens (on_token delta r) s' (subst (λ x. Grows x tokens) (sym raw) grows) in
    (s'', raw' ∙ ap (λ x. all_tokens x tokens) raw)

no_reply-InStep : InStep no_reply
unfolding spoken extract_response_text find upper map_chars
no_reply-InStep = (refl, refl)

-- If each token extends the reply that can be read from the raw text so far, and the reply returned in
-- the end extends the last of these, then the pieces passed on make exactly the reply, each part once.
pub run_llm_pipeline-spoken :
    (tokens : List String) (response_text : String)
    → Grows "" tokens
    → Extends (extract_response_text (all_tokens "" tokens)) response_text
    → spoken (run_llm_pipeline tokens response_text) ≡ response_text
unfolding run_llm_pipeline finish
run_llm_pipeline-spoken tokens response_text grows ends =
    let r = on_tokens tokens no_reply in
    let ((said, read), raw) = on_tokens-InStep tokens no_reply no_reply-InStep grows in
    let tail = diff_streamed_text r.streamed_response_buffer response_text in
    let buffer : r.streamed_response_buffer ≡ extract_response_text (all_tokens "" tokens) =
      read ∙ ap extract_response_text raw in
    let whole : str_append r.streamed_response_buffer tail ≡ response_text =
      ap (λ x. str_append x (diff_streamed_text x response_text)) buffer
      ∙ diff-append (extract_response_text (all_tokens "" tokens)) response_text ends in
    if_cases (λ x. spoken x ≡ response_text) (is_empty tail)
      (λ nothing.
        said
        ∙ sym (append-nil r.streamed_response_buffer)
        ∙ ap (str_append r.streamed_response_buffer) (sym (blank tail nothing))
        ∙ whole)
      (λ _. spoken-append r.deltas tail ∙ ap (λ x. str_append x tail) said ∙ whole)
