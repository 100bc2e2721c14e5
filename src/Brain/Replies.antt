-- ===== src/Brain/Replies.antt =====
-- media/brain.py: a reply is always there.
use Prim.Native.String.{String}
use luve.Prelude.{
  ℕ, ◌≡◌, refl, ◌∙◌, ap, false, Option, none, some, List, [], ◌∷◌, ◌++◌, ◌⊎◌, inl, inr, if_cases,
  if_both, not, if◌then◌else◌, ltb,
}
use luve.Python.Text.{is_empty, strip, lstrip, rstrip, is_space}
use luve.Python.Lines.{split_lines, prefix}
use luve.Brain.{
  first_line, no_output, parse_lines, feedback_or_blank, PedagogicalReply, Exchange, Providers, Run,
  new_reply, parse_output, parsed, build_fallback_reply, tell_fallback, or_fallback, answer,
  complete, stream_response,
}

-- No space is at either end.
abbrev pub IsTrimmed : String → Type 0
IsTrimmed s = (lstrip s ≡ s) × (rstrip s ≡ s)

-- A reply that is there has a text.
abbrev pub SpeaksIf : Option PedagogicalReply → Type 0
SpeaksIf none = Unit
SpeaksIf (some reply) = is_empty reply.response_text ≡ false

-- The tokens and the reply after a provider's run, whose parsed reply is `found`.
abbrev pub Tells : List String → Option PedagogicalReply → Exchange → Type 0
Tells tokens found e =
    (reply : PedagogicalReply) × (e.reply ≡ some reply)
    × (is_empty reply.response_text ≡ false)
    × (((found ≡ some reply) × (e.tokens ≡ tokens))
        ⊎ ((found ≡ none)
            × (reply.source ≡ "local_fallback")
            × (e.tokens ≡ tokens ++ reply.response_text ∷ [])))

-- The fallback of the source: a text that stands, under the source's name.
abbrev IsFallback : Option PedagogicalReply → Type 0
IsFallback o =
    (reply : PedagogicalReply) × (o ≡ some reply)
    × (is_empty reply.response_text ≡ false)
    × (reply.source ≡ "local_fallback")

new_reply-SpeaksIf :
    (trim : String → String) (response_text feedback source : String)
    → SpeaksIf (new_reply trim response_text feedback source)
unfolding new_reply
new_reply-SpeaksIf trim r f s = if_cases SpeaksIf (is_empty (trim r)) (λ e. tt) (λ e. e)

parse_output-SpeaksIf :
    (trim : String → String) (raw source : String) → SpeaksIf (parse_output trim raw source)
unfolding parse_output
parse_output-SpeaksIf trim raw source =
    let o = parse_lines (split_lines raw) no_output in
    let cleaned = strip raw in
    let feedback = feedback_or_blank o.pedagogical_feedback in
    let line = prefix 220 (first_line (split_lines cleaned)) in
    if_both SpeaksIf (not (is_empty o.response_text))
      {x = new_reply trim o.response_text feedback source}
      {y = if is_empty cleaned then none else new_reply trim line "" source}
      (new_reply-SpeaksIf trim o.response_text feedback source)
      (if_both SpeaksIf (is_empty cleaned) {x = none} {y = new_reply trim line "" source} tt
        (new_reply-SpeaksIf trim line "" source))

parsed-SpeaksIf :
    (trim : String → String) (source : String) (o : Option String) → SpeaksIf (parsed trim source o)
parsed-SpeaksIf trim source none = tt
parsed-SpeaksIf trim source (some raw) = parse_output-SpeaksIf trim raw source

module _ (trim : String → String) (trims : (s : String) → IsTrimmed s → trim s ≡ s) where
  new_reply-IsFallback :
      (text feedback : String)
      → IsTrimmed text
      → is_empty text ≡ false
      → IsFallback (new_reply trim text feedback "local_fallback")
  unfolding new_reply lstrip rstrip is_space
  new_reply-IsFallback text feedback h filled =
      let same = trims text h in
      let stands : is_empty (trim text) ≡ false = ap is_empty same ∙ filled in
      (
        record {
          response_text = trim text;
          pedagogical_feedback = trim feedback;
          source = trim "local_fallback";
        },
        rw stands refl,
        stands,
        trims "local_fallback" (refl, refl),
      )

  build_fallback_reply-IsFallback : (n : ℕ) → IsFallback (build_fallback_reply trim n)
  unfolding build_fallback_reply lstrip rstrip is_space
  build_fallback_reply-IsFallback n =
      if_cases IsFallback (ltb 0 n)
        (λ e.
          new_reply-IsFallback "Nice try! Can you repeat that once more a bit more clearly?" _
            (refl, refl) refl)
        (λ e. new_reply-IsFallback "Great! Tell me a little more about that." _ (refl, refl) refl)

  tell_fallback-Tells :
      (tokens : List String) (fallback : Option PedagogicalReply)
      → IsFallback fallback
      → Tells tokens none (tell_fallback tokens fallback)
  tell_fallback-Tells tokens fallback (reply, e, stands, named) = (
    reply,
    ap (λ o. (tell_fallback tokens o).reply) e,
    stands,
    inr (refl, named, ap (λ o. (tell_fallback tokens o).tokens) e),
  )

  or_fallback-Tells :
      (n : ℕ) (tokens : List String) (found : Option PedagogicalReply)
      → SpeaksIf found
      → Tells tokens found (or_fallback trim n tokens found)
  unfolding or_fallback
  or_fallback-Tells n tokens (some reply) h = (reply, refl, h, inl (refl, refl))
  or_fallback-Tells n tokens none h =
      tell_fallback-Tells tokens (build_fallback_reply trim n) (build_fallback_reply-IsFallback n)

  answer-Tells :
      (n : ℕ) (source : String) (r : Run)
      → Tells r.tokens (parsed trim source r.raw_output) (answer trim n source r)
  unfolding answer
  answer-Tells n source r =
      or_fallback-Tells n r.tokens (parsed trim source r.raw_output)
        (parsed-SpeaksIf trim source r.raw_output)

  -- Whatever the provider sends and however it fails, `stream_response` returns a reply with a text
  -- that is not empty, if pydantic leaves texts without outer spaces alone. For a transcript that is
  -- not blank it is the reply parsed from the provider's output, and the callback gets exactly the
  -- provider's tokens; or nothing could be parsed, the reply is a local fallback, and the callback gets
  -- its text after the provider's tokens.
  pub stream_response_replies :
      {N : Type 0} (raw_text : String) (n : ℕ) (p : Providers N)
      → is_empty (strip raw_text) ≡ false
      → Tells
          (complete p).tokens
          (parsed trim p.provider (complete p).raw_output)
          (stream_response trim raw_text n p)
  unfolding stream_response
  stream_response_replies raw_text n p h = rw h (answer-Tells n p.provider (complete p))
