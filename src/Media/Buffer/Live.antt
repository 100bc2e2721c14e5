-- ===== src/Media/Buffer/Live.antt =====
-- media/buffer.py: the byte count, the cached audio and the clock of an open buffer.
use luve.Prelude.{
  ap, inl, inr, refl, ◌≡◌, ◌∙◌, sym, arith, ℕ, zero, suc, ◌+◌, Bool, true, false, Option, none,
  some, Option-cases, List, [], ◌∷◌, ◌++◌, length, length-append, ltb, ok,
}
use luve.Media.Buffer.{
  AudioBuffer, lookup, concat, turn, flush_turns, after_pop, flush_from, flush_contiguous, accept,
  accept_unless, expected, get_flat_audio,
}

module _ {B : Type 0} where
  concat-append :
      (xs : List (List B)) (chunk : List B)
      → length (concat (xs ++ chunk ∷ [])) ≡ length (concat xs) + length chunk
  unfolding concat
  concat-append [] chunk = ground (arith, length-append chunk [])
  concat-append (x ∷ xs) chunk = ground (
    arith,
    concat-append xs chunk,
    length-append x (concat xs),
    length-append x (concat (xs ++ chunk ∷ [])),
  )

  length-empty : (xs : List B) → length xs ≡ 0 → xs ≡ []
  length-empty [] h = refl
  length-empty (x ∷ xs) h = ground arith

module _ {B : Type 0} (ttl used : ℕ) where
  -- An open buffer whose byte count is that of the ordered chunks, whose cached audio is theirs, and
  -- which was last used at the given time.
  abbrev pub IsLive : AudioBuffer B → Type 0
  IsLive b =
      (b.is_closed ≡ false)
      × (b.total_bytes ≡ length (concat b.ordered_chunks))
      × ((audio : List B) → b.flat_cache ≡ some audio → audio ≡ concat b.ordered_chunks)
      × (b.silence_ttl ≡ ttl)
      × (b.last_activity ≡ used)

  turn-IsLive :
      (next : ℕ) (chunk : List B) (b : AudioBuffer B) → IsLive b → IsLive (turn next chunk b)
  turn-IsLive next chunk b (open_, total, cache, same_ttl, last) = (
    open_,
    ap (λ x. x + length chunk) total ∙ sym (concat-append b.ordered_chunks chunk),
    λ audio e. cc,
    same_ttl,
    last,
  )

  after_pop-IsLive :
      (n next : ℕ) (b : AudioBuffer B) (o : Option (List B))
      → IsLive b
      → ((b' : AudioBuffer B) → IsLive b' → IsLive (flush_turns n (suc next) b'))
      → IsLive (after_pop (flush_turns n (suc next)) next b o)
  unfolding after_pop
  after_pop-IsLive n next b none h loop = h
  after_pop-IsLive n next b (some chunk) h loop =
      loop (turn next chunk b) (turn-IsLive next chunk b h)

  flush_turns-IsLive : (n next : ℕ) (b : AudioBuffer B) → IsLive b → IsLive (flush_turns n next b)
  unfolding flush_turns
  flush_turns-IsLive zero next b h = h
  flush_turns-IsLive (suc n) next b h =
      after_pop-IsLive n next b (lookup next b.pending_by_sequence) h
        (λ b' h'. flush_turns-IsLive n (suc next) b' h')

  flush_from-IsLive : (b : AudioBuffer B) (o : Option ℕ) → IsLive b → IsLive (flush_from b o)
  unfolding flush_from
  flush_from-IsLive b none h = h
  flush_from-IsLive b (some next) h = flush_turns-IsLive (length b.pending_by_sequence) next b h

  accept_unless-IsLive :
      (late : Bool) (waiting : Option (List B)) (n : ℕ) (chunk : List B) (b : AudioBuffer B)
      → IsLive b
      → IsLive (accept_unless late waiting n chunk b)
  unfolding accept_unless flush_contiguous
  accept_unless-IsLive true waiting n chunk b h = h
  accept_unless-IsLive false (some _) n chunk b h = h
  accept_unless-IsLive false none n chunk b h =
      flush_from-IsLive (record b { pending_by_sequence = (n, chunk) ∷ b.pending_by_sequence })
        b.next_expected_sequence h

  pub accept-IsLive :
      (n : ℕ) (chunk : List B) (b : AudioBuffer B) → IsLive b → IsLive (accept n chunk b)
  unfolding accept
  accept-IsLive n chunk b h =
      accept_unless-IsLive (ltb n (expected n b.next_expected_sequence))
        (lookup n b.pending_by_sequence) n chunk b h

  -- The audio is what the ordered chunks hold, from the cache or put together.
  pub get_flat_audio-IsLive :
      (b : AudioBuffer B) → IsLive b → (get_flat_audio b).0 ≡ ok (concat b.ordered_chunks)
  unfolding get_flat_audio
  get_flat_audio-IsLive b (open_, total, cache, same_ttl, last) = elim (Option-cases b.flat_cache) [
    | inl fresh ↦ ground (arith, fresh, open_, total, length-empty (concat b.ordered_chunks))
    | inr (audio, e) ↦ ground (arith, e, open_, cache audio e)
  ]
