-- ===== src/Media/Buffer/Order.antt =====
-- media/buffer.py: the loop that puts chunks in order, against what was received.
use luve.Prelude.{
  subst, ap, ◌⊎◌, inl, inr, refl, ◌≡◌, ◌∙◌, sym, arith, ◌<◌, ◌≤◌, ℕ, zero, suc, ◌+◌, Bool, true,
  false, Option, none, some, Option-cases, List, [], ◌∷◌, ◌++◌, length, ltb, ◌==◌, if◌then◌else◌,
}
use luve.Media.Buffer.{
  after_pop, flush_from, turn, AudioBuffer, lookup, remove, flush_turns, flush_contiguous,
}

split : (i n : ℕ) → i < suc n → (i < n) ⊎ (i ≡ n)
split i n h = omega arith

module _ {B : Type 0} where
  lookup-remove :
      (n j : ℕ) (p : List (ℕ × List B))
      → lookup j (remove n p) ≡ (if j == n then none else lookup j p)
  unfolding lookup remove
  lookup-remove n j [] = ground arith
  lookup-remove n j ((k, chunk) ∷ p) = ground (arith, lookup-remove n j p)

  length-remove_le : (n : ℕ) (p : List (ℕ × List B)) → length (remove n p) ≤ length p
  unfolding remove
  length-remove_le n [] = ground arith
  length-remove_le n ((k, chunk) ∷ p) = ground (arith, length-remove_le n p)

  length-remove :
      (n : ℕ) (p : List (ℕ × List B)) (chunk : List B)
      → lookup n p ≡ some chunk
      → length (remove n p) < length p
  unfolding lookup remove
  length-remove n [] chunk found = cc
  length-remove n ((k, c) ∷ p) chunk found =
      ground (arith, length-remove n p chunk, length-remove_le n p)

  lookup-empty : (n : ℕ) (p : List (ℕ × List B)) → length p ≤ 0 → lookup n p ≡ none
  unfolding lookup
  lookup-empty n [] h = refl
  lookup-empty n ((k, c) ∷ p) h = ground arith

-- What a stream has delivered: nothing, or the first sequence number and the chunk that came first
-- under each number.
pub data Received (B : Type 0) : Type 0 where
  nothing : Received B
  since : ℕ → (ℕ → Option (List B)) → Received B

module _ {B : Type 0} where
  abbrev pub is_some : Option (List B) → Bool
  is_some none = false
  is_some (some _) = true

  abbrev pub holds_at : (ℕ → Option (List B)) → ℕ → Bool
  holds_at f n = is_some (f n)

  -- A late chunk and a second one of the same number change nothing.
  unfoldable pub receive : ℕ → List B → Received B → Received B
  receive n chunk nothing = since n (λ j. if j == n then some chunk else none)
  receive n chunk (since first f) =
      if ltb n first
      then since first f
      else if holds_at f n
      then since first f
      else since first (λ j. if j == n then some chunk else f j)

  abbrev pub to_list : Option (List B) → List (List B)
  to_list none = []
  to_list (some chunk) = chunk ∷ []

  -- The chunks under `count` numbers from `first` on.
  unfoldable pub run : (ℕ → Option (List B)) → ℕ → ℕ → List (List B)
  run f first zero = []
  run f first (suc count) = run f first count ++ to_list (f (first + count))

  -- The buffer has put `count` chunks in order, and the others wait.
  pub record Holds (first : ℕ) (f : ℕ → Option (List B)) (b : AudioBuffer B) : Type 0 where
    pub count : ℕ
    pub next : b.next_expected_sequence ≡ some (first + count)
    pub ordered : b.ordered_chunks ≡ run f first count
    pub full : (i : ℕ) → i < count → holds_at f (first + i) ≡ true
    pub pending :
        (j : ℕ) → lookup j b.pending_by_sequence ≡ (if ltb j (first + count) then none else f j)

  -- The chunk under the next number waits if it has come.
  next-lookup :
      (first : ℕ) (f : ℕ → Option (List B)) (b : AudioBuffer B) (h : Holds first f b)
      → lookup (first + h.count) b.pending_by_sequence ≡ f (first + h.count)
  next-lookup first f b h = ground (arith, h.pending (first + h.count))

  -- One turn of the loop.
  turn-Holds :
      (first : ℕ) (f : ℕ → Option (List B)) (b : AudioBuffer B) (h : Holds first f b)
      (chunk : List B)
      → lookup (first + h.count) b.pending_by_sequence ≡ some chunk
      → (h' : Holds first f (turn (first + h.count) chunk b)) × (h'.count ≡ suc h.count)
  unfolding run
  turn-Holds first f b h chunk found =
      let here : f (first + h.count) ≡ some chunk = sym (next-lookup first f b h) ∙ found in
      (
        record {
          count = suc h.count;
          next = ap some (omega arith);
          ordered = rw h.ordered (rw here refl);
          full = λ i lt. elim (split i h.count lt) [
            | inl before ↦ h.full i before
            | inr same ↦ ground (arith, same, here)
          ];
          pending = λ j.
              ground (arith, lookup-remove (first + h.count) j b.pending_by_sequence, h.pending j);
        },
        refl,
      )

  flush_turns-none : (next : ℕ) (b : AudioBuffer B) → flush_turns 0 next b ≡ b
  unfolding flush_turns
  flush_turns-none next b = refl

  flush_turns-stop :
      (n next : ℕ) (b : AudioBuffer B)
      → lookup next b.pending_by_sequence ≡ none
      → flush_turns (suc n) next b ≡ b
  unfolding flush_turns after_pop
  flush_turns-stop n next b missing = ap (after_pop (flush_turns n (suc next)) next b) missing

  flush_turns-turn :
      (n next : ℕ) (b : AudioBuffer B) (chunk : List B)
      → lookup next b.pending_by_sequence ≡ some chunk
      → flush_turns (suc n) next b ≡ flush_turns n (suc next) (turn next chunk b)
  unfolding flush_turns after_pop
  flush_turns-turn n next b chunk found = ap (after_pop (flush_turns n (suc next)) next b) found

  -- The run stops before the first number whose chunk has not come.
  abbrev pub Flushed : ℕ → (ℕ → Option (List B)) → AudioBuffer B → Type 0
  Flushed first f b = (h : Holds first f b) × (f (first + h.count) ≡ none)

  -- The loop ends with the next chunk not there, if it has as many turns as chunks wait.
  flush_turns-Flushed :
      (n first : ℕ) (f : ℕ → Option (List B)) (b : AudioBuffer B) (h : Holds first f b) (next : ℕ)
      → next ≡ first + h.count
      → length b.pending_by_sequence ≤ n
      → Flushed first f (flush_turns n next b)
  flush_turns-Flushed zero first f b h next e fits =
      subst (Flushed first f) (sym (flush_turns-none next b)) (
        h,
        sym (next-lookup first f b h) ∙ lookup-empty (first + h.count) b.pending_by_sequence fits,
      )
  flush_turns-Flushed (suc n) first f b h next e fits =
      elim (Option-cases (lookup (first + h.count) b.pending_by_sequence)) [
        | inl missing ↦
            subst (Flushed first f)
              (sym (
                ap (λ x. flush_turns (suc n) x b) e
                ∙ flush_turns-stop n (first + h.count) b missing))
              (h, sym (next-lookup first f b h) ∙ missing)
        | inr (chunk, found) ↦
            let (h', more) = turn-Holds first f b h chunk found in
            subst (Flushed first f)
              (sym (
                ap (λ x. flush_turns (suc n) x b) e
                ∙ flush_turns-turn n (first + h.count) b chunk found))
              (flush_turns-Flushed n first f (turn (first + h.count) chunk b) h'
                (suc (first + h.count)) (omega (arith, more))
                (omega
                  (arith, length-remove (first + h.count) b.pending_by_sequence chunk found, fits)))
      ]

  pub flush_contiguous-Flushed :
      (first : ℕ) (f : ℕ → Option (List B)) (b : AudioBuffer B)
      → Holds first f b
      → Flushed first f (flush_contiguous b)
  unfolding flush_contiguous flush_from
  flush_contiguous-Flushed first f b h =
      subst (λ x. Flushed first f (flush_from b x)) (sym h.next)
        (flush_turns-Flushed (length b.pending_by_sequence) first f b h (first + h.count) refl
          (omega arith))

  -- The buffer shows what was received.
  unfoldable pub Shows : Received B → AudioBuffer B → Type 0
  Shows nothing b =
      (b.next_expected_sequence ≡ none) × (b.ordered_chunks ≡ []) × (b.pending_by_sequence ≡ [])
  Shows (since first f) b = Flushed first f b
