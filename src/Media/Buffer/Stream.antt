-- ===== src/Media/Buffer/Stream.antt =====
-- media/buffer.py: the audio of a stream of chunks.
use luve.Prelude.{
  ◌-◌, leb, ◌||◌, ◌&&◌, ◌==◌, if_both, pos, subst, ap, ◌⊎◌, inl, inr, refl, ◌≡◌, ◌∙◌, sym, arith,
  ◌<◌, ◌≤◌, ℕ, zero, suc, ◌+◌, Bool, true, false, Option, none, some, List, [], ◌∷◌, ◌++◌, ltb,
  if◌then◌else◌, Result, ok, raise,
}
use luve.Media.Buffer.{
  clear, sweep, is_nonempty, BufferError, buffer_closed, AudioBuffer, concat, accept, add_chunk,
  get_flat_audio, new,
}
use luve.Media.Buffer.Order.{
  to_list, Received, nothing, since, is_some, holds_at, receive, run, Shows,
}
use luve.Media.Buffer.Refines.{touch, arrival-Shows, run-ext}
use luve.Media.Buffer.Live.{IsLive, accept-IsLive, get_flat_audio-IsLive}

lt-cases : (a b : ℕ) → (a < b) ⊎ (b ≤ a)
lt-cases a b = omega arith

not-both : {x : Bool} → x ≡ false → x ≡ true → ⊥
not-both h h' = cc

-- One call of `add_chunk`, with the time at which it comes and a chunk that is not empty.
pub record Arrival (B : Type 0) : Type 0 where
  pub time : ℕ
  pub sequence_number : ℕ
  pub head : B
  pub tail : List B

-- What was received since the buffer was created or cleared, and when it was last used.
abbrev pub Heard : Type 0 → Type 0
Heard B = Received B × ℕ

-- What happens to a buffer: a chunk comes, or the monitor wakes and looks for silence, at some time.
pub data Input (B : Type 0) : Type 0 where
  arrives : Arrival B → Input B
  sweeps : ℕ → Input B

module _ {B : Type 0} where
  abbrev pub take_input : Input B → AudioBuffer B → AudioBuffer B
  take_input (arrives a) b = (add_chunk a.time (pos a.sequence_number) (a.head ∷ a.tail) b).1
  take_input (sweeps now) b = sweep now b

  unfoldable pub feed : List (Input B) → AudioBuffer B → AudioBuffer B
  feed [] b = b
  feed (input ∷ inputs) b = feed inputs (take_input input b)

  -- A sweep at the end of a pause forgets what was received, if anything was.
  unfoldable pub forget : (is_idle : Bool) → ℕ → Heard B → Heard B
  forget true now (since first f, used) = (nothing, now)
  forget true now (nothing, used) = (nothing, used)
  forget false now heard = heard

  -- A chunk adds to what was received.
  unfoldable pub hear : ℕ → Input B → Heard B → Heard B
  hear ttl (arrives a) (r, used) = (receive a.sequence_number (a.head ∷ a.tail) r, a.time)
  hear ttl (sweeps now) (r, used) = forget (leb ttl (now - used)) now (r, used)

  unfoldable pub receive_all : ℕ → List (Input B) → Heard B → Heard B
  receive_all ttl [] heard = heard
  receive_all ttl (input ∷ inputs) heard = receive_all ttl inputs (hear ttl input heard)

  add_chunk-open :
      (now n : ℕ) (x : B) (xs : List B) (b : AudioBuffer B)
      → b.is_closed ≡ false
      → (add_chunk now (pos n) (x ∷ xs) b).1 ≡ accept n (x ∷ xs) (touch now n b)
  unfolding add_chunk
  add_chunk-open now n x xs b open_ =
      let added : Bool → Result BufferError (Unit {0}) × AudioBuffer B = λ closed.
        if closed then (raise buffer_closed, b) else (ok tt, accept n (x ∷ xs) (touch now n b)) in
      ap (λ c. (added c).1) open_

  -- The chunk under the first number is there.
  abbrev HasFirst : Received B → Type 0
  HasFirst nothing = Unit
  HasFirst (since first f) = holds_at f first ≡ true

  receive-HasFirst :
      (n : ℕ) (chunk : List B) (r : Received B) → HasFirst r → HasFirst (receive n chunk r)
  unfolding receive
  receive-HasFirst n chunk nothing h = ground arith
  receive-HasFirst n chunk (since first f) h = if_both HasFirst (ltb n first) h (
      if_both HasFirst (holds_at f n) {x = since first f}
        {y = since first (λ j. if j == n then some chunk else f j)} h (ground (arith, h)))

  -- The buffer is in step with what was received.
  abbrev Follows : ℕ → Heard B → AudioBuffer B → Type 0
  Follows ttl (r, used) b = IsLive ttl used b × Shows r b × HasFirst r

  arrives-Follows :
      (ttl : ℕ) (a : Arrival B) (r : Received B) (used : ℕ) (b : AudioBuffer B)
      → Follows ttl (r, used) b
      → Follows ttl (hear ttl (arrives a) (r, used)) (take_input (arrives a) b)
  unfolding hear
  arrives-Follows ttl a r used b ((open_, total, cache, same_ttl, last), shows, has) =
      let chunk = a.head ∷ a.tail in
      let n = a.sequence_number in
      subst (λ x. Follows ttl (receive n chunk r, a.time) x)
        (sym (add_chunk-open a.time n a.head a.tail b open_))
        (
          accept-IsLive ttl a.time n chunk (touch a.time n b) (open_, total, cache, same_ttl, refl),
          arrival-Shows a.time n chunk r b shows,
          receive-HasFirst n chunk r has,
        )

  -- A sweep of an open buffer that was last used then.
  sweep-open :
      (ttl used now : ℕ) (is_idle has_audio : Bool) (b : AudioBuffer B)
      → IsLive ttl used b
      → leb ttl (now - used) ≡ is_idle
      → is_nonempty b.ordered_chunks || is_nonempty b.pending_by_sequence ≡ has_audio
      → sweep now b ≡ (if is_idle && has_audio then clear now b else b)
  unfolding sweep
  sweep-open ttl used now is_idle has_audio b (open_, total, cache, same_ttl, last) e e' =
      rw (open_, same_ttl, last, e, e') refl

  nonempty-append :
      (chunks : List (List B)) (chunk : List B) → is_nonempty (chunks ++ chunk ∷ []) ≡ true
  nonempty-append [] chunk = refl
  nonempty-append (c ∷ chunks) chunk = refl

  nonempty-last :
      (chunks : List (List B)) (o : Option (List B))
      → is_some o ≡ true
      → is_nonempty (chunks ++ to_list o) ≡ true
  nonempty-last chunks none h = cc h
  nonempty-last chunks (some chunk) h = nonempty-append chunks chunk

  run-nonempty :
      (f : ℕ → Option (List B)) (first count : ℕ)
      → ((i : ℕ) → i < count → holds_at f (first + i) ≡ true)
      → holds_at f first ≡ true
      → f (first + count) ≡ none
      → is_nonempty (run f first count) ≡ true
  unfolding run
  run-nonempty f first zero full has gone =
      absurd (not-both (ap is_some (ap f (omega arith) ∙ gone)) has)
  run-nonempty f first (suc count) full has gone =
      nonempty-last (run f first count) (f (first + count)) (full count (omega arith))

  clear-Follows :
      (ttl used now : ℕ) (b : AudioBuffer B)
      → IsLive ttl used b
      → Follows ttl (nothing, now) (clear now b)
  unfolding clear Shows concat
  clear-Follows ttl used now b (open_, total, cache, same_ttl, last) =
      ((open_, refl, λ audio e. cc, same_ttl, refl), (refl, refl, refl), tt)

  sweeps-Follows :
      (ttl now : ℕ) (r : Received B) (used : ℕ) (b : AudioBuffer B) (is_idle : Bool)
      → leb ttl (now - used) ≡ is_idle
      → Follows ttl (r, used) b
      → Follows ttl (forget is_idle now (r, used)) (sweep now b)
  unfolding forget Shows
  sweeps-Follows ttl now r used b false e (live, shows, has) =
      subst (Follows ttl (r, used)) (sym (sweep-open ttl used now false _ b live e refl))
        (live, shows, has)
  sweeps-Follows ttl now nothing used b true e (live, (next, ordered, pending), has) =
      let silent : is_nonempty b.ordered_chunks || is_nonempty b.pending_by_sequence ≡ false =
        rw (ordered, pending) refl in
      subst (Follows ttl (nothing, used)) (sym (sweep-open ttl used now true false b live e silent))
        (live, (next, ordered, pending), has)
  sweeps-Follows ttl now (since first f) used b true e (live, (h, gone), has) =
      let filled = ap is_nonempty h.ordered ∙ run-nonempty f first h.count h.full has gone in
      let heard : is_nonempty b.ordered_chunks || is_nonempty b.pending_by_sequence ≡ true =
        rw filled refl in
      subst (Follows ttl (nothing, now)) (sym (sweep-open ttl used now true true b live e heard))
        (clear-Follows ttl used now b live)

  take-Follows :
      (ttl : ℕ) (input : Input B) (r : Received B) (used : ℕ) (b : AudioBuffer B)
      → Follows ttl (r, used) b
      → Follows ttl (hear ttl input (r, used)) (take_input input b)
  unfolding hear
  take-Follows ttl (arrives a) r used b h = arrives-Follows ttl a r used b h
  take-Follows ttl (sweeps now) r used b h = sweeps-Follows ttl now r used b _ refl h

  feed-Follows :
      (ttl : ℕ) (inputs : List (Input B)) (r : Received B) (used : ℕ) (b : AudioBuffer B)
      → Follows ttl (r, used) b
      → Follows ttl (receive_all ttl inputs (r, used)) (feed inputs b)
  unfolding feed receive_all
  feed-Follows ttl [] r used b h = h
  feed-Follows ttl (input ∷ inputs) r used b h =
      let (r', used') = hear ttl input (r, used) in
      feed-Follows ttl inputs r' used' (take_input input b) (take-Follows ttl input r used b h)

  new-Follows :
      (ttl interval now : ℕ) (b : AudioBuffer B)
      → new ttl interval now ≡ some b
      → Follows ttl (nothing, now) b
  unfolding new Shows concat
  new-Follows ttl interval now b e = (
    (
      ground (arith, e),
      ground (arith, e),
      λ audio e'. ground (arith, e, e'),
      ground (arith, e),
      ground (arith, e),
    ),
    (ground (arith, e), ground (arith, e), ground (arith, e)),
    tt,
  )

  -- After any chunks that come to a new buffer and any sweeps of its monitor, in any order and at any
  -- times: of the chunks since the last sweep that found a pause as long as the time to live (all of
  -- them if there was none), none of which is empty, its audio is those from the first number that came
  -- up to the last one before a gap, in the order of their numbers, each the one that came first under
  -- its number.
  pub feed-audio :
      (inputs : List (Input B)) (ttl interval now used : ℕ) (b : AudioBuffer B) (first : ℕ)
      (f : ℕ → Option (List B))
      → new ttl interval now ≡ some b
      → receive_all ttl inputs (nothing, now) ≡ (since first f, used)
      → (count : ℕ) × ((i : ℕ) → i < count → holds_at f (first + i) ≡ true)
        × (f (first + count) ≡ none)
        × ((get_flat_audio (feed inputs b)).0 ≡ ok (concat (run f first count)))
  unfolding Shows
  feed-audio inputs ttl interval now used b first f fresh got =
      let all = feed-Follows ttl inputs nothing now b (new-Follows ttl interval now b fresh) in
      let (live, (h, gone), has) : Follows ttl (since first f, used) (feed inputs b) =
        subst (λ x. Follows ttl x (feed inputs b)) got all in
      (
        h.count,
        h.full,
        gone,
        get_flat_audio-IsLive ttl used (feed inputs b) live ∙ ap (λ x. ok (concat x)) h.ordered,
      )

  -- Where the run of chunks ends.
  end-of-run :
      (f : ℕ → Option (List B)) (first m n : ℕ)
      → ((i : ℕ) → i < m → holds_at f (first + i) ≡ true)
      → f (first + n) ≡ none
      → m ≤ n
  end-of-run f first m n full gone = elim (lt-cases n m) [
    | inl less ↦ absurd (not-both (ap is_some gone) (full n less))
    | inr done ↦ done
  ]

  -- The order of the chunks after the first one does not show: two streams at new buffers that, since
  -- their last pauses that a sweep found, bring the same first number, and the same chunk first under
  -- each number from it on, have the same audio.
  pub feed-order :
      (xs ys : List (Input B)) (ttl interval now used used' : ℕ) (b : AudioBuffer B) (first : ℕ)
      (f g : ℕ → Option (List B))
      → new ttl interval now ≡ some b
      → receive_all ttl xs (nothing, now) ≡ (since first f, used)
      → receive_all ttl ys (nothing, now) ≡ (since first g, used')
      → ((j : ℕ) → f j ≡ g j)
      → (get_flat_audio (feed xs b)).0 ≡ (get_flat_audio (feed ys b)).0
  feed-order xs ys ttl interval now used used' b first f g fresh got got' same =
      let (m, full, gone, audio) = feed-audio xs ttl interval now used b first f fresh got in
      let (n, full', gone', audio') = feed-audio ys ttl interval now used' b first g fresh got' in
      let upto = end-of-run f first m n full (same (first + n) ∙ gone') in
      let down = end-of-run g first n m full' (sym (same (first + m)) ∙ gone) in
      let e : m ≡ n = omega arith in
      audio
      ∙ ap (λ x. ok (concat x)) (run-ext f g first m (λ i _. same (first + i)) ∙ ap (run g first) e)
      ∙ sym audio'
