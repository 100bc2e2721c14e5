-- ===== src/Media/Buffer/Refines.antt =====
-- media/buffer.py: a chunk's arrival, against what was received.
use luve.Prelude.{
  subst, ap, ◌⊎◌, inl, inr, refl, ◌≡◌, ◌∙◌, sym, arith, ◌<◌, ◌≤◌, ℕ, zero, suc, ◌+◌, Bool, true,
  false, Option, none, some, Option-cases, Bool-cases, List, ◌∷◌, ltb, ◌==◌, if◌then◌else◌, ◌-◌,
}
use luve.Media.Buffer.{accept_unless, AudioBuffer, lookup, accept, expected}
use luve.Media.Buffer.Order.{
  Received, nothing, since, is_some, holds_at, receive, run, Holds, Flushed,
  flush_contiguous-Flushed, Shows,
}

late-before : (n next : ℕ) (o : Option ℕ) → o ≡ some next → ltb n (expected n o) ≡ ltb n next
late-before n next o e = rw e refl

apart : (a n : ℕ) → a < n → (a == n) ≡ false
apart a n h = ground arith

-- A number between the first and the next one lies in the run.
within :
    (first n k : ℕ)
    → ltb n first ≡ false
    → ltb n (first + k) ≡ true
    → (i : ℕ) × ((i < k) × (first + i ≡ n))
within first n k late early = (n - first, (ground arith, ground arith))

not-ltb : (a b : ℕ) → ltb a b ≡ false → b ≤ a
not-ltb a b h = ground arith

ahead-first : (n first k : ℕ) → ltb n (first + k) ≡ false → ltb n first ≡ false
ahead-first n first k h = ground arith

module _ {B : Type 0} where
  pub run-ext :
      (f g : ℕ → Option (List B)) (first count : ℕ)
      → ((i : ℕ) → i < count → f (first + i) ≡ g (first + i))
      → run f first count ≡ run g first count
  unfolding run
  run-ext f g first zero same = refl
  run-ext f g first (suc count) same =
      rw (run-ext f g first count (λ i lt. same i (omega arith)))
        (rw (same count (omega arith)) refl)

  -- The buffer with the chunk among those that wait.
  abbrev put : ℕ → List B → AudioBuffer B → AudioBuffer B
  put n chunk b = record b { pending_by_sequence = (n, chunk) ∷ b.pending_by_sequence }

  -- The buffer with the marks of an arrival.
  abbrev pub touch : ℕ → ℕ → AudioBuffer B → AudioBuffer B
  touch now n b = record b {
    is_monitored = true;
    last_activity = now;
    next_expected_sequence = some (expected n b.next_expected_sequence);
  }

  accept-by :
      (late : Bool) (waiting : Option (List B)) (n : ℕ) (chunk : List B) (b : AudioBuffer B)
      → ltb n (expected n b.next_expected_sequence) ≡ late
      → lookup n b.pending_by_sequence ≡ waiting
      → accept n chunk b ≡ accept_unless late waiting n chunk b
  unfolding accept
  accept-by late waiting n chunk b e e' =
      ap (λ x. accept_unless x (lookup n b.pending_by_sequence) n chunk b) e
      ∙ ap (λ x. accept_unless late x n chunk b) e'

  touch-Holds :
      (now n first : ℕ) (f : ℕ → Option (List B)) (b : AudioBuffer B) (h : Holds first f b)
      → (h' : Holds first f (touch now n b)) × (h'.count ≡ h.count)
  touch-Holds now n first f b h = (
    record {
      count = h.count;
      next = rw h.next refl;
      ordered = h.ordered;
      full = h.full;
      pending = h.pending;
    },
    refl,
  )

  -- A number below the new one keeps its chunk.
  kept :
      (n m : ℕ) (chunk : List B) (f : ℕ → Option (List B))
      → m < n
      → f m ≡ (if m == n then some chunk else f m)
  kept n m chunk f lt = rw (apart m n lt) refl

  put-Holds :
      (n : ℕ) (chunk : List B) (first : ℕ) (f : ℕ → Option (List B)) (b : AudioBuffer B)
      (h : Holds first f b)
      → first + h.count ≤ n
      → Holds first (λ j. if j == n then some chunk else f j) (put n chunk b)
  unfolding lookup
  put-Holds n chunk first f b h fresh = record {
    count = h.count;
    next = h.next;
    ordered =
        h.ordered
        ∙ run-ext f (λ j. if j == n then some chunk else f j) first h.count
            (λ i lt. kept n (first + i) chunk f (omega arith));
    full = λ i lt. ap is_some (sym (kept n (first + i) chunk f (omega arith))) ∙ h.full i lt;
    pending = λ j. ground (arith, h.pending j);
  }

  receive-old :
      (n first : ℕ) (chunk : List B) (f : ℕ → Option (List B))
      → (ltb n first ≡ true) ⊎ (holds_at f n ≡ true)
      → receive n chunk (since first f) ≡ since first f
  unfolding receive
  receive-old n first chunk f (inl e) = rw e refl
  receive-old n first chunk f (inr e) = elim (Bool-cases (ltb n first)) [
    | inl early ↦ rw early refl
    | inr late ↦ rw late (rw e refl)
  ]

  receive-new :
      (n first : ℕ) (chunk : List B) (f : ℕ → Option (List B))
      → ltb n first ≡ false
      → f n ≡ none
      → receive n chunk (since first f) ≡ since first (λ j. if j == n then some chunk else f j)
  unfolding receive
  receive-new n first chunk f late missing = rw late (
      ap (λ x. if x then since first f else since first (λ j. if j == n then some chunk else f j))
        (ap is_some missing))

  -- A chunk under a number of the run, or before it, changes nothing.
  late-receive :
      (n first : ℕ) (chunk : List B) (f : ℕ → Option (List B)) (b : AudioBuffer B)
      (h : Holds first f b)
      → ltb n (first + h.count) ≡ true
      → receive n chunk (since first f) ≡ since first f
  late-receive n first chunk f b h late = elim (Bool-cases (ltb n first)) [
    | inl early ↦ receive-old n first chunk f (inl early)
    | inr inside ↦
        let (i, (lt, e)) = within first n h.count inside late in
        receive-old n first chunk f (inr (subst (λ x. holds_at f x ≡ true) e (h.full i lt)))
  ]

  accept-Shows :
      (n first : ℕ) (chunk : List B) (f : ℕ → Option (List B)) (b : AudioBuffer B)
      → Flushed first f b
      → Shows (receive n chunk (since first f)) (accept n chunk b)
  unfolding Shows accept_unless
  accept-Shows n first chunk f b (h, gone) =
      let before = ap (λ x. ltb n (expected n x)) h.next in
      let waiting = h.pending n in
      let g : ℕ → Option (List B) = λ j. if j == n then some chunk else f j in
      elim (Bool-cases (ltb n (first + h.count))) [
        | inl late ↦
            subst (λ x. Shows x (accept n chunk b)) (sym (late-receive n first chunk f b h late))
              (subst (λ x. Flushed first f x)
                (sym
                  (accept-by true (lookup n b.pending_by_sequence) n chunk b (before ∙ late) refl))
                (h, gone))
        | inr ahead ↦ elim (Option-cases (f n)) [
          | inl missing ↦
              subst (λ x. Shows x (accept n chunk b))
                (sym (receive-new n first chunk f (ahead-first n first h.count ahead) missing))
                (subst (λ x. Flushed first g x)
                  (sym
                    (accept-by false none n chunk b (before ∙ ahead) (waiting ∙ rw ahead missing)))
                  (flush_contiguous-Flushed first g (put n chunk b)
                    (put-Holds n chunk first f b h (not-ltb n (first + h.count) ahead))))
          | inr (old, there) ↦
              subst (λ x. Shows x (accept n chunk b))
                (sym (receive-old n first chunk f (inr (ap is_some there))))
                (subst (λ x. Flushed first f x)
                  (sym (
                    accept-by false (some old) n chunk b (before ∙ ahead)
                      (waiting ∙ rw ahead there)))
                  (h, gone))
        ]
      ]

  -- The buffer before the first chunk, seen as one that waits for it.
  empty-Flushed :
      (now n : ℕ) (b : AudioBuffer B) → Shows nothing b → Flushed n (λ _. none) (touch now n b)
  unfolding Shows lookup run
  empty-Flushed now n b (next, ordered, pending) = (
    record {
      count = 0;
      next = ap (λ x. some (expected n x)) next ∙ ap some (omega arith);
      ordered = ordered;
      full = λ i lt. ground arith;
      pending = λ j. ap (lookup j) pending ∙ ground arith;
    },
    refl,
  )

  first-Shows :
      (n : ℕ) (chunk : List B) (b : AudioBuffer B)
      → Flushed n (λ _. none) b
      → Shows (receive n chunk nothing) (accept n chunk b)
  unfolding receive
  first-Shows n chunk b h =
      subst (λ x. Shows x (accept n chunk b))
        (receive-new n n chunk (λ _. none) (ground arith) refl)
        (accept-Shows n n chunk (λ _. none) b h)

  touch-Flushed :
      (now n first : ℕ) (f : ℕ → Option (List B)) (b : AudioBuffer B)
      → Flushed first f b
      → Flushed first f (touch now n b)
  touch-Flushed now n first f b (h, gone) =
      let (h', same) = touch-Holds now n first f b h in (h', rw same gone)

  -- A chunk's arrival keeps the buffer in step with what was received.
  pub arrival-Shows :
      (now n : ℕ) (chunk : List B) (r : Received B) (b : AudioBuffer B)
      → Shows r b
      → Shows (receive n chunk r) (accept n chunk (touch now n b))
  unfolding Shows
  arrival-Shows now n chunk nothing b h =
      first-Shows n chunk (touch now n b) (empty-Flushed now n b h)
  arrival-Shows now n chunk (since first f) b h =
      accept-Shows n first chunk f (touch now n b) (touch-Flushed now n first f b h)
