-- ===== src/Grading/World.antt =====
-- What the worker acts on: the database, whose calls may fail, and the language model's client.
use Prim.Native.String.{String}
use luve.Prelude.{refl, arith, inr, ◌⊎◌, ◌≡◌, inl, List, [], ◌∷◌, Result, ok, raise}
use luve.Grading.Timing.{BuildError}
use luve.Grading.Llm.{LlmError}
use luve.Grading.Store.{Db}

pub data Exc : Type 0 where
  validation_error db_error : Exc
  build_error : BuildError → Exc
  llm_error : LlmError → Exc

-- What comes of building the client and asking it: an `LLMGraderError`, or the model's text.
pub data Answer : Type 0 where
  refused : Answer
  answered : String → Answer

-- How a database call ends: it succeeds, it fails before its statement takes effect, or after.
pub data Outcome : Type 0 where
  succeeds fails_before fails_after : Outcome

-- The environment decides beforehand how the database calls end, and what the model answers; past the
-- end of its lists a call succeeds and the client is refused.
pub record World (N : Type 0) : Type 0 where
  pub db : Db N
  pub outcomes : List Outcome
  pub answers : List Answer

abbrev pub M : Type 0 → Type 0 → Type 0
M N A = World N → Result Exc A × World N

module _ {N : Type 0} where
  abbrev pub pure : {A : Type 0} → A → M N A
  pure a w = (ok a, w)

  abbrev pub fail : {A : Type 0} → Exc → M N A
  fail e w = (raise e, w)

  abbrev pub lift : {A : Type 0} → Result Exc A → M N A
  lift r w = (r, w)

  abbrev pub bind : {A B : Type 0} → M N A → (A → M N B) → M N B
  bind m f w = let (r, w') = m w in elim r [ ok a ↦ f a w' | raise e ↦ (raise e, w') ]

  -- One call of the database.
  unfoldable pub call : {A : Type 0} → (Db N → A × Db N) → M N A
  call f w = elim w.outcomes [
    | [] ↦ let (a, db') = f w.db in (ok a, record w { db = db' })
    | outcome ∷ outcomes ↦ elim outcome [
      | succeeds ↦ let (a, db') = f w.db in (ok a, record w { db = db'; outcomes = outcomes })
      | fails_before ↦ (raise db_error, record w { outcomes = outcomes })
      | fails_after ↦ (raise db_error, record w { db = (f w.db).1; outcomes = outcomes })
    ]
  ]

  -- The client is built and asked.
  unfoldable pub ask : World N → Answer × World N
  ask w = elim w.answers [
    | [] ↦ (refused, w)
    | answer ∷ answers ↦ (answer, record w { answers = answers })
  ]

  -- Whatever an action does, it keeps a property of the database.
  abbrev pub Keeps : {A : Type 0} → (Db N → Type 0) → M N A → Type 0
  Keeps P m = (w : World N) → P w.db → P (m w).1.db

  bind-result :
      {A B : Type 0} (P : Db N → Type 0) (r : Result Exc A) (w : World N) (f : A → M N B)
      → P w.db
      → ((a : A) → r ≡ ok a → P (f a w).1.db)
      → P (bind (λ _. (r, w)) f w).1.db
  bind-result P (ok a) w f h hf = hf a refl
  bind-result P (raise e) w f h hf = h

  -- The property holds after a chain if it holds after the first action, and after the second one on
  -- what the first returned.
  pub bind-db :
      {A B : Type 0} (P : Db N → Type 0) (m : M N A) (f : A → M N B) (w : World N)
      → P (m w).1.db
      → ((a : A) → (m w).0 ≡ ok a → P (f a (m w).1).1.db)
      → P (bind m f w).1.db
  bind-db P m f w h hf = bind-result P (m w).0 (m w).1 f h hf

  pub Keeps-bind :
      {A B : Type 0} (P : Db N → Type 0) (m : M N A) (f : A → M N B)
      → Keeps P m
      → ((a : A) → Keeps P (f a))
      → Keeps P (bind m f)
  Keeps-bind P m f hm hf w h = bind-db P m f w (hm w h) (λ a _. hf a (m w).1 (hm w h))

  -- The client touches no table.
  pub ask-db : (w : World N) → (ask w).1.db ≡ w.db
  unfolding ask
  ask-db w = ground arith

  -- A call leaves the database alone or runs its statement; only then can it return.
  pub call-db :
      {A : Type 0} (f : Db N → A × Db N) (w : World N)
      → (((call f w).1.db ≡ w.db) × ((call f w).0 ≡ raise db_error))
        ⊎ ((call f w).1.db ≡ (f w.db).1)
  unfolding call
  call-db f w = ground arith

  pub Keeps-call :
      {A : Type 0} (P : Db N → Type 0) (f : Db N → A × Db N)
      → ((db : Db N) → P db → P (f db).1)
      → Keeps P (call f)
  Keeps-call P f h w p = elim (call-db f w) [
    | inl (same, _) ↦ rw same p
    | inr ran ↦ rw ran (h w.db p)
  ]

  -- What a call returned is what its statement gave.
  pub call-ok :
      {A : Type 0} (f : Db N → A × Db N) (w : World N) (a : A)
      → (call f w).0 ≡ ok a
      → (a ≡ (f w.db).0) × ((call f w).1.db ≡ (f w.db).1)
  unfolding call
  call-ok f w a h = ground arith

  chained :
      {A B : Type 0} (r : Result Exc A) (w : World N) (f : A → M N B) (b : B)
      → (bind (λ _. (r, w)) f w).0 ≡ ok b
      → (a : A) × ((r ≡ ok a) × ((f a w).0 ≡ ok b) × ((bind (λ _. (r, w)) f w).1 ≡ (f a w).1))
  chained (ok a) w f b h = (a, (refl, h, refl))
  chained (raise e) w f b h = cc

  -- A chain that returns has returned from both of its actions.
  pub bind-ok :
      {A B : Type 0} (m : M N A) (f : A → M N B) (w : World N) (b : B)
      → (bind m f w).0 ≡ ok b
      → (a : A) × (((m w).0 ≡ ok a) × ((f a (m w).1).0 ≡ ok b) × ((bind m f w).1 ≡ (f a (m w).1).1))
  bind-ok m f w b h = chained (m w).0 (m w).1 f b h
