-- ===== src/Prelude/Errors.antt =====
-- A value, or the exception that was raised instead.
use mathlib.Core.Path.{◌≡◌, refl, subst}
use mathlib.Core.Logic.{◌⊎◌, inl, inr}

pub data Result (E A : Type 0) : Type 0 where
  ok : A → Result E A
  raise : E → Result E A

infixl 5 ◌>>=◌ ◌>>◌
abbrev pub ◌>>=◌ : {E A B : Type 0} → Result E A → (A → Result E B) → Result E B
ok a >>= f = f a
raise e >>= f = raise e

abbrev pub ◌>>◌ : {E A B : Type 0} → Result E A → Result E B → Result E B
m >> k = m >>= λ _. k

pub Result-cases :
    {E A : Type 0} (r : Result E A) → ((a : A) × (r ≡ ok a)) ⊎ ((e : E) × (r ≡ raise e))
Result-cases (ok a) = inl (a, refl)
Result-cases (raise e) = inr (e, refl)

abbrev pub NoRaise : {E A : Type 0} → Result E A → Type 0
NoRaise {E} r = (e : E) → ¬ (r ≡ raise e)

pub NoRaise-bind :
    {E A B : Type 0} (m : Result E A) (f : A → Result E B)
    → NoRaise m
    → ((a : A) → NoRaise (f a))
    → NoRaise (m >>= f)
NoRaise-bind (ok a) f hm hf = hf a
NoRaise-bind (raise e) f hm hf = absurd (hm e refl)

pub NoRaise-ok : {E A : Type 0} (a : A) → NoRaise {E = E} (ok a)
NoRaise-ok a e h = cc

-- Whatever the call returns has the property.
abbrev pub Ensures : {E A : Type 0} → (A → Type 0) → Result E A → Type 0
Ensures {A} P r = (a : A) → r ≡ ok a → P a

pub Ensures-bind :
    {E A B : Type 0} (P : B → Type 0) (m : Result E A) (f : A → Result E B)
    → ((a : A) → m ≡ ok a → Ensures P (f a))
    → Ensures P (m >>= f)
Ensures-bind P (ok a) f h b r = h a refl b r
Ensures-bind P (raise e) f h b r = cc

ok-injective : (E A : Type 0) (a b : A) → ◌≡◌ {A = Result E A} (ok a) (ok b) → a ≡ b
ok-injective E A a b r = cc

pub Ensures-ok : {E A : Type 0} (P : A → Type 0) (a : A) → P a → Ensures {E = E} P (ok a)
Ensures-ok {E} {A} P a h b r = subst P (ok-injective E A a b r) h
