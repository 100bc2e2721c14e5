-- ===== src/Extension/Confidence/Rejects/Order.antt =====
-- luve_extension.py: the order of bounds, and a chain of tests.
use Prim.Native.String.{String}
use luve.Prelude.{
  List, [], ◌∷◌, All, Bool, true, false, ◌&&◌, ◌≡◌, refl, Option, none, some, if◌then◌else◌,
  if_both, if_cases,
}
use luve.Extension.Confidence.{List, Scale, greater, smaller}
use luve.Extension.Confidence.Rejects.{Bounds, first_reason}

-- A test that does not reject.
passes :
    (b : Bool) (reason : String) (rest : Option String)
    → (if b then some reason else rest) ≡ none
    → (b ≡ false) × (rest ≡ none)
passes true reason rest h = cc h
passes false reason rest h = (refl, h)

-- Where no reason is given, no test holds.
pub first_reason-none :
    (checks : List (Bool × String)) → first_reason checks ≡ none → All (λ c. c.0 ≡ false) checks
unfolding first_reason
first_reason-none [] h = tt
first_reason-none ((test, reason) ∷ checks) h =
    let (off, rest) = passes test reason (first_reason checks) h in
    (off, first_reason-none checks rest)

pub skips :
    (b : Bool) (first rest : Option String)
    → b ≡ false
    → (if b then first else rest) ≡ none
    → rest ≡ none
skips true first rest off h = cc off
skips false first rest off h = h

pub and_mono : (b x y : Bool) → (b && x) ≡ false → (x ≡ false → y ≡ false) → (b && y) ≡ false
and_mono true x y h f = f h
and_mono false x y h f = refl

-- The order of floats that are numbers.
pub record IsOrdered {N : Type 0} (sc : Scale N) : Type 0 where
  pub irrefl : (a : N) → sc.less a a ≡ false
  pub asym : (a b : N) → sc.less a b ≡ true → sc.less b a ≡ false
  pub not_less_trans : (a b c : N) → sc.less a b ≡ false → sc.less b c ≡ false → sc.less a c ≡ false

module _ {N : Type 0} (sc : Scale N) (laws : IsOrdered sc) where
  pub greater_left : (a b : N) → sc.less (greater sc a b) a ≡ false
  greater_left a b =
      if_cases (λ (m : N). sc.less m a ≡ false) (sc.less a b) {x = b} {y = a} (laws.asym a b)
        (λ _. laws.irrefl a)

  pub greater_right : (a b : N) → sc.less (greater sc a b) b ≡ false
  greater_right a b =
      if_cases (λ (m : N). sc.less m b ≡ false) (sc.less a b) {x = b} {y = a} (λ _. laws.irrefl b)
        (λ e. e)

  pub greater_mono :
      (a b c : N) → sc.less b a ≡ false → sc.less (greater sc b c) (greater sc a c) ≡ false
  greater_mono a b c h =
      if_both (λ (m : N). sc.less (greater sc b c) m ≡ false) (sc.less a c) {x = c} {y = a}
        (greater_right b c) (laws.not_less_trans (greater sc b c) b a (greater_left b c) h)

  pub smaller_left : (a b : N) → sc.less a (smaller sc a b) ≡ false
  smaller_left a b =
      if_cases (λ (m : N). sc.less a m ≡ false) (sc.less b a) {x = b} {y = a} (laws.asym b a)
        (λ _. laws.irrefl a)

  pub smaller_right : (a b : N) → sc.less b (smaller sc a b) ≡ false
  smaller_right a b =
      if_cases (λ (m : N). sc.less b m ≡ false) (sc.less b a) {x = b} {y = a} (λ _. laws.irrefl b)
        (λ e. e)

  pub smaller_mono :
      (a b c : N) → sc.less a b ≡ false → sc.less (smaller sc a c) (smaller sc b c) ≡ false
  smaller_mono a b c h =
      if_both (λ (m : N). sc.less m (smaller sc b c) ≡ false) (sc.less c a) {x = c} {y = a}
        (smaller_right b c) (laws.not_less_trans a b (smaller sc b c) h (smaller_left b c))

  -- The second bounds let everything pass that the first do.
  abbrev pub IsLooser : Bounds N → Bounds N → Type 0
  IsLooser b b' =
      (sc.less b'.max_no_speech b.max_no_speech ≡ false)
      × (sc.less b.min_avg_logprob b'.min_avg_logprob ≡ false)
      × (sc.less b'.max_low_conf_ratio b.max_low_conf_ratio ≡ false)
