-- ===== src/Prelude/Ints.antt =====
-- Integers over the native naturals.
use Prim.Native.Nat.{ℕ, max}

pub data ℤ : Type 0 where
  pos negsuc : ℕ → ℤ

-- `max(i, floor)` for a floor that is not negative
abbrev pub at_least : ℕ → ℤ → ℕ
at_least floor (pos n) = max n floor
at_least floor (negsuc n) = floor
