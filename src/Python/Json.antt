-- ===== src/Python/Json.antt =====
-- The values that `json.loads` makes, over a type `N` for Python's numbers, and how the source reads
-- them.
use Prim.Native.Char.{Char}
use Prim.Native.String.{String}
use text.Mathlib.Text.{◌==◌ as str_eq}
use luve.Prelude.{ℕ, Option, Bool, true, false, not, List, [], ◌∷◌, if◌then◌else◌}
use luve.Python.Text.{is_empty}

mutual
  pub data Value (N : Type 0) : Type 0 where
    null : Value N
    bool : Bool → Value N
    num : N → Value N
    string : String → Value N
    arr : Items N → Value N
    obj : Fields N → Value N

  pub data Items (N : Type 0) : Type 0 where
    nil : Items N
    cons : Value N → Items N → Items N

  pub data Fields (N : Type 0) : Type 0 where
    end : Fields N
    field : String → Value N → Fields N → Fields N

-- `json.loads`: a value, `JSONDecodeError`, or another `ValueError` (a number with too many digits).
pub data Loaded (N : Type 0) : Type 0 where
  loaded : Value N → Loaded N
  decode_error value_error : Loaded N

-- What the source calls and does not implement.
pub record Runtime (N : Type 0) : Type 0 where
  -- `not n` of a number
  pub is_zero : N → Bool
  -- `str(v)` of a value that is neither a text, nor `None`, nor a Boolean
  pub show : Value N → String
  pub loads : String → Loaded N

module _ {N : Type 0} where
  -- `list(v)` of a JSON array
  abbrev pub to_list : Items N → List (Value N)
  to_list nil = []
  to_list (cons v vs) = v ∷ to_list vs

  -- `m.get(key)`: a key that is not there reads as `None`.
  unfoldable pub get : String → Fields N → Value N
  get key end = null
  get key (field k v m) = if str_eq k key then v else get key m

  -- `key in m`
  unfoldable pub has : String → Fields N → Bool
  has key end = false
  has key (field k v m) = if str_eq k key then true else has key m

module _ {N : Type 0} where
  -- `m.get(key, m.get(other))`
  abbrev pub get_either : String → String → Fields N → Value N
  get_either key other m = if has key m then get key m else get other m

module _ {N : Type 0} (rt : Runtime N) where
  -- `bool(v)`
  abbrev pub truthy : Value N → Bool
  truthy null = false
  truthy (bool b) = b
  truthy (num n) = not (rt.is_zero n)
  truthy (string s) = not (is_empty s)
  truthy (arr nil) = false
  truthy (arr (cons _ _)) = true
  truthy (obj end) = false
  truthy (obj (field _ _ _)) = true

  -- `a or b`
  abbrev pub or_else : Value N → Value N → Value N
  or_else a b = if truthy a then a else b

  -- `str(v)`
  abbrev pub str : Value N → String
  str null = "None"
  str (bool true) = "True"
  str (bool false) = "False"
  str (string s) = s
  str v = rt.show v

-- `float(v)`: a number, a `TypeError` or `ValueError`, or an `OverflowError` (an integer too large).
pub data Converted (N : Type 0) : Type 0 where
  number : N → Converted N
  rejected overflow : Converted N

-- The tables of Unicode: `str.lower` of any text, and `str.isalpha` of a character.
pub record Unicode : Type 0 where
  pub lower_all : String → String
  pub is_alpha : Char → Bool

-- Python's floats, as far as the source computes with them.
pub record Floats (N : Type 0) : Type 0 where
  pub to_float : Value N → Converted N
  pub is_negative : N → Bool
  pub below_60 : N → Bool
  pub is_integer : N → Bool
  pub times_1000 : N → N
  -- `int(round(n))` of a number that is not below 0; `none` where it raises (infinity, not a number)
  pub round_int : N → Option ℕ
  pub of_nat : ℕ → N
  pub add : N → N → N
  pub minus : N → N → N
  pub times : N → N → N
  pub over : N → N → N
  pub at_most : N → N → Bool
  -- the number written n / 100
  pub hundredths : ℕ → N
  -- `round(n, 2)`
  pub round2 : N → N
  -- `f"{n:.1f}"`
  pub show1 : N → String
