-- ===== src/Python/Floats.antt =====
-- Python's `float` and the two functions of `statistics` that the scripts call, as operations
-- with no law: what is proved of the scripts holds for every arithmetic.
pub mod Whole
use fast_and_safe_io_memory.Base.{
  ℕ, String, Bool, Option, List, [], ◌∷◌, ℤ, pos, if◌then◌else◌, false, ◌||◌,
}
use fast_and_safe_io_memory.Python.Exception.{
  Result, ok, raise, zero_division, statistics_error, value_error, from_option,
}

pub record Floats : Type 1 where
  pub Float : Type 0
  -- `float(text)`, none for the ValueError
  pub parse : String → Option Float
  pub of_int : ℤ → Float
  pub add : Float → Float → Float
  pub sub : Float → Float → Float
  pub mul : Float → Float → Float
  -- the quotient by a number that is not zero
  pub div : Float → Float → Float
  pub is_zero : Float → Bool
  pub lt : Float → Float → Bool
  pub le : Float → Float → Bool
  -- the literal of these digits, the last so many of them behind the point
  pub decimal : ℕ → ℕ → Float
  -- `int(x)`, which raises for infinities and no numbers
  pub trunc : Float → Result ℤ
  -- `str(x)`, `f'{x:.nf}'` and `f'{x:.ne}'`
  pub show : Float → String
  pub format_fixed : ℕ → Float → String
  pub format_exp : ℕ → Float → String
  -- `statistics.mean` of at least one number, `statistics.stdev` of at least two
  pub mean_of : List Float → Float
  pub stdev_of : List Float → Float

module _ (F : Floats) where
  open F use {Float, parse, of_int, div, is_zero, mean_of, stdev_of}

  abbrev pub nat : ℕ → Float
  nat n = of_int (pos n)

  -- `float(text)`
  abbrev pub float : String → Result Float
  float t = from_option value_error (parse t)

  -- `a / b`
  abbrev pub true_div : Float → Float → Result Float
  true_div a b = if is_zero b then raise zero_division else ok (div a b)

  -- `statistics.mean`
  abbrev pub mean : List Float → Result Float
  mean [] = raise statistics_error
  mean (x ∷ xs) = ok (mean_of (x ∷ xs))

  -- `statistics.stdev`
  abbrev pub stdev : List Float → Result Float
  stdev [] = raise statistics_error
  stdev (x ∷ []) = raise statistics_error
  stdev (x ∷ y ∷ xs) = ok (stdev_of (x ∷ y ∷ xs))

  -- `-x` of a number that is not zero
  abbrev pub negative : Float → Float
  negative x = F.sub (nat 0) x

  -- the difference from itself is zero for the finite numbers alone
  abbrev pub is_finite : Float → Bool
  is_finite x = is_zero (F.sub x x)

  -- is one of the numbers below zero?
  unfoldable pub has_negative : List Float → Bool
  has_negative [] = false
  has_negative (x ∷ xs) = F.lt x (nat 0) || has_negative xs

  -- `max(x, y)`
  abbrev pub larger : Float → Float → Float
  larger x y = if F.lt x y then y else x

  -- `min(x, y)`
  abbrev pub smaller : Float → Float → Float
  smaller x y = if F.lt y x then y else x

  -- `max` of the numbers behind a first one, which stays while none is larger
  max_from : Float → List Float → Float
  max_from m [] = m
  max_from m (x ∷ xs) = max_from (larger m x) xs

  -- `max(numbers)`
  unfoldable pub max : List Float → Result Float
  unfolding max_from
  max [] = raise value_error
  max (x ∷ xs) = ok (max_from x xs)
