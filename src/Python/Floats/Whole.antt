-- ===== src/Python/Floats/Whole.antt =====
-- A concrete arithmetic for the tests: whole numbers, with quotients rounded towards zero.
use fast_and_safe_io_memory.Base.{
  ℕ, zero, suc, ◌*◌, String, ◌<>◌, ◌/◌, List, [], ◌∷◌, leb, ◌+◌, ◌==◌, ℤ, pos, negsuc, pos_part,
  neg_part, sub_ℕ, ◌+ℤ◌, ◌-ℤ◌, ◌*ℤ◌, ltb_ℤ, length,
}
use fast_and_safe_io_memory.Python.Number.{int, str}
use fast_and_safe_io_memory.Python.Exception.{ok}
use fast_and_safe_io_memory.Python.Floats.{Floats}

unfoldable pub quotient : ℤ → ℤ → ℤ
quotient (pos a) (pos b) = pos (a / b)
quotient a b =
    sub_ℕ (pos_part a / (pos_part b + neg_part b)) (neg_part a / (pos_part b + neg_part b))

unfoldable pub sum : List ℤ → ℤ
sum [] = pos 0
sum (x ∷ xs) = x +ℤ sum xs

-- 10 to the power of a number
abbrev tens : ℕ → ℕ
tens zero = 1
tens (suc n) = 10 * tens n

unfoldable pub show_int : ℤ → String
show_int (pos n) = str n
show_int (negsuc n) = "-" <> str (suc n)

abbrev pub whole_floats : Floats
whole_floats = record {
  Float = ℤ;
  parse = int;
  of_int = λ n. n;
  add = ◌+ℤ◌;
  sub = ◌-ℤ◌;
  mul = ◌*ℤ◌;
  div = quotient;
  is_zero = λ a. pos_part a + neg_part a == 0;
  decimal = λ m k. pos (m / tens k);
  trunc = λ n. ok n;
  show = show_int;
  format_fixed = λ n x. show_int x;
  format_exp = λ n x. show_int x;
  lt = ltb_ℤ;
  le = λ a b. leb (pos_part a + neg_part b) (pos_part b + neg_part a);
  mean_of = λ xs. quotient (sum xs) (pos (length xs));
  stdev_of = λ xs. pos 0;
}
