-- ===== src/Python/Arrays/Whole.antt =====
-- Concrete arrays, tables and bars for the tests, over the whole numbers.
use fast_and_safe_io_memory.Base.{
  String, List, [], ◌∷◌, map, refl, ap, ℤ, pos, ◌+ℤ◌, ◌-ℤ◌, ◌*ℤ◌, if◌then◌else◌,
}
use fast_and_safe_io_memory.Python.Exception.{ok, raise, value_error}
use fast_and_safe_io_memory.Python.Text.{member}
use fast_and_safe_io_memory.Python.Floats.Whole.{whole_floats, quotient}
use fast_and_safe_io_memory.Python.Statement.{range_from}
use fast_and_safe_io_memory.Python.Arrays.{Arrays, HasColumns}
use fast_and_safe_io_memory.Python.Drawing.{Bars, heights, HaveHeights}

-- every report is a table with these columns, and a one in each
abbrev pub whole_arrays : List String → Arrays whole_floats
whole_arrays names = record {
  Array = List ℤ;
  arange = λ n. map (λ i. pos i) (range_from 0 n);
  times = λ xs y. map (λ x. x *ℤ y) xs;
  plus = λ xs y. map (λ x. x +ℤ y) xs;
  minus = λ xs y. map (λ x. x -ℤ y) xs;
  divide = quotient;
  Table = List String;
  genfromtxt = λ path. ok names;
  field = λ name t. if member name t then ok (pos 1) else raise value_error;
}

pub whole_arrays-HasColumns :
    (names : List String) → HasColumns whole_floats (whole_arrays names) names names
whole_arrays-HasColumns names = record {
  present = λ name h. (pos 1, rw h refl);
  absent = λ name h. rw h refl;
}

module _ (names : List String) where
  abbrev pub whole_bars : Bars whole_floats (whole_arrays names)
  whole_bars x hs w = map (λ h. record { x = pos 0; width = w; height = h }) hs

  pub whole_bars-HaveHeights : HaveHeights whole_floats (whole_arrays names) whole_bars
  unfolding heights
  whole_bars-HaveHeights x [] w = refl
  whole_bars-HaveHeights x (h ∷ hs) w = ap (λ t. h ∷ t) (whole_bars-HaveHeights x hs w)
