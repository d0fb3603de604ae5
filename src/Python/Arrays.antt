-- ===== src/Python/Arrays.antt =====
-- What the plot scripts use of numpy, as parameters: arrays of positions, tables of results, and
-- the quotient of two numbers of an array, which raises nothing.
pub mod Whole
pub mod Reading
use fast_and_safe_io_memory.Base.{ℕ, String, List, ◌≡◌, true, false}
use fast_and_safe_io_memory.Python.Exception.{Result, ok, raise, value_error, traverse}
use fast_and_safe_io_memory.Python.Text.{member}
use fast_and_safe_io_memory.Python.Floats.{Floats}

pub record Arrays (F : Floats) : Type 1 where
  pub Array : Type 0
  -- `np.arange(n)`, and an array with a number
  pub arange : ℕ → Array
  pub times : Array → F.Float → Array
  pub plus : Array → F.Float → Array
  pub minus : Array → F.Float → Array
  pub divide : F.Float → F.Float → F.Float
  -- `np.genfromtxt(path, dtype=float, delimiter=',', names=True)`, and a field of its result
  pub Table : Type 0
  pub genfromtxt : String → Result Table
  pub field : String → Table → Result F.Float

-- `[r[name] for r in tables]`
unfoldable pub column : (F : Floats) (A : Arrays F) → String → List A.Table → Result (List F.Float)
column F A name tables = traverse (A.field name) tables

-- A table with these columns and no other: a field of another name is a ValueError.
pub record HasColumns (F : Floats) (A : Arrays F) (names : List String) (t : A.Table) : Type 0 where
  pub present : (name : String) → member name names ≡ true → (x : F.Float) × (A.field name t ≡ ok x)
  pub absent : (name : String) → member name names ≡ false → A.field name t ≡ raise value_error
