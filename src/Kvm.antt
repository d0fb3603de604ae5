-- ===== src/Kvm.antt =====
-- utils/parse_kvm_perf.py: the rows of a report of `perf kvm stat`, and the CSV file that they are
-- written to.
pub mod Raised
pub mod Rows
pub mod Totals
pub mod Lines
pub mod Collected
pub mod Process
pub mod Inputs
mod Tests
use fast_and_safe_io_memory.Base.{
  String, Bool, true, false, Option, none, some, List, [], ◌∷◌, ◌++◌, ℤ, pos, if◌then◌else◌,
}
use fast_and_safe_io_memory.Python.Exception.{
  Result, ok, raise, value_error, file_not_found, system_exit, from_option, ◌>>=◌,
}
use fast_and_safe_io_memory.Python.Text.{is_space}
use fast_and_safe_io_memory.Python.Number.{int}
use fast_and_safe_io_memory.Python.Floats.{Floats, float}
use fast_and_safe_io_memory.Python.Pattern.{
  Piece, any_of, some_of, group, exactly, match, search_in, is_digit, is_decimal, is_not_space,
}

-- `_ROW_RE`, but for the rest of the line, which `.*$` takes whatever it is
abbrev pub row_pattern : List Piece
row_pattern =
    any_of is_space
    ∷ group is_not_space
    ∷ some_of is_space
    ∷ group is_digit
    ∷ some_of is_space
    ∷ group is_decimal
    ∷ exactly "%"
    ∷ some_of is_space
    ∷ group is_decimal
    ∷ exactly "%"
    ∷ some_of is_space
    ∷ group is_decimal
    ∷ exactly "us"
    ∷ some_of is_space
    ∷ group is_decimal
    ∷ exactly "us"
    ∷ some_of is_space
    ∷ group is_decimal
    ∷ exactly "us"
    ∷ []

-- `_TOTAL_RE`
abbrev pub total_pattern : List Piece
total_pattern =
    exactly "Total Samples:"
    ∷ group is_digit
    ∷ exactly ","
    ∷ any_of is_space
    ∷ exactly "Total events handled time:"
    ∷ group is_decimal
    ∷ exactly "us"
    ∷ []

module _ (F : Floats) where
  open F use {Float, of_int, mul}

  -- one of `exits`
  pub record Exit : Type 0 where
    pub exit_reason : String
    pub samples : ℤ
    pub samples_pct : Float
    pub time_pct : Float
    pub min_time_ns : Float
    pub max_time_ns : Float
    pub avg_time_ns : Float
    pub exit_total_time_ns : Float

  -- `float(m.group(…)) * 1000`
  pub nanoseconds : String → Result Float
  nanoseconds text = do us ← float F text; ok (mul us (of_int (pos 1000)))

  -- the dictionary of a row; the expression has seven groups, so that the last clause is never met
  pub exit_of : List String → Result Exit
  exit_of (reason ∷ samples ∷ samples_pct ∷ time_pct ∷ min_time ∷ max_time ∷ avg_time ∷ []) = do
    n ← from_option value_error (int samples)
    sp ← float F samples_pct
    tp ← float F time_pct
    lo ← nanoseconds min_time
    hi ← nanoseconds max_time
    avg ← nanoseconds avg_time
    ok (record {
      exit_reason = reason;
      samples = n;
      samples_pct = sp;
      time_pct = tp;
      min_time_ns = lo;
      max_time_ns = hi;
      avg_time_ns = avg;
      exit_total_time_ns = mul avg (of_int n);
    })
  exit_of _ = raise value_error

  -- `exits`, `total_samples` and `total_time_ns`
  pub record Parsed : Type 0 where
    pub exits : List Exit
    pub total_samples : Option ℤ
    pub total_time_ns : Option Float

  -- the expression has two groups, so that the last clause is never met
  pub set_totals : List String → Parsed → Result Parsed
  set_totals (total_samples ∷ total_time ∷ []) r = do
    n ← from_option value_error (int total_samples)
    t ← nanoseconds total_time
    ok (record r { total_samples = some n; total_time_ns = some t })
  set_totals _ r = raise value_error

  -- one round of the loop
  pub parse_line : String → Parsed → Result Parsed
  parse_line line r = elim (match row_pattern line) [
    | some groups ↦ do e ← exit_of groups; ok (record r { exits = r.exits ++ e ∷ [] })
    | none ↦ elim (search_in total_pattern line) [ none ↦ ok r | some groups ↦ set_totals groups r ]
  ]

  pub parse_lines : List String → Parsed → Result Parsed
  parse_lines [] r = ok r
  parse_lines (l ∷ ls) r = do r' ← parse_line l r; parse_lines ls r'

  -- `parse_perf_output`, from `raw.splitlines()`
  pub parse_perf_output : List String → Result Parsed
  parse_perf_output lines =
      parse_lines lines (record { exits = []; total_samples = none; total_time_ns = none })

  -- a result with its label and its source
  pub record Labelled : Type 0 where
    pub label : String
    pub source : String
    pub parsed : Parsed

  -- a row of the CSV file
  pub record CsvRow : Type 0 where
    pub label : String
    pub source : String
    pub exit : Exit
    pub total_samples : Option ℤ
    pub total_time_ns : Option Float

  -- the inner loop of `write_csv`
  pub exit_rows : Labelled → List Exit → List CsvRow
  exit_rows result [] = []
  exit_rows result (e ∷ es) =
      record {
        label = result.label;
        source = result.source;
        exit = e;
        total_samples = result.parsed.total_samples;
        total_time_ns = result.parsed.total_time_ns;
      }
      ∷ exit_rows result es

  -- `write_csv`
  pub write_csv : List Labelled → List CsvRow
  write_csv [] = []
  write_csv (result ∷ results) = exit_rows result result.parsed.exits ++ write_csv results
