-- ===== src/Dynamic/Datasets.antt =====
-- plots/leshna_plot_nested.py: get_data without the eBPF statistics, and the series of a column.
use fast_and_safe_io_memory.Base.{String, ℕ, false, Option, none, some, List}
use fast_and_safe_io_memory.Python.Exception.{Result, ok, traverse, ◌>>=◌}
use fast_and_safe_io_memory.Python.Text.Path.{join_path}
use fast_and_safe_io_memory.Python.Floats.{Floats}
use fast_and_safe_io_memory.Python.Arrays.{Arrays, column}
use fast_and_safe_io_memory.Dynamic.Series.{Series, Options}

module _ (F : Floats) (A : Arrays F) where
  open A use {Table, genfromtxt}

  abbrev pub parse_results : String → Result Table
  parse_results path = genfromtxt path

  -- `data` of `get_data`
  unfoldable pub get_data : List String → Result (List Table)
  get_data exps = traverse (λ exp. parse_results (join_path exp "tput_metrics.dat")) exps

  -- one of `datasets`; a colour is none if it is missing
  pub record Dataset : Type 0 where
    pub setup_name : String
    pub tables : List Table
    pub color : Option String

  unfoldable pub series_of : String → String → Dataset → Result (Series F)
  series_of mean stddev ds = do
    values ← column F A mean ds.tables
    errors ← column F A stddev ds.tables
    ok record {
      label = some ds.setup_name;
      values = some values;
      errors = some errors;
      color = some ds.color;
    }

  -- the options that `plot_all_subplots` passes or leaves out
  unfoldable pub options : Option String → ℕ → Options F
  options output_dir precision = record {
    output_dir = output_dir;
    precision = precision;
    show_value_labels = none;
    log_scale = false;
    scientific_labels = false;
    max_width = none;
  }
