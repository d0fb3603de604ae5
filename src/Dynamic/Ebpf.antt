-- ===== src/Dynamic/Ebpf.antt =====
-- plots/leshna_plot_nested.py: the charts of the eBPF statistics. What pandas reads of a table of
-- statistics is a parameter.
pub mod Saved
mod Tests
use fast_and_safe_io_memory.Base.{
  ℕ, ◌==◌, ◌&&◌, String, ◌<>◌, Bool, true, false, not, Option, none, some, List, [], ◌∷◌, map,
  length, if◌then◌else◌,
}
use fast_and_safe_io_memory.Python.Dict.{Dict, text_key, put}
use fast_and_safe_io_memory.Python.Floats.{Floats, nat}
use fast_and_safe_io_memory.Python.Arrays.{Arrays}
use fast_and_safe_io_memory.Python.Statement.{Statement, pass, for, ◌>>◌}
use fast_and_safe_io_memory.Python.Drawing.{Calls, Bars}
use fast_and_safe_io_memory.IperfLog.{replace}
use fast_and_safe_io_memory.Dynamic.Series.{Series, Options}
use fast_and_safe_io_memory.Dynamic.Draw.{plot_bars_dynamic}

-- What is read of pandas: whether a table has the column of functions, and, for a function and a column,
-- the float in that column of the function's first row, none without such a row, column or float.
pub record Frames (F : Floats) : Type 1 where
  pub Frame : Type 0
  pub has_function : Frame → Bool
  pub metric : Frame → String → String → Option F.Float

unfoldable pub sanitize : String → String
sanitize name = replace " " "_" (replace "/" "_" name)

-- `selected_functions`: a list is a dictionary in which each function stands for itself
pub data Selected : Type 0 where
  by_name : List String → Selected
  by_functionality : List (String × List String) → Selected

module _ (F : Floats) where
  open F use {Float, mul, div, decimal}

  -- `[c * m for c, m in zip(counts, means)]` and `[t / 1e6 for t in total_ns]`
  unfoldable pub totals : List Float → List Float → List Float
  totals [] ms = []
  totals (c ∷ cs) [] = []
  totals (c ∷ cs) (m ∷ ms) = div (mul c m) (decimal 1000000 0) ∷ totals cs ms

module _ (F : Floats) (P : Frames F) where
  open F use {Float}
  open P use {Frame, has_function, metric}

  -- the first name that a value is found for
  unfoldable pub first_metric : Frame → List String → String → Float
  first_metric df [] column = nat F 0
  first_metric df (name ∷ names) column =
      let rest = first_metric df names column in
      elim (metric df name column) [ none ↦ rest | some x ↦ x ]

  abbrev pub value_of : Option Frame → List String → String → Float
  value_of none names column = nat F 0
  value_of (some df) names column =
      if has_function df then first_metric df names column else nat F 0

  unfoldable pub extract_metric_series : List (Option Frame) → List String → String → List Float
  extract_metric_series [] names column = []
  extract_metric_series (df ∷ dfs) names column =
      value_of df names column ∷ extract_metric_series dfs names column

  -- one of `datasets`; `ebpf` is none if it is missing or None
  pub record Dataset : Type 0 where
    pub setup_name : String
    pub ebpf : Option (List (Option Frame))
    pub color : Option String

  -- a data set with its tables
  abbrev pub Loaded : Type 0
  Loaded = Dataset × List (Option Frame)

  unfoldable pub loaded : List Dataset → List Loaded
  loaded [] = []
  loaded (ds ∷ more) =
      let rest = loaded more in elim ds.ebpf [ none ↦ rest | some dfs ↦ (ds, dfs) ∷ rest ]

  -- has every data set as many tables as there are experiments?
  unfoldable pub all_match : ℕ → List Loaded → Bool
  all_match n [] = true
  all_match n ((ds, dfs) ∷ more) = let rest = all_match n more in (length dfs == n) && rest

  unfoldable pub series_with_stddev : List String → String → Loaded → Series F
  series_with_stddev names column (ds, dfs) = record {
    label = some ds.setup_name;
    values = some (extract_metric_series dfs names column);
    errors = some (extract_metric_series dfs names (column <> "_stddev"));
    color = some ds.color;
  }

  unfoldable pub series_of_totals : List String → Loaded → Series F
  series_of_totals names (ds, dfs) = record {
    label = some ds.setup_name;
    values = some (
        totals F (extract_metric_series dfs names "count")
          (extract_metric_series dfs names "mean_ns"));
    errors = none;
    color = some ds.color;
  }

  unfoldable pub options : Option String → ℕ → Bool → Options F
  options output_dir precision log = record {
    output_dir = output_dir;
    precision = precision;
    show_value_labels = none;
    log_scale = log;
    scientific_labels = log;
    max_width = none;
  }

-- the functionalities and their functions
unfoldable pub functions_of : Selected → Dict String (List String)
functions_of (by_functionality d) = d
functions_of (by_name names) = by_names names []
  where
    by_names : List String → Dict String (List String) → Dict String (List String)
    by_names [] d = d
    by_names (n ∷ ns) d = by_names ns (put n (n ∷ []) d)

-- the title of a chart of a functionality
abbrev pub title_of : String → String → String → String
title_of title_key functionality kind = title_key <> "-" <> sanitize functionality <> "-" <> kind

module _ (F : Floats) (A : Arrays F) (bars_of : Bars F A) (P : Frames F) where
  -- the four charts of a functionality
  unfoldable pub plot_functionality :
      List (Loaded F P)
      → Option (List String)
      → String
      → String
      → Option String
      → String × List String
      → Statement (Calls F A)
  plot_functionality datasets x_labels title_key xlabel output_dir (functionality, names) = do
    plot_bars_dynamic F A bars_of (options F P output_dir 1 false)
        (some (map (series_with_stddev F P names "count") datasets)) x_labels
        (title_of title_key functionality "count") xlabel "Count"
    plot_bars_dynamic F A bars_of (options F P output_dir 1 true)
        (some (map (series_with_stddev F P names "mean_ns") datasets)) x_labels
        (title_of title_key functionality "mean_ns") xlabel "Mean (ns)"
    plot_bars_dynamic F A bars_of (options F P output_dir 1 true)
        (some (map (series_of_totals F P names) datasets)) x_labels
        (title_of title_key functionality "total_time") xlabel "Total time (ms)"
    plot_bars_dynamic F A bars_of (options F P output_dir 4 false)
        (some (map (series_with_stddev F P names "count_per_page") datasets)) x_labels
        (title_of title_key functionality "count_per_page") xlabel "Count per page"

  abbrev experiments : Option (List String) → ℕ
  experiments none = 0
  experiments (some x_labels) = length x_labels

  -- with the data sets that are loaded
  unfoldable pub plot_loaded :
      List (Loaded F P)
      → Option (List String)
      → Selected
      → String
      → String
      → Option String
      → Statement (Calls F A)
  plot_loaded [] x_labels selected title_key xlabel output_dir = pass
  plot_loaded (d ∷ ds) x_labels selected title_key xlabel output_dir =
      if all_match F P (experiments x_labels) (d ∷ ds)
      then for (functions_of selected)
          (plot_functionality (d ∷ ds) x_labels title_key xlabel output_dir)
      else pass

  -- none stands for None
  unfoldable pub plot_ebpf_selected_functions :
      Option (List (Dataset F P))
      → Option (List String)
      → Selected
      → String
      → String
      → Option String
      → Statement (Calls F A)
  plot_ebpf_selected_functions none x_labels selected title_key xlabel output_dir = pass
  plot_ebpf_selected_functions (some datasets) x_labels selected title_key xlabel output_dir =
      plot_loaded (loaded F P datasets) x_labels selected title_key xlabel output_dir
