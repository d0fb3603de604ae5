-- ===== src/Dynamic/Subplots.antt =====
-- plots/leshna_plot_nested.py: the three charts of plot_all_subplots.
use fast_and_safe_io_memory.Base.{String, ◌<>◌, ℕ, Option, none, some, List, [], ◌∷◌}
use fast_and_safe_io_memory.Python.Exception.{traverse}
use fast_and_safe_io_memory.Python.Floats.{Floats}
use fast_and_safe_io_memory.Python.Arrays.{Arrays}
use fast_and_safe_io_memory.Python.Statement.{Statement, pass, ◌>>◌, ◌>>=◌}
use fast_and_safe_io_memory.Python.Drawing.{Calls, Bars}
use fast_and_safe_io_memory.Dynamic.Datasets.{Dataset, series_of, options}
use fast_and_safe_io_memory.Dynamic.Draw.{plot_bars_dynamic}

module _ (F : Floats) (A : Arrays F) (bars_of : Bars F A) where
  -- the series of a column and their chart
  unfoldable pub plot_metric :
      String
      → String
      → List (Dataset F A)
      → Option (List String)
      → String
      → String
      → String
      → Option String
      → ℕ
      → Statement (Calls F A)
  plot_metric mean stddev datasets x_labels title xlabel ylabel output_dir precision = do
    series_list ← traverse (series_of F A mean stddev) datasets
    plot_bars_dynamic F A bars_of (options F A output_dir precision) (some series_list) x_labels
        title xlabel ylabel

  -- none stands for None
  unfoldable pub plot_all_subplots :
      Option (List (Dataset F A))
      → Option (List String)
      → String
      → String
      → Option String
      → Statement (Calls F A)
  plot_all_subplots none x_labels title_key xlabel output_dir = pass
  plot_all_subplots (some []) x_labels title_key xlabel output_dir = pass
  plot_all_subplots (some (d ∷ ds)) x_labels title_key xlabel output_dir = do
    plot_metric "net_tput_mean" "net_tput_stddev" (d ∷ ds) x_labels (title_key <> "-tput") xlabel
        "Throughput (Gbps)" output_dir 1
    plot_metric "cpu_utils_mean" "cpu_utils_stddev" (d ∷ ds) x_labels (title_key <> "-cpu-util")
        xlabel "% CPU Utilization" output_dir 1
    plot_metric "retx_rate_mean" "retx_rate_stddev" (d ∷ ds) x_labels (title_key <> "-drop-rate")
        xlabel "Drop rate" output_dir 3
