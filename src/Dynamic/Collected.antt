-- ===== src/Dynamic/Collected.antt =====
-- plots/leshna_plot_nested.py: plot_all_subplots on the reports that the collectors save.
use fast_and_safe_io_memory.Base.{
  ℕ, String, ◌<>◌, true, Option, some, List, [], ◌∷◌, ◌≡◌, refl, ap, subst, ℤ, length, All,
}
use fast_and_safe_io_memory.Python.Exception.{Result, ok, raise, traverse}
use fast_and_safe_io_memory.Python.Text.{member}
use fast_and_safe_io_memory.Python.Floats.{Floats, nat}
use fast_and_safe_io_memory.Python.Arrays.{Arrays, HasColumns}
use fast_and_safe_io_memory.Python.Arrays.Reading.{column-ok}
use fast_and_safe_io_memory.Python.Statement.{next}
use fast_and_safe_io_memory.Python.Drawing.{Bars, HaveHeights}
use fast_and_safe_io_memory.Python.Drawing.Charts.{
  Figure, only, view, outcome, planned-ok, Follows, Follows-same, Follows-seq,
}
use fast_and_safe_io_memory.Collect.Outcome.{columns, names}
use fast_and_safe_io_memory.Dynamic.{font_scale}
use fast_and_safe_io_memory.Dynamic.Bounds.{calculate_plot_params-bounds}
use fast_and_safe_io_memory.Dynamic.Series.{Series, file_path}
use fast_and_safe_io_memory.Dynamic.Charts.{chart_of, IsDrawable, plot_bars_dynamic-Follows}
use fast_and_safe_io_memory.Dynamic.Datasets.{Dataset, series_of, options}
use fast_and_safe_io_memory.Dynamic.Subplots.{plot_metric, plot_all_subplots}

module _ (F : Floats) (A : Arrays F) where
  -- the tables of a data set have the columns
  unfoldable pub IsCollected : Dataset F A → Type 0
  IsCollected d = All (HasColumns F A columns) d.tables

  series_of-ok :
      (mean stddev : String) (d : Dataset F A)
      → member mean columns ≡ true
      → member stddev columns ≡ true
      → IsCollected d
      → (s : Series F) × (series_of F A mean stddev d ≡ ok s)
  unfolding series_of IsCollected
  series_of-ok mean stddev d hm hs h =
      let (vs, ev) = column-ok F A columns mean d.tables hm h in
      let (es, ee) = column-ok F A columns stddev d.tables hs h in
      (
        record {
          label = some d.setup_name;
          values = some vs;
          errors = some es;
          color = some d.color;
        },
        rw (ev, ee) refl,
      )

  each_series-ok :
      (mean stddev : String) (ds : List (Dataset F A))
      → member mean columns ≡ true
      → member stddev columns ≡ true
      → All IsCollected ds
      → (ss : List (Series F)) × (traverse (series_of F A mean stddev) ds ≡ ok ss)
  unfolding traverse
  each_series-ok mean stddev [] hm hs _ = ([], refl)
  each_series-ok mean stddev (d ∷ ds) hm hs (h, hds) =
      let (s, e) = series_of-ok mean stddev d hm hs h in
      let (ss, es) = each_series-ok mean stddev ds hm hs hds in (s ∷ ss, rw (e, es) refl)

  -- matplotlib takes the series of two columns, if they can be read
  abbrev AreDrawable : Option String → ℕ → ℕ → Result (List (Series F)) → Type 0
  AreDrawable dir precision n (raise e) = Unit
  AreDrawable dir precision n (ok ss) = IsDrawable F (options F A dir precision) n ss

  -- and those of the three charts
  unfoldable pub ChartsAreDrawable : Option String → ℕ → List (Dataset F A) → Type 0
  ChartsAreDrawable dir n ds =
      AreDrawable dir 1 n (traverse (series_of F A "net_tput_mean" "net_tput_stddev") ds)
      × AreDrawable dir 1 n (traverse (series_of F A "cpu_utils_mean" "cpu_utils_stddev") ds)
      × AreDrawable dir 3 n (traverse (series_of F A "retx_rate_mean" "retx_rate_stddev") ds)

module _ (F : Floats) (A : Arrays F) (bars_of : Bars F A) where
  metric-Follows :
      HaveHeights F A bars_of
      → ((nx ns : ℕ) → (n : ℤ) × (F.trunc (F.mul (nat F 14) (font_scale F nx ns)) ≡ ok n))
      → (mean stddev : String) (d : Dataset F A) (ds : List (Dataset F A)) (labels : List String)
        (title xlabel ylabel : String) (dir : Option String) (precision : ℕ)
      → member mean columns ≡ true
      → member stddev columns ≡ true
      → All (IsCollected F A) (d ∷ ds)
      → AreDrawable F A dir precision
          (length labels)
          (traverse (series_of F A mean stddev) (d ∷ ds))
      → (g : Figure F) × Follows F A
          (plot_metric F A bars_of mean stddev
            (d ∷ ds)
            (some labels)
            title
            xlabel
            ylabel
            dir
            precision)
          (ok (file_path title dir, g) ∷ [])
  unfolding plot_metric traverse options chart_of
  metric-Follows same whole mean stddev d ds labels title xlabel ylabel dir precision hm hs (h, hds)
        drawable =
      let (s, e) = series_of-ok F A mean stddev d hm hs h in
      let (ss, es) = each_series-ok F A mean stddev ds hm hs hds in
      let (n, en) = whole (length labels) (length (s ∷ ss)) in
      let o = options F A dir precision in
      let bounds =
        calculate_plot_params-bounds F (length labels) (length (s ∷ ss)) o.max_width n en in
      let all : traverse (series_of F A mean stddev) (d ∷ ds) ≡ ok (s ∷ ss) = rw (e, es) refl in
      let drawn = subst (AreDrawable F A dir precision (length labels)) all drawable in
      let follows =
        plot_bars_dynamic-Follows F A bars_of same o s ss labels title xlabel ylabel drawn in
      let chart = chart_of F A o (s ∷ ss) (length labels) title in
      (
        (chart bounds.0).1,
        rw (e, es)
            (Follows-same F A
              (planned-ok F A _ (λ params. ok (chart params) ∷ []) bounds.0 bounds.1) follows),
      )

-- Where the rectangles of a bar chart are as high as its heights, int() reads the size of the font for all
-- numbers of labels and series, the tables of all data sets have the 28 columns that
-- scripts/collect-tput-stats.py saves, and in the three charts no deviation is negative and the end of
-- the axis is finite: the function, which starts with no figure, saves exactly the charts of the
-- throughputs, the CPU utilisations and the retransmission rates, and raises nothing.
pub plot_all_subplots-collected :
    (F : Floats) (A : Arrays F) (bars_of : Bars F A)
    → HaveHeights F A bars_of
    → ((nx ns : ℕ) → (n : ℤ) × (F.trunc (F.mul (nat F 14) (font_scale F nx ns)) ≡ ok n))
    → (d : Dataset F A) (ds : List (Dataset F A)) (labels : List String) (key xlabel : String)
      (dir : Option String)
    → All (IsCollected F A) (d ∷ ds)
    → ChartsAreDrawable F A dir (length labels) (d ∷ ds)
    → (names
          (view F A
            (plot_all_subplots F A bars_of (some (d ∷ ds)) (some labels) key xlabel dir []).0
            (only F A [])).saved
        ≡ file_path (key <> "-tput") dir
          ∷ file_path (key <> "-cpu-util") dir
          ∷ file_path (key <> "-drop-rate") dir
          ∷ [])
      × ((plot_all_subplots F A bars_of (some (d ∷ ds)) (some labels) key xlabel dir []).1 ≡ next)
unfolding plot_all_subplots columns member outcome view ChartsAreDrawable
plot_all_subplots-collected F A bars_of same whole d ds labels key xlabel dir h (d1, d2, d3) =
    let tput =
      metric-Follows F A bars_of same whole "net_tput_mean" "net_tput_stddev" d ds labels
        (key <> "-tput") xlabel "Throughput (Gbps)" dir 1 refl refl h d1 in
    let cpu =
      metric-Follows F A bars_of same whole "cpu_utils_mean" "cpu_utils_stddev" d ds labels
        (key <> "-cpu-util") xlabel "% CPU Utilization" dir 1 refl refl h d2 in
    let drop =
      metric-Follows F A bars_of same whole "retx_rate_mean" "retx_rate_stddev" d ds labels
        (key <> "-drop-rate") xlabel "Drop rate" dir 3 refl refl h d3 in
    let follows = Follows-seq F A _ _ _ _ tput.1 (Follows-seq F A _ _ _ _ cpu.1 drop.1) in
    (ap (λ v. names v.saved) (follows.charts [] [] refl), follows.flow [])
