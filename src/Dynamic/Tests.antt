-- ===== src/Dynamic/Tests.antt =====
-- Runs of plots/leshna_plot_nested.py, and instances of what is proved.
use fast_and_safe_io_memory.Base.{
  ℕ, ◌+◌, ◌≤◌, false, none, some, [], ◌∷◌, ◌≡◌, refl, pos, negsuc, All, inl, ◌+ℤ◌, ◌-ℤ◌, ◌*ℤ◌,
}
use fast_and_safe_io_memory.Python.Exception.{ok, traverse}
use fast_and_safe_io_memory.Python.Text.Path.{lower, join_path}
use fast_and_safe_io_memory.Python.Pattern.{after_text}
use fast_and_safe_io_memory.Python.Floats.{nat, max, has_negative}
use fast_and_safe_io_memory.Python.Floats.Whole.{whole_floats, show_int, quotient}
use fast_and_safe_io_memory.Python.Number.{str}
use fast_and_safe_io_memory.Python.Text.{member}
use fast_and_safe_io_memory.Python.Arrays.{column}
use fast_and_safe_io_memory.Python.Arrays.Whole.{
  whole_arrays, whole_arrays-HasColumns, whole_bars, whole_bars-HaveHeights,
}
use fast_and_safe_io_memory.Python.Statement.{next}
use fast_and_safe_io_memory.Python.Drawing.Charts.{only, view, planned, Follows}
use fast_and_safe_io_memory.Collect.Outcome.{columns, names}
use fast_and_safe_io_memory.IperfLog.{replace, replace_on, size}
use fast_and_safe_io_memory.Dynamic.{Params, font_scale, gap_factor_of, calculate_plot_params}
use fast_and_safe_io_memory.Dynamic.Bounds.{calculate_plot_params-bounds}
use fast_and_safe_io_memory.Dynamic.Series.{
  Series, Options, file_path, padded, zeros, take, sums, rotation_of, label_text, default_color,
}
use fast_and_safe_io_memory.Dynamic.Labels.{all_texts, text_over}
use fast_and_safe_io_memory.Dynamic.Draw.{plot_bars_dynamic}
use fast_and_safe_io_memory.Dynamic.Loop.{heights_of, tops_of, maxima_of, HasErrors}
use fast_and_safe_io_memory.Dynamic.Charts.{chart_of, IsDrawable, plot_bars_dynamic-Follows}
use fast_and_safe_io_memory.Dynamic.Refused.{IsRefused, plot_bars_dynamic-IsRefused}
use fast_and_safe_io_memory.Dynamic.Datasets.{Dataset, series_of, options}
use fast_and_safe_io_memory.Dynamic.Subplots.{plot_all_subplots}
use fast_and_safe_io_memory.Dynamic.Collected.{
  IsCollected, ChartsAreDrawable, plot_all_subplots-collected,
}

names_of_files :
    (file_path "RX Flows-tput" (some "figs") ≡ "figs/rx_flows-tput.pdf")
    × (file_path "A-tput" (some "") ≡ "a-tput.pdf")
    × (file_path "A-tput" none ≡ "a-tput.pdf")
unfolding file_path lower join_path replace replace_on size after_text
names_of_files = (refl, refl, refl)

-- too few values are filled with zeros, too many cut
fitted :
    (padded whole_floats 3 (pos 7 ∷ []) ≡ pos 7 ∷ pos 0 ∷ pos 0 ∷ [])
    × (padded whole_floats 1 (pos 7 ∷ pos 8 ∷ []) ≡ pos 7 ∷ [])
unfolding padded zeros take
fitted = (refl, refl)

abbrev plain_options : Options whole_floats
plain_options = record {
  output_dir = none;
  precision = 1;
  show_value_labels = none;
  log_scale = false;
  scientific_labels = false;
  max_width = none;
}

-- no text over an empty bar
texts_shown :
    all_texts whole_floats
      (whole_arrays [])
      plain_options
      ((pos 0 ∷ pos 4 ∷ []) ∷ (pos 12 ∷ []) ∷ [])
    ≡ "4" ∷ "12" ∷ []
unfolding all_texts text_over label_text show_int str
texts_shown = refl

many_labels :
    (rotation_of 9 ≡ (30, "right"))
    × (gap_factor_of whole_floats 4 ≡ whole_floats.decimal 20 1)
    × (default_color 9 ≡ "#E69F00")
unfolding rotation_of gap_factor_of default_color
many_labels = (refl, refl, refl)

calculate_plot_params-bounds_example :
    (p : Params whole_floats) × (calculate_plot_params whole_floats 12 6 none ≡ ok p)
    × ((k : ℕ) × (p.font_size ≡ pos (5 + k))
        × (p.legend_fontsize ≡ pos (6 + k))
        × (p.label_fontsize ≡ pos (8 + k)))
    × (2 ≤ p.legend_ncol)
    × (p.legend_ncol ≤ 3)
calculate_plot_params-bounds_example =
    calculate_plot_params-bounds whole_floats 12 6 none
      (whole_floats.mul (nat whole_floats 14) (font_scale whole_floats 12 6)) refl

abbrev one_series : Series whole_floats
one_series = record {
  label = some "off";
  values = some (pos 3 ∷ pos 0 ∷ []);
  errors = some (pos 1 ∷ []);
  color = none;
}

one_series-IsDrawable : IsDrawable whole_floats plain_options 2 (one_series ∷ [])
unfolding IsDrawable heights_of tops_of maxima_of padded zeros take sums max has_negative ◌+ℤ◌ ◌-ℤ◌
    ◌*ℤ◌ quotient
one_series-IsDrawable = ((refl, tt), refl)

plot_bars_dynamic-Follows_example :
    Follows whole_floats
      (whole_arrays columns)
      (plot_bars_dynamic whole_floats
        (whole_arrays columns)
        (whole_bars columns)
        plain_options
        (some (one_series ∷ []))
        (some ("20" ∷ "40" ∷ []))
        "A"
        "flows"
        "Gbps")
      (planned whole_floats
        (whole_arrays columns)
        (calculate_plot_params whole_floats 2 1 none)
        λ params.
          ok (
            chart_of whole_floats
              (whole_arrays columns)
              plain_options
              (one_series ∷ [])
              2
              "A"
              params)
          ∷ [])
plot_bars_dynamic-Follows_example =
    plot_bars_dynamic-Follows whole_floats (whole_arrays columns) (whole_bars columns)
      (whole_bars-HaveHeights columns) plain_options one_series [] ("20" ∷ "40" ∷ []) "A" "flows"
      "Gbps" one_series-IsDrawable

-- an error below zero
abbrev wrong_series : Series whole_floats
wrong_series = record {
  label = none;
  values = some (pos 3 ∷ []);
  errors = some (negsuc 0 ∷ []);
  color = none;
}

wrong_series-refused : ¬ All (HasErrors whole_floats 1) (wrong_series ∷ [])
unfolding padded zeros take has_negative
wrong_series-refused (h, _) = cc

plot_bars_dynamic-IsRefused_example : IsRefused whole_floats (whole_arrays columns) (
    plot_bars_dynamic whole_floats
      (whole_arrays columns)
      (whole_bars columns)
      plain_options
      (some (wrong_series ∷ []))
      (some ("20" ∷ []))
      "A"
      "flows"
      "Gbps")
plot_bars_dynamic-IsRefused_example =
    plot_bars_dynamic-IsRefused whole_floats (whole_arrays columns) (whole_bars columns)
      (whole_bars-HaveHeights columns) plain_options wrong_series [] ("20" ∷ []) "A" "flows" "Gbps"
      (calculate_plot_params-bounds whole_floats 1 1 none
        (whole_floats.mul (nat whole_floats 14) (font_scale whole_floats 1 1)) refl).0
      (calculate_plot_params-bounds whole_floats 1 1 none
        (whole_floats.mul (nat whole_floats 14) (font_scale whole_floats 1 1)) refl).1
      (inl wrong_series-refused)

abbrev off : Dataset whole_floats (whole_arrays columns)
off = record { setup_name = "off"; tables = columns ∷ []; color = none }

off-IsCollected : IsCollected whole_floats (whole_arrays columns) off
unfolding IsCollected
off-IsCollected = (whole_arrays-HasColumns columns, tt)

off-ChartsAreDrawable : ChartsAreDrawable whole_floats (whole_arrays columns) none 1 (off ∷ [])
unfolding ChartsAreDrawable IsDrawable heights_of tops_of maxima_of padded zeros take sums max
    has_negative ◌+ℤ◌ ◌-ℤ◌ ◌*ℤ◌ quotient series_of column columns member traverse options
off-ChartsAreDrawable = (((refl, tt), refl), ((refl, tt), refl), ((refl, tt), refl))

plot_all_subplots-collected_example :
    (names
        (view whole_floats
          (whole_arrays columns)
          (plot_all_subplots whole_floats
            (whole_arrays columns)
            (whole_bars columns)
            (some (off ∷ []))
            (some ("20" ∷ []))
            "A"
            "flows"
            none
            []).0
          (only whole_floats (whole_arrays columns) [])).saved
      ≡ file_path "A-tput" none ∷ file_path "A-cpu-util" none ∷ file_path "A-drop-rate" none ∷ [])
    × ((plot_all_subplots whole_floats
          (whole_arrays columns)
          (whole_bars columns)
          (some (off ∷ []))
          (some ("20" ∷ []))
          "A"
          "flows"
          none
          []).1
        ≡ next)
plot_all_subplots-collected_example =
    plot_all_subplots-collected whole_floats (whole_arrays columns) (whole_bars columns)
      (whole_bars-HaveHeights columns)
      (λ nx ns. (whole_floats.mul (nat whole_floats 14) (font_scale whole_floats nx ns), refl)) off
      [] ("20" ∷ []) "A" "flows" none (off-IsCollected, tt) off-ChartsAreDrawable
