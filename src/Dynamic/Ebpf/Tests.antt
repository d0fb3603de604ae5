-- ===== src/Dynamic/Ebpf/Tests.antt =====
-- Runs of the charts of the eBPF statistics of plots/leshna_plot_nested.py, and an instance of what is
-- proved.
use fast_and_safe_io_memory.Base.{
  String, not, none, some, List, [], ◌∷◌, ◌≡◌, refl, pos, ◌*ℤ◌, ◌+ℤ◌, ◌-ℤ◌, All, ◌=ₛ◌,
  if◌then◌else◌,
}
use fast_and_safe_io_memory.Python.Dict.{put}
use fast_and_safe_io_memory.Python.Pattern.{after_text}
use fast_and_safe_io_memory.Python.Floats.{nat, max, has_negative}
use fast_and_safe_io_memory.Python.Floats.Whole.{whole_floats, quotient}
use fast_and_safe_io_memory.Python.Arrays.Whole.{whole_arrays, whole_bars, whole_bars-HaveHeights}
use fast_and_safe_io_memory.IperfLog.{replace, replace_on, size}
use fast_and_safe_io_memory.Dynamic.{font_scale}
use fast_and_safe_io_memory.Dynamic.Series.{padded, zeros, take, sums}
use fast_and_safe_io_memory.Dynamic.Loop.{heights_of, tops_of, maxima_of}
use fast_and_safe_io_memory.Dynamic.Charts.{IsDrawable}
use fast_and_safe_io_memory.Dynamic.Ebpf.{
  Frames, Dataset, by_name, by_functionality, functions_of, sanitize, first_metric, options,
  series_with_stddev, series_of_totals, extract_metric_series, totals, loaded,
  plot_ebpf_selected_functions,
}
use fast_and_safe_io_memory.Dynamic.Ebpf.Saved.{Saves, AreDrawable, expected_paths, plot_ebpf-Saves}

-- a table is the name of its one function, which was called 5 times; the empty text has no such column
abbrev frames : Frames whole_floats
frames = record {
  Frame = String;
  has_function = λ df. not (df =ₛ "");
  metric = λ df name column.
      if df =ₛ name then (if column =ₛ "count" then some (pos 5) else none) else none;
}

series_read :
    extract_metric_series whole_floats frames
      (some "map" ∷ some "unmap" ∷ some "" ∷ none ∷ [])
      ("flush" ∷ "unmap" ∷ [])
      "count"
    ≡ pos 0 ∷ pos 5 ∷ pos 0 ∷ pos 0 ∷ []
unfolding extract_metric_series first_metric
series_read = refl

totals_read : totals whole_floats (pos 3000 ∷ pos 1 ∷ []) (pos 2000 ∷ []) ≡ pos 6 ∷ []
unfolding totals ◌*ℤ◌ quotient
totals_read = refl

-- a name that is listed twice is drawn once
names_read :
    (functions_of (by_name ("a" ∷ "b" ∷ "a" ∷ [])) ≡ ("a", "a" ∷ []) ∷ ("b", "b" ∷ []) ∷ [])
    × (sanitize "a/b c" ≡ "a_b_c")
unfolding functions_of put sanitize replace replace_on size after_text
names_read = (refl, refl)

abbrev datasets : List (Dataset whole_floats frames)
datasets =
    record { setup_name = "off"; ebpf = none; color = none }
    ∷ record { setup_name = "nested"; ebpf = some (some "map" ∷ none ∷ []); color = some "red" }
    ∷ []

datasets-AreDrawable :
    All
      (AreDrawable whole_floats frames none 2 (loaded whole_floats frames datasets))
      (functions_of (by_functionality (("map", "map" ∷ []) ∷ [])))
unfolding AreDrawable IsDrawable heights_of tops_of maxima_of padded zeros take sums max
    has_negative ◌+ℤ◌ ◌-ℤ◌ ◌*ℤ◌ quotient options loaded functions_of series_with_stddev
    series_of_totals extract_metric_series first_metric totals
datasets-AreDrawable =
    ((((refl, tt), refl), ((refl, tt), tt), ((refl, tt), tt), ((refl, tt), refl)), tt)

plot_ebpf-Saves_example :
    Saves whole_floats
      (whole_arrays [])
      (plot_ebpf_selected_functions whole_floats
        (whole_arrays [])
        (whole_bars [])
        frames
        (some datasets)
        (some ("20" ∷ "40" ∷ []))
        (by_functionality (("map", "map" ∷ []) ∷ []))
        "A"
        "flows"
        none)
      (expected_paths whole_floats frames
        (loaded whole_floats frames datasets)
        2
        (by_functionality (("map", "map" ∷ []) ∷ []))
        "A"
        none)
plot_ebpf-Saves_example =
    plot_ebpf-Saves whole_floats (whole_arrays []) (whole_bars []) frames
      (whole_bars-HaveHeights [])
      (λ nx ns. (whole_floats.mul (nat whole_floats 14) (font_scale whole_floats nx ns), refl))
      datasets ("20" ∷ "40" ∷ []) (by_functionality (("map", "map" ∷ []) ∷ [])) "A" "flows" none
      datasets-AreDrawable
