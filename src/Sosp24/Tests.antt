-- ===== src/Sosp24/Tests.antt =====
-- Runs of scripts/sosp24-experiments/plot.py and plot_vm.py, and instances of what is proved of them.
use fast_and_safe_io_memory.Base.{
  ◌<>◌, some, none, [], ◌∷◌, ◌≡◌, refl, pos, negsuc, suc, ◌=ₛ◌, if◌then◌else◌,
}
use fast_and_safe_io_memory.Python.Exception.{ok, ◌>>=◌}
use fast_and_safe_io_memory.Python.Text.Strip.{join, IsPlain}
use fast_and_safe_io_memory.Python.Number.Plain.{str-IsPlain, minus-IsPlain}
use fast_and_safe_io_memory.Python.Floats.{float}
use fast_and_safe_io_memory.Python.Floats.Whole.{whole_floats, show_int}
use fast_and_safe_io_memory.Python.Arrays.Whole.{whole_arrays, whole_arrays-HasColumns}
use fast_and_safe_io_memory.Python.Statement.{next, Files}
use fast_and_safe_io_memory.Python.Drawing.Charts.{only, view, Follows}
use fast_and_safe_io_memory.Collect.Scripts.{baremetal, run_of, all_runs}
use fast_and_safe_io_memory.Collect.Summary.{mean_or_zero}
use fast_and_safe_io_memory.Collect.Outcome.{columns, names}
use fast_and_safe_io_memory.Collect.Samples.{one_run, saved, saved-ok}
use fast_and_safe_io_memory.Sosp24.Vm.{main}
use fast_and_safe_io_memory.Sosp24.Vm.Saved.{main_plan, main-Follows}
use fast_and_safe_io_memory.Sosp24.Vm.Collected.{main-collected}
use fast_and_safe_io_memory.Sosp24.Pair.{plot_ring_buf_exp, plot_tput_f_and_s}
use fast_and_safe_io_memory.Sosp24.Pair.Saved.{ring_plan, flows_plan, experiments_pair-Follows}
use fast_and_safe_io_memory.Sosp24.Pair.Throughput.{get_tput, texts_of, get_tput-saved}

main-Follows_example :
    Follows whole_floats
      (whole_arrays columns)
      (main whole_floats (whole_arrays columns))
      (main_plan whole_floats (whole_arrays columns))
main-Follows_example = main-Follows whole_floats (whole_arrays columns)

main-collected_example :
    (names
        (view whole_floats
          (whole_arrays columns)
          (main whole_floats (whole_arrays columns) []).0
          (only whole_floats (whole_arrays columns) [])).saved
      ≡ "6.12.9-ring-buffer-tput.png" ∷ "6.12.9-ring-buffer-cpu-util.png" ∷ "6.12.9-flows-tput.png"
        ∷ "6.12.9-flows-cpu-util.png" ∷ [])
    × ((main whole_floats (whole_arrays columns) []).1 ≡ next)
main-collected_example =
    main-collected whole_floats (whole_arrays columns)
      (λ path. (columns, refl, whole_arrays-HasColumns columns))

experiments_pair-Follows_example :
    Follows whole_floats
      (whole_arrays columns)
      (plot_ring_buf_exp whole_floats (whole_arrays columns))
      (ring_plan whole_floats (whole_arrays columns))
    × Follows whole_floats
        (whole_arrays columns)
        (plot_tput_f_and_s whole_floats (whole_arrays columns))
        (flows_plan whole_floats (whole_arrays columns))
experiments_pair-Follows_example = experiments_pair-Follows whole_floats (whole_arrays columns)

abbrev report : Files
report path =
    if path =ₛ "tput_metrics.dat"
    then some (("columns" <> "\n") ∷ (join "," (texts_of whole_floats saved) <> "\n") ∷ [])
    else none

whole-IsPlain : (x : whole_floats.Float) → IsPlain (whole_floats.format_fixed 10 x)
unfolding show_int
whole-IsPlain (pos n) = str-IsPlain n
whole-IsPlain (negsuc n) = minus-IsPlain (suc n)

get_tput-saved_example : get_tput whole_floats report "tput_metrics.dat" ≡ (
    float whole_floats (
      whole_floats.format_fixed 10 (
        mean_or_zero whole_floats
          (all_runs (run_of whole_floats one_run "e" 0 baremetal) 1).0.net_tputs))
    >>= λ x. ok (some x))
get_tput-saved_example =
    get_tput-saved whole_floats refl whole-IsPlain one_run "e" 1 0 baremetal saved saved-ok report
      "tput_metrics.dat" "columns" refl
