-- ===== src/Virt3/Tests.antt =====
-- Runs of plots/plot_3virt.py, and instances of what is proved.
use fast_and_safe_io_memory.Base.{[], ◌∷◌, ◌≡◌, refl, pos, ◌*ℤ◌}
use fast_and_safe_io_memory.Python.Exception.{value_error}
use fast_and_safe_io_memory.Python.Floats.Whole.{whole_floats, quotient}
use fast_and_safe_io_memory.Python.Arrays.Whole.{
  whole_arrays, whole_arrays-HasColumns, whole_bars, whole_bars-HaveHeights,
}
use fast_and_safe_io_memory.Python.Statement.{raise}
use fast_and_safe_io_memory.Python.Drawing.Charts.{only, view, Follows}
use fast_and_safe_io_memory.Collect.Outcome.{columns, names}
use fast_and_safe_io_memory.Virt3.{misses_per_page, ring_folder, flow_folder}
use fast_and_safe_io_memory.Virt3.Draw.{plot_flows_exp, plot_ring_buf_exp}
use fast_and_safe_io_memory.Virt3.Saved.{flows_plan, ring_plan, experiments-Follows}
use fast_and_safe_io_memory.Virt3.Collected.{plot_flows_exp-collected}

rate_of_misses : misses_per_page whole_floats (whole_arrays []) (pos 320000) (pos 1) ≡ pos 10
unfolding misses_per_page ◌*ℤ◌ quotient
rate_of_misses = refl

folders :
    (flow_folder "p-" "on" "-s" "20" ≡ "p-flow20-on-s")
    × (ring_folder "" "on" "0256" ≡ "on-ring_buffer-0256")
unfolding flow_folder ring_folder
folders = (refl, refl)

experiments-Follows_example :
    Follows whole_floats
      (whole_arrays columns)
      (plot_flows_exp whole_floats (whole_arrays columns) (whole_bars columns))
      (flows_plan whole_floats (whole_arrays columns))
    × Follows whole_floats
        (whole_arrays columns)
        (plot_ring_buf_exp whole_floats (whole_arrays columns) (whole_bars columns))
        (ring_plan whole_floats (whole_arrays columns))
experiments-Follows_example =
    experiments-Follows whole_floats (whole_arrays columns) (whole_bars columns)
      (whole_bars-HaveHeights columns)

plot_flows_exp-collected_example :
    (names
        (view whole_floats
          (whole_arrays columns)
          (plot_flows_exp whole_floats (whole_arrays columns) (whole_bars columns) []).0
          (only whole_floats (whole_arrays columns) [])).saved
      ≡ "Emerald-Rapids-CX7-6.12.9-iommufd-tput.png"
        ∷ "Emerald-Rapids-CX7-6.12.9-iommufd-cpu-util.png"
        ∷ "Emerald-Rapids-CX7-6.12.9-iommufd-drop-rate.png" ∷ [])
    × ((plot_flows_exp whole_floats (whole_arrays columns) (whole_bars columns) []).1
        ≡ raise value_error)
plot_flows_exp-collected_example =
    plot_flows_exp-collected whole_floats (whole_arrays columns) (whole_bars columns)
      (whole_bars-HaveHeights columns) (λ path. (columns, refl, whole_arrays-HasColumns columns))
