-- ===== src/Virt3/Saved.antt =====
-- plots/plot_3virt.py: what the two experiments save.
use fast_and_safe_io_memory.Base.{String, ◌<>◌, List, [], ◌∷◌, ◌++◌}
use fast_and_safe_io_memory.Python.Exception.{Result, ok}
use fast_and_safe_io_memory.Python.Floats.{Floats}
use fast_and_safe_io_memory.Python.Arrays.{Arrays, column}
use fast_and_safe_io_memory.Python.Statement.{◌>>=◌}
use fast_and_safe_io_memory.Python.Drawing.{Bars, HaveHeights}
use fast_and_safe_io_memory.Python.Drawing.Charts.{
  Plan, planned, Follows, Follows-bind, Follows-seq,
}
use fast_and_safe_io_memory.Virt3.{get_data, get_data_ring, flow_labels, ring_labels}
use fast_and_safe_io_memory.Virt3.Draw.{
  plot_column, plot_all_subplots, plot_iommu_misses_stats, plot_flows_exp, plot_ring_buf_exp,
}
use fast_and_safe_io_memory.Virt3.Plans.{chart3, plot_bars3-Follows}
use fast_and_safe_io_memory.Virt3.Plans.Misses.{misses_plan, misses-Follows}

module _ (F : Floats) (A : Arrays F) where
  open A use {Table, genfromtxt, field}

  -- the chart of one column of the three lists of tables
  unfoldable pub column_plan : String → List Table → List Table → List Table → String → Plan F A
  column_plan name off shadow nested title = planned F A (column F A name off) λ o.
      planned F A (column F A name shadow)
        λ s. planned F A (column F A name nested) λ n. ok (chart3 F title o s n) ∷ []

  -- three charts of columns, then three of rates for each list of tables
  unfoldable pub all_plan : List Table → List Table → List Table → String → Plan F A
  all_plan off shadow nested key =
      column_plan "net_tput_mean" off shadow nested (key <> "-tput")
      ++ (column_plan "cpu_utils_mean" off shadow nested (key <> "-cpu-util")
          ++ (column_plan "retx_rate_mean" off shadow nested (key <> "-drop-rate")
              ++ (misses_plan F A (key <> "-host-strict-guest-off-misses") off
                  ++ (misses_plan F A (key <> "-host-strict-guest-shadow-misses") shadow
                      ++ misses_plan F A (key <> "-host-strict-guest-nested-misses") nested))))

  -- the plans of the two experiments, once their reports are read
  unfoldable pub flows_plan : Plan F A
  flows_plan =
      planned F A
        (get_data F A "2025-09-08-02-07-12-6.12.9-iommufd-" "host-strict-guest-off" flow_labels
          "-ringbuf-512_sokcetbuf1_20cores")
        λ off.
          planned F A
            (get_data F A "2025-09-08-01-37-40-6.12.9-iommufd-" "host-strict-guest-on-shadow"
              flow_labels "-ringbuf-512_sokcetbuf1_20cores")
            λ shadow.
              planned F A
                (get_data F A "2025-09-08-02-39-18-6.12.9-iommufd-" "host-strict-guest-on-nested"
                  flow_labels "-ringbuf-512_sokcetbuf1_20cores")
                λ nested. all_plan off shadow nested "Emerald-Rapids-CX7-6.12.9-iommufd"

  unfoldable pub ring_plan : Plan F A
  ring_plan = planned F A (get_data_ring F A "" "host-strict-guest-off") λ off.
      planned F A (get_data_ring F A "" "host-strict-guest-shadow") λ shadow.
        planned F A (get_data_ring F A "" "host-strict-guest-nested")
          λ nested. all_plan off shadow nested "6.12.9-ring-buffer"

module _ (F : Floats) (A : Arrays F) (bars_of : Bars F A) where
  open A use {Table}

  column-Follows :
      HaveHeights F A bars_of
      → (name : String) (off shadow nested : List Table) (labels : List String)
        (title xlabel ylabel : String)
      → Follows F A
          (plot_column F A bars_of name off shadow nested labels title xlabel ylabel)
          (column_plan F A name off shadow nested title)
  unfolding plot_column column_plan
  column-Follows same name off shadow nested labels title xlabel ylabel =
      Follows-bind F A (column F A name off) _ _ λ o.
        Follows-bind F A (column F A name shadow) _ _ λ s.
          Follows-bind F A (column F A name nested) _ _
            λ n. plot_bars3-Follows F A bars_of same o s n labels title xlabel ylabel

  all-Follows :
      HaveHeights F A bars_of
      → (off shadow nested : List Table) (labels : List String) (key xlabel : String)
      → Follows F A
          (plot_all_subplots F A bars_of off shadow nested labels key xlabel)
          (all_plan F A off shadow nested key)
  unfolding plot_all_subplots plot_iommu_misses_stats all_plan
  all-Follows same off shadow nested labels key xlabel =
      let col = λ (name title ylabel : String).
        column-Follows same name off shadow nested labels (key <> title) xlabel ylabel in
      Follows-seq F A _ _ _ _ (col "net_tput_mean" "-tput" "Throughput (Gbps)") (
        Follows-seq F A _ _ _ _ (col "cpu_utils_mean" "-cpu-util" "% CPU Utilization") (
          Follows-seq F A _ _ _ _ (col "retx_rate_mean" "-drop-rate" "Drop rate") (
            Follows-seq F A _ _ _ _ (misses-Follows F A "Acks" off labels _ xlabel) (
              Follows-seq F A _ _ _ _ (misses-Follows F A "Acks" shadow labels _ xlabel)
                (misses-Follows F A "Acks" nested labels _ xlabel)))))

  three_lists-Follows :
      HaveHeights F A bars_of
      → (off shadow nested : Result (List Table)) (labels : List String) (key xlabel : String)
      → Follows F A
          (off >>= λ o.
            shadow >>= λ s. nested >>= λ n. plot_all_subplots F A bars_of o s n labels key xlabel)
          (planned F A off
            λ o. planned F A shadow λ s. planned F A nested λ n. all_plan F A o s n key)
  three_lists-Follows same off shadow nested labels key xlabel = Follows-bind F A off _ _ λ o.
      Follows-bind F A shadow _ _
        λ s. Follows-bind F A nested _ _ λ n. all-Follows same o s n labels key xlabel

-- Where the rectangles of a bar chart are as high as its heights: each of the two experiments saves the
-- charts of its plan in order, up to the first exception that reading a report or a field raises, and
-- ends with that exception, or with none. The plan has a chart of the throughputs, of the CPU
-- utilisations and of the retransmission rates, each with its heights for the three kinds of guest
-- IOMMU and their numbers over the bars, and then for each kind the charts of its rates per page.
pub experiments-Follows :
    (F : Floats) (A : Arrays F) (bars_of : Bars F A)
    → HaveHeights F A bars_of
    → Follows F A (plot_flows_exp F A bars_of) (flows_plan F A)
      × Follows F A (plot_ring_buf_exp F A bars_of) (ring_plan F A)
unfolding plot_flows_exp plot_ring_buf_exp flows_plan ring_plan
experiments-Follows F A bars_of same = (
  three_lists-Follows F A bars_of same
      (get_data F A "2025-09-08-02-07-12-6.12.9-iommufd-" "host-strict-guest-off" flow_labels
        "-ringbuf-512_sokcetbuf1_20cores")
      (get_data F A "2025-09-08-01-37-40-6.12.9-iommufd-" "host-strict-guest-on-shadow" flow_labels
        "-ringbuf-512_sokcetbuf1_20cores")
      (get_data F A "2025-09-08-02-39-18-6.12.9-iommufd-" "host-strict-guest-on-nested" flow_labels
        "-ringbuf-512_sokcetbuf1_20cores")
      flow_labels "Emerald-Rapids-CX7-6.12.9-iommufd" "Number of Flows",
  three_lists-Follows F A bars_of same (get_data_ring F A "" "host-strict-guest-off")
      (get_data_ring F A "" "host-strict-guest-shadow")
      (get_data_ring F A "" "host-strict-guest-nested") ring_labels "6.12.9-ring-buffer"
      "Ring Buffer Size",
)
