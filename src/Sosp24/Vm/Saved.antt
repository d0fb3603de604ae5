-- ===== src/Sosp24/Vm/Saved.antt =====
-- scripts/sosp24-experiments/plot_vm.py: what the script saves, on any reports and on those of the
-- collectors.
use fast_and_safe_io_memory.Base.{String, ◌<>◌, List, [], ◌∷◌, ◌++◌, refl}
use fast_and_safe_io_memory.Python.Exception.{Result, ok}
use fast_and_safe_io_memory.Python.Floats.{Floats}
use fast_and_safe_io_memory.Python.Arrays.{Arrays, column}
use fast_and_safe_io_memory.Python.Statement.{◌>>◌, ◌>>=◌}
use fast_and_safe_io_memory.Python.Drawing.{call, plain}
use fast_and_safe_io_memory.Python.Drawing.Charts.{
  Chart, Plan, see, view-append, outcome, planned, Follows, Follows-bind, Follows-seq,
}
use fast_and_safe_io_memory.Sosp24.Vm.{
  get_data, get_data_ring, plot_bars4, plot_column, plot_flows_subplots, plot_ring_buffer_subplots,
  plot_flows_exp, plot_ring_buf_exp, main,
}

module _ (F : Floats) (A : Arrays F) where
  open F use {Float}
  open A use {Table, genfromtxt}

  unfoldable pub chart4 : String → List Float → List Float → List Float → List Float → Chart F
  chart4 title so ss lo ll =
      (title <> ".png", record { bars = lo ∷ so ∷ ll ∷ ss ∷ []; labels = [] })

  unfoldable pub column_plan :
      String → List Table → List Table → List Table → List Table → String → Plan F A
  column_plan name strict_off strict_strict lazy_off lazy_lazy title =
      planned F A (column F A name strict_off) λ so.
        planned F A (column F A name strict_strict) λ ss.
          planned F A (column F A name lazy_off)
            λ lo. planned F A (column F A name lazy_lazy) λ ll. ok (chart4 title so ss lo ll) ∷ []

  -- the throughputs and the CPU utilisations of one experiment
  unfoldable pub experiment_plan :
      Result (List Table)
      → Result (List Table)
      → Result (List Table)
      → Result (List Table)
      → String
      → Plan F A
  experiment_plan strict_off lazy_off strict_strict lazy_lazy key = planned F A strict_off λ so.
      planned F A lazy_off λ lo. planned F A strict_strict λ ss. planned F A lazy_lazy λ ll.
        column_plan "net_tput_mean" so ss lo ll (key <> "-tput")
        ++ column_plan "cpu_utils_mean" so ss lo ll (key <> "-cpu-util")

  unfoldable pub main_plan : Plan F A
  main_plan =
      experiment_plan (get_data_ring F A "6.12.9-vanilla-" "iommu-on")
        (get_data_ring F A "6.12.9-vanilla-" "iommu-on-lazy")
        (get_data_ring F A "6.12.9-vanilla-" "iommu-on-strict-strict")
        (get_data_ring F A "6.12.9-vanilla-" "iommu-on-lazy-lazy") "6.12.9-ring-buffer"
      ++ experiment_plan (get_data F A "10-07_03-03-6.12.9-vanilla-" "iommu-on" "-ofed24.10")
          (get_data F A "11-27_03-03-6.12.9-vanilla-" "iommu-on-lazy" "-ofed24.10")
          (get_data F A "13-20_03-03-6.12.9-vanilla-" "iommu-on-strict-strict" "-ofed24.10")
          (get_data F A "12-25_03-03-6.12.9-vanilla-" "iommu-on-lazy-lazy" "-ofed24.10")
          "6.12.9-flows"

  plot_bars4-Follows :
      (so ss lo ll : List Float) (labels : List String) (title xlabel ylabel : String)
      → Follows F A
          (plot_bars4 F A so ss lo ll labels title xlabel ylabel)
          (ok (chart4 title so ss lo ll) ∷ [])
  unfolding plot_bars4 plain call ◌>>◌ outcome chart4 see
  plot_bars4-Follows so ss lo ll labels title xlabel ylabel = record {
    charts = λ calls cs e. simp (view-append F A, e);
    flow = λ calls. refl;
  }

  column-Follows :
      (name : String) (so ss lo ll : List Table) (labels : List String)
      (title xlabel ylabel : String)
      → Follows F A
          (plot_column F A name so ss lo ll labels title xlabel ylabel)
          (column_plan name so ss lo ll title)
  unfolding plot_column column_plan
  column-Follows name so ss lo ll labels title xlabel ylabel =
      Follows-bind F A (column F A name so) _ _ λ a. Follows-bind F A (column F A name ss) _ _ λ b.
        Follows-bind F A (column F A name lo) _ _ λ c.
          Follows-bind F A (column F A name ll) _ _
            λ d. plot_bars4-Follows a b c d labels title xlabel ylabel

  -- both functions of a experiment draw the two columns, with another name below the bars
  subplots-Follows :
      (so ss lo ll : List Table) (labels : List String) (key xlabel : String)
      → Follows F A
          (plot_column F A "net_tput_mean" so ss lo ll labels
              (key <> "-tput")
              xlabel
              "Throughput (Gbps)"
            >> plot_column F A "cpu_utils_mean" so ss lo ll labels
                (key <> "-cpu-util")
                xlabel
                "% CPU Utilization")
          (column_plan "net_tput_mean" so ss lo ll (key <> "-tput")
            ++ column_plan "cpu_utils_mean" so ss lo ll (key <> "-cpu-util"))
  subplots-Follows so ss lo ll labels key xlabel =
      Follows-seq F A _ _ _ _ (column-Follows "net_tput_mean" so ss lo ll labels _ xlabel _)
        (column-Follows "cpu_utils_mean" so ss lo ll labels _ xlabel _)

  experiment-Follows :
      (so lo ss ll : Result (List Table)) (labels : List String) (key xlabel : String)
      → Follows F A
          (so >>= λ a. lo >>= λ b. ss >>= λ c. ll >>= λ d.
            plot_column F A "net_tput_mean" a c b d labels
              (key <> "-tput")
              xlabel
              "Throughput (Gbps)"
            >> plot_column F A "cpu_utils_mean" a c b d labels
                (key <> "-cpu-util")
                xlabel
                "% CPU Utilization")
          (experiment_plan so lo ss ll key)
  unfolding experiment_plan
  experiment-Follows so lo ss ll labels key xlabel = Follows-bind F A so _ _ λ a.
      Follows-bind F A lo _ _ λ b.
        Follows-bind F A ss _ _
          λ c. Follows-bind F A ll _ _ λ d. subplots-Follows a c b d labels key xlabel

  -- The script saves the charts of its plan in order, up to the first exception that reading a report or
  -- a field raises, and ends with that exception, or with none. The plan has, for the sizes of the
  -- ring buffer and then for the numbers of flows, the chart of the throughputs and that of the CPU
  -- utilisations, each with its heights for the four kinds of guest IOMMU.
  pub main-Follows : Follows F A (main F A) main_plan
  unfolding main plot_flows_exp plot_ring_buf_exp plot_flows_subplots plot_ring_buffer_subplots
      main_plan
  main-Follows =
      Follows-seq F A _ _ _ _
        (experiment-Follows (get_data_ring F A "6.12.9-vanilla-" "iommu-on")
          (get_data_ring F A "6.12.9-vanilla-" "iommu-on-lazy")
          (get_data_ring F A "6.12.9-vanilla-" "iommu-on-strict-strict")
          (get_data_ring F A "6.12.9-vanilla-" "iommu-on-lazy-lazy") _ "6.12.9-ring-buffer"
          "Ring Buffer Size")
        (experiment-Follows (get_data F A "10-07_03-03-6.12.9-vanilla-" "iommu-on" "-ofed24.10")
          (get_data F A "11-27_03-03-6.12.9-vanilla-" "iommu-on-lazy" "-ofed24.10")
          (get_data F A "13-20_03-03-6.12.9-vanilla-" "iommu-on-strict-strict" "-ofed24.10")
          (get_data F A "12-25_03-03-6.12.9-vanilla-" "iommu-on-lazy-lazy" "-ofed24.10") _
          "6.12.9-flows" "Number of Flows")
