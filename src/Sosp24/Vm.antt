-- ===== src/Sosp24/Vm.antt =====
-- scripts/sosp24-experiments/plot_vm.py: four kinds of guest IOMMU.
pub mod Saved
pub mod Collected
use fast_and_safe_io_memory.Base.{String, ◌<>◌, List, [], ◌∷◌, pos, length}
use fast_and_safe_io_memory.Python.Exception.{Result, traverse}
use fast_and_safe_io_memory.Python.Floats.{Floats, nat, negative}
use fast_and_safe_io_memory.Python.Arrays.{Arrays, column}
use fast_and_safe_io_memory.Python.Statement.{Statement, ◌>>◌, ◌>>=◌}
use fast_and_safe_io_memory.Python.Drawing.{
  real, whole, text, array, reals, texts, bar, xlabel, ylabel, title, xticks, legend,
  subplots_adjust, savefig, close, Calls, call, plain,
}
use fast_and_safe_io_memory.Sosp24.{report_path, flow_folder}

unfoldable pub ring_folder : String → String → String → String
ring_folder prefix iommu_str x = prefix <> iommu_str <> "-ring_buffer-" <> x

module _ (F : Floats) (A : Arrays F) where
  open F use {Float, div, decimal}
  open A use {Table, genfromtxt, arange, times, plus, minus}

  abbrev pub parse_results : String → Result Table
  parse_results path = genfromtxt path

  unfoldable pub get_data : String → String → String → Result (List Table)
  get_data prefix iommu_str suffix =
      traverse (λ f. parse_results (report_path (flow_folder prefix iommu_str suffix f)))
        ("05" ∷ "10" ∷ "20" ∷ "40" ∷ [])

  unfoldable pub get_data_ring : String → String → Result (List Table)
  get_data_ring prefix iommu_str =
      traverse (λ x. parse_results (report_path (ring_folder prefix iommu_str x)))
        ("0256" ∷ "0512" ∷ "1024" ∷ "2048" ∷ [])

  unfoldable pub plot_bars4 :
      List Float
      → List Float
      → List Float
      → List Float
      → List String
      → String
      → String
      → String
      → Statement (Calls F A)
  plot_bars4 strict_off strict_strict lazy_off lazy_lazy x_labels title' xlabel' ylabel' = do
    let bar_width = decimal 3 1
    let gap_factor = decimal 15 1
    let x = times (arange (length x_labels)) gap_factor
    let half = div bar_width (nat F 2)
    call F A bar (array (minus (minus x half) bar_width) ∷ reals lazy_off ∷ real bar_width ∷ [])
        (("label", text "Host IOMMU Lazy; Guest IOMMU Off") ∷ [])
    call F A bar (array (minus x half) ∷ reals strict_off ∷ real bar_width ∷ [])
        (("label", text "Host IOMMU Strict; Guest IOMMU Off") ∷ [])
    call F A bar (array (plus x half) ∷ reals lazy_lazy ∷ real bar_width ∷ [])
        (("label", text "Host IOMMU Lazy; Guest IOMMU Lazy") ∷ [])
    call F A bar (array (plus (plus x half) bar_width) ∷ reals strict_strict ∷ real bar_width ∷ [])
        (("label", text "Host IOMMU Strict; Guest IOMMU Strict") ∷ [])
    plain F A xlabel (text xlabel' ∷ [])
    plain F A ylabel (text ylabel' ∷ [])
    plain F A title (text title' ∷ [])
    plain F A xticks (array x ∷ texts x_labels ∷ [])
    call F A legend [] (
        ("loc", text "upper center")
        ∷ ("bbox_to_anchor", reals (decimal 5 1 ∷ negative F (decimal 15 2) ∷ []))
        ∷ ("ncol", whole (pos 2))
        ∷ [])
    call F A subplots_adjust [] (("bottom", real (decimal 25 2)) ∷ [])
    call F A savefig (text (title' <> ".png") ∷ []) (("bbox_inches", text "tight") ∷ [])
    plain F A close []

  -- `plot_bars4` of one column of the four lists of tables
  unfoldable pub plot_column :
      String
      → List Table
      → List Table
      → List Table
      → List Table
      → List String
      → String
      → String
      → String
      → Statement (Calls F A)
  plot_column name strict_off strict_strict lazy_off lazy_lazy x_labels title' xlabel' ylabel' = do
    so ← column F A name strict_off
    ss ← column F A name strict_strict
    lo ← column F A name lazy_off
    ll ← column F A name lazy_lazy
    plot_bars4 so ss lo ll x_labels title' xlabel' ylabel'

  unfoldable pub plot_flows_subplots :
      List Table
      → List Table
      → List Table
      → List Table
      → List String
      → String
      → Statement (Calls F A)
  plot_flows_subplots so ss lo ll x_labels title_key = do
    plot_column "net_tput_mean" so ss lo ll x_labels (title_key <> "-tput") "Number of Flows"
        "Throughput (Gbps)"
    plot_column "cpu_utils_mean" so ss lo ll x_labels (title_key <> "-cpu-util") "Number of Flows"
        "% CPU Utilization"

  unfoldable pub plot_ring_buffer_subplots :
      List Table
      → List Table
      → List Table
      → List Table
      → List String
      → String
      → Statement (Calls F A)
  plot_ring_buffer_subplots so ss lo ll x_labels title_key = do
    plot_column "net_tput_mean" so ss lo ll x_labels (title_key <> "-tput") "Ring Buffer Size"
        "Throughput (Gbps)"
    plot_column "cpu_utils_mean" so ss lo ll x_labels (title_key <> "-cpu-util") "Ring Buffer Size"
        "% CPU Utilization"

  unfoldable pub plot_flows_exp : Statement (Calls F A)
  plot_flows_exp = do
    strict_off ← get_data "10-07_03-03-6.12.9-vanilla-" "iommu-on" "-ofed24.10"
    lazy_off ← get_data "11-27_03-03-6.12.9-vanilla-" "iommu-on-lazy" "-ofed24.10"
    strict_strict ← get_data "13-20_03-03-6.12.9-vanilla-" "iommu-on-strict-strict" "-ofed24.10"
    lazy_lazy ← get_data "12-25_03-03-6.12.9-vanilla-" "iommu-on-lazy-lazy" "-ofed24.10"
    plot_flows_subplots strict_off strict_strict lazy_off lazy_lazy ("05" ∷ "10" ∷ "20" ∷ "40" ∷ [])
        "6.12.9-flows"

  unfoldable pub plot_ring_buf_exp : Statement (Calls F A)
  plot_ring_buf_exp = do
    strict_off ← get_data_ring "6.12.9-vanilla-" "iommu-on"
    lazy_off ← get_data_ring "6.12.9-vanilla-" "iommu-on-lazy"
    strict_strict ← get_data_ring "6.12.9-vanilla-" "iommu-on-strict-strict"
    lazy_lazy ← get_data_ring "6.12.9-vanilla-" "iommu-on-lazy-lazy"
    plot_ring_buffer_subplots strict_off strict_strict lazy_off lazy_lazy
        ("256" ∷ "512" ∷ "1024" ∷ "2048" ∷ []) "6.12.9-ring-buffer"

  -- the script
  unfoldable pub main : Statement (Calls F A)
  main = do plot_ring_buf_exp; plot_flows_exp
