-- ===== src/Virt3/Draw.antt =====
-- plots/plot_3virt.py: drawing the charts.
use fast_and_safe_io_memory.Base.{String, ◌<>◌, List, [], ◌∷◌, ◌++◌, pos, length}
use fast_and_safe_io_memory.Python.Floats.{Floats, nat, negative, max}
use fast_and_safe_io_memory.Python.Arrays.{Arrays, column}
use fast_and_safe_io_memory.Python.Statement.{Statement, for, ◌>>◌, ◌>>=◌}
use fast_and_safe_io_memory.Python.Drawing.{
  real, whole, text, array, reals, texts, figure, update_params, bar, xlabel, ylabel, title, xticks,
  grid, legend, ylim, tight_layout, text_at, savefig, close, Calls, call, plain, Rectangle, Bars,
}
use fast_and_safe_io_memory.Virt3.{
  flow_labels, ring_labels, get_data, get_data_ring, get_misses_per_page,
}

module _ (F : Floats) (A : Arrays F) where
  open F use {decimal}
  open A use {Table, arange, plus, minus}

  -- `plot_iommu_misses_stats`, but for the title of the acknowledgements
  unfoldable pub plot_misses :
      String → List Table → List String → String → String → Statement (Calls F A)
  plot_misses acks_title iommu_on_data x_labels title' x_label = do
    pages ← get_misses_per_page F A iommu_on_data
    let bar_width = decimal 35 2
    let x = arange (length x_labels)
    call F A bar (array x ∷ reals pages.iotlb_miss_page ∷ real bar_width ∷ [])
        (("label", text "IOMMU TLB misses") ∷ [])
    plain F A xlabel (text x_label ∷ [])
    plain F A ylabel (text "IOTLB misses per page" ∷ [])
    plain F A title (text (title' <> "IOTLB-miss") ∷ [])
    plain F A xticks (array x ∷ texts x_labels ∷ [])
    plain F A legend []
    plain F A ylim (whole (pos 0) ∷ whole (pos 3) ∷ [])
    plain F A savefig (text (title' <> "IOTLB-miss.png") ∷ [])
    plain F A close []
    call F A bar (array x ∷ reals pages.acks_page ∷ real bar_width ∷ [])
        (("label", text "ACKs per page") ∷ [])
    plain F A xlabel (text x_label ∷ [])
    plain F A ylabel (text "Acks per page" ∷ [])
    plain F A title (text (title' <> acks_title) ∷ [])
    plain F A xticks (array x ∷ texts x_labels ∷ [])
    plain F A legend []
    plain F A ylim (whole (pos 0) ∷ real (decimal 15 2) ∷ [])
    plain F A savefig (text (title' <> "Acks.png") ∷ [])
    plain F A close []
    let bar_width = decimal 25 2
    call F A bar (array (minus x bar_width) ∷ reals pages.l1_miss_page ∷ real bar_width ∷ [])
        (("label", text "L1") ∷ [])
    call F A bar (array x ∷ reals pages.l2_miss_page ∷ real bar_width ∷ [])
        (("label", text "L2") ∷ [])
    call F A bar (array (plus x bar_width) ∷ reals pages.l3_miss_page ∷ real bar_width ∷ [])
        (("label", text "L3") ∷ [])
    plain F A xlabel (text x_label ∷ [])
    plain F A ylabel (text "Misses per page" ∷ [])
    plain F A title (text (title' <> "L1-L2-L3-miss") ∷ [])
    plain F A xticks (array x ∷ texts x_labels ∷ [])
    plain F A legend []
    plain F A ylim (whole (pos 0) ∷ real (decimal 10 1) ∷ [])
    plain F A savefig (text (title' <> "L1-L2-L3-miss.png") ∷ [])
    plain F A close []

  unfoldable pub plot_iommu_misses_stats :
      List Table → List String → String → String → Statement (Calls F A)
  plot_iommu_misses_stats = plot_misses "Acks"

module _ (F : Floats) (A : Arrays F) (bars_of : Bars F A) where
  open F use {Float, add, div, mul, decimal, format_fixed}
  open A use {Table, arange, times, plus, minus}

  -- the text over one bar, and over each bar
  unfoldable pub add_label : List Float → Rectangle F A → Statement (Calls F A)
  add_label heights r = do
    m ← max F heights
    call F A text_at
        (real (add r.x (div r.width (nat F 2)))
          ∷ real (add r.height (mul (decimal 2 2) m))
          ∷ text (format_fixed 1 r.height)
          ∷ [])
        (("ha", text "center") ∷ ("va", text "bottom") ∷ ("fontsize", whole (pos 12)) ∷ [])

  unfoldable pub add_labels : List Float → List (Rectangle F A) → Statement (Calls F A)
  add_labels heights bars = for bars (add_label heights)

  unfoldable pub plot_bars3 :
      List Float
      → List Float
      → List Float
      → List String
      → String
      → String
      → String
      → Statement (Calls F A)
  plot_bars3 off shadow nested x_labels title' xlabel' ylabel' = do
    call F A figure [] (("figsize", reals (nat F 10 ∷ nat F 6 ∷ [])) ∷ [])
    call F A update_params [] (("font.size", whole (pos 12)) ∷ [])
    let bar_width = decimal 38 2
    let gap_factor = decimal 15 1
    let x = times (arange (length x_labels)) gap_factor
    call F A bar (array (minus x bar_width) ∷ reals off ∷ real bar_width ∷ [])
        (("color", text "#0072B2") ∷ ("label", text "Host Strict; Guest Off") ∷ [])
    call F A bar (array x ∷ reals shadow ∷ real bar_width ∷ [])
        (("color", text "#E69F00") ∷ ("label", text "Host Strict; Guest Shadow") ∷ [])
    call F A bar (array (plus x bar_width) ∷ reals nested ∷ real bar_width ∷ [])
        (("color", text "#009E73") ∷ ("label", text "Host Strict; Guest Nested") ∷ [])
    plain F A xlabel (text xlabel' ∷ [])
    plain F A ylabel (text ylabel' ∷ [])
    plain F A title (text title' ∷ [])
    plain F A xticks (array x ∷ texts x_labels ∷ [])
    call F A grid []
        (("axis", text "y") ∷ ("linestyle", text "--") ∷ ("alpha", real (decimal 7 1)) ∷ [])
    call F A legend [] (
        ("loc", text "upper center")
        ∷ ("bbox_to_anchor", reals (decimal 5 1 ∷ negative F (decimal 15 2) ∷ []))
        ∷ ("ncol", whole (pos 2))
        ∷ [])
    add_labels (off ++ shadow ++ nested) (bars_of (minus x bar_width) off bar_width)
    add_labels (off ++ shadow ++ nested) (bars_of x shadow bar_width)
    add_labels (off ++ shadow ++ nested) (bars_of (plus x bar_width) nested bar_width)
    call F A tight_layout []
        (("rect", reals (nat F 0 ∷ nat F 0 ∷ nat F 1 ∷ decimal 95 2 ∷ [])) ∷ [])
    call F A savefig (text (title' <> ".png") ∷ []) (("bbox_inches", text "tight") ∷ [])
    plain F A close []

  -- `plot_bars3` of one column of the three tables
  unfoldable pub plot_column :
      String
      → List Table
      → List Table
      → List Table
      → List String
      → String
      → String
      → String
      → Statement (Calls F A)
  plot_column name off shadow nested x_labels title' xlabel' ylabel' = do
    o ← column F A name off
    s ← column F A name shadow
    n ← column F A name nested
    plot_bars3 o s n x_labels title' xlabel' ylabel'

  unfoldable pub plot_all_subplots :
      List Table → List Table → List Table → List String → String → String → Statement (Calls F A)
  plot_all_subplots off shadow nested x_labels title_key xlabel' = do
    plot_column "net_tput_mean" off shadow nested x_labels (title_key <> "-tput") xlabel'
        "Throughput (Gbps)"
    plot_column "cpu_utils_mean" off shadow nested x_labels (title_key <> "-cpu-util") xlabel'
        "% CPU Utilization"
    plot_column "retx_rate_mean" off shadow nested x_labels (title_key <> "-drop-rate") xlabel'
        "Drop rate"
    plot_iommu_misses_stats F A off x_labels (title_key <> "-host-strict-guest-off-misses") xlabel'
    plot_iommu_misses_stats F A shadow x_labels (title_key <> "-host-strict-guest-shadow-misses")
        xlabel'
    plot_iommu_misses_stats F A nested x_labels (title_key <> "-host-strict-guest-nested-misses")
        xlabel'

  unfoldable pub plot_flows_exp : Statement (Calls F A)
  plot_flows_exp = do
    off ←
        get_data F A "2025-09-08-02-07-12-6.12.9-iommufd-" "host-strict-guest-off" flow_labels
          "-ringbuf-512_sokcetbuf1_20cores"
    shadow ←
        get_data F A "2025-09-08-01-37-40-6.12.9-iommufd-" "host-strict-guest-on-shadow" flow_labels
          "-ringbuf-512_sokcetbuf1_20cores"
    nested ←
        get_data F A "2025-09-08-02-39-18-6.12.9-iommufd-" "host-strict-guest-on-nested" flow_labels
          "-ringbuf-512_sokcetbuf1_20cores"
    plot_all_subplots off shadow nested flow_labels "Emerald-Rapids-CX7-6.12.9-iommufd"
        "Number of Flows"

  unfoldable pub plot_ring_buf_exp : Statement (Calls F A)
  plot_ring_buf_exp = do
    off ← get_data_ring F A "" "host-strict-guest-off"
    shadow ← get_data_ring F A "" "host-strict-guest-shadow"
    nested ← get_data_ring F A "" "host-strict-guest-nested"
    plot_all_subplots off shadow nested ring_labels "6.12.9-ring-buffer" "Ring Buffer Size"
