-- ===== src/Sosp24/Pair.antt =====
-- scripts/sosp24-experiments/plot.py: a guest without an IOMMU and one with it. Its misses_per_page and
-- get_misses_per_page are those of plots/plot_3virt.py word for word, and so is the function that
-- draws the rates but for one title.
pub mod Saved
pub mod Collected
pub mod Throughput
use fast_and_safe_io_memory.Base.{String, ◌<>◌, List, [], ◌∷◌, length}
use fast_and_safe_io_memory.Python.Exception.{Result, traverse}
use fast_and_safe_io_memory.Python.Floats.{Floats, nat}
use fast_and_safe_io_memory.Python.Arrays.{Arrays, column}
use fast_and_safe_io_memory.Python.Statement.{Statement, ◌>>◌, ◌>>=◌}
use fast_and_safe_io_memory.Python.Drawing.{
  real, text, array, reals, texts, bar, xlabel, ylabel, title, xticks, legend, savefig, close,
  Calls, call, plain,
}
use fast_and_safe_io_memory.Virt3.Draw.{plot_misses}
use fast_and_safe_io_memory.Sosp24.{report_path, flow_folder}

unfoldable pub ring_folder : String → String → String → String → String
ring_folder prefix iommu_str suffix x = prefix <> iommu_str <> "-ringbuf-" <> x <> suffix

module _ (F : Floats) (A : Arrays F) where
  open F use {Float, div, decimal}
  open A use {Table, genfromtxt, arange, plus, minus}

  abbrev pub parse_results : String → Result Table
  parse_results path = genfromtxt path

  unfoldable pub get_data : String → String → String → Result (List Table)
  get_data prefix iommu_str suffix =
      traverse (λ f. parse_results (report_path (flow_folder prefix iommu_str suffix f)))
        ("20" ∷ "40" ∷ "60" ∷ "160" ∷ [])

  unfoldable pub get_data_ring : String → String → List String → String → Result (List Table)
  get_data_ring prefix iommu_str x_labels suffix =
      traverse (λ x. parse_results (report_path (ring_folder prefix iommu_str suffix x))) x_labels

  -- two bars for each position, with these labels and this name beside them
  unfoldable pub plot_pair :
      String
      → String
      → String
      → List Float
      → List Float
      → List String
      → String
      → String
      → Statement (Calls F A)
  plot_pair off_label on_label ylabel' iommu_off_data iommu_on_data x_ticks title' x_label = do
    let bar_width = decimal 35 2
    let x = arange (length x_ticks)
    call F A bar
        (array (minus x (div bar_width (nat F 2))) ∷ reals iommu_off_data ∷ real bar_width ∷ [])
        (("label", text off_label) ∷ [])
    call F A bar
        (array (plus x (div bar_width (nat F 2))) ∷ reals iommu_on_data ∷ real bar_width ∷ [])
        (("label", text on_label) ∷ [])
    plain F A xlabel (text x_label ∷ [])
    plain F A ylabel (text ylabel' ∷ [])
    plain F A title (text title' ∷ [])
    plain F A xticks (array x ∷ texts x_ticks ∷ [])
    plain F A legend []
    plain F A savefig (text (title' <> ".png") ∷ [])
    plain F A close []

  unfoldable pub plot_tput :
      List Float → List Float → List String → String → String → Statement (Calls F A)
  plot_tput = plot_pair "Guest IOMMU off" "Guest IOMMU on" "Throughput (Gbps)"

  unfoldable pub plot_drop_rate :
      List Float → List Float → List String → String → String → Statement (Calls F A)
  plot_drop_rate = plot_pair "IOMMU off" "IOMMU on" "Drop rate"

  unfoldable pub plot_iommu_misses_stats :
      List Table → List String → String → String → Statement (Calls F A)
  plot_iommu_misses_stats = plot_misses F A "ACKs per page"

  unfoldable pub plot_all_subplots :
      List Table → List Table → List String → String → String → Statement (Calls F A)
  plot_all_subplots off on x_ticks x_label title_key = do
    off_tput ← column F A "net_tput_mean" off
    on_tput ← column F A "net_tput_mean" on
    plot_tput off_tput on_tput x_ticks (title_key <> "-tput") x_label
    off_rate ← column F A "retx_rate_mean" off
    on_rate ← column F A "retx_rate_mean" on
    plot_drop_rate off_rate on_rate x_ticks (title_key <> "drop-rate") x_label
    plot_iommu_misses_stats on x_ticks (title_key <> "-misses") x_label

  unfoldable pub plot_tput_f_and_s : Statement (Calls F A)
  plot_tput_f_and_s = do
    off ←
        get_data "2025-09-07-13-42-13-6.12.9-iommufd-" "iommu-off" "-ringbuf-512_sokcetbuf1_20cores"
    on ← get_data "2025-09-07-15-42-14-6.12.9-iommufd-" "iommu-on" "-ringbuf-512_sokcetbuf1_20cores"
    plot_all_subplots off on ("20" ∷ "40" ∷ "60" ∷ "160" ∷ []) "# of flows"
        "Emerald-Rapids-CX7-6.12.9-iommufd"

  unfoldable pub plot_ring_buf_exp : Statement (Calls F A)
  plot_ring_buf_exp = do
    let x_labels = "512" ∷ "1024" ∷ "2048" ∷ "4096" ∷ []
    off ←
        get_data_ring "2025-09-07-14-00-41-6.12.9-iommufd-flow20-" "iommu-off" x_labels
          "_sokcetbuf1_20cores"
    on ←
        get_data_ring "2025-09-07-16-01-17-6.12.9-iommufd-flow20-" "iommu-on" x_labels
          "_sokcetbuf1_20cores"
    plot_all_subplots off on x_labels "Ring buffer size" "Emerald-Rapids-CX7-6.12.9-iommufd"
