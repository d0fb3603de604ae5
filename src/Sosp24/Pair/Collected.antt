-- ===== src/Sosp24/Pair/Collected.antt =====
-- scripts/sosp24-experiments/plot.py on the reports that the collectors save.
use fast_and_safe_io_memory.Base.{String, ◌<>◌, List, [], ◌∷◌, ◌≡◌, refl, ap, ◌∙◌, All}
use fast_and_safe_io_memory.Python.Exception.{ok, value_error}
use fast_and_safe_io_memory.Python.Text.{member}
use fast_and_safe_io_memory.Python.Floats.{Floats}
use fast_and_safe_io_memory.Python.Arrays.{Arrays, HasColumns}
use fast_and_safe_io_memory.Python.Arrays.Reading.{column-ok, reports_cons-All}
use fast_and_safe_io_memory.Python.Statement.{raise}
use fast_and_safe_io_memory.Python.Drawing.Charts.{only, view, outcome}
use fast_and_safe_io_memory.Collect.Outcome.{columns, names}
use fast_and_safe_io_memory.Virt3.Plans.Misses.{misses_plan}
use fast_and_safe_io_memory.Virt3.Collected.{rates-raise}
use fast_and_safe_io_memory.Sosp24.{report_path}
use fast_and_safe_io_memory.Sosp24.Pair.{ring_folder, get_data_ring, plot_ring_buf_exp}
use fast_and_safe_io_memory.Sosp24.Pair.Saved.{
  pair_chart, column_plan, all_plan, ring_plan, experiments_pair-Follows,
}

module _ (F : Floats) (A : Arrays F) where
  open A use {Table}

  all_plan-outcome :
      (t : Table) (off on : List Table) (key : String)
      → All (HasColumns F A columns) off
      → All (HasColumns F A columns) (t ∷ on)
      → (names (outcome F A (all_plan F A off (t ∷ on) key)).0
          ≡ ((key <> "-tput") <> ".png") ∷ ((key <> "drop-rate") <> ".png") ∷ [])
        × ((outcome F A (all_plan F A off (t ∷ on) key)).1 ≡ raise value_error)
  unfolding all_plan column_plan misses_plan outcome columns member pair_chart
  all_plan-outcome t off on key ho hn =
      let (a, ea) = column-ok F A columns "net_tput_mean" off refl ho in
      let (b, eb) = column-ok F A columns "retx_rate_mean" off refl ho in
      let (c, ec) = column-ok F A columns "net_tput_mean" (t ∷ on) refl hn in
      let (d, ed) = column-ok F A columns "retx_rate_mean" (t ∷ on) refl hn in
      rw (ea, eb, ec, ed, rates-raise F A t on hn.0) (refl, refl)

-- Where every report is a table with the 28 columns that scripts/collect-tput-stats.py saves: the script,
-- which starts with no figure, saves the charts of the throughputs and of the retransmission rates, no
-- chart of the rates per page, and ends with a ValueError.
pub plot_ring_buf_exp-collected :
    (F : Floats) (A : Arrays F)
    → ((path : String) → (t : A.Table) × (A.genfromtxt path ≡ ok t) × HasColumns F A columns t)
    → (names (view F A (plot_ring_buf_exp F A []).0 (only F A [])).saved
        ≡ "Emerald-Rapids-CX7-6.12.9-iommufd-tput.png"
          ∷ "Emerald-Rapids-CX7-6.12.9-iommufddrop-rate.png" ∷ [])
      × ((plot_ring_buf_exp F A []).1 ≡ raise value_error)
unfolding ring_plan view get_data_ring
plot_ring_buf_exp-collected F A reports =
    let follows = (experiments_pair-Follows F A).0 in
    let read = λ (prefix iommu_str : String).
      reports_cons-All F A columns reports
        (λ x. report_path (ring_folder prefix iommu_str "_sokcetbuf1_20cores" x)) "512"
        ("1024" ∷ "2048" ∷ "4096" ∷ []) in
    let (o, off, eo, ho) = read "2025-09-07-14-00-41-6.12.9-iommufd-flow20-" "iommu-off" in
    let (n, on, en, hn) = read "2025-09-07-16-01-17-6.12.9-iommufd-flow20-" "iommu-on" in
    let charts = all_plan-outcome F A n (o ∷ off) on "Emerald-Rapids-CX7-6.12.9-iommufd" ho hn in
    let plan : ring_plan F A ≡ all_plan F A (o ∷ off) (n ∷ on) "Emerald-Rapids-CX7-6.12.9-iommufd" =
      rw (eo, en) refl in
    (
      ap (λ v. names v.saved) (follows.charts [] [] refl)
          ∙ ap (λ p. names (outcome F A p).0) plan
          ∙ charts.0,
      follows.flow [] ∙ ap (λ p. (outcome F A p).1) plan ∙ charts.1,
    )
