-- ===== src/Virt3/Collected.antt =====
-- plots/plot_3virt.py on the reports that scripts/collect-tput-stats.py and its variants save.
use fast_and_safe_io_memory.Base.{String, ◌<>◌, List, [], ◌∷◌, ◌≡◌, refl, ap, ◌∙◌, All}
use fast_and_safe_io_memory.Python.Exception
use fast_and_safe_io_memory.Python.Exception.{Result, ok, value_error, traverse, ◌>>=◌}
use fast_and_safe_io_memory.Python.Text.{member}
use fast_and_safe_io_memory.Python.Floats.{Floats}
use fast_and_safe_io_memory.Python.Arrays.{Arrays, HasColumns}
use fast_and_safe_io_memory.Python.Arrays.Reading.{column-ok, reports_cons-All}
use fast_and_safe_io_memory.Python.Statement.{raise}
use fast_and_safe_io_memory.Python.Drawing.{Bars, HaveHeights}
use fast_and_safe_io_memory.Python.Drawing.Charts.{only, view, outcome}
use fast_and_safe_io_memory.Collect.Outcome.{columns, names}
use fast_and_safe_io_memory.Virt3.{get_data, flow_labels, report_path, flow_folder}
use fast_and_safe_io_memory.Virt3.Draw.{plot_flows_exp}
use fast_and_safe_io_memory.Virt3.Plans.{chart3}
use fast_and_safe_io_memory.Virt3.Plans.Misses.{rates_of, misses_plan}
use fast_and_safe_io_memory.Virt3.Saved.{column_plan, all_plan, flows_plan, experiments-Follows}

module _ (F : Floats) (A : Arrays F) where
  open A use {Table, genfromtxt}

  rates_of-raise :
      (t : Table) → HasColumns F A columns t → rates_of F A t ≡ Exception.raise value_error
  unfolding rates_of member columns
  rates_of-raise t h =
      let (tp, e) = h.present "net_tput_mean" refl in rw (e, h.absent "iotlb_misses_mean" refl) refl

  pub rates-raise :
      (t : Table) (ts : List Table)
      → HasColumns F A columns t
      → traverse (rates_of F A) (t ∷ ts) ≡ Exception.raise value_error
  unfolding traverse
  rates-raise t ts h = rw (rates_of-raise t h) refl

  -- the charts of the columns, and the exception of the first rate
  all_plan-outcome :
      (t : Table) (off shadow nested : List Table) (key : String)
      → All (HasColumns F A columns) (t ∷ off)
      → All (HasColumns F A columns) shadow
      → All (HasColumns F A columns) nested
      → (names (outcome F A (all_plan F A (t ∷ off) shadow nested key)).0
          ≡ ((key <> "-tput") <> ".png")
            ∷ ((key <> "-cpu-util") <> ".png")
            ∷ ((key <> "-drop-rate") <> ".png")
            ∷ [])
        × ((outcome F A (all_plan F A (t ∷ off) shadow nested key)).1 ≡ raise value_error)
  unfolding all_plan column_plan misses_plan outcome columns member chart3
  all_plan-outcome t off shadow nested key ho hs hn =
      let (o1, e1) = column-ok F A columns "net_tput_mean" (t ∷ off) refl ho in
      let (o2, e2) = column-ok F A columns "cpu_utils_mean" (t ∷ off) refl ho in
      let (o3, e3) = column-ok F A columns "retx_rate_mean" (t ∷ off) refl ho in
      let (s1, f1) = column-ok F A columns "net_tput_mean" shadow refl hs in
      let (s2, f2) = column-ok F A columns "cpu_utils_mean" shadow refl hs in
      let (s3, f3) = column-ok F A columns "retx_rate_mean" shadow refl hs in
      let (n1, g1) = column-ok F A columns "net_tput_mean" nested refl hn in
      let (n2, g2) = column-ok F A columns "cpu_utils_mean" nested refl hn in
      let (n3, g3) = column-ok F A columns "retx_rate_mean" nested refl hn in
      rw (e1, e2, e3, f1, f2, f3, g1, g2, g3, rates-raise t off ho.0) (refl, refl)

  -- the tables of one kind, which are not none
  get_data-All :
      ((path : String) → (t : Table) × (genfromtxt path ≡ ok t) × HasColumns F A columns t)
      → (prefix iommu_str suffix : String)
      → (t : Table) × (ts : List Table) × (get_data F A prefix iommu_str flow_labels suffix
          ≡ ok (t ∷ ts))
        × All (HasColumns F A columns) (t ∷ ts)
  unfolding get_data
  get_data-All reports prefix iommu_str suffix =
      reports_cons-All F A columns reports
        (λ f. report_path (flow_folder prefix iommu_str suffix f)) "20"
        ("40" ∷ "60" ∷ "80" ∷ "160" ∷ [])

-- Where the rectangles of a bar chart are as high as its heights and every report is a table with the
-- 28 columns that scripts/collect-tput-stats.py saves: the experiment on the number of flows, which
-- starts with no figure, saves the charts of the throughputs, the CPU utilisations and the
-- retransmission rates, no chart of the rates per page, and ends with a ValueError.
pub plot_flows_exp-collected :
    (F : Floats) (A : Arrays F) (bars_of : Bars F A)
    → HaveHeights F A bars_of
    → ((path : String) → (t : A.Table) × (A.genfromtxt path ≡ ok t) × HasColumns F A columns t)
    → (names (view F A (plot_flows_exp F A bars_of []).0 (only F A [])).saved
        ≡ "Emerald-Rapids-CX7-6.12.9-iommufd-tput.png"
          ∷ "Emerald-Rapids-CX7-6.12.9-iommufd-cpu-util.png"
          ∷ "Emerald-Rapids-CX7-6.12.9-iommufd-drop-rate.png" ∷ [])
      × ((plot_flows_exp F A bars_of []).1 ≡ raise value_error)
unfolding flows_plan view
plot_flows_exp-collected F A bars_of same reports =
    let follows = (experiments-Follows F A bars_of same).0 in
    let (o, off, eo, ho) =
      get_data-All F A reports "2025-09-08-02-07-12-6.12.9-iommufd-" "host-strict-guest-off"
        "-ringbuf-512_sokcetbuf1_20cores" in
    let (s, shadow, es, hs) =
      get_data-All F A reports "2025-09-08-01-37-40-6.12.9-iommufd-" "host-strict-guest-on-shadow"
        "-ringbuf-512_sokcetbuf1_20cores" in
    let (n, nested, en, hn) =
      get_data-All F A reports "2025-09-08-02-39-18-6.12.9-iommufd-" "host-strict-guest-on-nested"
        "-ringbuf-512_sokcetbuf1_20cores" in
    let charts =
      all_plan-outcome F A o off (s ∷ shadow) (n ∷ nested) "Emerald-Rapids-CX7-6.12.9-iommufd" ho hs
        hn in
    let same_plan : flows_plan F A
        ≡ all_plan F A (o ∷ off) (s ∷ shadow) (n ∷ nested) "Emerald-Rapids-CX7-6.12.9-iommufd" =
      rw (eo, es, en) refl in
    (
      ap (λ v. names v.saved) (follows.charts [] [] refl)
          ∙ ap (λ p. names (outcome F A p).0) same_plan
          ∙ charts.0,
      follows.flow [] ∙ ap (λ p. (outcome F A p).1) same_plan ∙ charts.1,
    )
