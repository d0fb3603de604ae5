-- ===== src/Sosp24/Vm/Collected.antt =====
-- scripts/sosp24-experiments/plot_vm.py on the reports that the collectors save.
use fast_and_safe_io_memory.Base.{String, ◌<>◌, true, List, [], ◌∷◌, ◌≡◌, refl, ap, ◌∙◌, All}
use fast_and_safe_io_memory.Python.Exception.{Result, ok}
use fast_and_safe_io_memory.Python.Text.{member}
use fast_and_safe_io_memory.Python.Floats.{Floats}
use fast_and_safe_io_memory.Python.Arrays.{Arrays, HasColumns}
use fast_and_safe_io_memory.Python.Arrays.Reading.{column-ok, reports-All}
use fast_and_safe_io_memory.Python.Statement.{next}
use fast_and_safe_io_memory.Python.Drawing.Charts.{Figure, only, view, outcome}
use fast_and_safe_io_memory.Collect.Outcome.{columns, names}
use fast_and_safe_io_memory.Sosp24.{report_path, flow_folder}
use fast_and_safe_io_memory.Sosp24.Vm.{ring_folder, get_data, get_data_ring, main}
use fast_and_safe_io_memory.Sosp24.Vm.Saved.{
  chart4, column_plan, experiment_plan, main_plan, main-Follows,
}

module _ (F : Floats) (A : Arrays F) where
  open A use {Table, genfromtxt}

  column_plan-ok :
      (name : String) (so ss lo ll : List Table) (title : String)
      → member name columns ≡ true
      → All (HasColumns F A columns) so
      → All (HasColumns F A columns) ss
      → All (HasColumns F A columns) lo
      → All (HasColumns F A columns) ll
      → (g : Figure F) × (column_plan F A name so ss lo ll title ≡ ok (title <> ".png", g) ∷ [])
  unfolding column_plan chart4
  column_plan-ok name so ss lo ll title here h1 h2 h3 h4 =
      let (a, ea) = column-ok F A columns name so here h1 in
      let (b, eb) = column-ok F A columns name ss here h2 in
      let (c, ec) = column-ok F A columns name lo here h3 in
      let (d, ed) = column-ok F A columns name ll here h4 in
      (record { bars = c ∷ a ∷ d ∷ b ∷ []; labels = [] }, rw (ea, eb, ec, ed) refl)

  -- a read that returned tables with the columns
  abbrev IsRead : Result (List Table) → Type 0
  IsRead r = (ts : List Table) × (r ≡ ok ts) × All (HasColumns F A columns) ts

  experiment_plan-ok :
      (so lo ss ll : Result (List Table)) (key : String)
      → IsRead so
      → IsRead lo
      → IsRead ss
      → IsRead ll
      → (g h : Figure F) × (experiment_plan F A so lo ss ll key
          ≡ ok ((key <> "-tput") <> ".png", g) ∷ ok ((key <> "-cpu-util") <> ".png", h) ∷ [])
  unfolding experiment_plan columns member
  experiment_plan-ok so lo ss ll key (a, ea, ha) (b, eb, hb) (c, ec, hc) (d, ed, hd) =
      let (g, eg) = column_plan-ok "net_tput_mean" a c b d (key <> "-tput") refl ha hc hb hd in
      let (h, eh) = column_plan-ok "cpu_utils_mean" a c b d (key <> "-cpu-util") refl ha hc hb hd in
      (g, h, rw (ea, eb, ec, ed) (rw (eg, eh) refl))

-- Where every report is a table with the 28 columns that scripts/collect-tput-stats.py saves: the script,
-- which starts with no figure, saves exactly the charts of the throughputs and of the CPU
-- utilisations of its two experiments, in this order, and raises nothing.
pub main-collected :
    (F : Floats) (A : Arrays F)
    → ((path : String) → (t : A.Table) × (A.genfromtxt path ≡ ok t) × HasColumns F A columns t)
    → (names (view F A (main F A []).0 (only F A [])).saved
        ≡ "6.12.9-ring-buffer-tput.png" ∷ "6.12.9-ring-buffer-cpu-util.png"
          ∷ "6.12.9-flows-tput.png" ∷ "6.12.9-flows-cpu-util.png" ∷ [])
      × ((main F A []).1 ≡ next)
unfolding main_plan outcome view get_data get_data_ring
main-collected F A reports =
    let flows = λ (prefix iommu_str : String).
      reports-All F A columns reports
        (λ f. report_path (flow_folder prefix iommu_str "-ofed24.10" f))
        ("05" ∷ "10" ∷ "20" ∷ "40" ∷ []) in
    let ring = λ (iommu_str : String).
      reports-All F A columns reports (λ x. report_path (ring_folder "6.12.9-vanilla-" iommu_str x))
        ("0256" ∷ "0512" ∷ "1024" ∷ "2048" ∷ []) in
    let (g, h, e) =
      experiment_plan-ok F A _ _ _ _ "6.12.9-ring-buffer" (ring "iommu-on") (ring "iommu-on-lazy")
        (ring "iommu-on-strict-strict") (ring "iommu-on-lazy-lazy") in
    let (i, j, d) =
      experiment_plan-ok F A _ _ _ _ "6.12.9-flows" (flows "10-07_03-03-6.12.9-vanilla-" "iommu-on")
        (flows "11-27_03-03-6.12.9-vanilla-" "iommu-on-lazy")
        (flows "13-20_03-03-6.12.9-vanilla-" "iommu-on-strict-strict")
        (flows "12-25_03-03-6.12.9-vanilla-" "iommu-on-lazy-lazy") in
    let follows = main-Follows F A in
    let plan : main_plan F A
        ≡ ok ("6.12.9-ring-buffer-tput.png", g)
          ∷ ok ("6.12.9-ring-buffer-cpu-util.png", h)
          ∷ ok ("6.12.9-flows-tput.png", i)
          ∷ ok ("6.12.9-flows-cpu-util.png", j)
          ∷ [] =
      rw (e, d) refl in
    (
      ap (λ v. names v.saved) (follows.charts [] [] refl) ∙ ap (λ p. names (outcome F A p).0) plan,
      follows.flow [] ∙ ap (λ p. (outcome F A p).1) plan,
    )
