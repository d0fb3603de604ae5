-- ===== src/Sosp24/Pair/Saved.antt =====
-- scripts/sosp24-experiments/plot.py: what the two complete experiments save.
use fast_and_safe_io_memory.Base.{String, ◌<>◌, List, [], ◌∷◌, ◌++◌, refl}
use fast_and_safe_io_memory.Python.Exception.{Result, ok}
use fast_and_safe_io_memory.Python.Floats.{Floats}
use fast_and_safe_io_memory.Python.Arrays.{Arrays, column}
use fast_and_safe_io_memory.Python.Statement.{◌>>◌, ◌>>=◌}
use fast_and_safe_io_memory.Python.Drawing.{call, plain}
use fast_and_safe_io_memory.Python.Drawing.Charts.{
  Chart, Plan, see, view-append, outcome, planned, Follows, Follows-bind, Follows-part, Follows-seq,
}
use fast_and_safe_io_memory.Virt3.Plans.Misses.{misses_plan, misses-Follows}
use fast_and_safe_io_memory.Sosp24.Pair.{
  get_data, get_data_ring, plot_pair, plot_tput, plot_drop_rate, plot_iommu_misses_stats,
  plot_all_subplots, plot_tput_f_and_s, plot_ring_buf_exp,
}

module _ (F : Floats) (A : Arrays F) where
  open F use {Float}
  open A use {Table}

  unfoldable pub pair_chart : String → List Float → List Float → Chart F
  pair_chart title off on = (title <> ".png", record { bars = off ∷ on ∷ []; labels = [] })

  unfoldable pub column_plan : String → List Table → List Table → String → Plan F A
  column_plan name off on title =
      planned F A (column F A name off)
        λ o. planned F A (column F A name on) λ n. ok (pair_chart title o n) ∷ []

  -- a chart of the throughputs, one of the retransmission rates, and the rates per page with the IOMMU
  unfoldable pub all_plan : List Table → List Table → String → Plan F A
  all_plan off on key =
      column_plan "net_tput_mean" off on (key <> "-tput")
      ++ (column_plan "retx_rate_mean" off on (key <> "drop-rate")
          ++ misses_plan F A (key <> "-misses") on)

  unfoldable pub flows_plan : Plan F A
  flows_plan =
      planned F A
        (get_data F A "2025-09-07-13-42-13-6.12.9-iommufd-" "iommu-off"
          "-ringbuf-512_sokcetbuf1_20cores")
        λ off.
          planned F A
            (get_data F A "2025-09-07-15-42-14-6.12.9-iommufd-" "iommu-on"
              "-ringbuf-512_sokcetbuf1_20cores")
            λ on. all_plan off on "Emerald-Rapids-CX7-6.12.9-iommufd"

  unfoldable pub ring_plan : Plan F A
  ring_plan =
      planned F A
        (get_data_ring F A "2025-09-07-14-00-41-6.12.9-iommufd-flow20-" "iommu-off"
          ("512" ∷ "1024" ∷ "2048" ∷ "4096" ∷ []) "_sokcetbuf1_20cores")
        λ off.
          planned F A
            (get_data_ring F A "2025-09-07-16-01-17-6.12.9-iommufd-flow20-" "iommu-on"
              ("512" ∷ "1024" ∷ "2048" ∷ "4096" ∷ []) "_sokcetbuf1_20cores")
            λ on. all_plan off on "Emerald-Rapids-CX7-6.12.9-iommufd"

  plot_pair-Follows :
      (off_label on_label ylabel : String) (off on : List Float) (ticks : List String)
      (title xlabel : String)
      → Follows F A
          (plot_pair F A off_label on_label ylabel off on ticks title xlabel)
          (ok (pair_chart title off on) ∷ [])
  unfolding plot_pair plain call ◌>>◌ outcome pair_chart see
  plot_pair-Follows off_label on_label ylabel off on ticks title xlabel = record {
    charts = λ calls cs e. simp (view-append F A, e);
    flow = λ calls. refl;
  }

  all-Follows :
      (off on : List Table) (ticks : List String) (xlabel key : String)
      → Follows F A (plot_all_subplots F A off on ticks xlabel key) (all_plan off on key)
  unfolding plot_all_subplots plot_tput plot_drop_rate plot_iommu_misses_stats all_plan column_plan
  all-Follows off on ticks xlabel key = Follows-part F A (column F A "net_tput_mean" off) _ _ _ λ a.
      Follows-part F A (column F A "net_tput_mean" on) _ _ _ λ b.
        Follows-seq F A _ _ (ok (pair_chart (key <> "-tput") a b) ∷ []) _
          (plot_pair-Follows _ _ _ a b ticks _ xlabel)
          (Follows-part F A (column F A "retx_rate_mean" off) _ _ _ λ c.
            Follows-part F A (column F A "retx_rate_mean" on) _ _ _ λ d.
              Follows-seq F A _ _ (ok (pair_chart (key <> "drop-rate") c d) ∷ []) _
                (plot_pair-Follows _ _ _ c d ticks _ xlabel)
                (misses-Follows F A "ACKs per page" on ticks _ xlabel))

  two_lists-Follows :
      (off on : Result (List Table)) (ticks : List String) (xlabel key : String)
      → Follows F A
          (off >>= λ o. on >>= λ n. plot_all_subplots F A o n ticks xlabel key)
          (planned F A off λ o. planned F A on λ n. all_plan o n key)
  two_lists-Follows off on ticks xlabel key =
      Follows-bind F A off _ _ λ o. Follows-bind F A on _ _ λ n. all-Follows o n ticks xlabel key

  -- The two experiments that the script defines in full save the charts of their plans in order, up to
  -- the first exception that reading a report or a field raises, and end with that exception, or with
  -- none. A plan has the charts of the throughputs and of the retransmission rates without and with
  -- the IOMMU, and the three charts of the rates per page with it.
  pub experiments_pair-Follows :
      Follows F A (plot_ring_buf_exp F A) ring_plan × Follows F A (plot_tput_f_and_s F A) flows_plan
  unfolding plot_ring_buf_exp plot_tput_f_and_s ring_plan flows_plan
  experiments_pair-Follows = (
    two_lists-Follows
        (get_data_ring F A "2025-09-07-14-00-41-6.12.9-iommufd-flow20-" "iommu-off"
          ("512" ∷ "1024" ∷ "2048" ∷ "4096" ∷ []) "_sokcetbuf1_20cores")
        (get_data_ring F A "2025-09-07-16-01-17-6.12.9-iommufd-flow20-" "iommu-on"
          ("512" ∷ "1024" ∷ "2048" ∷ "4096" ∷ []) "_sokcetbuf1_20cores")
        _ _ _,
    two_lists-Follows
        (get_data F A "2025-09-07-13-42-13-6.12.9-iommufd-" "iommu-off"
          "-ringbuf-512_sokcetbuf1_20cores")
        (get_data F A "2025-09-07-15-42-14-6.12.9-iommufd-" "iommu-on"
          "-ringbuf-512_sokcetbuf1_20cores")
        _ _ _,
  )
