-- ===== src/Metrics/Printed.antt =====
-- scripts/report-tput-metrics.py: what the whole report of an experiment prints.
use fast_and_safe_io_memory.Base.{
  ℕ, String, ◌<>◌, Option, none, some, List, [], ◌∷◌, ◌++◌, map, append-nil, flat_map, ◌≡◌, refl,
  ◌∙◌, Bool-cases, inl, inr, if◌then◌else◌,
}
use fast_and_safe_io_memory.Python.Exception
use fast_and_safe_io_memory.Python.Exception.{Result, ok, system_exit}
use fast_and_safe_io_memory.Python.Text.{member}
use fast_and_safe_io_memory.Python.Text.Path.{join_path, lower}
use fast_and_safe_io_memory.Python.Text.Strip.{split_on}
use fast_and_safe_io_memory.Python.Floats.{Floats}
use fast_and_safe_io_memory.Python.Arrays.{Arrays, HasColumns}
use fast_and_safe_io_memory.Python.Statement.{Statement, Files, next, raise, range_from, ◌>>◌}
use fast_and_safe_io_memory.Collect.Outcome.{columns}
use fast_and_safe_io_memory.Metrics.{Output, Values, per_page}
use fast_and_safe_io_memory.Metrics.Read.{read_values, run_path, last_tput}
use fast_and_safe_io_memory.Metrics.Ebpf.{
  Pandas, with_ebpf_stats, with_tput, print_stats, run_stats, get_ebpf_stats,
}
use fast_and_safe_io_memory.Metrics.Main.{main}
use fast_and_safe_io_memory.Metrics.Prints.{Prints, >>-Prints, for-Prints}
use fast_and_safe_io_memory.Metrics.Lines.{
  mean_lines, stddev_lines, means-Prints, stddevs-Prints, no_stddevs-Prints,
}

-- What is printed of a run without eBPF statistics: a throughput report is read to its last word.
module _ (F : Floats) where
  open F use {Float, show}

  abbrev pub tput_line : Result Float → List String
  tput_line (Exception.raise e) = []
  tput_line (ok x) = ("Tput: " <> show x) ∷ []

  abbrev pub report_lines : Option (List String) → List String
  report_lines none = []
  report_lines (some ls) = tput_line (last_tput F ls)

  abbrev pub run_lines : Files → String → ℕ → List String
  run_lines files exp_name i = report_lines (files (run_path exp_name i "iperf.bw.rpt"))

  -- no report, or one that ends in a number
  abbrev pub IsReadable : Option (List String) → Type 0
  IsReadable r = (ls : List String) → r ≡ some ls → (x : Float) × (last_tput F ls ≡ ok x)

  tput-Prints :
      (P : Pandas F) (files : Files) (exp_name : String) (i : ℕ) (r : Option (List String))
      → files (run_path exp_name i "iperf.bw.rpt") ≡ r
      → IsReadable r
      → Prints
          (with_tput F P files exp_name i λ t. print_stats F P files exp_name none t)
          (report_lines r)
          next
  unfolding with_tput print_stats ◌>>◌
  tput-Prints P files exp_name i none e h out = rw (with_tput, e, append-nil out) refl
  tput-Prints P files exp_name i (some ls) e h out = rw (with_tput, e, (h ls refl).1) refl

  no_ebpf :
      (P : Pandas F) (files : Files) (exp_name : String) (i : ℕ)
      (rest : Option P.Frame → Statement Output) (out : Output)
      → files (run_path exp_name i "ebpf_guest_stats.csv") ≡ none
      → with_ebpf_stats F P files exp_name i rest out ≡ rest none out
  unfolding with_ebpf_stats
  no_ebpf P files exp_name i rest out h = rw (with_ebpf_stats, h) refl

  runs-Prints :
      (P : Pandas F) (files : Files) (exp_name : String)
      → ((i : ℕ) → files (run_path exp_name i "ebpf_guest_stats.csv") ≡ none)
      → ((i : ℕ) → IsReadable (files (run_path exp_name i "iperf.bw.rpt")))
      → Prints
          (get_ebpf_stats F P files exp_name)
          (flat_map (run_lines files exp_name) (range_from 0 20))
          next
  unfolding get_ebpf_stats run_stats
  runs-Prints P files exp_name no_stats readable =
      for-Prints (run_stats F P files exp_name) (run_lines files exp_name) each (range_from 0 20)
    where
      each : (i : ℕ) → Prints (run_stats F P files exp_name i) (run_lines files exp_name i) next
      each i out =
          no_ebpf P files exp_name i _ out (no_stats i)
          ∙ tput-Prints P files exp_name i _ refl (readable i) out

module _ (F : Floats) (A : Arrays F) where
  open F use {Float}

  -- what a table with the columns gives: the ten values, the two of the memory and the four deviations
  abbrev pub HasValues : A.Table → Values F A → (mean largest d c r s : Float) → Type 0
  HasValues t v mean largest d c r s =
      (read_values F A t ≡ ok v)
      × (A.field "mem_mean" t ≡ ok mean)
      × (A.field "mem_max" t ≡ ok largest)
      × (A.field "net_tput_stddev" t ≡ ok d)
      × (A.field "cpu_utils_stddev" t ≡ ok c)
      × (A.field "retx_rate_stddev" t ≡ ok r)
      × (A.field "sent_packets_stddev" t ≡ ok s)

  table-HasValues :
      (t : A.Table)
      → HasColumns F A columns t
      → (v : Values F A) × (mean largest d c r s : Float) × HasValues t v mean largest d c r s
  unfolding read_values columns member
  table-HasValues t h =
      let (a, ea) = h.present "net_tput_mean" refl in
      let (b, eb) = h.present "sent_packets_mean" refl in
      let (x, ex) = h.present "retx_rate_mean" refl in
      let (e, ee) = h.present "cpu_utils_mean" refl in
      let (f, ef) = h.present "pwt_occupancy_mean" refl in
      let (g, eg) = h.present "iotlb_miss_mean" refl in
      let (i, ei) = h.present "iotlb_first_lookup_mean" refl in
      let (j, ej) = h.present "iotlb_all_lookup_mean" refl in
      let (k, ek) = h.present "iommu_mem_access_mean" refl in
      let (l, el) = h.present "iotlb_inv_mean" refl in
      let (mean, em) = h.present "mem_mean" refl in
      let (largest, en) = h.present "mem_max" refl in
      let (d, ed) = h.present "net_tput_stddev" refl in
      let (c, ec) = h.present "cpu_utils_stddev" refl in
      let (r, er) = h.present "retx_rate_stddev" refl in
      let (s, es) = h.present "sent_packets_stddev" refl in
      let read : (v : Values F A) × (read_values F A t ≡ ok v) =
        rw (ea, eb, ex, ee, ef, eg, ei, ej, ek, el) (_, refl) in
      (read.0, mean, largest, d, c, r, s, (read.1, em, en, ed, ec, er, es))

-- What the script prints and how it ends, in the values of a table: the chosen means, the throughputs
-- of the runs and the chosen deviations; where the deviation of the throughput is zero, a blank line in
-- place of the deviations, and sys.exit.
abbrev pub IsReported :
    (F : Floats) (A : Arrays F)
    → Pandas F
    → Files
    → (exp_name metrics_arg : String) → A.Table
    → Type 0
IsReported F A P files exp_name metrics_arg t =
    (v : Values F A) × (mean largest d c r s : F.Float) × HasValues F A t v mean largest d c r s
    × (let metrics = map lower (split_on b',' metrics_arg) in
        let means = mean_lines F A exp_name metrics v mean largest in
        let runs = flat_map (run_lines F files exp_name) (range_from 0 20) in
        let acks = per_page F A s v.tput in
        main F A P files exp_name metrics_arg [] ≡ (
          if F.is_zero d
          then (means ++ (runs ++ ("" ∷ [])), raise system_exit)
          else (means ++ (runs ++ stddev_lines F A exp_name metrics d c r acks), next)))

-- Where the report is a table with the 28 columns that the collectors save, no run has eBPF statistics
-- and each throughput report of a run ends in a number, the script prints the chosen means, the
-- throughputs of the runs and the chosen deviations, all read of the table and the reports; where the
-- deviation of the throughput is zero it prints a blank line in place of the deviations and exits.
pub main-lines :
    (F : Floats) (A : Arrays F) (P : Pandas F) (files : Files) (exp_name metrics_arg : String)
    (t : A.Table)
    → A.genfromtxt (join_path (join_path "../utils/reports/" exp_name) "tput_metrics.dat") ≡ ok t
    → HasColumns F A columns t
    → ((i : ℕ) → files (run_path exp_name i "ebpf_guest_stats.csv") ≡ none)
    → ((i : ℕ) → IsReadable F (files (run_path exp_name i "iperf.bw.rpt")))
    → IsReported F A P files exp_name metrics_arg t
unfolding main
main-lines F A P files exp_name metrics_arg t report h no_stats readable =
    let metrics = map lower (split_on b',' metrics_arg) in
    let (v, mean, largest, d, c, r, s, has_values) = table-HasValues F A t h in
    let (ev, em, el, ed, ec, er, es) = has_values in
    let means = means-Prints F A exp_name metrics t v mean largest em el in
    let runs = runs-Prints F P files exp_name no_stats readable in
    (
      v,
      mean,
      largest,
      d,
      c,
      r,
      s,
      has_values,
      rw (report, ev)
          (elim (Bool-cases (F.is_zero d)) [
            | inl e ↦ rw (e) (
                >>-Prints _ _ means
                  (>>-Prints _ _ runs (no_stddevs-Prints F A exp_name metrics t v.tput d ed e)) [])
            | inr e ↦ rw (e) (
                >>-Prints _ _ means
                  (>>-Prints _ _ runs
                    (stddevs-Prints F A exp_name metrics t v.tput d c r s ed ec er es e))
                  [])
          ]),
    )
