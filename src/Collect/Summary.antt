-- ===== src/Collect/Summary.antt =====
-- The statistics behind the loop, which the four scripts share, and the row that they save.
use fast_and_safe_io_memory.Base.{ℕ, String, List, [], ◌∷◌, map, ℤ, pos, ltb, ltb_ℤ, if◌then◌else◌}
use fast_and_safe_io_memory.Python.Exception.{Result, ok, raise, ◌>>=◌}
use fast_and_safe_io_memory.Python.Floats.{Floats, mean, stdev}
use fast_and_safe_io_memory.Python.Statement
use fast_and_safe_io_memory.Python.Statement.{Statement, Flow, next, stop, Files}
use fast_and_safe_io_memory.Collect.{
  Metrics, wr_tput, first_lookup, all_lookup, miss, mem_access, inv, pwt_occupancy,
}
use fast_and_safe_io_memory.Collect.Scripts.{
  Script, baremetal, vm, tx, vm_tx, collect_run, vm_run, tx_run, vm_tx_run, all_runs,
}

max_from : ℤ → List ℤ → ℤ
max_from a [] = a
max_from a (x ∷ xs) = max_from (if ltb_ℤ a x then x else a) xs

-- `max_or_zero`: a list of one is too short for a maximum
unfoldable pub max_or_zero : List ℤ → ℤ
unfolding max_from
max_or_zero [] = pos 0
max_or_zero (x ∷ []) = pos 0
max_or_zero (x ∷ y ∷ xs) = max_from x (y ∷ xs)

module _ (F : Floats) where
  open F use {Float, of_int, mean_of, stdev_of}

  unfoldable pub mean_or_zero : List Float → Float
  mean_or_zero [] = of_int (pos 0)
  mean_or_zero (x ∷ xs) = mean_of (x ∷ xs)

  unfoldable pub stdev_or_zero : List Float → Float
  stdev_or_zero [] = of_int (pos 0)
  stdev_or_zero (x ∷ []) = of_int (pos 0)
  stdev_or_zero (x ∷ y ∷ xs) = stdev_of (x ∷ y ∷ xs)

  -- `mlc_tput_mean` and `mlc_tput_stddev`, which only the exceptions of the script show
  unfoldable pub mlc_statistics : ℕ → ℕ → List Float → Result (Float × Float)
  mlc_statistics collect_mlc num_runs mlc_tputs =
      if ltb 0 collect_mlc
      then (do
        m ← mean F mlc_tputs
        if ltb 1 num_runs then (do d ← stdev F mlc_tputs; ok (m, d)) else ok (m, of_int (pos 0)))
      else ok (of_int (pos 0), of_int (pos 0))

  abbrev both : String → String → List Float → List (String × Float) → List (String × Float)
  both m d xs rest = (m, mean_or_zero xs) ∷ (d, stdev_or_zero xs) ∷ rest

  -- `output_list`: each column's name and value
  unfoldable pub output_list : Metrics F → List (String × Float)
  output_list m = both "cpu_utils_mean" "cpu_utils_stddev" m.cpu_utils (
      both "net_tput_mean" "net_tput_stddev" m.net_tputs (
        both "retx_rate_mean" "retx_rate_stddev" m.retx_rates (
          both "mem_bw_mean" "mem_bw_stddev" m.mem_bws (
            both "pcie_wr_tput_mean" "pcie_wr_tput_stddev" (m.pcie wr_tput) (
              both "iotlb_first_lookup_mean" "iotlb_first_lookup_stddev" (m.pcie first_lookup) (
                both "iotlb_all_lookup_mean" "iotlb_all_lookup_stddev" (m.pcie all_lookup) (
                  both "iotlb_miss_mean" "iotlb_miss_stddev" (m.pcie miss) (
                    both "iommu_mem_access_mean" "iommu_mem_access_stddev" (m.pcie mem_access) (
                      both "iotlb_inv_mean" "iotlb_inv_stddev" (m.pcie inv) (
                        both "pwt_occupancy_mean" "pwt_occupancy_stddev" (m.pcie pwt_occupancy) (
                          both "mlc_tput_mean" "mlc_tput_stddev" m.mlc_tputs (
                            both "sent_packets_mean" "sent_packets_stddev" m.sent_packets (
                              ("mem_mean", mean_or_zero (map of_int m.mem_used))
                              ∷ ("mem_max", of_int (max_or_zero m.mem_used))
                              ∷ [])))))))))))))

  -- the script behind its loop: what it saves, or the exception that ends it
  unfoldable pub summarize : ℕ → ℕ → Metrics F × Flow → Result (List (String × Float))
  summarize collect_mlc num_runs (m, next) = do
    mlc ← mlc_statistics collect_mlc num_runs m.mlc_tputs
    ok (output_list m)
  summarize collect_mlc num_runs (m, stop) = do
    mlc ← mlc_statistics collect_mlc num_runs m.mlc_tputs
    ok (output_list m)
  summarize collect_mlc num_runs (m, Statement.raise e) = raise e

  module _ (files : Files) (exp : String) (num_runs collect_mlc : ℕ) where
    unfoldable pub collect_main : Result (List (String × Float))
    collect_main =
        summarize collect_mlc num_runs (all_runs (collect_run F files exp collect_mlc) num_runs)

    unfoldable pub vm_main : Result (List (String × Float))
    vm_main = summarize collect_mlc num_runs (all_runs (vm_run F files exp collect_mlc) num_runs)

    unfoldable pub tx_main : Result (List (String × Float))
    tx_main = summarize collect_mlc num_runs (all_runs (tx_run F files exp collect_mlc) num_runs)

    unfoldable pub vm_tx_main : Result (List (String × Float))
    vm_tx_main =
        summarize collect_mlc num_runs (all_runs (vm_tx_run F files exp collect_mlc) num_runs)

unfoldable pub main_of :
    (F : Floats) → Files → String → ℕ → ℕ → Script → Result (List (String × F.Float))
main_of F files exp num_runs mlc baremetal = collect_main F files exp num_runs mlc
main_of F files exp num_runs mlc vm = vm_main F files exp num_runs mlc
main_of F files exp num_runs mlc tx = tx_main F files exp num_runs mlc
main_of F files exp num_runs mlc vm_tx = vm_tx_main F files exp num_runs mlc
