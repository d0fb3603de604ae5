-- ===== src/Collect/Sane/Runs.antt =====
-- The parts of a run, the runs of the four scripts, and the loops over them.
use fast_and_safe_io_memory.Base.{
  ℕ, String, true, false, Option, none, some, List, ◌≡◌, refl, pos, arith, ltb, ◌&&◌,
}
use fast_and_safe_io_memory.Python.Floats.{Floats}
use fast_and_safe_io_memory.Python.Statement
use fast_and_safe_io_memory.Python.Statement.{Statement, Files, for, range_from, when}
use fast_and_safe_io_memory.Python.Statement.Keeps.{
  Keeps, Keeps-seq, Keeps-when, Keeps-try, Keeps-for, keeps_rules,
}
use fast_and_safe_io_memory.Collect.{
  Metrics, no_metrics, zero_float, add_mem_bw, membw_line, tput_part, memory_part, retx_part,
  membw_part, cpu_part, pcie_part, mlc_part,
}
use fast_and_safe_io_memory.Collect.Sane.{
  IsSane, add_mem_bw-IsSane, first_tput-IsSane, labelled_tput-IsSane, memory_row-IsSane,
  retx_line-IsSane, membw_line-IsSane, cpu_line-IsSane, pcie_line-IsSane, pcie_zeros-IsSane,
}
use fast_and_safe_io_memory.Collect.Scripts.{
  Script, baremetal, vm, tx, vm_tx, run_of, collect_run, vm_run, tx_run, vm_tx_run, all_runs,
}

module _ (F : Floats) (le_zero : F.le (F.of_int (pos 0)) (F.of_int (pos 0)) ≡ true) where
  module _ (files : Files) where
    tput_part-IsSane :
        (body : String → Statement (Metrics F)) (path : String)
        → ((line : String) → Keeps (IsSane F) (body line))
        → Keeps (IsSane F) (tput_part F files body path)
    unfolding tput_part
    tput_part-IsSane body path h = search (keeps_rules)

    memory_part-IsSane : (path : String) → Keeps (IsSane F) (memory_part F files path)
    unfolding memory_part
    memory_part-IsSane path = search (keeps_rules, memory_row-IsSane)

    retx_part-IsSane : (path : String) → Keeps (IsSane F) (retx_part F files path)
    unfolding retx_part
    retx_part-IsSane path = search (keeps_rules, retx_line-IsSane)

    membw_case-IsSane :
        (o : Option (List String))
        → Keeps (IsSane F) (elim o [
          | none ↦ add_mem_bw F (zero_float F)
          | some lines ↦ Statement.try (for lines (membw_line F)) (add_mem_bw F (zero_float F))
        ])
    membw_case-IsSane none = add_mem_bw-IsSane F le_zero _ le_zero
    membw_case-IsSane (some lines) =
        Keeps-try _ _ (Keeps-for lines _ (membw_line-IsSane F le_zero))
          (add_mem_bw-IsSane F le_zero _ le_zero)

    membw_part-IsSane : (path : String) → Keeps (IsSane F) (membw_part F files path)
    unfolding membw_part
    membw_part-IsSane path = membw_case-IsSane (files path)

    cpu_part-IsSane : (path : String) → Keeps (IsSane F) (cpu_part F files path)
    unfolding cpu_part
    cpu_part-IsSane path = search (keeps_rules, cpu_line-IsSane)

    pcie_part-IsSane : (path : String) → Keeps (IsSane F) (pcie_part F files path)
    unfolding pcie_part
    pcie_part-IsSane path = search (keeps_rules, pcie_line-IsSane, pcie_zeros-IsSane)

    mlc_part-IsSane : (n : ℕ) (path : String) → Keeps (IsSane F) (mlc_part F files n path)
    unfolding mlc_part
    mlc_part-IsSane n path = Keeps-when (ltb 0 n && false) _ (λ e. ground arith)

    ruleset sane_parts = (
      Keeps-seq, memory_part-IsSane, retx_part-IsSane, membw_part-IsSane, cpu_part-IsSane,
      pcie_part-IsSane, mlc_part-IsSane,
    )

    module _ (exp : String) (n i : ℕ) where
      collect_run-IsSane : Keeps (IsSane F) (collect_run F files exp n i)
      unfolding collect_run
      collect_run-IsSane =
          search (sane_parts, tput_part-IsSane _ _ (first_tput-IsSane F le_zero)) depth 9

      vm_run-IsSane : Keeps (IsSane F) (vm_run F files exp n i)
      unfolding vm_run
      vm_run-IsSane =
          search (sane_parts, tput_part-IsSane _ _ (labelled_tput-IsSane F le_zero)) depth 9

      tx_run-IsSane : Keeps (IsSane F) (tx_run F files exp n i)
      unfolding tx_run
      tx_run-IsSane =
          search (sane_parts, tput_part-IsSane _ _ (labelled_tput-IsSane F le_zero)) depth 9

      vm_tx_run-IsSane : Keeps (IsSane F) (vm_tx_run F files exp n i)
      unfolding vm_tx_run
      vm_tx_run-IsSane =
          search (sane_parts, tput_part-IsSane _ _ (labelled_tput-IsSane F le_zero)) depth 9

no_metrics-IsSane : (F : Floats) → IsSane F (no_metrics F)
no_metrics-IsSane F = record {
  tputs = tt;
  rates = tt;
  bws = tt;
  utils = tt;
  writes = tt;
  mlc = refl;
}

loop-IsSane :
    {F : Floats} (run : ℕ → Statement (Metrics F)) (n : ℕ)
    → ((i : ℕ) → Keeps (IsSane F) (run i))
    → IsSane F (all_runs run n).0
unfolding all_runs
loop-IsSane {F} run n h = (Keeps-for (range_from 0 n) run h).at (no_metrics F) (no_metrics-IsSane F)

run_of-IsSane :
    (F : Floats) (files : Files) (exp : String) (mlc : ℕ) (script : Script)
    → F.le (F.of_int (pos 0)) (F.of_int (pos 0)) ≡ true
    → (i : ℕ) → Keeps (IsSane F) (run_of F files exp mlc script i)
unfolding run_of
run_of-IsSane F files exp mlc baremetal h = collect_run-IsSane F h files exp mlc
run_of-IsSane F files exp mlc vm h = vm_run-IsSane F h files exp mlc
run_of-IsSane F files exp mlc tx h = tx_run-IsSane F h files exp mlc
run_of-IsSane F files exp mlc vm_tx h = vm_tx_run-IsSane F h files exp mlc

-- Where 0 <= 0 holds of floats: whatever the report files hold, and however the loop ends, each of
-- the four scripts has then collected positive throughputs alone, has collected no retransmission
-- rate, memory bandwidth, CPU utilisation or PCIe write throughput that is not at least zero, and
-- has collected no MLC throughput.
pub all_runs-IsSane :
    (F : Floats) (files : Files) (exp : String) (mlc num_runs : ℕ) (script : Script)
    → F.le (F.of_int (pos 0)) (F.of_int (pos 0)) ≡ true
    → IsSane F (all_runs (run_of F files exp mlc script) num_runs).0
all_runs-IsSane F files exp mlc num_runs script h =
    loop-IsSane (run_of F files exp mlc script) num_runs (run_of-IsSane F files exp mlc script h)
