-- ===== src/Collect/Samples.antt =====
-- The report files of one run, and the row that scripts/collect-tput-stats.py saves of them.
use fast_and_safe_io_memory.Base.{
  String, none, some, List, [], ◌∷◌, ◌+ℤ◌, ◌≡◌, refl, ◌=ₛ◌, if◌then◌else◌, ℤ,
}
use fast_and_safe_io_memory.Python.Exception
use fast_and_safe_io_memory.Python.Exception.{Exception, Result, ok, statistics_error}
use fast_and_safe_io_memory.Python.Text.{split}
use fast_and_safe_io_memory.Python.Number.{int, str}
use fast_and_safe_io_memory.Python.Csv.{dict_rows, cell}
use fast_and_safe_io_memory.Python.Floats.Whole.{whole_floats, quotient, sum}
use fast_and_safe_io_memory.Python.Statement
use fast_and_safe_io_memory.Python.Statement.{Files, next}
use fast_and_safe_io_memory.Collect.{
  tput_part, memory_part, retx_part, membw_part, cpu_part, pcie_part, mlc_part, first_tput,
  memory_row, retx_line, membw_line, cpu_line, pcie_line, pcie_value, pcie_accepts, pcie_key,
  pcie_zeros, first_word, last_float, add_tput, add_retx, add_sent, add_mem_bw, add_cpu,
  add_mem_used, add_pcie,
}
use fast_and_safe_io_memory.Collect.Scripts.{run_file, collect_run, baremetal, all_runs}
use fast_and_safe_io_memory.Collect.Summary.{
  main_of, collect_main, summarize, mlc_statistics, output_list, mean_or_zero, stdev_or_zero,
  max_or_zero,
}
use fast_and_safe_io_memory.Collect.PcieReport.{}

-- the files of one directory by the ends of their names
abbrev reports : List (String × List String) → Files
reports [] path = none
reports ((name, lines) ∷ more) path = if name =ₛ path then some lines else reports more path

abbrev pub one_run : Files
one_run = reports (
    ("../utils/reports/e-RUN-0/iperf.bw.rpt", "Avg_iperf_tput: 90\n" ∷ [])
    ∷ ("../utils/reports/e-RUN-0/memory_stats.csv", "time,mem_used\n" ∷ "1,20\n" ∷ "2,30\n" ∷ [])
    ∷ ("../utils/reports/e-RUN-0/retx.rpt", "Recv: 80\n" ∷ "Retx_percent: 3\n" ∷ [])
    ∷ ("../utils/reports/e-RUN-0/cpu_util.rpt", "avg_cpu_util: 40\n" ∷ [])
    ∷ (
      "../utils/reports/e-RUN-0/pcie.rpt",
      "PCIe_wr_tput: 7\n" ∷ "IOTLB_miss_avg: 5\n" ∷ "IOTLB_inv_avg: none\n" ∷ [],
    )
    ∷ [])

row_or {ℓ} : {A : Type ℓ} → A → Result A → A
row_or d (ok a) = a
row_or d (Exception.raise e) = d

pub saved : List (String × ℤ)
saved = row_or [] (main_of whole_floats one_run "e" 1 0 baremetal)

pub saved-ok : main_of whole_floats one_run "e" 1 0 baremetal ≡ ok saved
unfolding saved row_or main_of collect_main summarize mlc_statistics output_list mean_or_zero
    stdev_or_zero max_or_zero all_runs Statement.for Statement.try Statement.try_open Statement.◌>>◌
    collect_run run_file str split int dict_rows cell tput_part memory_part retx_part membw_part
    cpu_part pcie_part mlc_part first_tput memory_row retx_line membw_line cpu_line pcie_line
    pcie_value pcie_accepts pcie_key pcie_zeros first_word last_float add_tput add_retx add_sent
    add_mem_bw add_cpu add_mem_used add_pcie quotient sum ◌+ℤ◌
saved-ok = refl
