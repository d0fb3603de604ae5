-- ===== src/Collect/Scripts.antt =====
-- The four scripts: one round of the loop over the runs of each, and the loop.
use fast_and_safe_io_memory.Base.{ℕ, String, ◌<>◌}
use fast_and_safe_io_memory.Python.Number.{str}
use fast_and_safe_io_memory.Python.Floats.{Floats}
use fast_and_safe_io_memory.Python.Statement.{Statement, Flow, Files, for, range_from, ◌>>◌}
use fast_and_safe_io_memory.Collect.{
  Metrics, no_metrics, first_tput, labelled_tput, tput_part, memory_part, retx_part, membw_part,
  cpu_part, pcie_part, mlc_part,
}

-- "../utils/reports/" + EXP_NAME + kind + str(i) + name
unfoldable pub run_file : String → String → ℕ → String → String
run_file exp kind i name = "../utils/reports/" <> exp <> kind <> str i <> name

module _ (F : Floats) (files : Files) (exp : String) (collect_mlc : ℕ) where
  -- collect-tput-stats.py
  unfoldable pub collect_run : ℕ → Statement (Metrics F)
  collect_run i = do
    tput_part F files (first_tput F) (run_file exp "-RUN-" i "/iperf.bw.rpt")
    memory_part F files (run_file exp "-RUN-" i "/memory_stats.csv")
    retx_part F files (run_file exp "-RUN-" i "/retx.rpt")
    membw_part F files (run_file exp "-RUN-" i "/membw.rpt")
    cpu_part F files (run_file exp "-RUN-" i "/cpu_util.rpt")
    pcie_part F files (run_file exp "-RUN-" i "/pcie.rpt")
    mlc_part F files collect_mlc (run_file exp "-MLCRUN-" i "/mlc.log")

  -- vm-collect-tput-stats.py
  unfoldable pub vm_run : ℕ → Statement (Metrics F)
  vm_run i = do
    tput_part F files (labelled_tput F) (run_file exp "-RUN-" i "/iperf.bw.rpt")
    memory_part F files (run_file exp "-RUN-" i "/memory_stats.csv")
    retx_part F files (run_file exp "-RUN-" i "/client-retx.rpt")
    membw_part F files (run_file exp "-RUN-" i "/host-membw.rpt")
    cpu_part F files (run_file exp "-RUN-" i "/cpu_util.rpt")
    pcie_part F files (run_file exp "-RUN-" i "/host-pcie.rpt")
    mlc_part F files collect_mlc (run_file exp "-MLCRUN-" i "/mlc.log")

  -- tx-collect-tput-stats.py
  unfoldable pub tx_run : ℕ → Statement (Metrics F)
  tx_run i = do
    tput_part F files (labelled_tput F) (run_file exp "-RUN-" i "/iperf.bw.rpt")
    memory_part F files (run_file exp "-RUN-" i "/memory_stats.csv")
    retx_part F files (run_file exp "-RUN-" i "/retx.rpt")
    membw_part F files (run_file exp "-RUN-" i "/membw.rpt")
    cpu_part F files (run_file exp "-RUN-" i "/cpu_util.rpt")
    pcie_part F files (run_file exp "-RUN-" i "/pcie.rpt")
    mlc_part F files collect_mlc (run_file exp "-MLCRUN-" i "/mlc.log")

  -- vm-tx-collect-tput-stats.py
  unfoldable pub vm_tx_run : ℕ → Statement (Metrics F)
  vm_tx_run i = do
    tput_part F files (labelled_tput F) (run_file exp "-RUN-" i "/iperf.bw.rpt")
    memory_part F files (run_file exp "-RUN-" i "/memory_stats.csv")
    retx_part F files (run_file exp "-RUN-" i "/retx.rpt")
    membw_part F files (run_file exp "-RUN-" i "/host-membw.rpt")
    cpu_part F files (run_file exp "-RUN-" i "/cpu_util.rpt")
    pcie_part F files (run_file exp "-RUN-" i "/host-pcie.rpt")
    mlc_part F files collect_mlc (run_file exp "-MLCRUN-" i "/mlc.log")

-- the four scripts
pub data Script : Type 0 where
  baremetal vm tx vm_tx : Script

unfoldable pub run_of : (F : Floats) → Files → String → ℕ → Script → ℕ → Statement (Metrics F)
run_of F files exp mlc baremetal = collect_run F files exp mlc
run_of F files exp mlc vm = vm_run F files exp mlc
run_of F files exp mlc tx = tx_run F files exp mlc
run_of F files exp mlc vm_tx = vm_tx_run F files exp mlc

-- `for i in range(NUM_RUNS):`
unfoldable pub all_runs : {F : Floats} → (ℕ → Statement (Metrics F)) → ℕ → Metrics F × Flow
all_runs {F} run num_runs = for (range_from 0 num_runs) run (no_metrics F)
