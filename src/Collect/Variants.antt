-- ===== src/Collect/Variants.antt =====
-- Where two of the four scripts agree.
use fast_and_safe_io_memory.Base.{
  ℕ, String, Bool, true, false, List, ◌∷◌, some, ◌≡◌, ap, starts_with, arith,
}
use mathlib.Core.Path.{fun_ext}
use fast_and_safe_io_memory.Python.Floats.{Floats}
use fast_and_safe_io_memory.Python.Statement
use fast_and_safe_io_memory.Python.Statement.{
  Statement, Flow, next, stop, Files, for, with_open, ◌>>◌,
}
use fast_and_safe_io_memory.Collect.{
  Metrics, first_tput, labelled_tput, last_float, add_tput, tput_part, retx_part,
}
use fast_and_safe_io_memory.Collect.Scripts.{
  run_file, baremetal, vm, tx, vm_tx, collect_run, vm_run, tx_run, vm_tx_run, all_runs,
}
use fast_and_safe_io_memory.Collect.Summary.{
  summarize, main_of, collect_main, vm_main, tx_main, vm_tx_main,
}

module _ (F : Floats) (files : Files) (exp : String) where
  -- The two VM scripts give the same result, a row or an exception, if in each run the report
  -- that the one reads as retx.rpt and the other as client-retx.rpt is the same.
  pub vm_tx-eq-vm :
      (num_runs mlc : ℕ)
      → ((i : ℕ)
          → files (run_file exp "-RUN-" i "/retx.rpt")
            ≡ files (run_file exp "-RUN-" i "/client-retx.rpt"))
      → main_of F files exp num_runs mlc vm_tx ≡ main_of F files exp num_runs mlc vm
  unfolding main_of vm_main vm_tx_main
  vm_tx-eq-vm num_runs mlc same =
      ap (λ run. summarize F mlc num_runs (all_runs run num_runs)) (fun_ext λ i. same_run i)
    where
      same_run : (i : ℕ) → vm_tx_run F files exp mlc i ≡ vm_run F files exp mlc i
      same_run i = unfold vm_tx_run vm_run retx_part in rw (same i)

  abbrev is_next : Flow → Bool
  is_next next = true
  is_next stop = false
  is_next (Statement.raise _) = false

  -- the first line ends the loop over the throughput's report
  first_tput-flow : (line : String) (s : Metrics F) → is_next (first_tput F line s).1 ≡ false
  unfolding first_tput last_float add_tput ◌>>◌
  first_tput-flow line s = ground arith

  labelled-eq-first :
      (line : String)
      → starts_with line "Avg_iperf_tput:" ≡ true
      → labelled_tput F line ≡ first_tput F line
  unfolding labelled_tput first_tput
  labelled-eq-first line h = rw h

  for-labelled :
      (line : String) (rest : List String) (s : Metrics F)
      → starts_with line "Avg_iperf_tput:" ≡ true
      → for (line ∷ rest) (labelled_tput F) s ≡ for (line ∷ rest) (first_tput F) s
  unfolding for
  for-labelled line rest s h = ground (
    arith,
    ap (λ (t : Statement (Metrics F)). t s) (labelled-eq-first line h),
    first_tput-flow line s,
  )

  tput_part-labelled :
      (path line : String) (rest : List String)
      → files path ≡ some (line ∷ rest)
      → starts_with line "Avg_iperf_tput:" ≡ true
      → tput_part F files (labelled_tput F) path ≡ tput_part F files (first_tput F) path
  unfolding tput_part
  tput_part-labelled path line rest h s = rw h (fun_ext λ m. for-labelled line rest m s)

  -- The transmit script gives the same result as the plain one, a row or an exception, if in each
  -- run the report of the throughput begins with the line that carries its label.
  pub tx-eq-baremetal :
      (num_runs mlc : ℕ) (line : ℕ → String) (rest : ℕ → List String)
      → ((i : ℕ) → files (run_file exp "-RUN-" i "/iperf.bw.rpt") ≡ some (line i ∷ rest i))
      → ((i : ℕ) → starts_with (line i) "Avg_iperf_tput:" ≡ true)
      → main_of F files exp num_runs mlc tx ≡ main_of F files exp num_runs mlc baremetal
  unfolding main_of collect_main tx_main
  tx-eq-baremetal num_runs mlc line rest begins label =
      ap (λ run. summarize F mlc num_runs (all_runs run num_runs)) (fun_ext λ i. same_run i)
    where
      same_run : (i : ℕ) → tx_run F files exp mlc i ≡ collect_run F files exp mlc i
      same_run i =
          unfold tx_run collect_run in
          rw (tput_part-labelled _ (line i) (rest i) (begins i) (label i))
