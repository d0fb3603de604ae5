-- ===== src/Collect/Tests.antt =====
-- Runs of the four scripts on small report files, and instances of what is proved of them.
use fast_and_safe_io_memory.Base.{
  ℕ, String, some, [], ◌∷◌, ◌++◌, ◌≡◌, ◌≢◌, refl, pos, arith, ◌-ℤ◌, ◌*ℤ◌,
}
use fast_and_safe_io_memory.Python.Exception
use fast_and_safe_io_memory.Python.Exception.{Exception, Result, ok, statistics_error}
use fast_and_safe_io_memory.Python.Text.{split}
use fast_and_safe_io_memory.Python.Number.{int}
use fast_and_safe_io_memory.Python.Floats.Whole.{whole_floats}
use fast_and_safe_io_memory.Python.Statement
use fast_and_safe_io_memory.Python.Statement.{Files, next}
use fast_and_safe_io_memory.Python.Text.Strip.{none_is}
use fast_and_safe_io_memory.Python.Text.Words.{is_word}
use fast_and_safe_io_memory.Python.Number.{str}
use fast_and_safe_io_memory.Python.Floats.Whole.{show_int, quotient}
use fast_and_safe_io_memory.Retx.{State, start}
use fast_and_safe_io_memory.Retx.Report.{real, difference, percent, report}
use fast_and_safe_io_memory.Retx.Report.Printed.{text_of, lines_of}
use fast_and_safe_io_memory.Collect.{
  no_metrics, add_sent, retx_part, miss, pcie_part, pcie_accepts, pcie_key,
}
use fast_and_safe_io_memory.Collect.Scripts.{baremetal, vm, tx, run_of, all_runs}
use fast_and_safe_io_memory.Collect.Summary.{main_of}
use fast_and_safe_io_memory.Collect.Samples.{one_run, saved, saved-ok}
use fast_and_safe_io_memory.Collect.Sane.{IsSane}
use fast_and_safe_io_memory.Collect.Sane.Runs.{all_runs-IsSane}
use fast_and_safe_io_memory.Collect.Outcome.{mlc_exception, names, columns, main_of-mlc, main_of-ok}
use fast_and_safe_io_memory.Collect.PcieReport.{
  run_values, report_values, breaks, reading, pcie_part-values,
}
use fast_and_safe_io_memory.Collect.Reported.{kept, retx_part-report}
use fast_and_safe_io_memory.Collect.Variants.{tx-eq-baremetal}

all_runs-IsSane_example :
    IsSane whole_floats (all_runs (run_of whole_floats one_run "e" 0 baremetal) 1).0
all_runs-IsSane_example = all_runs-IsSane whole_floats one_run "e" 0 1 baremetal refl

main_of-mlc_example :
    main_of whole_floats one_run "e" 1 1 vm
    ≡ Exception.raise (mlc_exception (all_runs (run_of whole_floats one_run "e" 1 vm) 1).1)
main_of-mlc_example = main_of-mlc whole_floats one_run "e" 1 1 vm refl (omega arith)

main_of-ok_example :
    (◌≡◌ {A = ℕ} 0 0)
    × ((e : Exception)
        → (all_runs (run_of whole_floats one_run "e" 0 baremetal) 1).1 ≢ Statement.raise e)
    × (names saved ≡ columns)
main_of-ok_example = main_of-ok whole_floats one_run "e" 1 0 baremetal refl saved saved-ok

abbrev broken_report : String
broken_report = "../utils/reports/e-RUN-0/pcie.rpt"

pcie_part-values_example :
    ((pcie_part whole_floats one_run broken_report (no_metrics whole_floats)).0.pcie miss
      ≡ [] ++ run_values whole_floats miss (one_run broken_report))
    × ((pcie_part whole_floats one_run broken_report (no_metrics whole_floats)).1 ≡ next)
pcie_part-values_example =
    pcie_part-values whole_floats one_run broken_report miss (no_metrics whole_floats)

-- one broken line leaves two values for one run
broken_values : run_values whole_floats miss (one_run broken_report) ≡ pos 5 ∷ pos 0 ∷ []
unfolding run_values report_values breaks reading split int pcie_key pcie_accepts
broken_values = refl

-- every file holds the same line
abbrev same_files : Files
same_files path = some ("Avg_iperf_tput: 90\n" ∷ [])

tx-eq-baremetal_example :
    main_of whole_floats same_files "e" 2 0 tx ≡ main_of whole_floats same_files "e" 2 0 baremetal
tx-eq-baremetal_example =
    tx-eq-baremetal whole_floats same_files "e" 2 0 (λ _. "Avg_iperf_tput: 90\n") (λ _. [])
      (λ i. refl) (λ i. refl)

-- every counter goes from 10 to 60
abbrev counted : State
counted = record start { at = λ key. record { pre = pos 10; post = pos 60 } }

abbrev printed : Files
printed path = some (lines_of whole_floats (report whole_floats (pos 5) counted []).0)

retx_part-report_example : retx_part whole_floats printed "retx.rpt" (no_metrics whole_floats) ≡ (
  kept whole_floats (pos 100) (add_sent whole_floats (pos 50) (no_metrics whole_floats)).0,
  next,
)
unfolding percent difference text_of is_word none_is show_int str int ◌-ℤ◌ ◌*ℤ◌ quotient
retx_part-report_example =
    retx_part-report whole_floats printed "retx.rpt" (pos 5) counted (no_metrics whole_floats)
      (real (pos 100)) (real (pos 100)) (pos 100) refl refl (refl, refl) (refl, refl) refl
