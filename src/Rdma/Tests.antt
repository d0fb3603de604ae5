-- ===== src/Rdma/Tests.antt =====
-- Runs of scripts/collect-rdma-tput-stats.py on small reports, and an instance of what is proved of it.
use fast_and_safe_io_memory.Base.{◌≤◌, some, List, [], ◌∷◌, ◌≡◌, refl, ℤ, pos, ◌+ℤ◌, ◌-ℤ◌}
use fast_and_safe_io_memory.Python.Exception.{ok, raise, statistics_error}
use fast_and_safe_io_memory.Python.Text.{split}
use fast_and_safe_io_memory.Python.Number.{int}
use fast_and_safe_io_memory.Python.Floats.Whole.{whole_floats, quotient, sum}
use fast_and_safe_io_memory.Python.Statement.{Files}
use fast_and_safe_io_memory.Collect.{first_word, last_float}
use fast_and_safe_io_memory.Rdma.{
  read_tput, read_pause, read_membw, read_mlc, read_file, read_run, read_runs, statistics, output,
  main,
}
use fast_and_safe_io_memory.Rdma.Values.{values}
use fast_and_safe_io_memory.Rdma.Saved.{row_of, main-statistics}

-- every report has the same lines
abbrev files : Files
files path = some ("Node0_total_bw: 10\n" ∷ "Node0_total_bw: 20\n" ∷ [])

abbrev row : List ℤ
row = pos 10 ∷ pos 0 ∷ pos 10 ∷ pos 0 ∷ pos 20 ∷ pos 0 ∷ pos 10 ∷ pos 0 ∷ pos 0 ∷ pos 0 ∷ []

two_runs : main whole_floats files "exp" 2 0 ≡ ok row
unfolding main read_runs read_run read_file read_tput read_pause read_membw read_mlc statistics
    output first_word last_float split int ◌+ℤ◌ ◌-ℤ◌ quotient sum
two_runs = refl

one_run : main whole_floats files "exp" 1 0 ≡ raise statistics_error
unfolding main read_runs read_run read_file read_tput read_pause read_membw read_mlc statistics
    output first_word last_float split int ◌+ℤ◌ ◌-ℤ◌ quotient sum
one_run = refl

main-statistics_example :
    (2 ≤ 2) × (row ≡ row_of whole_floats 0 (values whole_floats files "exp" 0 0 2))
main-statistics_example = main-statistics whole_floats files "exp" 2 0 row two_runs
