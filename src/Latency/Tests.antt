-- ===== src/Latency/Tests.antt =====
-- Runs of scripts/collect-lat-stats.py on small reports, and an instance of what is proved of it.
use fast_and_safe_io_memory.Base.{ℕ, some, none, List, [], ◌∷◌, ◌≡◌, refl, ℤ, pos, eq_ℤ, ◌+ℤ◌, ◌-ℤ◌}
use fast_and_safe_io_memory.Python.Exception.{
  ok, raise, file_not_found, statistics_error, ◌>>=◌, ◌>>◌,
}
use fast_and_safe_io_memory.Python.Text.{split}
use fast_and_safe_io_memory.Python.Number.{int, str}
use fast_and_safe_io_memory.Python.Floats.Whole.{whole_floats, quotient, sum}
use fast_and_safe_io_memory.Python.Statement.{Files}
use fast_and_safe_io_memory.Python.Dict.{get, put}
use fast_and_safe_io_memory.Collect.{last_float}
use fast_and_safe_io_memory.Latency.{
  percentiles, rpc_sizes, headings, append_latency, read_label, read_labels, read_lines, reset,
  read_run, read_runs, read_sizes, means, rows, main,
}
use fast_and_safe_io_memory.Latency.Loops.{check_sizes}
use fast_and_safe_io_memory.Latency.Table.{table, main-table}

abbrev pub files : Files
files path = some (
    "50% 10\n" ∷ "90% 20\n" ∷ "99% 30\n" ∷ "99.9% 40\n" ∷ "99.99% 50\n" ∷ "50% 20\n" ∷ "50% -1\n"
    ∷ [])

abbrev no_files : Files
no_files path = none

abbrev pub row : ℕ → List ℤ
row n = pos n ∷ pos n ∷ pos n ∷ pos n ∷ pos n ∷ []

pub saved :
    main whole_floats files "exp" 2
    ≡ ok (
      "128" ∷ "512" ∷ "2048" ∷ "8192" ∷ "32768" ∷ [],
      row 15 ∷ row 20 ∷ row 30 ∷ row 40 ∷ row 50 ∷ [],
    )
unfolding main read_sizes read_runs read_run read_lines read_labels read_label append_latency reset
    rows means headings last_float split int get put eq_ℤ ◌+ℤ◌ ◌-ℤ◌ quotient sum str
saved = refl

missing : main whole_floats no_files "exp" 1 ≡ raise file_not_found
unfolding main read_sizes read_runs read_run
missing = refl

no_runs : main whole_floats files "exp" 0 ≡ raise statistics_error
unfolding main read_sizes read_runs reset rows means get put eq_ℤ
no_runs = refl

main-table_example : main whole_floats files "exp" 2 ≡ (
    check_sizes whole_floats files "exp" 2 rpc_sizes
    >> (table whole_floats files "exp" 2 percentiles >>= λ rs. ok (headings rpc_sizes, rs)))
main-table_example = main-table whole_floats files "exp" 2
