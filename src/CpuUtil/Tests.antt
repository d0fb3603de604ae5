-- ===== src/CpuUtil/Tests.antt =====
-- Runs of utils/cpu_util.py on a small log of `sar`, and instances of what is proved of it.
use fast_and_safe_io_memory.Base.{
  ℕ, ◌<◌, String, false, some, List, [], ◌∷◌, ◌≡◌, refl, arith, pos, eq_ℤ, ◌+ℤ◌, ◌-ℤ◌,
}
use fast_and_safe_io_memory.Python.Exception.{Result, ok, raise, error_of}
use fast_and_safe_io_memory.Python.Text.{split, member, index}
use fast_and_safe_io_memory.Python.Number.{int}
use fast_and_safe_io_memory.Python.Floats.{nat}
use fast_and_safe_io_memory.Python.Floats.Whole.{whole_floats, quotient}
use fast_and_safe_io_memory.Python.Dict.{get, put, int_key}
use fast_and_safe_io_memory.CpuUtil.{
  Header, Totals, no_totals, is_skipped, header_of, find_header, row_of, open_cpu, add_sample,
  add_row, scan, average_one, average_all, print_report, finish, main,
}
use fast_and_safe_io_memory.CpuUtil.Samples.{idle_times, util_of, count_of, scan-idle_times}
use fast_and_safe_io_memory.CpuUtil.Ending.{log_error, main-error}

abbrev log : List String
log =
    "Linux 6.0.3 (host)\n" ∷ "\n" ∷ "10:00:01 CPU %user %idle\n" ∷ "10:00:02 0 60 40\n"
    ∷ "10:00:02 1 10 90\n" ∷ "10:00:03 0 80 20\n" ∷ "Average: 0 30\n" ∷ []

abbrev header : Header
header = record { len = 4; cpu = 1; idle = 3 }

header_found : find_header log ≡ some header
unfolding find_header header_of is_skipped split member index
header_found = refl

result_or {ℓ} : {A : Type ℓ} → A → Result A → A
result_or d (ok a) = a
result_or d (raise e) = d

abbrev totals : Totals whole_floats
totals = result_or (no_totals whole_floats) (scan whole_floats header log (no_totals whole_floats))

scan-ok : scan whole_floats header log (no_totals whole_floats) ≡ ok totals
unfolding result_or scan row_of add_row add_sample open_cpu split int get put eq_ℤ ◌+ℤ◌ ◌-ℤ◌
scan-ok = refl

-- CPU 0 is busy 60 and 80 percent, CPU 1 is busy 10 percent
printed :
    main whole_floats log
    ≡ ok (record {
      cpu_utils = (pos 0, pos 70) ∷ (pos 1, pos 10) ∷ [];
      num_samples = (pos 0, 2) ∷ (pos 1, 1) ∷ [];
      avg_cpu_util = pos 40;
    })
unfolding main find_header header_of is_skipped split member index scan row_of add_row add_sample
    open_cpu finish average_all average_one print_report int get put eq_ℤ ◌+ℤ◌ ◌-ℤ◌ quotient
printed = refl

scan-idle_times_example :
    (get (pos 0) totals.util ≡ util_of whole_floats (idle_times whole_floats header (pos 0) log))
    × (get (pos 0) totals.samples
        ≡ count_of whole_floats (idle_times whole_floats header (pos 0) log))
scan-idle_times_example = scan-idle_times whole_floats header log totals (pos 0) scan-ok

positive : (n : ℕ) → 0 < n → whole_floats.is_zero (nat whole_floats n) ≡ false
positive n h = ground arith

main-error_example : error_of (main whole_floats log) ≡ log_error whole_floats (find_header log) log
main-error_example = main-error whole_floats log positive refl
