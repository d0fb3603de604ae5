-- ===== src/Kvm/Tests.antt =====
-- Runs of utils/parse_kvm_perf.py on small reports, and instances of what is proved of it.
use fast_and_safe_io_memory.Base.{
  String, true, none, some, List, [], ◌∷◌, ◌≡◌, refl, ◌⊎◌, All, false, pos, ◌*ℤ◌, ◌=ₛ◌,
}
use fast_and_safe_io_memory.Python.Exception.{ok, raise, value_error, system_exit}
use fast_and_safe_io_memory.Python.Text.{cut_last, strip_right}
use fast_and_safe_io_memory.Python.Number.{int}
use fast_and_safe_io_memory.Python.Floats.Whole.{whole_floats}
use fast_and_safe_io_memory.Python.Pattern.{match, search_in, span, after_text}
use fast_and_safe_io_memory.Kvm.{
  row_pattern, total_pattern, Exit, Parsed, CsvRow, nanoseconds, exit_of, set_totals, parse_line,
  parse_lines, parse_perf_output, exit_rows, write_csv,
}
use fast_and_safe_io_memory.Kvm.Rows.{IsRow}
use fast_and_safe_io_memory.Kvm.Totals.{IsTotal}
use fast_and_safe_io_memory.Kvm.Lines.{AddsExit, SetsTotals, parse_line-shown}
use fast_and_safe_io_memory.Kvm.Collected.{all_exits, last_total, last_time, parse-exits}
use fast_and_safe_io_memory.Kvm.Process.{
  Host, basename, dirname, join, resolve_data_file, run_perf_report, process_one, process_all, main,
}
use fast_and_safe_io_memory.Kvm.Inputs.{data_file_of, input_rows, main-rows}

abbrev row_line : String
row_line = "  HLT     17628    85.72%    97.06%    0.27us   281.62us    55.74us ( +- 0.37%)"

abbrev row_groups : List String
row_groups = "HLT" ∷ "17628" ∷ "85.72" ∷ "97.06" ∷ "0.27" ∷ "281.62" ∷ "55.74" ∷ []

row_found : match row_pattern row_line ≡ some row_groups
unfolding match span after_text
row_found = refl

-- the example in the comment above the expression
comment_total :
    search_in total_pattern "Total Samples:20563, Total events handled time:1142.17ms." ≡ none
unfolding search_in match span after_text
comment_total = refl

abbrev total_line : String
total_line = "Total Samples:3, Total events handled time:7us."

abbrev report : List String
report =
    "VM-EXIT Samples" ∷ "HLT 2 85% 97% 1us 3us 2us ( +- 0%)" ∷ total_line
    ∷ "EPT 1 4% 2% 1us 3us 3us" ∷ []

abbrev hlt : Exit whole_floats
hlt = record {
  exit_reason = "HLT";
  samples = pos 2;
  samples_pct = pos 85;
  time_pct = pos 97;
  min_time_ns = pos 1000;
  max_time_ns = pos 3000;
  avg_time_ns = pos 2000;
  exit_total_time_ns = pos 4000;
}

abbrev ept : Exit whole_floats
ept = record {
  exit_reason = "EPT";
  samples = pos 1;
  samples_pct = pos 4;
  time_pct = pos 2;
  min_time_ns = pos 1000;
  max_time_ns = pos 3000;
  avg_time_ns = pos 3000;
  exit_total_time_ns = pos 3000;
}

abbrev parsed : Parsed whole_floats
parsed = record {
  exits = hlt ∷ ept ∷ [];
  total_samples = some (pos 3);
  total_time_ns = some (pos 7000);
}

report_parsed : parse_perf_output whole_floats report ≡ ok parsed
unfolding parse_perf_output parse_lines parse_line set_totals exit_of nanoseconds match search_in
    span after_text int ◌*ℤ◌
report_parsed = refl

-- digits and dots that are no number end the script
not_a_number :
    parse_perf_output whole_floats ("HLT 2 8.5.1% 9% 1us 3us 2us" ∷ []) ≡ raise value_error
unfolding parse_perf_output parse_lines parse_line exit_of nanoseconds match span after_text int
not_a_number = refl

abbrev host : Host
host = record { is_dir = λ p. p =ₛ "runs/a"; exists = λ p. true; report = λ directory. ok report }

abbrev row_for : Exit whole_floats → CsvRow whole_floats
row_for e = record {
  label = "a";
  source = "runs/a/perf.data.guest";
  exit = e;
  total_samples = some (pos 3);
  total_time_ns = some (pos 7000);
}

written : main whole_floats host ("runs/a" ∷ []) ≡ ok (row_for hlt ∷ row_for ept ∷ [])
unfolding main process_all process_one resolve_data_file run_perf_report join basename dirname
    cut_last strip_right write_csv exit_rows parse_perf_output parse_lines parse_line set_totals
    exit_of nanoseconds match search_in span after_text int ◌*ℤ◌
written = refl

-- a data file without a directory: the script exits, wherever perf would run
bare_file :
    main whole_floats
      (record { is_dir = λ p. false; exists = λ p. true; report = λ p. ok report })
      ("perf.data.guest" ∷ [])
    ≡ raise system_exit
unfolding main process_all process_one resolve_data_file run_perf_report dirname cut_last
bare_file = refl

abbrev hlt_line : String
hlt_line = "HLT 2 85% 97% 1us 3us 2us ( +- 0%)"

abbrev empty : Parsed whole_floats
empty = record { exits = []; total_samples = none; total_time_ns = none }

abbrev one_exit : Parsed whole_floats
one_exit = record { exits = hlt ∷ []; total_samples = none; total_time_ns = none }

hlt_read : parse_line whole_floats hlt_line empty ≡ ok one_exit
unfolding parse_line exit_of nanoseconds match span after_text int ◌*ℤ◌
hlt_read = refl

parse_line-shown_example :
    ((groups : List String) × IsRow hlt_line groups
      × AddsExit whole_floats groups empty (parse_line whole_floats hlt_line empty))
    ⊎ (((groups : List String) → ¬ IsRow hlt_line groups)
        × (((groups : List String) × IsTotal hlt_line groups
              × SetsTotals whole_floats groups empty (parse_line whole_floats hlt_line empty))
            ⊎ (((groups : List String) → ¬ IsTotal hlt_line groups)
                × (parse_line whole_floats hlt_line empty ≡ ok empty))))
parse_line-shown_example = parse_line-shown whole_floats hlt_line empty

parse-exits_example :
    (parsed.exits ≡ all_exits whole_floats report)
    × (parsed.total_samples ≡ last_total whole_floats report)
    × (parsed.total_time_ns ≡ last_time whole_floats report)
parse-exits_example = parse-exits whole_floats report parsed report_parsed

main-rows_example :
    All (λ path. (dirname (data_file_of host path) =ₛ "") ≡ false) ("runs/a" ∷ [])
    × (row_for hlt ∷ row_for ept ∷ [] ≡ input_rows whole_floats host ("runs/a" ∷ []))
main-rows_example =
    main-rows whole_floats host ("runs/a" ∷ []) (row_for hlt ∷ row_for ept ∷ []) written
