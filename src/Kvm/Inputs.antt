-- ===== src/Kvm/Inputs.antt =====
-- The CSV file of utils/parse_kvm_perf.py, against the reports of its inputs.
use fast_and_safe_io_memory.Base.{
  String, List, [], ◌∷◌, ◌++◌, map, ◌≡◌, refl, sym, ap, ◌∙◌, arith, if◌then◌else◌, false, ◌=ₛ◌,
  subst, All, Bool-cases, inl, inr,
}
use fast_and_safe_io_memory.Python.Exception.{
  Result, ok, raise, file_not_found, ok-injective, ◌>>=◌, >>=-ok,
}
use fast_and_safe_io_memory.Python.Floats.{Floats}
use fast_and_safe_io_memory.Kvm.{Exit, Labelled, CsvRow, parse_perf_output, exit_rows, write_csv}
use fast_and_safe_io_memory.Kvm.Collected.{all_exits, last_total, last_time, parse-exits}
use fast_and_safe_io_memory.Kvm.Process.{
  basename, dirname, Host, join, resolve_data_file, run_perf_report, process_one, or_exit,
  process_all, main,
}

-- the file that is read for an input
abbrev pub data_file_of : Host → String → String
data_file_of host path = if host.is_dir path then join path "perf.data.guest" else path

resolve-ok :
    (host : Host) (path file : String)
    → resolve_data_file host path ≡ ok file
    → file ≡ data_file_of host path
unfolding resolve_data_file
resolve-ok host path file e = ground arith

or_exit-ok {ℓ} :
    (F : Floats) (host : Host) {A : Type ℓ} (r : Result A) (a : A)
    → or_exit F host r ≡ ok a
    → r ≡ ok a
or_exit-ok F host (ok a) b e = e
or_exit-ok F host (raise file_not_found) b e = cc
or_exit-ok F host (raise _) b e = cc

run_perf_report-ok :
    (host : Host) (file : String) (raw : List String)
    → run_perf_report host file ≡ ok raw
    → ((dirname file =ₛ "") ≡ false) × (host.report (dirname file) ≡ ok raw)
unfolding run_perf_report
run_perf_report-ok host file raw e = elim (Bool-cases (dirname file =ₛ "")) [
  | inl empty ↦
      let fails : run_perf_report host file ≡ raise file_not_found =
        rw (run_perf_report, empty) refl in
      cc
  | inr named ↦
      let runs : run_perf_report host file ≡ host.report (dirname file) =
        rw (run_perf_report, named) refl in
      (named, sym runs ∙ e)
]

-- the lines of a report that could be made
abbrev pub lines_in : Result (List String) → List String
lines_in (raise e) = []
lines_in (ok ls) = ls

module _ (F : Floats) where
  -- the row of an exit
  abbrev pub row_for : String → List String → Exit F → CsvRow F
  row_for file lines e = record {
    label = basename (dirname file);
    source = file;
    exit = e;
    total_samples = last_total F lines;
    total_time_ns = last_time F lines;
  }

  abbrev pub file_rows : String → List String → List (CsvRow F)
  file_rows file lines = map (row_for file lines) (all_exits F lines)

  -- the rows of the reports that perf makes in the directories of the inputs' files
  unfoldable pub input_rows : Host → List String → List (CsvRow F)
  input_rows host [] = []
  input_rows host (path ∷ paths) =
      let file = data_file_of host path in
      file_rows file (lines_in (host.report (dirname file))) ++ input_rows host paths

  -- the rows of a result with known values
  exit_rows-map :
      (result : Labelled F) (file : String) (lines : List String) (es : List (Exit F))
      → result.label ≡ basename (dirname file)
      → result.source ≡ file
      → result.parsed.total_samples ≡ last_total F lines
      → result.parsed.total_time_ns ≡ last_time F lines
      → exit_rows F result es ≡ map (row_for file lines) es
  unfolding exit_rows
  exit_rows-map result file lines [] h1 h2 h3 h4 = refl
  exit_rows-map result file lines (e ∷ es) h1 h2 h3 h4 =
      rw (exit_rows-map result file lines es h1 h2 h3 h4, h1, h2, h3, h4) refl

  module _ (host : Host) where
    process_one-rows :
        (path : String) (result : Labelled F)
        → process_one F host path ≡ ok result
        → let file = data_file_of host path in
          ((dirname file =ₛ "") ≡ false)
          × (exit_rows F result result.parsed.exits
              ≡ file_rows file (lines_in (host.report (dirname file))))
    unfolding process_one
    process_one-rows path result e =
        let (file, found, e1) = >>=-ok (resolve_data_file host path) _ e in
        let (raw, run, e2) = >>=-ok (run_perf_report host file) _ e1 in
        let (parsed, read, e3) = >>=-ok (parse_perf_output F raw) _ e2 in
        let same = ok-injective _ result e3 in
        let (exits, total, time) = parse-exits F raw parsed read in
        let (named, report) = run_perf_report-ok host file raw run in
        let labelled : Labelled F = record {
          label = basename (dirname file);
          source = file;
          parsed = parsed;
        } in
        let rows : exit_rows F labelled parsed.exits ≡ file_rows file (lines_in (ok raw)) =
          exit_rows-map labelled file raw parsed.exits refl refl total time
          ∙ ap (map (row_for file raw)) exits in
        subst
          (λ f.
            ((dirname f =ₛ "") ≡ false)
            × (exit_rows F result result.parsed.exits
                ≡ file_rows f (lines_in (host.report (dirname f)))))
          (resolve-ok host path file found)
          (
            named,
            ap (λ r. exit_rows F r r.parsed.exits) (sym same)
                ∙ rows
                ∙ ap (λ r. file_rows file (lines_in r)) (sym report),
          )

    process_all-rows :
        (paths : List String) (results : List (Labelled F))
        → process_all F host paths ≡ ok results
        → All (λ path. (dirname (data_file_of host path) =ₛ "") ≡ false) paths
          × (write_csv F results ≡ input_rows host paths)
    unfolding process_all write_csv input_rows
    process_all-rows [] results e = (tt, ap (write_csv F) (sym (ok-injective [] results e)))
    process_all-rows (path ∷ paths) results e =
        let (first, one, e1) =
          >>=-ok (or_exit F host (process_one F host path))
            (λ r. process_all F host paths >>= λ rs. ok (r ∷ rs)) e in
        let (others, later, e2) = >>=-ok (process_all F host paths) (λ rs. ok (first ∷ rs)) e1 in
        let (named, rows) =
          process_one-rows path first (or_exit-ok F host (process_one F host path) first one) in
        let (all_named, more) = process_all-rows paths others later in
        (
          (named, all_named),
          ap (write_csv F) (sym (ok-injective _ results e2))
              ∙ ap (λ rs. rs ++ write_csv F others) rows
              ∙ ap
                  (λ rs.
                    file_rows (data_file_of host path)
                      (lines_in (host.report (dirname (data_file_of host path))))
                    ++ rs)
                  more,
        )

-- If the script runs through, then the file of each input, `perf.data.guest` in a directory or the
-- input itself, has a directory in its path, and the rows that are written are, input by input, one
-- for each exit of the report that perf makes in that directory, in order, with the name of the
-- directory, the path of the file and the last total of that report and its time.
pub main-rows :
    (F : Floats) (host : Host) (paths : List String) (rows : List (CsvRow F))
    → main F host paths ≡ ok rows
    → All (λ path. (dirname (data_file_of host path) =ₛ "") ≡ false) paths
      × (rows ≡ input_rows F host paths)
unfolding main
main-rows F host paths rows e =
    let (results, processed, written) =
      >>=-ok (process_all F host paths) (λ results. ok (write_csv F results)) e in
    let (named, same) = process_all-rows F host paths results processed in
    (named, sym (ok-injective _ rows written) ∙ same)
