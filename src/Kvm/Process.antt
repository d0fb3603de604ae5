-- ===== src/Kvm/Process.antt =====
-- The inputs of utils/parse_kvm_perf.py: which file is read for each, and the loop over them. The
-- file system's tests and the report of `perf` in a directory are parameters.
use fast_and_safe_io_memory.Base.{
  String, ◌<>◌, Bool, none, some, List, [], ◌∷◌, ◌=ₛ◌, if◌then◌else◌,
}
use fast_and_safe_io_memory.Python.Exception.{Result, ok, raise, file_not_found, system_exit, ◌>>=◌}
use fast_and_safe_io_memory.Python.Text.{cut_last, strip_right}
use fast_and_safe_io_memory.Python.Floats.{Floats}
use fast_and_safe_io_memory.Kvm.{Labelled, CsvRow, parse_perf_output, write_csv}

-- `os.path.basename`
unfoldable pub basename : String → String
basename path = elim (cut_last b'/' path) [ none ↦ path | some (_, name) ↦ name ]

-- `os.path.dirname`
unfoldable pub dirname : String → String
dirname path = elim (cut_last b'/' path) [
  | none ↦ ""
  | some (head, _) ↦
      let stripped = strip_right b'/' (head <> "/") in
      if stripped =ₛ "" then head <> "/" else stripped
]

-- `os.path.join` with a name that does not begin with a slash
unfoldable pub join : String → String → String
join path name = elim (cut_last b'/' path) [
  | none ↦ if path =ₛ "" then name else path <> "/" <> name
  | some (_, last) ↦ if last =ₛ "" then path <> name else path <> "/" <> name
]

-- the file system, and the lines that `perf kvm stat report` prints in a directory, an exception if
-- it cannot be started there
pub record Host : Type 0 where
  pub is_dir : String → Bool
  pub exists : String → Bool
  pub report : String → Result (List String)

unfoldable pub resolve_data_file : Host → String → Result String
resolve_data_file host path =
    if host.is_dir path
    then if host.exists (join path "perf.data.guest")
      then ok (join path "perf.data.guest")
      else raise file_not_found
    else if host.exists path
    then ok path
    else raise file_not_found

-- `run_perf_report`: perf is given no file; without a directory there is none to start it in
unfoldable pub run_perf_report : Host → String → Result (List String)
run_perf_report host data_file =
    if dirname data_file =ₛ "" then raise file_not_found else host.report (dirname data_file)

module _ (F : Floats) (host : Host) where
  unfoldable pub process_one : String → Result (Labelled F)
  process_one path = do
    data_file ← resolve_data_file host path
    raw ← run_perf_report host data_file
    parsed ← parse_perf_output F raw
    ok (record { label = basename (dirname data_file); source = data_file; parsed = parsed })

  -- `except FileNotFoundError: sys.exit(1)`
  abbrev pub or_exit {ℓ} : {A : Type ℓ} → Result A → Result A
  or_exit (raise file_not_found) = raise system_exit
  or_exit r = r

  -- the loop over `args.inputs`
  unfoldable pub process_all : List String → Result (List (Labelled F))
  process_all [] = ok []
  process_all (path ∷ paths) = do
    result ← or_exit (process_one path)
    results ← process_all paths
    ok (result ∷ results)

  -- the rows that are written with `--csv`
  unfoldable pub main : List String → Result (List (CsvRow F))
  main paths = do results ← process_all paths; ok (write_csv F results)
