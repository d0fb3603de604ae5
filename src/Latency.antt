-- ===== src/Latency.antt =====
-- scripts/collect-lat-stats.py: the latencies of the netperf reports of an experiment, and the table
-- of their means that is saved.
pub mod Readings
pub mod Loops
pub mod Table
pub mod Shape
pub mod Tests
use fast_and_safe_io_memory.Base.{
  ℕ, zero, suc, ◌+◌, String, ◌<>◌, Bool, true, false, List, [], ◌∷◌, ◌++◌, ℤ, pos, ◌==◌,
  starts_with, if◌then◌else◌,
}
use fast_and_safe_io_memory.Python.Exception.{
  Result, ok, raise, key_error, file_not_found, from_option, ◌>>=◌,
}
use fast_and_safe_io_memory.Python.Number.{str}
use fast_and_safe_io_memory.Python.Floats.{Floats, mean}
use fast_and_safe_io_memory.Python.Statement.{Files}
use fast_and_safe_io_memory.Python.Dict.{Dict, get, put, int_key}
use fast_and_safe_io_memory.Collect.{last_float}

-- the five dictionaries
pub data Percentile : Type 0 where
  p50 p90 p99 p999 p9999 : Percentile

abbrev rank : Percentile → ℕ
rank p50 = 0
rank p90 = 1
rank p99 = 2
rank p999 = 3
rank p9999 = 4

abbrev pub same_percentile : Percentile → Percentile → Bool
same_percentile p q = rank p == rank q

abbrev pub label : Percentile → String
label p50 = "50%"
label p90 = "90%"
label p99 = "99%"
label p999 = "99.9%"
label p9999 = "99.99%"

abbrev pub percentiles : List Percentile
percentiles = p50 ∷ p90 ∷ p99 ∷ p999 ∷ p9999 ∷ []

abbrev pub rpc_sizes : List ℕ
rpc_sizes = 128 ∷ 512 ∷ 2048 ∷ 8192 ∷ 32768 ∷ []

-- `str` of each size
pub headings : List ℕ → List String
headings [] = []
headings (rpc ∷ sizes) = str rpc ∷ headings sizes

-- the path of the report of a size in a run
abbrev pub report_path : String → ℕ → ℕ → String
report_path exp rpc i =
    "../utils/reports/" <> exp <> "-LATRUN-" <> str i <> "/netperf-" <> str rpc <> ".lat.rpt"

module _ (F : Floats) where
  open F use {Float, of_int, le}

  abbrev pub Latencies : Type 0
  Latencies = Percentile → Dict ℤ (List Float)

  abbrev pub set : Percentile → ℤ → List Float → Latencies → Latencies
  set q rpc xs m = λ p. if same_percentile q p then put rpc xs (m p) else m p

  -- `p50_latencies[rpc].append(lat)`
  pub append_latency : Percentile → ℤ → Float → Latencies → Result Latencies
  append_latency q rpc lat m = do
    xs ← from_option key_error (get rpc (m q))
    ok (set q rpc (xs ++ lat ∷ []) m)

  -- one of the five tests on a line
  pub read_label : ℤ → String → Percentile → Latencies → Result Latencies
  read_label rpc line q m =
      if starts_with line (label q)
      then (do
        lat ← last_float F line
        if le (of_int (pos 0)) lat then append_latency q rpc lat m else ok m)
      else ok m

  pub read_labels : ℤ → String → List Percentile → Latencies → Result Latencies
  read_labels rpc line [] m = ok m
  read_labels rpc line (q ∷ qs) m = do m' ← read_label rpc line q m; read_labels rpc line qs m'

  -- the loop over the lines of a report
  pub read_lines : ℤ → List String → Latencies → Result Latencies
  read_lines rpc [] m = ok m
  read_lines rpc (l ∷ ls) m = do m' ← read_labels rpc l percentiles m; read_lines rpc ls m'

  -- the lists of a size are emptied
  pub reset : ℤ → Latencies → Latencies
  reset rpc m = λ p. put rpc [] (m p)

  module _ (files : Files) (exp : String) where
    pub read_run : ℕ → ℕ → Latencies → Result Latencies
    read_run rpc i m = do
      lines ← from_option file_not_found (files (report_path exp rpc i))
      read_lines (pos rpc) lines m

    -- the loop over the runs, `n` of them from a first one
    pub read_runs : ℕ → ℕ → ℕ → Latencies → Result Latencies
    read_runs rpc i zero m = ok m
    read_runs rpc i (suc n) m = do m' ← read_run rpc i m; read_runs rpc (i + 1) n m'

    -- the loop over the sizes
    pub read_sizes : ℕ → List ℕ → Latencies → Result Latencies
    read_sizes n [] m = ok m
    read_sizes n (rpc ∷ sizes) m = do
      m' ← read_runs rpc 0 n (reset (pos rpc) m)
      read_sizes n sizes m'

  -- one row of `data`
  pub means : Dict ℤ (List Float) → List ℕ → Result (List Float)
  means d [] = ok []
  means d (rpc ∷ sizes) = do
    xs ← from_option key_error (get (pos rpc) d)
    x ← mean F xs
    row ← means d sizes
    ok (x ∷ row)

  pub rows : Latencies → List Percentile → Result (List (List Float))
  rows m [] = ok []
  rows m (q ∷ qs) = do row ← means (m q) rpc_sizes; rest ← rows m qs; ok (row ∷ rest)

  -- the script: the headings and the rows that it saves
  pub main : Files → String → ℕ → Result (List String × List (List Float))
  main files exp num_runs = do
    m ← read_sizes files exp num_runs rpc_sizes (λ _. [])
    rs ← rows m percentiles
    ok (headings rpc_sizes, rs)
