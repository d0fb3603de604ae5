-- ===== src/Rdma.antt =====
-- scripts/collect-rdma-tput-stats.py: the reports of an RDMA experiment, and the row that is saved.
pub mod Counts
pub mod Values
pub mod Saved
mod Tests
use fast_and_safe_io_memory.Base.{
  ℕ, zero, suc, ◌+◌, ltb, ◌==◌, String, Bool, true, false, Option, none, some, List, [], ◌∷◌, ◌++◌,
  pos, ◌=ₛ◌, starts_with, if◌then◌else◌,
}
use fast_and_safe_io_memory.Python.Exception.{Result, ok, raise, file_not_found, from_option, ◌>>=◌}
use fast_and_safe_io_memory.Python.Floats.{Floats, mean, stdev}
use fast_and_safe_io_memory.Python.Statement.{Files}
use fast_and_safe_io_memory.Collect.{first_word, last_float}
use fast_and_safe_io_memory.Collect.Scripts.{run_file}

-- the five lists
pub data Metric : Type 0 where
  net_tputs pauses pause_durs mem_bws mlc_tputs : Metric

abbrev pub index : Metric → ℕ
index net_tputs = 0
index pauses = 1
index pause_durs = 2
index mem_bws = 3
index mlc_tputs = 4

-- `f.readline()`: no line gives the empty text
abbrev pub readline : List String → String × List String
readline [] = ("", [])
readline (l ∷ ls) = (l, ls)

module _ (F : Floats) where
  open F use {Float, of_int, lt, le}

  abbrev pub Lists : Type 0
  Lists = Metric → List Float

  -- `xs.append(x)`
  abbrev pub append : Metric → Float → Lists → Lists
  append k x m = λ j. if index k == index j then m j ++ x ∷ [] else m j

  -- `if x > 0: net_tputs.append(x)`
  abbrev pub append_positive : Metric → Float → Lists → Lists
  append_positive k x m = if lt (of_int (pos 0)) x then append k x m else m

  -- `if x >= 0: pauses.append(x)`
  abbrev pub append_accepted : Metric → Float → Lists → Lists
  append_accepted k x m = if le (of_int (pos 0)) x then append k x m else m

  -- the loop over perf.bw.rpt, which breaks at once
  pub read_tput : List String → Lists → Result Lists
  read_tput [] m = ok m
  read_tput (l ∷ ls) m = do tput ← last_float F l; ok (append_positive net_tputs tput m)

  -- the two lines of pause.rpt
  pub read_pause : List String → Lists → Result Lists
  read_pause lines m = do
    let (line1, rest) = readline lines
    pause ← last_float F line1
    let m1 = append_accepted pauses pause m
    let (line2, _) = readline rest
    pause_dur ← last_float F line2
    ok (append_accepted pause_durs pause_dur m1)

  -- the loop over membw.rpt, up to the label
  pub read_membw : List String → Lists → Result Lists
  read_membw [] m = ok m
  read_membw (l ∷ ls) m =
      let later = read_membw ls m in
      (do
        word ← first_word l
        if word =ₛ "Node0_total_bw:"
            then (do membw ← last_float F l; ok (append_accepted mem_bws membw m))
            else later)

  -- the loop over mlc.log, up to the label
  pub read_mlc : List String → Lists → Result Lists
  read_mlc [] m = ok m
  read_mlc (l ∷ ls) m =
      let later = read_mlc ls m in
      if starts_with l " 00000"
      then (do tput ← last_float F l; ok (append_accepted mlc_tputs tput m))
      else later

  module _ (files : Files) (exp : String) (collect_mlc : ℕ) where
    -- `with open(path) as f1:`
    pub read_file : String → (List String → Lists → Result Lists) → Lists → Result Lists
    read_file path body m = do lines ← from_option file_not_found (files path); body lines m

    pub read_run : ℕ → Lists → Result Lists
    read_run i m = do
      m1 ← read_file (run_file exp "-RUN-" i "/perf.bw.rpt") read_tput m
      m2 ← read_file (run_file exp "-RUN-" i "/pause.rpt") read_pause m1
      m3 ← read_file (run_file exp "-RUN-" i "/membw.rpt") read_membw m2
      if ltb 0 collect_mlc
          then read_file (run_file exp "-MLCRUN-" i "/mlc.log") read_mlc m3
          else ok m3

    -- the loop over the runs, `n` of them from a first one
    pub read_runs : ℕ → ℕ → Lists → Result Lists
    read_runs i zero m = ok m
    read_runs i (suc n) m = do m' ← read_run i m; read_runs (i + 1) n m'

  -- the mean and the deviation of a list
  pub statistics : List Float → Result (Float × Float)
  statistics xs = do m ← mean F xs; d ← stdev F xs; ok (m, d)

  -- `output_list`
  pub output : ℕ → Lists → Result (List Float)
  output collect_mlc m = do
    t ← statistics (m net_tputs)
    p ← statistics (m pauses)
    d ← statistics (m pause_durs)
    b ← statistics (m mem_bws)
    c ← if ltb 0 collect_mlc then statistics (m mlc_tputs) else ok (of_int (pos 0), of_int (pos 0))
    ok (t.0 ∷ t.1 ∷ p.0 ∷ p.1 ∷ d.0 ∷ d.1 ∷ b.0 ∷ b.1 ∷ c.0 ∷ c.1 ∷ [])

  pub main : Files → String → ℕ → ℕ → Result (List Float)
  main files exp num_runs collect_mlc = do
    m ← read_runs files exp collect_mlc 0 num_runs (λ _. [])
    output collect_mlc m
