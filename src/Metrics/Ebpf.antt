-- ===== src/Metrics/Ebpf.antt =====
-- scripts/report-tput-metrics.py: the eBPF statistics of the runs of an experiment. What pandas prints of
-- a table is a parameter.
use fast_and_safe_io_memory.Base.{ℕ, String, ◌<>◌, Option, none, some}
use fast_and_safe_io_memory.Python.Exception.{Result, type_error}
use fast_and_safe_io_memory.Python.Floats.{Floats, nat}
use fast_and_safe_io_memory.Python.Statement.{
  Statement, Files, pass, throw, for, range_from, ◌>>◌, ◌>>=◌,
}
use fast_and_safe_io_memory.Metrics.{Output, print}
use fast_and_safe_io_memory.Metrics.Read.{run_path, csv_content, last_tput}

-- What the script uses of pandas: the table in a CSV text, and what `to_string()` is of a table with a
-- column count_per_page that has the counts divided by a number.
pub record Pandas (F : Floats) : Type 1 where
  pub Frame : Type 0
  pub read_csv : String → Result Frame
  pub to_string : Frame → F.Float → Result String

module _ (F : Floats) (P : Pandas F) (files : Files) (exp_name : String) where
  open F use {Float, mul, div, decimal, show}

  -- the table of a section, None where there is none
  unfoldable pub with_frame : Option String → (Option P.Frame → Statement Output) → Statement Output
  with_frame none rest = rest none
  with_frame (some content) rest = P.read_csv content >>= λ frame. rest (some frame)

  -- `__get_ebpf_stats` and the statements that use its value
  unfoldable pub with_ebpf_stats : ℕ → (Option P.Frame → Statement Output) → Statement Output
  with_ebpf_stats run_id rest =
      let path = run_path exp_name run_id "ebpf_guest_stats.csv" in
      elim (files path) [
        | none ↦ rest none
        | some lines ↦
            print ("Reading eBPF stats from " <> path)
            >> (csv_content lines >>= λ content. with_frame content rest)
      ]

  -- `get_tput_per_run` and the statements that use its value
  unfoldable pub with_tput : ℕ → (Option Float → Statement Output) → Statement Output
  with_tput run_id rest = elim (files (run_path exp_name run_id "iperf.bw.rpt")) [
    | none ↦ rest none
    | some lines ↦ last_tput F lines >>= λ tput. print ("Tput: " <> show tput) >> rest (some tput)
  ]

  -- the pages that a run moved in the profiled seconds
  unfoldable pub total_pages : Float → Float
  total_pages tput =
      div (mul (div (mul tput (decimal 1000000000 0)) (nat F 8)) (nat F 20)) (nat F 4096)

  -- what follows in the round of a run: None cannot be multiplied
  unfoldable pub print_stats : Option P.Frame → Option Float → Statement Output
  print_stats none tput = pass
  print_stats (some frame) none = throw type_error
  print_stats (some frame) (some tput) = do text ← P.to_string frame (total_pages tput); print text

  unfoldable pub run_stats : ℕ → Statement Output
  run_stats run_id = with_ebpf_stats run_id λ stats. with_tput run_id λ tput. print_stats stats tput

  unfoldable pub get_ebpf_stats : Statement Output
  get_ebpf_stats = for (range_from 0 20) run_stats
