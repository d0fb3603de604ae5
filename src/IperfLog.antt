-- ===== src/IperfLog.antt =====
-- The throughput readers of plots/siyuan_Evaluation_main.py: the iperf logs of an experiment's runs.
pub mod Means
pub mod Fuel
mod Tests
use Prim.Native.Char.{Char, code}
use fast_and_safe_io_memory.Base.{
  ℕ, zero, suc, ◌+◌, ◌==◌, leb, String, ◌<>◌, Bool, true, false, ◌&&◌, Option, none, some, List, [],
  ◌∷◌, ◌++◌, pos, length, get_elem?, if◌then◌else◌,
}
use fast_and_safe_io_memory.Python.Text.{split, contains, strip_right}
use fast_and_safe_io_memory.Python.Pattern.{after_text}
use fast_and_safe_io_memory.Python.Number.{str}
use fast_and_safe_io_memory.Python.Floats.{Floats}
use fast_and_safe_io_memory.Python.Statement.{Files}

-- `text.replace(old, new)`, on fuel: a text that is searched gets shorter with each round
unfoldable pub replace_on : ℕ → String → String → String → String
replace_on zero old new text = text
replace_on (suc n) old new String.[] = String.[]
replace_on (suc n) old new (String.◌∷◌ c s) =
    let kept = replace_on n old new s in
    elim (after_text old (String.◌∷◌ c s)) [
      | none ↦ String.◌∷◌ c kept
      | some rest ↦ new <> replace_on n old new rest
    ]

unfoldable pub size : String → ℕ
size String.[] = 0
size (String.◌∷◌ c s) = suc (size s)

unfoldable pub replace : String → String → String → String
unfolding size
replace old new text = replace_on (size text) old new text

-- the two tests on a line
unfoldable pub is_interval : String → Bool
is_interval line = contains line "60." && contains line "-90."

-- the log of a run
unfoldable pub log_path : String → ℕ → String
log_path exp_path run_id =
    replace "/reports/" "/logs/" (strip_right b'/' exp_path)
    <> "-RUN-"
    <> str run_id
    <> "/iperf.bw.log"

-- `np.mean` and `np.std`
pub record Numpy (F : Floats) : Type 0 where
  pub mean : List F.Float → F.Float
  pub std : List F.Float → F.Float

module _ (F : Floats) where
  open F use {Float, of_int, add, div, parse}

  -- `float(fields[6])`, behind the test on the length: none where the line is passed over
  unfoldable pub field_of : List String → Option Float
  field_of fields =
      if leb 7 (length fields)
      then elim (get_elem? fields 6) [ none ↦ none | some t ↦ parse t ]
      else none

  abbrev pub count_value : Option Float → Float × ℕ → Float × ℕ
  count_value none t = t
  count_value (some x) (total, n) = (add total x, n + 1)

  -- the loop over the lines: `total` and `n`
  unfoldable pub sum_lines : List String → Float × ℕ → Float × ℕ
  sum_lines [] t = t
  sum_lines (l ∷ ls) t =
      sum_lines ls (if is_interval l then count_value (field_of (split l)) t else t)

  -- `total / 1000.0`, or None
  abbrev pub per_thousand : Float × ℕ → Option Float
  per_thousand (total, n) = if n == 0 then none else some (div total (of_int (pos 1000)))

  -- `get_iperf_tput_from_log`
  unfoldable pub get_iperf_tput_from_log : Files → String → Option Float
  get_iperf_tput_from_log files path = elim (files path) [
    | none ↦ none
    | some lines ↦ per_thousand (sum_lines lines (of_int (pos 0), 0))
  ]

  abbrev pub append_tput : List Float → Option Float → List Float
  append_tput tputs none = tputs
  append_tput tputs (some x) = tputs ++ x ∷ []

  -- the loop over the runs, `n` of them from a first one
  unfoldable pub read_runs : Files → String → ℕ → ℕ → List Float → List Float
  read_runs files exp_path i zero tputs = tputs
  read_runs files exp_path i (suc n) tputs =
      read_runs files exp_path (i + 1) n
        (append_tput tputs (get_iperf_tput_from_log files (log_path exp_path i)))

  abbrev pub mean_and_std : Numpy F → List Float → Option (Float × Float)
  mean_and_std np [] = none
  mean_and_std np (x ∷ xs) = some (np.mean (x ∷ xs), np.std (x ∷ xs))

  -- `get_tput_from_iperf_logs`, none for (None, None)
  unfoldable pub get_tput_from_iperf_logs : Numpy F → Files → String → Option (Float × Float)
  get_tput_from_iperf_logs np files exp_path = mean_and_std np (read_runs files exp_path 0 20 [])
