-- ===== src/CpuUtil.antt =====
-- utils/cpu_util.py: the utilisation of each CPU in a log of `sar`, and the average over the CPUs.
pub mod Samples
pub mod Counted
pub mod Ending
mod Tests
use fast_and_safe_io_memory.Base.{
  ℕ, suc, ◌+◌, String, Bool, true, false, not, ◌&&◌, ◌||◌, Option, none, some, List, [], ◌∷◌, ℤ,
  pos, length, get_elem?, ◌==◌, ◌=ₛ◌, if◌then◌else◌,
}
use fast_and_safe_io_memory.Python.Exception.{
  Result, ok, raise, index_error, value_error, key_error, system_exit, from_option, ◌>>=◌,
}
use fast_and_safe_io_memory.Python.Text.{split, contains, member, index}
use fast_and_safe_io_memory.Python.Number.{int}
use fast_and_safe_io_memory.Python.Floats.{Floats, float, true_div, nat}
use fast_and_safe_io_memory.Python.Dict.{Dict, get, put, has, int_key}

-- `header_len`, `cpu_index` and `idle_index`
pub record Header : Type 0 where
  pub len : ℕ
  pub cpu : ℕ
  pub idle : ℕ

-- is a line passed over by the search for the header?
pub is_skipped : List String → Bool
is_skipped [] = true
is_skipped (w ∷ ws) = contains w "Linux" || not (member "CPU" (w ∷ ws))

-- the header that a line is, if it names both columns
pub header_of : List String → Option Header
header_of ws =
    if is_skipped ws
    then none
    else if member "%idle" ws
    then elim (index "CPU" ws) [
      | none ↦ none
      | some c ↦ elim (index "%idle" ws) [
        | none ↦ none
        | some i ↦ some (record { len = length ws; cpu = c; idle = i })
      ]
    ]
    else none

-- the first loop, which ends at the first header
pub find_header : List String → Option Header
find_header [] = none
find_header (l ∷ ls) =
    let later = find_header ls in elim (header_of (split l)) [ none ↦ later | some h ↦ some h ]

-- `cpu_util` and `num_samples`
pub record Totals (F : Floats) : Type 0 where
  pub util : Dict ℤ F.Float
  pub samples : Dict ℤ ℕ

module _ (F : Floats) where
  open F use {Float, of_int, add, sub}

  abbrev pub no_totals : Totals F
  no_totals = record { util = []; samples = [] }

  -- the CPU and the idle time of a line, if it is a row of the table
  pub row_of : Header → List String → Result (Option (ℤ × Float))
  row_of h ws =
      if length ws == h.len
      then (do
        name ← from_option index_error (get_elem? ws h.cpu)
        if name =ₛ "CPU" then ok none else (do
          cpu ← from_option value_error (int name)
          text ← from_option index_error (get_elem? ws h.idle)
          idle ← float F text
          ok (some (cpu, idle))))
      else ok none

  -- `if cpu not in cpu_util: …`
  pub open_cpu : ℤ → Totals F → Totals F
  open_cpu cpu t =
      if has cpu t.util
      then t
      else record { util = put cpu (of_int (pos 0)) t.util; samples = put cpu 0 t.samples }

  -- `cpu_util[cpu] += (100 - idle)` and `num_samples[cpu] += 1`
  pub add_sample : ℤ → Float → Totals F → Result (Totals F)
  add_sample cpu idle t = do
    u ← from_option key_error (get cpu t.util)
    n ← from_option key_error (get cpu t.samples)
    ok (record {
      util = put cpu (add u (sub (of_int (pos 100)) idle)) t.util;
      samples = put cpu (n + 1) t.samples;
    })

  pub add_row : Option (ℤ × Float) → Totals F → Result (Totals F)
  add_row none t = ok t
  add_row (some (cpu, idle)) t = add_sample cpu idle (open_cpu cpu t)

  -- the second loop
  pub scan : Header → List String → Totals F → Result (Totals F)
  scan h [] t = ok t
  scan h (l ∷ ls) t = do row ← row_of h (split l); t' ← add_row row t; scan h ls t'

  -- `cpu_util`, `total_util` and `num_cpus`
  pub record Averages : Type 0 where
    pub util : Dict ℤ Float
    pub total : Float
    pub num_cpus : ℕ

  pub average_one : Dict ℤ ℕ → ℤ → Averages → Result Averages
  average_one samples cpu a = do
    n ← from_option key_error (get cpu samples)
    if n == 0 then ok a else (do
      u ← from_option key_error (get cpu a.util)
      mean ← true_div F u (nat F n)
      ok (record {
        util = put cpu mean a.util;
        total = add a.total mean;
        num_cpus = a.num_cpus + 1;
      }))

  -- the third loop, over the keys of `cpu_util`
  pub average_all : Dict ℤ ℕ → Dict ℤ Float → Averages → Result Averages
  average_all samples [] a = ok a
  average_all samples ((cpu, _) ∷ rest) a = do
    a' ← average_one samples cpu a
    average_all samples rest a'

  -- what the script prints
  pub record Report : Type 0 where
    pub cpu_utils : Dict ℤ Float
    pub num_samples : Dict ℤ ℕ
    pub avg_cpu_util : Float

  pub print_report : Totals F → Averages → Result Report
  print_report t a = do
    avg ← true_div F a.total (nat F a.num_cpus)
    ok (record { cpu_utils = a.util; num_samples = t.samples; avg_cpu_util = avg })

  pub finish : Totals F → Result Report
  finish t = do
    a ←
        average_all t.samples t.util
          (record { util = t.util; total = of_int (pos 0); num_cpus = 0 })
    print_report t a

  pub main : List String → Result Report
  main lines = do
    h ← from_option system_exit (find_header lines)
    t ← scan h lines no_totals
    finish t
