-- ===== src/Collect/Sane.antt =====
-- What the lists hold after any number of runs: only values that passed the scripts' tests.
pub mod Runs
use fast_and_safe_io_memory.Base.{
  ℕ, String, Bool, true, false, Option, none, some, List, [], ◌∷◌, ◌++◌, ◌≡◌, refl, ℤ, pos, arith,
  All, All-append, ltb, ◌&&◌, if◌then◌else◌,
}
use fast_and_safe_io_memory.Python.Exception.{Result, ok}
use fast_and_safe_io_memory.Python.Csv.{Row}
use fast_and_safe_io_memory.Python.Floats.{Floats}
use fast_and_safe_io_memory.Python.Statement
use fast_and_safe_io_memory.Python.Statement.{Statement, Files, for, range_from, when}
use fast_and_safe_io_memory.Python.Statement.Keeps.{
  Keeps, Keeps-pass, Keeps-seq, Keeps-bind, Keeps-when, Keeps-try, Keeps-for, keeps_rules,
}
use fast_and_safe_io_memory.Collect.{
  Metrics, no_metrics, Pcie, wr_tput, zero_float, add_tput, add_retx, add_sent, add_mem_bw, add_cpu,
  add_mlc, add_mem_used, add_pcie, first_tput, labelled_tput, memory_row, retx_line, membw_line,
  cpu_line, pcie_accepts, pcie_value, pcie_line, pcie_key, pcie_zeros, mlc_line, tput_part,
  memory_part, retx_part, membw_part, cpu_part, pcie_part, mlc_part,
}
use fast_and_safe_io_memory.Collect.Scripts.{collect_run, vm_run, tx_run, vm_tx_run, all_runs}

module _ (F : Floats) where
  open F use {Float, of_int, lt, le}

  abbrev pub IsPositive : Float → Type 0
  IsPositive x = lt (of_int (pos 0)) x ≡ true

  abbrev pub IsNonneg : Float → Type 0
  IsNonneg x = le (of_int (pos 0)) x ≡ true

All-snoc {ℓ κ} :
    {A : Type ℓ} (P : A → Type κ) (xs : List A) (x : A) → All P xs → P x → All P (xs ++ x ∷ [])
All-snoc P xs x h p = All-append P xs (x ∷ []) h (p, tt)

pub record IsSane (F : Floats) (m : Metrics F) : Type 0 where
  pub tputs : All (IsPositive F) m.net_tputs
  pub rates : All (IsNonneg F) m.retx_rates
  pub bws : All (IsNonneg F) m.mem_bws
  pub utils : All (IsNonneg F) m.cpu_utils
  pub writes : All (IsNonneg F) (m.pcie wr_tput)
  -- the branch that would fill it is switched off
  pub mlc : m.mlc_tputs ≡ []

module _ (F : Floats) (le_zero : F.le (F.of_int (pos 0)) (F.of_int (pos 0)) ≡ true) where
  open F use {Float, of_int, lt, le}

  add_tput-IsSane : (x : Float) → IsPositive F x → Keeps (IsSane F) (add_tput F x)
  unfolding add_tput
  add_tput-IsSane x p = record { at = λ m h. search (All-snoc) }

  add_retx-IsSane : (x : Float) → IsNonneg F x → Keeps (IsSane F) (add_retx F x)
  unfolding add_retx
  add_retx-IsSane x p = record { at = λ m h. search (All-snoc) }

  pub add_mem_bw-IsSane : (x : Float) → IsNonneg F x → Keeps (IsSane F) (add_mem_bw F x)
  unfolding add_mem_bw
  add_mem_bw-IsSane x p = record { at = λ m h. search (All-snoc) }

  add_cpu-IsSane : (x : Float) → IsNonneg F x → Keeps (IsSane F) (add_cpu F x)
  unfolding add_cpu
  add_cpu-IsSane x p = record { at = λ m h. search (All-snoc) }

  add_sent-IsSane : (x : Float) → Keeps (IsSane F) (add_sent F x)
  unfolding add_sent
  add_sent-IsSane x = record { at = λ m h. search }

  add_mem_used-IsSane : (x : ℤ) → Keeps (IsSane F) (add_mem_used F x)
  unfolding add_mem_used
  add_mem_used-IsSane x = record { at = λ m h. search }

  accepted : (k : Pcie) (x : Float) → pcie_accepts F k x ≡ true → k ≡ wr_tput → IsNonneg F x
  unfolding pcie_accepts
  accepted wr_tput x h e = h
  accepted _ x h e = ground arith

  add_pcie-IsSane :
      (k : Pcie) (x : Float) → (k ≡ wr_tput → IsNonneg F x) → Keeps (IsSane F) (add_pcie F k x)
  unfolding add_pcie
  add_pcie-IsSane wr_tput x p = record { at = λ m h. search (All-snoc, p refl) }
  add_pcie-IsSane _ x p = record { at = λ m h. search }

  ruleset sane_adds = (
    keeps_rules, add_tput-IsSane, add_retx-IsSane, add_mem_bw-IsSane, add_cpu-IsSane,
    add_sent-IsSane, add_mem_used-IsSane,
  )

  pub first_tput-IsSane : (line : String) → Keeps (IsSane F) (first_tput F line)
  unfolding first_tput
  first_tput-IsSane line = search sane_adds

  pub labelled_tput-IsSane : (line : String) → Keeps (IsSane F) (labelled_tput F line)
  unfolding labelled_tput
  labelled_tput-IsSane line = search sane_adds

  pub memory_row-IsSane : (row : Row) → Keeps (IsSane F) (memory_row F row)
  unfolding memory_row
  memory_row-IsSane row = search sane_adds

  pub retx_line-IsSane : (line : String) → Keeps (IsSane F) (retx_line F line)
  unfolding retx_line
  retx_line-IsSane line = search sane_adds depth 7

  pub membw_line-IsSane : (line : String) → Keeps (IsSane F) (membw_line F line)
  unfolding membw_line
  membw_line-IsSane line = search sane_adds depth 7

  pub cpu_line-IsSane : (line : String) → Keeps (IsSane F) (cpu_line F line)
  unfolding cpu_line
  cpu_line-IsSane line = search sane_adds depth 7

  pcie_value-IsSane : (k : Pcie) (line : String) → Keeps (IsSane F) (pcie_value F k line)
  unfolding pcie_value
  pcie_value-IsSane k line = search (keeps_rules, add_pcie-IsSane, accepted)

  pcie_case-IsSane :
      (o : Option Pcie) (line : String)
      → Keeps (IsSane F) (elim o [ none ↦ Statement.pass | some k ↦ pcie_value F k line ])
  pcie_case-IsSane none line = Keeps-pass
  pcie_case-IsSane (some k) line = pcie_value-IsSane k line

  pub pcie_line-IsSane : (line : String) → Keeps (IsSane F) (pcie_line F line)
  unfolding pcie_line
  pcie_line-IsSane line = Keeps-bind _ _ (λ w _. pcie_case-IsSane (pcie_key w) line)

  pcie_zero-IsSane : (k : Pcie) → Keeps (IsSane F) (add_pcie F k (zero_float F))
  pcie_zero-IsSane k = add_pcie-IsSane k _ (λ _. le_zero)

  pub pcie_zeros-IsSane : Keeps (IsSane F) (pcie_zeros F)
  unfolding pcie_zeros
  pcie_zeros-IsSane = search (Keeps-seq, pcie_zero-IsSane) depth 9
