-- ===== src/Collect.antt =====
-- The loop over the runs of scripts/collect-tput-stats.py and of its three variants
-- (vm-collect-tput-stats.py, tx-collect-tput-stats.py, vm-tx-collect-tput-stats.py): what each reads from
-- the report files of one run. The variants differ in the files that they name and in the way
-- that they find the throughput.
pub mod Scripts
pub mod Summary
pub mod Sane
pub mod Outcome
pub mod PcieReport
pub mod Variants
pub mod Samples
pub mod Reported
mod Tests
use fast_and_safe_io_memory.Base.{
  ℕ, String, ◌<>◌, Bool, true, false, ◌&&◌, Option, none, some, List, [], ◌∷◌, ◌++◌, ℤ, pos, ◌==◌,
  ◌=ₛ◌, ltb, starts_with, get_elem?, get_last?, if◌then◌else◌,
}
use fast_and_safe_io_memory.Python.Exception
use fast_and_safe_io_memory.Python.Exception.{Result, index_error, value_error, from_option}
use fast_and_safe_io_memory.Python.Text.{split}
use fast_and_safe_io_memory.Python.Number.{int, str}
use fast_and_safe_io_memory.Python.Csv.{Row, dict_rows, cell}
use fast_and_safe_io_memory.Python.Floats.{Floats, float}
use fast_and_safe_io_memory.Python.Statement.{
  Statement, Files, pass, leave, assign, when, try, try_open, for, with_open, range_from, ◌>>◌,
  ◌>>=◌,
}

-- the seven counters of a PCIe report, with the word that begins the line of each
pub data Pcie : Type 0 where
  wr_tput first_lookup all_lookup miss mem_access inv pwt_occupancy : Pcie

abbrev pcie_index : Pcie → ℕ
pcie_index wr_tput = 0
pcie_index first_lookup = 1
pcie_index all_lookup = 2
pcie_index miss = 3
pcie_index mem_access = 4
pcie_index inv = 5
pcie_index pwt_occupancy = 6

abbrev pub same_pcie : Pcie → Pcie → Bool
same_pcie j k = pcie_index j == pcie_index k

unfoldable pub pcie_key : String → Option Pcie
pcie_key w =
    if w =ₛ "PCIe_wr_tput:"
    then some wr_tput
    else if w =ₛ "IOTLB_first_lookup_avg:"
    then some first_lookup
    else if w =ₛ "IOTLB_all_lookup_avg:"
    then some all_lookup
    else if w =ₛ "IOTLB_miss_avg:"
    then some miss
    else if w =ₛ "IOMMU_mem_access:"
    then some mem_access
    else if w =ₛ "IOTLB_inv_avg:"
    then some inv
    else if w =ₛ "PWT_occupancy_avg:"
    then some pwt_occupancy
    else none

-- the lists that the loop over the runs fills
pub record Metrics (F : Floats) : Type 0 where
  pub net_tputs : List F.Float
  pub retx_rates : List F.Float
  pub sent_packets : List F.Float
  pub mem_bws : List F.Float
  pub cpu_utils : List F.Float
  pub mlc_tputs : List F.Float
  pub mem_used : List ℤ
  pub pcie : Pcie → List F.Float

abbrev pub no_metrics : (F : Floats) → Metrics F
no_metrics F = record {
  net_tputs = [];
  retx_rates = [];
  sent_packets = [];
  mem_bws = [];
  cpu_utils = [];
  mlc_tputs = [];
  mem_used = [];
  pcie = λ _. [];
}

-- `line.split()[0]`
unfoldable pub first_word : String → Result String
first_word line = from_option index_error (get_elem? (split line) 0)

module _ (F : Floats) where
  open F use {Float, of_int, lt, le}

  -- `float(line.split()[-1])`
  unfoldable pub last_float : String → Result Float
  last_float line = Exception.◌>>=◌ (from_option index_error (get_last? (split line))) (float F)

  abbrev pub zero_float : Float
  zero_float = of_int (pos 0)

  unfoldable pub add_tput : Float → Statement (Metrics F)
  add_tput x = assign (λ m. record m { net_tputs = m.net_tputs ++ x ∷ [] })

  pub add_retx : Float → Statement (Metrics F)
  add_retx x = assign (λ m. record m { retx_rates = m.retx_rates ++ x ∷ [] })

  pub add_sent : Float → Statement (Metrics F)
  add_sent x = assign (λ m. record m { sent_packets = m.sent_packets ++ x ∷ [] })

  pub add_mem_bw : Float → Statement (Metrics F)
  add_mem_bw x = assign (λ m. record m { mem_bws = m.mem_bws ++ x ∷ [] })

  pub add_cpu : Float → Statement (Metrics F)
  add_cpu x = assign (λ m. record m { cpu_utils = m.cpu_utils ++ x ∷ [] })

  pub add_mlc : Float → Statement (Metrics F)
  add_mlc x = assign (λ m. record m { mlc_tputs = m.mlc_tputs ++ x ∷ [] })

  pub add_mem_used : ℤ → Statement (Metrics F)
  add_mem_used x = assign (λ m. record m { mem_used = m.mem_used ++ x ∷ [] })

  unfoldable pub add_pcie : Pcie → Float → Statement (Metrics F)
  add_pcie k x =
      assign (λ m. record m { pcie = λ j. if same_pcie j k then m.pcie j ++ x ∷ [] else m.pcie j })

  -- the throughput is the first line's
  unfoldable pub first_tput : String → Statement (Metrics F)
  first_tput line = do tput ← last_float line; when (lt zero_float tput) (add_tput tput); leave

  -- the throughput stands behind a label
  pub labelled_tput : String → Statement (Metrics F)
  labelled_tput line =
      when (starts_with line "Avg_iperf_tput:")
        (do tput ← last_float line; when (lt zero_float tput) (add_tput tput); leave)

  pub memory_row : Row → Statement (Metrics F)
  memory_row row = do t ← cell "mem_used" row; n ← from_option value_error (int t); add_mem_used n

  pub retx_line : String → Statement (Metrics F)
  retx_line line = do
    word ← first_word line
    if word =ₛ "Retx_percent:"
        then (do
          retx_pct ← last_float line
          when (le zero_float retx_pct) (add_retx retx_pct)
          leave)
        else when (word =ₛ "Recv:") (do sent ← last_float line; add_sent sent)

  pub membw_line : String → Statement (Metrics F)
  membw_line line = do
    word ← first_word line
    when (word =ₛ "Node0_total_bw:")
        (do membw ← last_float line; when (le zero_float membw) (add_mem_bw membw); leave)

  pub cpu_line : String → Statement (Metrics F)
  cpu_line line = do
    word ← first_word line
    when (word =ₛ "avg_cpu_util:")
        (do cpu_util ← last_float line; when (le zero_float cpu_util) (add_cpu cpu_util); leave)

  -- only the write throughput is tested
  unfoldable pub pcie_accepts : Pcie → Float → Bool
  pcie_accepts wr_tput x = le zero_float x
  pcie_accepts _ x = true

  unfoldable pub pcie_value : Pcie → String → Statement (Metrics F)
  pcie_value k line = do x ← last_float line; when (pcie_accepts k x) (add_pcie k x)

  unfoldable pub pcie_line : String → Statement (Metrics F)
  pcie_line line = do
    word ← first_word line
    elim (pcie_key word) [ none ↦ pass | some k ↦ pcie_value k line ]

  -- what the handler of the PCIe report does
  unfoldable pub pcie_zeros : Statement (Metrics F)
  pcie_zeros = do
    add_pcie wr_tput zero_float
    add_pcie first_lookup zero_float
    add_pcie all_lookup zero_float
    add_pcie miss zero_float
    add_pcie mem_access zero_float
    add_pcie inv zero_float
    add_pcie pwt_occupancy zero_float

  pub mlc_line : String → Statement (Metrics F)
  mlc_line line =
      when (starts_with line " 00000")
        (do tput ← last_float line; when (le zero_float tput) (add_mlc tput); leave)

  module _ (files : Files) where
    pub tput_part : (String → Statement (Metrics F)) → String → Statement (Metrics F)
    tput_part body path = with_open files path (λ lines. for lines body)

    pub memory_part : String → Statement (Metrics F)
    memory_part path =
        try_open (with_open files path (λ lines. for (dict_rows lines) memory_row)) pass

    pub retx_part : String → Statement (Metrics F)
    retx_part path = with_open files path (λ lines. for lines retx_line)

    -- `if os.path.exists(path): … else: mem_bws.append(0)`
    pub membw_part : String → Statement (Metrics F)
    membw_part path = elim (files path) [
      | none ↦ add_mem_bw zero_float
      | some lines ↦ try (for lines membw_line) (add_mem_bw zero_float)
    ]

    pub cpu_part : String → Statement (Metrics F)
    cpu_part path = with_open files path (λ lines. for lines cpu_line)

    unfoldable pub pcie_part : String → Statement (Metrics F)
    pcie_part path = try (with_open files path (λ lines. for lines pcie_line)) pcie_zeros

    -- the condition is `COLLECT_MLC_TPUT > 0 and False`
    pub mlc_part : ℕ → String → Statement (Metrics F)
    mlc_part collect_mlc path =
        when (ltb 0 collect_mlc && false) (with_open files path (λ lines. for lines mlc_line))
