-- ===== src/Metrics/Read.antt =====
-- scripts/report-tput-metrics.py: the values that are read, and the reports of single runs.
use fast_and_safe_io_memory.Base.{
  ℕ, zero, suc, ◌+◌, ◌-◌, leb, String, ◌<>◌, ◌||◌, Option, none, some, List, [], ◌∷◌, ◌=ₛ◌,
  get_elem?, get_last?, starts_with, if◌then◌else◌,
}
use fast_and_safe_io_memory.Python.Exception.{Result, ok, index_error, from_option, ◌>>=◌}
use fast_and_safe_io_memory.Python.Text.{split}
use fast_and_safe_io_memory.Python.Text.Path.{join_path}
use fast_and_safe_io_memory.Python.Text.Strip.{strip, join}
use fast_and_safe_io_memory.Python.Number.{str}
use fast_and_safe_io_memory.Python.Floats.{Floats, nat, float}
use fast_and_safe_io_memory.Python.Arrays.{Arrays}
use fast_and_safe_io_memory.Metrics.{Values, per_page}

unfoldable pub read_values : (F : Floats) (A : Arrays F) → A.Table → Result (Values F A)
read_values F A results = do
  tput ← A.field "net_tput_mean" results
  sent ← A.field "sent_packets_mean" results
  drop_rate ← A.field "retx_rate_mean" results
  cpu ← A.field "cpu_utils_mean" results
  pwt ← A.field "pwt_occupancy_mean" results
  miss ← A.field "iotlb_miss_mean" results
  flkp ← A.field "iotlb_first_lookup_mean" results
  alllkp ← A.field "iotlb_all_lookup_mean" results
  mem_access ← A.field "iommu_mem_access_mean" results
  inv ← A.field "iotlb_inv_mean" results
  ok record {
    tput = tput;
    drop_rate = drop_rate;
    cpu = cpu;
    pwt = pwt;
    acks_page = per_page F A (F.div sent (nat F 20)) tput;
    iotlb_miss_page = per_page F A miss tput;
    iotlb_flkp_page = per_page F A flkp tput;
    iotlb_alllkp_page = per_page F A alllkp tput;
    iommu_mem_access_page = per_page F A mem_access tput;
    iotlb_inv_page = per_page F A inv tput;
  }

-- the path of a report of a run
unfoldable pub run_path : String → ℕ → String → String
run_path exp_name run_id file =
    join_path (join_path "../utils/reports/" (exp_name <> "-RUN-" <> str run_id)) file

-- `start_idx` and `end_idx`, looked for from a line on
unfoldable pub find_bounds : ℕ → Option ℕ → List String → Option ℕ × Option ℕ
find_bounds i start [] = (start, none)
find_bounds i start (l ∷ ls) =
    let start' =
      if starts_with (strip l) "# Per-Function Latency Statistics" then some (i + 1) else start in
    let rest = find_bounds (i + 1) start' ls in
    if starts_with (strip l) "# Per-Function Per-CPU Counts" then (start', some i) else rest

-- `lines[from:to]` of a list
unfoldable pub slice_lines : ℕ → ℕ → List String → List String
slice_lines from to lines = take (to - from) (drop from lines)
  where
    drop : ℕ → List String → List String
    drop zero ls = ls
    drop (suc n) [] = []
    drop (suc n) (l ∷ ls) = drop n ls

    take : ℕ → List String → List String
    take zero ls = []
    take (suc n) [] = []
    take (suc n) (l ∷ ls) = l ∷ take n ls

-- the stripped lines that are not blank and no comments
unfoldable pub data_lines : List String → List String
data_lines [] = []
data_lines (l ∷ ls) =
    let rest = data_lines ls in
    if strip l =ₛ "" || starts_with (strip l) "#" then rest else strip l ∷ rest

-- the texts that are joined, of a section between two lines
unfoldable pub section_of : ℕ → ℕ → List String → Result (Option String)
section_of start end lines = if leb end start then ok none else (do
  header ← from_option index_error (get_elem? lines start)
  ok (some (strip header <> ("\n" <> join "\n" (data_lines (slice_lines (start + 1) end lines))))))

-- no section without its two ends
unfoldable pub between : List String → Option ℕ × Option ℕ → Result (Option String)
between lines (none, end) = ok none
between lines (some start, none) = ok none
between lines (some start, some end) = section_of start end lines

-- `csv_content`, none where there is no section
unfoldable pub csv_content : List String → Result (Option String)
csv_content lines = between lines (find_bounds 0 none lines)

-- the last word of the last line of a throughput report, as a float
unfoldable pub last_tput : (F : Floats) → List String → Result F.Float
last_tput F lines = do
  line ← from_option index_error (get_last? lines)
  word ← from_option index_error (get_last? (split line))
  float F word
