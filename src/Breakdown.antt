-- ===== src/Breakdown.antt =====
-- plots/siyuan_invalidation_breakdown.py: the throughput and the latencies of the invalidation steps
-- of each experiment, up to the drawing.
pub mod Section
pub mod Points
mod Tests
use Prim.Native.Char.{Char, code}
use fast_and_safe_io_memory.Base.{
  ℕ, zero, suc, ◌+◌, ◌-◌, leb, String, ◌<>◌, Bool, true, false, not, ◌&&◌, Option, none, some, List,
  [], ◌∷◌, ◌++◌, pos, length, get_elem?, get_last?, ◌=ₛ◌, eq_iff, starts_with, ◌≡◌, refl, arith,
  ◌↔◌, if◌then◌else◌,
}
use fast_and_safe_io_memory.Python.Exception.{
  Result, ok, raise, key_error, type_error, value_error, index_error, file_not_found, from_option,
  ◌>>=◌,
}
use fast_and_safe_io_memory.Python.Text.{is_space, split, strip_right}
use fast_and_safe_io_memory.Python.Pattern.{span, is_empty}
use fast_and_safe_io_memory.Python.Csv.{Row, dict_rows}
use fast_and_safe_io_memory.Python.Dict.{Dict, Key, get, put, text_key}
use fast_and_safe_io_memory.Python.Floats.{Floats, float}
use fast_and_safe_io_memory.Python.Statement.{Files}

-- `text.strip()`
strip_end : String → String
strip_end String.[] = String.[]
strip_end (String.◌∷◌ c s) =
    let rest = strip_end s in
    if is_space (code c) && is_empty rest then String.[] else String.◌∷◌ c rest

unfoldable pub strip : String → String
unfolding strip_end
strip s = strip_end (span is_space s).1

unfoldable pub is_title : String → Bool
is_title line = starts_with (strip line) "# Per-Function Latency Statistics"

unfoldable pub is_comment : String → Bool
is_comment line = starts_with (strip line) "#"

abbrev pub is_some {ℓ} : {A : Type ℓ} → Option A → Bool
is_some none = false
is_some (some a) = true

-- `start_idx` and `end_idx`, from the line number `i` on
unfoldable pub find_bounds : ℕ → Option ℕ → List String → Option ℕ × Option ℕ
find_bounds i start [] = (start, none)
find_bounds i start (l ∷ ls) =
    let rest = find_bounds (suc i) (if is_title l then some (suc i) else start) ls in
    if not (is_title l) && (is_some start && is_comment l) then (start, some i) else rest

abbrev pub end_or : ℕ → Option ℕ → ℕ
end_or n none = n
end_or n (some e) = e

-- the two parts of `lines[a:b]`
unfoldable pub take : ℕ → List String → List String
take zero ls = []
take (suc n) [] = []
take (suc n) (l ∷ ls) = l ∷ take n ls

unfoldable pub drop : ℕ → List String → List String
drop zero ls = ls
drop (suc n) [] = []
drop (suc n) (l ∷ ls) = drop n ls

-- `data_lines`
unfoldable pub data_lines : List String → List String
data_lines [] = []
data_lines (l ∷ ls) =
    if not (is_empty (strip l)) && not (is_comment l)
    then strip l ∷ data_lines ls
    else data_lines ls

-- a cell, none for None
unfoldable pub cell_of : String → Row → Result (Option String)
cell_of k [] = raise key_error
cell_of k ((j, c) ∷ r) = if j =ₛ k then ok c else cell_of k r

unfoldable pub same_name : Option String → Option String → Bool
same_name none none = true
same_name (some a) (some b) = a =ₛ b
same_name _ _ = false

pub same_name_iff : (a b : Option String) → (same_name a b ≡ true) ↔ (a ≡ b)
unfolding same_name
same_name_iff none none = ground arith
same_name_iff none (some b) = ground arith
same_name_iff (some a) none = ground arith
same_name_iff (some a) (some b) = ground (arith, eq_iff a b)

instance abbrev pub name_key : Key (Option String)
name_key = record { same = same_name; same_iff = same_name_iff }

module _ (F : Floats) where
  open F use {Float, of_int, sub, lt}

  abbrev pub Stats : Type 0
  Stats = Dict (Option String) Float

  -- `float(cell)`, a TypeError for None
  abbrev pub float_cell : Option String → Result Float
  float_cell none = raise type_error
  float_cell (some t) = float F t

  -- the loop over the rows
  unfoldable pub collect : List Row → Stats → Result Stats
  collect [] stats = ok stats
  collect (row ∷ rows) stats = do
    text ← cell_of "mean_ns" row
    mean ← float_cell text
    name ← cell_of "function" row
    collect rows (put name mean stats)

  -- `parse_aggregate_stats`, behind the opening of the file
  unfoldable pub parse_section : List String → Option ℕ × Option ℕ → Result Stats
  parse_section lines (none, end) = raise value_error
  parse_section lines (some start, end) = do
    header ← from_option index_error (get_elem? lines start)
    collect
        (dict_rows (
          strip header
          ∷ data_lines (take (end_or (length lines) end - (start + 1)) (drop (start + 1) lines))))
        []

  unfoldable pub parse_aggregate_stats : List String → Result Stats
  parse_aggregate_stats lines = parse_section lines (find_bounds 0 none lines)

  -- the loop over iperf.bw.rpt
  unfoldable pub read_tput : List String → Float
  read_tput [] = of_int (pos 0)
  read_tput (l ∷ ls) =
      let later = read_tput ls in
      if starts_with l "Avg_iperf_tput:"
      then (if leb 2 (length (split l))
          then elim (get_last? (split l)) [
            | none ↦ of_int (pos 0)
            | some t ↦ elim (F.parse t) [ none ↦ of_int (pos 0) | some x ↦ x ]
          ]
          else of_int (pos 0))
      else later

  -- `get_tput_from_dat`, for run 0
  unfoldable pub get_tput_from_dat : Files → String → Option Float
  get_tput_from_dat files exp = elim (files (strip_right b'/' exp <> "RUN-0/iperf.bw.rpt")) [
    | none ↦ none
    | some lines ↦ some (read_tput lines)
  ]

  -- the values of an experiment
  pub record Point : Type 0 where
    pub tput : Option Float
    pub ir_sub : Float
    pub ir_prep : Float
    pub lock_contention : Float

  -- `max(x, 0)`
  abbrev pub max_zero : Float → Float
  max_zero x = if lt x (of_int (pos 0)) then of_int (pos 0) else x

  unfoldable pub point_of : Option Float → Stats → Result Point
  point_of tput stats = do
    flush_range ← from_option key_error (get (some "cache_tag_flush_range") stats)
    qi_submit ← from_option key_error (get (some "qi_submit_sync") stats)
    flush_iotlb ← from_option key_error (get (some "cache_tag_flush_iotlb") stats)
    ok (record {
      tput = tput;
      ir_sub = qi_submit;
      ir_prep = flush_iotlb;
      lock_contention = max_zero (sub (sub flush_range qi_submit) flush_iotlb);
    })

  -- the loop over the experiments
  unfoldable pub read_points : Files → List String → Result (List Point)
  read_points files [] = ok []
  read_points files (exp ∷ exps) = do
    lines ← from_option file_not_found (files (exp <> "RUN-0/ebpf_guest_stats.csv"))
    stats ← parse_aggregate_stats lines
    point ← point_of (get_tput_from_dat files exp) stats
    points ← read_points files exps
    ok (point ∷ points)
