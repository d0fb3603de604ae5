-- ===== src/Breakdown/Tests.antt =====
-- Runs of plots/siyuan_invalidation_breakdown.py on small files, and instances of what is proved of it.
use fast_and_safe_io_memory.Base.{
  String, true, false, none, some, List, [], ◌∷◌, ◌++◌, ◌≡◌, refl, ℤ, pos, ◌-ℤ◌,
}
use fast_and_safe_io_memory.Python.Exception.{ok}
use fast_and_safe_io_memory.Python.Pattern.{span}
use fast_and_safe_io_memory.Python.Number.{int}
use fast_and_safe_io_memory.Python.Csv.{Row, dict_rows}
use fast_and_safe_io_memory.Python.Floats.Whole.{whole_floats}
use fast_and_safe_io_memory.Python.Statement.{Files}
use fast_and_safe_io_memory.Python.Dict.{get, put}
use fast_and_safe_io_memory.Breakdown.{
  strip, is_title, is_comment, find_bounds, take, drop, data_lines, same_name, name_key, cell_of,
  Stats, collect, parse_section, parse_aggregate_stats, read_tput, get_tput_from_dat, Point,
  max_zero, point_of, read_points,
}
use fast_and_safe_io_memory.Breakdown.Section.{Plain, Ends, parse-section_lines}
use fast_and_safe_io_memory.Breakdown.Points.{last_mean, point_of-rows}

abbrev title : String
title = "# Per-Function Latency Statistics\n"

abbrev header : String
header = "function,mean_ns\n"

abbrev body : List String
body =
    "cache_tag_flush_range,90\n" ∷ "\n" ∷ "qi_submit_sync,40\n" ∷ "cache_tag_flush_iotlb,30\n" ∷ []

abbrev file : List String
file = "# eBPF\n" ∷ title ∷ header ∷ body ++ "# Per-CPU\n" ∷ []

abbrev rows : List Row
rows = dict_rows (strip header ∷ data_lines body)

abbrev stats : Stats whole_floats
stats =
    (some "cache_tag_flush_range", pos 90)
    ∷ (some "qi_submit_sync", pos 40)
    ∷ (some "cache_tag_flush_iotlb", pos 30)
    ∷ []

abbrev point : Point whole_floats
point = record { tput = none; ir_sub = pos 40; ir_prep = pos 30; lock_contention = pos 20 }

abbrev files : Files
files path = some file

-- the file of the statistics is read as a throughput report here, and shows none
one_point :
    read_points whole_floats files ("exp-" ∷ [])
    ≡ ok (
        record { tput = some (pos 0); ir_sub = pos 40; ir_prep = pos 30; lock_contention = pos 20 }
        ∷ [])
unfolding read_points parse_aggregate_stats parse_section find_bounds is_title is_comment strip span
    take drop data_lines dict_rows collect cell_of same_name get put int get_tput_from_dat read_tput
    point_of ◌-ℤ◌
one_point = refl

collected : collect whole_floats rows [] ≡ ok stats
unfolding dict_rows strip span data_lines is_comment collect cell_of same_name put int
collected = refl

pointed : point_of whole_floats none stats ≡ ok point
unfolding point_of get same_name ◌-ℤ◌
pointed = refl

body-Plain :
    Plain header
    × (Plain "cache_tag_flush_range,90\n"
        × (Plain "\n"
            × (Plain "qi_submit_sync,40\n" × (Plain "cache_tag_flush_iotlb,30\n" × Unit {0}))))
unfolding is_title is_comment strip span
body-Plain = ((refl, refl), ((refl, refl), ((refl, refl), ((refl, refl), ((refl, refl), tt)))))

before_title : (is_title "# eBPF\n" ≡ false) × Unit {0}
unfolding is_title strip span
before_title = (refl, tt)

title_found : is_title title ≡ true
unfolding is_title strip span
title_found = refl

tail-Ends : Ends ("# Per-CPU\n" ∷ [])
unfolding is_title is_comment strip span
tail-Ends = (refl, refl)

parse-section_lines_example :
    parse_aggregate_stats whole_floats
      (("# eBPF\n" ∷ []) ++ title ∷ header ∷ (body ++ "# Per-CPU\n" ∷ []))
    ≡ collect whole_floats rows []
parse-section_lines_example =
    parse-section_lines whole_floats ("# eBPF\n" ∷ []) body ("# Per-CPU\n" ∷ []) title header
      before_title title_found body-Plain tail-Ends

point_of-rows_example :
    (last_mean whole_floats (some "qi_submit_sync") rows ≡ some point.ir_sub)
    × (last_mean whole_floats (some "cache_tag_flush_iotlb") rows ≡ some point.ir_prep)
    × ((flush : ℤ) × (last_mean whole_floats (some "cache_tag_flush_range") rows ≡ some flush)
        × (point.lock_contention
            ≡ max_zero whole_floats ((flush -ℤ point.ir_sub) -ℤ point.ir_prep)))
point_of-rows_example = point_of-rows whole_floats rows stats none point collected pointed
