-- ===== src/Metrics/Tests.antt =====
-- Runs of scripts/report-tput-metrics.py, and instances of what is proved.
use fast_and_safe_io_memory.Base.{
  zero, suc, ℤ, String, some, none, List, [], ◌∷◌, ◌≡◌, refl, ◌=ₛ◌, if◌then◌else◌, pos, arith,
}
use fast_and_safe_io_memory.Python.Exception.{Exception, ok}
use fast_and_safe_io_memory.Python.Text.{split}
use fast_and_safe_io_memory.Python.Text.Strip.{strip, join}
use fast_and_safe_io_memory.Python.Text.Path.{join_path}
use fast_and_safe_io_memory.Python.Number.{str, int}
use fast_and_safe_io_memory.Python.Floats.Whole.{whole_floats}
use fast_and_safe_io_memory.Python.Arrays.Whole.{whole_arrays, whole_arrays-HasColumns}
use fast_and_safe_io_memory.Python.Statement.{Files, next, raise}
use fast_and_safe_io_memory.Collect.Outcome.{columns}
use fast_and_safe_io_memory.Metrics.Read.{
  run_path, find_bounds, slice_lines, data_lines, section_of, between, csv_content, last_tput,
}
use fast_and_safe_io_memory.Metrics.Ebpf.{Pandas, get_ebpf_stats}
use fast_and_safe_io_memory.Metrics.Printed.{IsReported, main-lines}
use fast_and_safe_io_memory.Latency.Shape.{saved_headings}
use fast_and_safe_io_memory.Latency.Tests.{files, row, saved}
use fast_and_safe_io_memory.Metrics.Lat
use fast_and_safe_io_memory.Metrics.Lat.{LatFrames}
use fast_and_safe_io_memory.Metrics.Latencies.{
  column_of, IsFrameOf, AreColumns, report_lines, main-saved,
}
use fast_and_safe_io_memory.Metrics.Missing.{get_ebpf_stats-raises}

-- a table is its text
abbrev text_pandas : Pandas whole_floats
text_pandas = record {
  Frame = String;
  read_csv = λ content. ok content;
  to_string = λ frame pages. ok frame;
}

abbrev no_files : Files
no_files path = none

abbrev stats : List String
stats =
    "# eBPF\n" ∷ "# Per-Function Latency Statistics\n" ∷ "function,type,count\n"
    ∷ "iommu_map,-1,17\n" ∷ "\n" ∷ "# Per-Function Per-CPU Counts\n" ∷ "iommu_map,0,17\n" ∷ []

section_of_stats : csv_content stats ≡ ok (some "function,type,count\niommu_map,-1,17")
unfolding csv_content between section_of find_bounds slice_lines data_lines strip join
section_of_stats = refl

last_word : last_tput whole_floats ("0-1 sec 3\n" ∷ "Avg_iperf_tput: 97\n" ∷ []) ≡ ok (pos 97)
unfolding last_tput split int
last_word = refl

-- the third run has statistics
abbrev third_run : Files
third_run path = if path =ₛ run_path "exp" 2 "ebpf_guest_stats.csv" then some stats else none

main-lines_example :
    IsReported whole_floats (whole_arrays columns) text_pandas no_files "exp" "tput,IOMMU" columns
main-lines_example =
    main-lines whole_floats (whole_arrays columns) text_pandas no_files "exp" "tput,IOMMU" columns
      refl (whole_arrays-HasColumns columns) (λ i. refl) (λ i ls h. cc)

get_ebpf_stats-raises_example :
    (e : Exception) × ((get_ebpf_stats whole_floats text_pandas third_run "exp" []).1 ≡ raise e)
unfolding run_path join_path str
get_ebpf_stats-raises_example =
    get_ebpf_stats-raises whole_floats text_pandas third_run "exp" 2 stats
      "function,type,count\niommu_map,-1,17" "function,type,count\niommu_map,-1,17" (omega arith)
      refl section_of_stats refl refl []

abbrev lat_rows : List (List ℤ)
lat_rows = row 15 ∷ row 20 ∷ row 30 ∷ row 40 ∷ row 50 ∷ []

-- every column has the same values
abbrev lat_frames : LatFrames whole_floats
lat_frames = record {
  Frame = List (List ℤ);
  read_csv = λ path. ok lat_rows;
  field = λ name rs. ok (pos 15 ∷ pos 20 ∷ pos 30 ∷ pos 40 ∷ pos 50 ∷ []);
}

lat_frames-IsFrameOf : IsFrameOf whole_floats lat_frames saved_headings lat_rows lat_rows
unfolding column_of
lat_frames-IsFrameOf zero name xs h k = cc
lat_frames-IsFrameOf (suc zero) name xs h k = cc
lat_frames-IsFrameOf (suc (suc zero)) name xs h k = cc
lat_frames-IsFrameOf (suc (suc (suc zero))) name xs h k = cc
lat_frames-IsFrameOf (suc (suc (suc (suc zero)))) name xs h k = cc
lat_frames-IsFrameOf (suc (suc (suc (suc (suc i))))) name xs h k = cc

main-saved_example :
    (a b c d e : List ℤ) × AreColumns whole_floats lat_frames lat_rows 0 (a ∷ b ∷ c ∷ d ∷ e ∷ [])
    × (Lat.main whole_floats lat_frames "exp" []
        ≡ (report_lines whole_floats lat_frames "exp" a b c d e, next))
main-saved_example =
    main-saved whole_floats lat_frames files "exp" 2 saved_headings lat_rows lat_rows saved refl
      lat_frames-IsFrameOf
