-- ===== src/IperfLog/Tests.antt =====
-- Runs of the throughput readers of plots/siyuan_Evaluation_main.py, and an instance of what is proved.
use fast_and_safe_io_memory.Base.{
  String, none, some, List, [], ◌∷◌, ◌≡◌, refl, pos, ◌+ℤ◌, ◌-ℤ◌, ◌=ₛ◌, if◌then◌else◌,
}
use fast_and_safe_io_memory.Python.Text.{split, strip_right}
use fast_and_safe_io_memory.Python.Pattern.{after_text}
use fast_and_safe_io_memory.Python.Number.{int, str}
use fast_and_safe_io_memory.Python.Floats.Whole.{whole_floats, quotient}
use fast_and_safe_io_memory.Python.Statement.{Files}
use fast_and_safe_io_memory.IperfLog.{
  replace, replace_on, is_interval, Numpy, field_of, sum_lines, get_iperf_tput_from_log, log_path,
  mean_and_std, get_tput_from_iperf_logs,
}
use fast_and_safe_io_memory.IperfLog.Means.{run_tputs, get_tput-means}

abbrev log : List String
log =
    "[ 5] 60.00-90.00 sec 1 GBytes 3000 Mbits/sec\n"
    ∷ "[ 7] 60.00-90.00 sec 2 GBytes 5000 Mbits/sec\n"
    ∷ "[ 7] 0.00-30.00 sec 2 GBytes 7000 Mbits/sec\n" ∷ []

abbrev files : Files
files path = if path =ₛ "u/logs/e-RUN-0/iperf.bw.log" then some log else none

path_of_run : log_path "u/reports/e/" 7 ≡ "u/logs/e-RUN-7/iperf.bw.log"
unfolding log_path replace replace_on after_text strip_right str
path_of_run = refl

log_read : get_iperf_tput_from_log whole_floats files "u/logs/e-RUN-0/iperf.bw.log" ≡ some (pos 8)
unfolding get_iperf_tput_from_log sum_lines is_interval field_of split int quotient ◌+ℤ◌ ◌-ℤ◌
log_read = refl

abbrev numpy : Numpy whole_floats
numpy = record { mean = whole_floats.mean_of; std = whole_floats.stdev_of }

get_tput-means_example :
    get_tput_from_iperf_logs whole_floats numpy files "u/reports/e"
    ≡ mean_and_std whole_floats numpy (run_tputs whole_floats files "u/reports/e" 0 20)
get_tput-means_example = get_tput-means whole_floats numpy files "u/reports/e"
