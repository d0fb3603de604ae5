-- ===== src/Metrics/Main.antt =====
-- scripts/report-tput-metrics.py: the script, behind its two arguments.
use fast_and_safe_io_memory.Base.{String, map}
use fast_and_safe_io_memory.Python.Text.Path.{join_path, lower}
use fast_and_safe_io_memory.Python.Text.Strip.{split_on}
use fast_and_safe_io_memory.Python.Floats.{Floats}
use fast_and_safe_io_memory.Python.Arrays.{Arrays}
use fast_and_safe_io_memory.Python.Statement.{Statement, Files, ◌>>◌, ◌>>=◌}
use fast_and_safe_io_memory.Metrics.{Output, print_means, print_stddevs}
use fast_and_safe_io_memory.Metrics.Read.{read_values}
use fast_and_safe_io_memory.Metrics.Ebpf.{Pandas, get_ebpf_stats}

unfoldable pub main :
    (F : Floats) → Arrays F → Pandas F → Files → String → String → Statement Output
main F A P files exp_name metrics_arg =
    let metrics = map lower (split_on b',' metrics_arg) in
    do
      results ← A.genfromtxt (join_path (join_path "../utils/reports/" exp_name) "tput_metrics.dat")
      v ← read_values F A results
      print_means F A exp_name metrics results v
      get_ebpf_stats F P files exp_name
      print_stddevs F A exp_name metrics results v.tput
