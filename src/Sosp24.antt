-- ===== src/Sosp24.antt =====
-- scripts/sosp24-experiments/plot_vm.py and plot.py: the charts of the two experiments of the paper.
pub mod Vm
pub mod Pair
mod Tests
use fast_and_safe_io_memory.Base.{String, ◌<>◌}

-- the report of a folder
abbrev pub report_path : String → String
report_path folder = "../../utils/reports/" <> folder <> "/tput_metrics.dat"

unfoldable pub flow_folder : String → String → String → String → String
flow_folder prefix iommu_str suffix f = prefix <> "flow" <> f <> "-" <> iommu_str <> suffix
