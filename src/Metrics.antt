-- ===== src/Metrics.antt =====
-- scripts/report-tput-metrics.py: the report that is printed of the saved metrics of an experiment.
pub mod Read
pub mod Ebpf
pub mod Main
pub mod Prints
pub mod Lines
pub mod Printed
pub mod Bounds
pub mod Missing
pub mod Lat
pub mod Latencies
mod Tests
use fast_and_safe_io_memory.Base.{String, ◌<>◌, Bool, ◌||◌, not, List, [], ◌∷◌, ◌++◌, if◌then◌else◌}
use fast_and_safe_io_memory.Python.Exception.{Result, ok, system_exit}
use fast_and_safe_io_memory.Python.Text.{member}
use fast_and_safe_io_memory.Python.Text.Path.{join_path}
use fast_and_safe_io_memory.Python.Floats.{Floats, nat}
use fast_and_safe_io_memory.Python.Arrays.{Arrays}
use fast_and_safe_io_memory.Python.Statement.{
  Statement, pass, throw, assign, when, try, ◌>>◌, ◌>>=◌,
}

-- the lines printed so far
abbrev pub Output : Type 0
Output = List String

abbrev pub print : String → Statement Output
print line = assign (λ out. out ++ line ∷ [])

-- is a part of the report asked for?
unfoldable pub wants : List String → String → Bool
wants metrics part = member part metrics || member "all" metrics

module _ (F : Floats) (A : Arrays F) where
  open F use {Float, mul, div, decimal, show}
  open A use {Table, field}

  -- the last quotient is one of numbers of numpy
  unfoldable pub per_page : Float → Float → Float
  per_page value tput_gbps_mean =
      let tput_bps = mul tput_gbps_mean (decimal 1000000000 0) in
      let tput_Bps = div tput_bps (nat F 8) in A.divide value (div tput_Bps (nat F 4096))

  -- the values that are read before anything is printed
  pub record Values : Type 0 where
    pub tput : Float
    pub drop_rate : Float
    pub cpu : Float
    pub pwt : Float
    pub acks_page : Float
    pub iotlb_miss_page : Float
    pub iotlb_flkp_page : Float
    pub iotlb_alllkp_page : Float
    pub iommu_mem_access_page : Float
    pub iotlb_inv_page : Float

  unfoldable pub print_iommu : Values → Statement Output
  print_iommu v = do
    print "Per page stats:"
    print ("\tIOTLB Miss: " <> show v.iotlb_miss_page)
    print ("\tIOTLB First Lookup: " <> show v.iotlb_flkp_page)
    print ("\tIOTLB All Lookups: " <> show v.iotlb_alllkp_page)
    print ("\tIOTLB Inv: " <> show v.iotlb_inv_page)
    print ("\tIOMMU Mem Access: " <> show v.iommu_mem_access_page)
    print ("\tPWT Occupancy: " <> show v.pwt)

  -- the part that some runs have no values for
  unfoldable pub print_memory : Table → Statement Output
  print_memory results =
      try
        (do
          mean ← field "mem_mean" results
          print ("Mean Memory: " <> show mean)
          largest ← field "mem_max" results
          print ("Max Memory: " <> show largest))
        pass

  unfoldable pub print_means : String → List String → Table → Values → Statement Output
  print_means exp_name metrics results v = do
    print ("------- " <> exp_name <> " Run Metrics -------")
    when (wants metrics "tput") (print ("Throughput: " <> show v.tput))
    when (wants metrics "cpu") (print ("CPU Util: " <> show v.cpu))
    when (wants metrics "drops") (print ("Drop rate: " <> show v.drop_rate))
    when (wants metrics "acks") (print ("Acks per page: " <> show v.acks_page))
    print_memory results
    when (wants metrics "iommu") (print_iommu v)

  -- the deviations, which a single run has none of
  unfoldable pub print_stddevs : String → List String → Table → Float → Statement Output
  print_stddevs exp_name metrics results tput = do
    d ← field "net_tput_stddev" results
    if F.is_zero d then (print "" >> throw system_exit) else (do
      print ("------- " <> exp_name <> " Run Metrics stddev -------")
      when (wants metrics "tput")
          (do x ← field "net_tput_stddev" results; print ("Throughput: " <> show x))
      when (wants metrics "cpu")
          (do x ← field "cpu_utils_stddev" results; print ("CPU Util: " <> show x))
      when (wants metrics "drops")
          (do x ← field "retx_rate_stddev" results; print ("Drop rate: " <> show x))
      when (wants metrics "acks") (do
        x ← field "sent_packets_stddev" results
        print ("Acks per page: " <> show (per_page x tput)))
      print "")
