-- ===== src/Virt3.antt =====
-- plots/plot_3virt.py: the charts of the three ways to give a guest an IOMMU.
pub mod Draw
pub mod Plans
pub mod Saved
pub mod Collected
mod Tests
use fast_and_safe_io_memory.Base.{String, ◌<>◌, List, [], ◌∷◌, ◌++◌}
use fast_and_safe_io_memory.Python.Exception
use fast_and_safe_io_memory.Python.Exception.{Result, ok, traverse, ◌>>=◌}
use fast_and_safe_io_memory.Python.Floats.{Floats, nat}
use fast_and_safe_io_memory.Python.Arrays.{Arrays}

abbrev pub flow_labels : List String
flow_labels = "20" ∷ "40" ∷ "60" ∷ "80" ∷ "160" ∷ []

abbrev pub ring_labels : List String
ring_labels = "256" ∷ "512" ∷ "1024" ∷ "2048" ∷ []

-- the report of a folder
abbrev pub report_path : String → String
report_path folder = "../utils/reports/" <> folder <> "/tput_metrics.dat"

-- the folders of `get_data` and `get_data_ring`
unfoldable pub flow_folder : String → String → String → String → String
flow_folder prefix iommu_str suffix f = prefix <> "flow" <> f <> "-" <> iommu_str <> suffix

unfoldable pub ring_folder : String → String → String → String
ring_folder prefix iommu_str x = prefix <> iommu_str <> "-ring_buffer-" <> x

module _ (F : Floats) (A : Arrays F) where
  open F use {Float, div, mul}
  open A use {Table, genfromtxt, field}

  abbrev pub parse_results : String → Result Table
  parse_results path = genfromtxt path

  unfoldable pub get_data : String → String → List String → String → Result (List Table)
  get_data prefix iommu_str flows suffix =
      traverse (λ f. parse_results (report_path (flow_folder prefix iommu_str suffix f))) flows

  unfoldable pub get_data_ring : String → String → Result (List Table)
  get_data_ring prefix iommu_str =
      traverse (λ x. parse_results (report_path (ring_folder prefix iommu_str x)))
        ("0256" ∷ "0512" ∷ "1024" ∷ "2048" ∷ [])

  -- the quotient of two numbers of numpy raises nothing
  unfoldable pub misses_per_page : Float → Float → Float
  misses_per_page misses tput_mean =
      let mbs_per_second = mul tput_mean (nat F 125) in
      let descriptors_per_second = mul mbs_per_second (nat F 4) in
      div (A.divide misses descriptors_per_second) (nat F 64)

  pub record Pages : Type 0 where
    pub iotlb_miss_page : List Float
    pub l1_miss_page : List Float
    pub l2_miss_page : List Float
    pub l3_miss_page : List Float
    pub acks_page : List Float

  -- the loop over the tables
  unfoldable pub read_pages : List Table → Pages → Result Pages
  read_pages [] p = ok p
  read_pages (t ∷ data') p = do
    tp ← field "net_tput_mean" t
    iotlb ← field "iotlb_misses_mean" t
    l1 ← field "l1_misses_mean" t
    l2 ← field "l2_misses_mean" t
    l3 ← field "l3_misses_mean" t
    sent ← field "sent_packets_mean" t
    read_pages data' record {
      iotlb_miss_page = p.iotlb_miss_page ++ misses_per_page iotlb tp ∷ [];
      l1_miss_page = p.l1_miss_page ++ misses_per_page l1 tp ∷ [];
      l2_miss_page = p.l2_miss_page ++ misses_per_page l2 tp ∷ [];
      l3_miss_page = p.l3_miss_page ++ misses_per_page l3 tp ∷ [];
      acks_page = p.acks_page ++ misses_per_page (div sent (nat F 20)) tp ∷ [];
    }

  unfoldable pub get_misses_per_page : List Table → Result Pages
  get_misses_per_page data' = read_pages data' record {
    iotlb_miss_page = [];
    l1_miss_page = [];
    l2_miss_page = [];
    l3_miss_page = [];
    acks_page = [];
  }
