-- ===== src/Metrics/Lat.antt =====
-- scripts/report-lat-metrics.py: the report that is printed of the saved latencies. What pandas reads is
-- a parameter.
use fast_and_safe_io_memory.Base.{String, ◌<>◌, List, [], ◌∷◌}
use fast_and_safe_io_memory.Python.Exception.{Result}
use fast_and_safe_io_memory.Python.Text.Path.{join_path}
use fast_and_safe_io_memory.Python.Floats.{Floats}
use fast_and_safe_io_memory.Python.Statement.{Statement, for, ◌>>◌, ◌>>=◌}
use fast_and_safe_io_memory.Metrics.{Output, print}

-- What the script uses of pandas: the table of a CSV file, and the values of a column, the KeyError
-- for another name.
pub record LatFrames (F : Floats) : Type 1 where
  pub Frame : Type 0
  pub read_csv : String → Result Frame
  pub field : String → Frame → Result (List F.Float)

abbrev pub zip {ℓ κ} : {A : Type ℓ} {B : Type κ} → List A → List B → List (A × B)
zip [] bs = []
zip (a ∷ as') [] = []
zip (a ∷ as') (b ∷ bs) = (a, b) ∷ zip as' bs

abbrev pub lats : List String
lats = "p50" ∷ "p90" ∷ "p99" ∷ "p999" ∷ "p9999" ∷ []

module _ (F : Floats) (P : LatFrames F) where
  open F use {Float, show}

  unfoldable pub print_lat : List Float → Statement Output
  print_lat lat_list =
      for (zip lats lat_list) λ (lat, latency). print ("\t" <> (lat <> (": " <> show latency)))

  unfoldable pub main : String → Statement Output
  main exp_name = do
    results ← P.read_csv (join_path (join_path "../utils/reports/" exp_name) "lat_metrics.dat")
    print ("------- " <> exp_name <> " Run Latency (p50, p90, p99, p999, p9999) -------")
    print "128B Request size"
    a ← P.field "128" results
    print_lat a
    print "512B Request size"
    b ← P.field "512" results
    print_lat b
    print "2KB Request size"
    c ← P.field "2048" results
    print_lat c
    print "8KB Request size"
    d ← P.field "8192" results
    print_lat d
    print "32KB Request size"
    e ← P.field "32768" results
    print_lat e
