-- ===== src/Metrics/Latencies.antt =====
-- scripts/report-lat-metrics.py on the table that scripts/collect-lat-stats.py saves.
use fast_and_safe_io_memory.Base.{
  ℕ, zero, suc, ◌<◌, String, ◌<>◌, Option, none, some, List, [], ◌∷◌, ◌++◌, flat_map, ◌≡◌, refl, ap,
  sym, ◌∙◌, subst, arith, length, get_elem?,
}
use fast_and_safe_io_memory.Python.Exception.{ok}
use fast_and_safe_io_memory.Python.Text.Path.{join_path}
use fast_and_safe_io_memory.Python.Floats.{Floats}
use fast_and_safe_io_memory.Python.Statement.{Statement, Files, next, ◌>>◌}
use fast_and_safe_io_memory.Latency.{rpc_sizes, headings}
use fast_and_safe_io_memory.Latency
use fast_and_safe_io_memory.Latency.Shape.{
  HaveLength, main-HaveLength, saved_headings, headings-saved,
}
use fast_and_safe_io_memory.Metrics.{Output, print}
use fast_and_safe_io_memory.Metrics.Prints.{Prints, >>-Prints, for-Prints}
use fast_and_safe_io_memory.Metrics.Lat.{LatFrames, zip, lats, print_lat, main}

module _ (F : Floats) where
  open F use {Float, show}

  put_cell : Option Float → Option (List Float) → Option (List Float)
  put_cell none col = none
  put_cell (some x) none = none
  put_cell (some x) (some xs) = some (x ∷ xs)

  -- the values of all rows at a place
  unfoldable pub column_of : ℕ → List (List Float) → Option (List Float)
  unfolding put_cell
  column_of i [] = some []
  column_of i (r ∷ rs) = let rest = column_of i rs in put_cell (get_elem? r i) rest

  cell : (r : List Float) (i : ℕ) → i < length r → (x : Float) × (get_elem? r i ≡ some x)
  cell [] i h = let no : ⊥ = omega arith in elim no [ ]
  cell (x ∷ r) zero h = (x, refl)
  cell (x ∷ r) (suc i) h = cell r i (omega arith)

  column_of-some :
      (i : ℕ) (rs : List (List Float))
      → i < 5
      → HaveLength F 5 rs
      → (xs : List Float) × (column_of i rs ≡ some xs) × (length xs ≡ length rs)
  unfolding column_of
  column_of-some i [] small _ = ([], refl, refl)
  column_of-some i (r ∷ rs) small (h, hs) =
      let (x, ex) = cell r i (omega arith) in
      let (xs, exs, same) = column_of-some i rs small hs in
      (x ∷ xs, rw (ex, exs) refl, ap (λ n. suc n) same)

  abbrev pub lat_lines : List Float → List String
  lat_lines xs = flat_map (λ (lat, x). ("\t" <> (lat <> (": " <> show x))) ∷ []) (zip lats xs)

  print_lat-Prints :
      (P : LatFrames F) (xs : List Float) → Prints (print_lat F P xs) (lat_lines xs) next
  unfolding print_lat
  print_lat-Prints P xs = for-Prints _ _ (λ a out. refl) (zip lats xs)

module _ (F : Floats) (P : LatFrames F) where
  open F use {Float}

  -- the frame has a column for each heading, with the values of the rows
  abbrev pub IsFrameOf : List String → List (List Float) → P.Frame → Type 0
  IsFrameOf hs rs frame =
      (i : ℕ) (name : String) (xs : List Float)
      → get_elem? hs i ≡ some name
      → column_of F i rs ≡ some xs
      → P.field name frame ≡ ok xs

  -- the report, of the five columns of a table
  abbrev pub report_lines : String → (a b c d e : List Float) → List String
  report_lines exp_name a b c d e =
      ("------- " <> exp_name <> " Run Latency (p50, p90, p99, p999, p9999) -------")
      ∷ "128B Request size"
      ∷ (lat_lines F a
          ++ ("512B Request size"
              ∷ (lat_lines F b
                  ++ ("2KB Request size"
                      ∷ (lat_lines F c
                          ++ ("8KB Request size"
                              ∷ (lat_lines F d ++ ("32KB Request size" ∷ lat_lines F e))))))))

  -- each column is that of the table, with a value for each of the five percentiles
  abbrev pub AreColumns : List (List Float) → ℕ → List (List Float) → Type 0
  AreColumns rs i [] = Unit
  AreColumns rs i (xs ∷ cols) =
      (column_of F i rs ≡ some xs) × (length xs ≡ 5) × AreColumns rs (suc i) cols

  title-Prints :
      (title : String) {k : Statement Output} {ls : List String}
      → Prints k ls next
      → Prints (print title >> k) (title ∷ ls) next
  title-Prints title {k} h = >>-Prints (print title) k (λ out. refl) h

  column-Prints :
      (xs : List Float) {k : Statement Output} {ls : List String}
      → Prints k ls next
      → Prints (print_lat F P xs >> k) (lat_lines F xs ++ ls) next
  column-Prints xs {k} h = >>-Prints (print_lat F P xs) k (print_lat-Prints F P xs) h

  -- a column of a saved table, as the frame has it
  column-read :
      (hs : List String) (rs : List (List Float)) (frame : P.Frame)
      → IsFrameOf hs rs frame
      → length rs ≡ 5
      → HaveLength F 5 rs
      → (i : ℕ) (name : String) → i < 5
      → get_elem? hs i ≡ some name
      → (xs : List Float) × ((column_of F i rs ≡ some xs) × (length xs ≡ 5))
        × (P.field name frame ≡ ok xs)
  column-read hs rs frame is_frame five each i name small here =
      let (xs, exs, same) = column_of-some F i rs small each in
      (xs, (exs, same ∙ five), is_frame i name xs here exs)

  main-Prints :
      (exp_name : String) (frame : P.Frame) (a b c d e : List Float)
      → P.read_csv (join_path (join_path "../utils/reports/" exp_name) "lat_metrics.dat") ≡ ok frame
      → P.field "128" frame ≡ ok a
      → P.field "512" frame ≡ ok b
      → P.field "2048" frame ≡ ok c
      → P.field "8192" frame ≡ ok d
      → P.field "32768" frame ≡ ok e
      → Prints (main F P exp_name) (report_lines exp_name a b c d e) next
  unfolding main
  main-Prints exp_name frame a b c d e read ha hb hc hd he =
      rw (read, ha, hb, hc, hd, he)
        (title-Prints _ (
          title-Prints _ (
            column-Prints a (
              title-Prints _ (
                column-Prints b (
                  title-Prints _ (
                    column-Prints c (
                      title-Prints _
                        (column-Prints d (title-Prints _ (print_lat-Prints F P e)))))))))))

-- A table that scripts/collect-lat-stats.py saved, read back by pandas float by float: its report has,
-- for each of the five sizes, the column of the size in the saved rows, with the five percentiles in
-- the order of the rows, and the script ends with no exception.
pub main-saved :
    (F : Floats) (P : LatFrames F) (files : Files) (exp_name : String) (num_runs : ℕ)
    (hs : List String) (rs : List (List F.Float)) (frame : P.Frame)
    → Latency.main F files exp_name num_runs ≡ ok (hs, rs)
    → P.read_csv (join_path (join_path "../utils/reports/" exp_name) "lat_metrics.dat") ≡ ok frame
    → IsFrameOf F P hs rs frame
    → (a b c d e : List F.Float) × AreColumns F P rs 0 (a ∷ b ∷ c ∷ d ∷ e ∷ [])
      × (main F P exp_name [] ≡ (report_lines F P exp_name a b c d e, next))
main-saved F P files exp_name num_runs hs rs frame saved read is_frame =
    let (titles, five, each) = main-HaveLength F files exp_name num_runs hs rs saved in
    let column = column-read F P hs rs frame is_frame five each in
    let (a, ka, ha) = column 0 "128" (omega arith) (heading titles 0 "128" refl) in
    let (b, kb, hb) = column 1 "512" (omega arith) (heading titles 1 "512" refl) in
    let (c, kc, hc) = column 2 "2048" (omega arith) (heading titles 2 "2048" refl) in
    let (d, kd, hd) = column 3 "8192" (omega arith) (heading titles 3 "8192" refl) in
    let (e, ke, he) = column 4 "32768" (omega arith) (heading titles 4 "32768" refl) in
    (
      a,
      b,
      c,
      d,
      e,
      (ka.0, ka.1, (kb.0, kb.1, (kc.0, kc.1, (kd.0, kd.1, (ke.0, ke.1, tt))))),
      main-Prints F P exp_name frame a b c d e read ha hb hc hd he [],
    )
  where
    heading :
        headings rpc_sizes ≡ hs
        → (i : ℕ) (name : String) → get_elem? saved_headings i ≡ some name
        → get_elem? hs i ≡ some name
    heading titles i name here =
        subst (λ ns. get_elem? ns i ≡ some name) (sym headings-saved ∙ titles) here
