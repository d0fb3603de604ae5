-- ===== src/Breakdown/Points.antt =====
-- The statistics and the values of an experiment in plots/siyuan_invalidation_breakdown.py, against
-- the rows of the section.
use fast_and_safe_io_memory.Base.{
  String, Option, none, some, List, [], ◌∷◌, ◌≡◌, refl, sym, ap, ◌∙◌, subst, arith, if◌then◌else◌,
}
use fast_and_safe_io_memory.Python.Exception.{
  Result, ok, key_error, from_option, ok-injective, ◌>>=◌, >>=-ok, from_option-ok,
}
use fast_and_safe_io_memory.Python.Csv.{Row}
use fast_and_safe_io_memory.Python.Floats.{Floats}
use fast_and_safe_io_memory.Python.Dict.{get, put, get-put}
use fast_and_safe_io_memory.Breakdown.{
  same_name, name_key, cell_of, Stats, float_cell, collect, Point, max_zero, point_of,
}

module _ (F : Floats) where
  open F use {Float, of_int, sub}

  abbrev mean_if : Option String → Result (Option String) → Result Float → Option Float
  mean_if name (ok other) (ok mean) = if same_name other name then some mean else none
  mean_if name _ _ = none

  -- the mean of a row for a function
  abbrev pub mean_in : Option String → Row → Option Float
  mean_in name row = mean_if name (cell_of "function" row) (cell_of "mean_ns" row >>= float_cell F)

  abbrev pub or_else : Option Float → Option Float → Option Float
  or_else none before = before
  or_else (some x) before = some x

  -- the mean of the last row for a function
  unfoldable pub last_mean : Option String → List Row → Option Float
  last_mean name [] = none
  last_mean name (row ∷ rows) = or_else (last_mean name rows) (mean_in name row)

  or_else_before : (a b c : Option Float) → or_else a (or_else b c) ≡ or_else (or_else a b) c
  or_else_before none b c = refl
  or_else_before (some x) b c = refl

  or_else-none : (a : Option Float) → or_else a none ≡ a
  or_else-none none = refl
  or_else-none (some x) = refl

  added :
      (name other : Option String) (mean : Float) (stats : Stats F) (shown : Option Float)
      → shown ≡ (if same_name other name then some mean else none)
      → get name (put other mean stats) ≡ or_else shown (get name stats)
  added name other mean stats shown h = ground (arith, h, get-put other name mean stats)

  collect-get :
      (rows : List Row) (name : Option String) (stats stats' : Stats F)
      → collect F rows stats ≡ ok stats'
      → get name stats' ≡ or_else (last_mean name rows) (get name stats)
  unfolding collect last_mean
  collect-get [] name stats stats' e = ap (get name) (sym (ok-injective stats stats' e))
  collect-get (row ∷ rows) name stats stats' e =
      let (text, t, e1) = >>=-ok (cell_of "mean_ns" row) _ e in
      let (mean, m, e2) = >>=-ok (float_cell F text) _ e1 in
      let (other, n, e3) =
        >>=-ok (cell_of "function" row) (λ other. collect F rows (put other mean stats)) e2 in
      let here : mean_in name row ≡ (if same_name other name then some mean else none) =
        rw (mean_in, t, m, n) refl in
      collect-get rows name (put other mean stats) stats' e3
      ∙ ap (or_else (last_mean name rows)) (added name other mean stats (mean_in name row) here)
      ∙ or_else_before (last_mean name rows) (mean_in name row) (get name stats)

-- If the statistics are collected from the rows and give the values of an experiment, then each of
-- the three functions has a row; the submission and the preparation are the means of the last rows
-- of `qi_submit_sync` and `cache_tag_flush_iotlb`, and the contention is what they leave of the mean
-- of the last row of `cache_tag_flush_range`, or zero if that is negative.
pub point_of-rows :
    (F : Floats) (rows : List Row) (stats : Stats F) (tput : Option F.Float) (p : Point F)
    → collect F rows [] ≡ ok stats
    → point_of F tput stats ≡ ok p
    → (last_mean F (some "qi_submit_sync") rows ≡ some p.ir_sub)
      × (last_mean F (some "cache_tag_flush_iotlb") rows ≡ some p.ir_prep)
      × ((flush : F.Float) × (last_mean F (some "cache_tag_flush_range") rows ≡ some flush)
          × (p.lock_contention ≡ max_zero F (F.sub (F.sub flush p.ir_sub) p.ir_prep)))
unfolding point_of get
point_of-rows F rows stats tput p collected e =
    let shown : (name : Option String) → last_mean F name rows ≡ get name stats = λ name.
      sym (collect-get F rows name [] stats collected ∙ or_else-none F (last_mean F name rows)) in
    let (flush, f, e1) =
      >>=-ok (from_option key_error (get (some "cache_tag_flush_range") stats)) _ e in
    let (qi, q, e2) = >>=-ok (from_option key_error (get (some "qi_submit_sync") stats)) _ e1 in
    let (iotlb, i, e3) =
      >>=-ok (from_option key_error (get (some "cache_tag_flush_iotlb") stats)) _ e2 in
    let same = ok-injective _ p e3 in
    (
      shown (some "qi_submit_sync")
          ∙ from_option-ok _ key_error qi q
          ∙ ap (λ x. some x.ir_sub) same,
      shown (some "cache_tag_flush_iotlb")
          ∙ from_option-ok _ key_error iotlb i
          ∙ ap (λ x. some x.ir_prep) same,
      (
        flush,
        shown (some "cache_tag_flush_range") ∙ from_option-ok _ key_error flush f,
        subst (λ x. x.lock_contention ≡ max_zero F (F.sub (F.sub flush x.ir_sub) x.ir_prep)) same
            refl,
      ),
    )
