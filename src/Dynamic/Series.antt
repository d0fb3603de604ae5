-- ===== src/Dynamic/Series.antt =====
-- plots/leshna_plot_nested.py: what plot_bars_dynamic is given, and its helpers.
use fast_and_safe_io_memory.Base.{
  ℕ, zero, suc, ◌%◌, ◌==◌, ltb, String, ◌<>◌, Bool, Option, none, some, List, [], ◌∷◌, ◌++◌, pos,
  length, get_elem?, ◌=ₛ◌, if◌then◌else◌,
}
use fast_and_safe_io_memory.Python.Text.Path.{lower, join_path}
use fast_and_safe_io_memory.Python.Floats.{Floats}
use fast_and_safe_io_memory.Python.Statement.{}
use fast_and_safe_io_memory.Python.Drawing.{}
use fast_and_safe_io_memory.IperfLog.{replace}

-- `enumerate(items)` from a first number on
unfoldable pub enumerate_from {ℓ} : {A : Type ℓ} → ℕ → List A → List (ℕ × A)
enumerate_from i [] = []
enumerate_from i (a ∷ as') = (i, a) ∷ enumerate_from (suc i) as'

abbrev pub get_or {ℓ} : {A : Type ℓ} → A → Option A → A
get_or d none = d
get_or d (some a) = a

-- the colour of a series without one, by its position
unfoldable pub default_color : ℕ → String
default_color idx = get_or "" (
    get_elem?
      ("#0072B2" ∷ "#E69F00" ∷ "#009E73" ∷ "#CC79A7" ∷ "#56B4E9" ∷ "#F0E442" ∷ "#D55E00" ∷ "#999999"
        ∷ [])
      (idx % 8))

-- the path of a chart: an empty directory is none
unfoldable pub file_path : String → Option String → String
file_path title output_dir =
    let file_name = lower (replace " " "_" title) <> ".pdf" in
    elim output_dir [
      | none ↦ file_name
      | some dir ↦ if dir =ₛ "" then file_name else join_path dir file_name
    ]

-- rotation and alignment of the labels below the bars
unfoldable pub rotation_of : ℕ → ℕ × String
rotation_of num_x_labels =
    if ltb 15 num_x_labels
    then (45, "right")
    else if ltb 8 num_x_labels
    then (30, "right")
    else (0, "center")

module _ (F : Floats) where
  open F use {Float, of_int, add, sub, mul, div, decimal, lt, format_fixed, format_exp}

  -- one of `series_list`; none is a missing key, and a colour may be None
  pub record Series : Type 0 where
    pub label : Option String
    pub values : Option (List Float)
    pub errors : Option (List Float)
    pub color : Option (Option String)

  unfoldable pub zeros : ℕ → List Float
  zeros zero = []
  zeros (suc n) = of_int (pos 0) ∷ zeros n

  unfoldable pub take : ℕ → List Float → List Float
  take zero xs = []
  take (suc n) [] = []
  take (suc n) (x ∷ xs) = x ∷ take n xs

  -- `values` in the length of the labels
  unfoldable pub padded : ℕ → List Float → List Float
  padded n values = if length values == n then values else take n (values ++ zeros n)

  -- `[v + e for v, e in zip(values, errors)]`
  unfoldable pub sums : List Float → List Float → List Float
  sums [] es = []
  sums (v ∷ vs) [] = []
  sums (v ∷ vs) (e ∷ es) = add v e ∷ sums vs es

  -- the options of a chart
  pub record Options : Type 0 where
    pub output_dir : Option String
    pub precision : ℕ
    pub show_value_labels : Option Bool
    pub log_scale : Bool
    pub scientific_labels : Bool
    pub max_width : Option Float

  unfoldable pub label_text : Options → Float → String
  label_text o height =
      if o.scientific_labels then format_exp 1 height else format_fixed o.precision height

  -- `y_offset`
  unfoldable pub offset_above : ℕ → Float → Float
  offset_above num_x_labels ymax =
      if ltb 25 num_x_labels
      then mul (decimal 75 4) ymax
      else if ltb 15 num_x_labels
      then mul (decimal 10 3) ymax
      else mul (decimal 15 3) ymax
