-- ===== src/Dynamic/Draw.antt =====
-- plots/leshna_plot_nested.py: plot_bars_dynamic, and the three charts of plot_all_subplots.
use fast_and_safe_io_memory.Base.{
  ℕ, ◌+◌, ◌-◌, ltb, String, ◌<>◌, Bool, true, false, not, Option, none, some, List, [], ◌∷◌, ◌++◌,
  pos, length, ◌=ₛ◌, if◌then◌else◌,
}
use fast_and_safe_io_memory.Python.Exception.{Result, ok, value_error}
use fast_and_safe_io_memory.Python.Number.{str}
use fast_and_safe_io_memory.Python.Floats.{Floats, nat, larger, max, is_finite, has_negative}
use fast_and_safe_io_memory.Python.Arrays.{Arrays}
use fast_and_safe_io_memory.Python.Statement.{
  Statement, pass, throw, assign, when, after, for, ◌>>◌, ◌>>=◌,
}
use fast_and_safe_io_memory.Python.Drawing.{
  Arg, real, whole, text, flag, array, reals, texts, figure, update_params, bar, xlabel, ylabel,
  xticks, yticks, grid, legend, ylim, yscale, tight_layout, text_at, savefig, close, makedirs,
  Calls, call, plain, Rectangle, Bars,
}
use fast_and_safe_io_memory.Dynamic.{Params, calculate_plot_params, smaller_ℕ}
use fast_and_safe_io_memory.Dynamic.Series.{
  enumerate_from, get_or, default_color, file_path, rotation_of, Series, padded, sums, Options,
  label_text, offset_above,
}

module _ (F : Floats) where
  open F use {Float}

  abbrev pub fit_errors : ℕ → Option (List Float) → Option (List Float)
  fit_errors n none = none
  fit_errors n (some es) = some (padded F n es)

  -- `plt.bar` takes no negative errors
  abbrev pub refused : Option (List Float) → Bool
  refused none = false
  refused (some es) = has_negative F es

  -- the numbers that the largest is looked for among
  abbrev pub tops : List Float → Option (List Float) → List Float
  tops values none = values
  tops values (some es) = sums F values es

  -- `max(series_max_values) if len(series_max_values) > 0 else 1`
  abbrev pub largest : List Float → Result Float
  largest [] = ok (nat F 1)
  largest (m ∷ ms) = max F (m ∷ ms)

module _ (F : Floats) (A : Arrays F) (bars_of : Bars F A) where
  open F use {Float, of_int, add, sub, mul, div, decimal, lt}
  open A use {Array, Table, arange, times, plus}

  -- the variables of the loop over the series, with the calls made so far
  pub record Locals : Type 0 where
    pub calls : Calls F A
    pub bars_handles : List (List (Rectangle F A))
    pub series_max_values : List Float

  -- the options of error bars, those in `error_kw` among them
  abbrev error_options : Option (List Float) → List (String × Arg F A)
  error_options none = []
  error_options (some es) =
      ("yerr", reals es)
      ∷ ("capsize", whole (pos 2))
      ∷ ("elinewidth", real (decimal 8 1))
      ∷ ("capthick", real (decimal 8 1))
      ∷ ("ecolor", text "#333333")
      ∷ []

  color_option : Option String → List (String × Arg F A)
  color_option none = []
  color_option (some c) = ("color", text c) ∷ []

  -- one round of the loop
  unfoldable pub draw_series : Params F → Array → ℕ → ℕ → ℕ × Series F → Statement Locals
  unfolding color_option
  draw_series params x num_series num_x_labels (idx, series) s =
      let offset =
        mul (sub (nat F idx) (div (of_int (pos (num_series - 1))) (nat F 2))) params.bar_width in
      let color = get_or (some (default_color idx)) series.color in
      let label = get_or ("Series " <> str (idx + 1)) series.label in
      let values = padded F num_x_labels (get_or [] series.values) in
      let errors = fit_errors F num_x_labels series.errors in
      let (calls, _) =
        call F A bar (array (plus x offset) ∷ reals values ∷ real params.bar_width ∷ [])
          (color_option color
            ++ ("alpha", real (decimal 88 2))
              ∷ ("label", text label)
              ∷ ("edgecolor", text "black")
              ∷ ("linewidth", real (decimal 5 1))
              ∷ error_options errors)
          s.calls in
      let handles = s.bars_handles ++ bars_of (plus x offset) values params.bar_width ∷ [] in
      (when (refused F errors) (throw value_error)
          >> assign (λ s'. record s' { calls = calls; bars_handles = handles })
          >> when (ltb 0 (length values)) (
              max F (tops F values errors) >>= λ m.
              assign (λ s'. record s' { series_max_values = s'.series_max_values ++ m ∷ [] })))
        s

  -- the text over one bar, if the bar is not empty
  unfoldable pub label_bar : Params F → Options F → Float → Rectangle F A → Statement (Calls F A)
  label_bar params o y_offset r = when (lt (nat F 0) r.height) (
      call F A text_at
        (real (add r.x (div r.width (nat F 2)))
          ∷ real (if o.log_scale then mul r.height (decimal 115 2) else add r.height y_offset)
          ∷ text (label_text F o r.height)
          ∷ [])
        (("ha", text "center") ∷ ("va", text "bottom") ∷ ("fontsize", whole params.font_size) ∷ []))

  -- `plt.ylim(0, y)`, a ValueError for an infinite number and for none
  unfoldable pub set_limit : Float → Statement (Calls F A)
  set_limit y =
      if is_finite F y then plain F A ylim (whole (pos 0) ∷ real y ∷ []) else throw value_error

  unfoldable pub label_bars :
      Params F → Options F → ℕ → List (List (Rectangle F A)) → List Float → Statement (Calls F A)
  label_bars params o num_x_labels handles maxima = do
    m ← largest F maxima
    let ymax = larger F m (decimal 1 6)
    when (not o.log_scale) (set_limit (mul ymax (decimal 110 2)))
    for handles λ bars. for bars (label_bar params o (offset_above F num_x_labels ymax))

  -- `if output_dir: os.makedirs(…)`
  abbrev pub make_dir : Option String → Statement (Calls F A)
  make_dir none = pass
  make_dir (some dir) =
      when (not (dir =ₛ "")) (call F A makedirs (text dir ∷ []) (("exist_ok", flag true) ∷ []))

  -- the axes and the legend
  unfoldable pub draw_axes :
      Params F → Options F → Array → ℕ → List String → String → String → Statement (Calls F A)
  draw_axes params o x num_series x_labels xlabel' ylabel' = do
    let (rotation, ha) = rotation_of (length x_labels)
    call F A xlabel (text xlabel' ∷ []) (("fontsize", whole params.label_fontsize) ∷ [])
    call F A ylabel (text ylabel' ∷ []) (("fontsize", whole params.label_fontsize) ∷ [])
    call F A xticks (array x ∷ texts x_labels ∷ []) (
        ("rotation", whole (pos rotation))
        ∷ ("ha", text ha)
        ∷ ("fontsize", whole params.font_size)
        ∷ [])
    call F A yticks [] (("fontsize", whole params.font_size) ∷ [])
    call F A grid []
        (("axis", text "y") ∷ ("linestyle", text "--") ∷ ("alpha", real (decimal 7 1)) ∷ [])
    when o.log_scale (plain F A yscale (text "log" ∷ []))
    call F A legend [] (
        ("loc", text "upper center")
        ∷ ("bbox_to_anchor", reals (decimal 5 1 ∷ decimal 118 2 ∷ []))
        ∷ ("ncol", whole (pos (smaller_ℕ num_series 3)))
        ∷ ("fontsize", whole params.legend_fontsize)
        ∷ ("frameon", flag true)
        ∷ ("framealpha", real (decimal 85 2))
        ∷ ("edgecolor", text "#cccccc")
        ∷ ("borderpad", real (decimal 4 1))
        ∷ ("labelspacing", real (decimal 25 2))
        ∷ ("handlelength", real (decimal 14 1))
        ∷ ("handletextpad", real (decimal 4 1))
        ∷ ("columnspacing", real (decimal 10 1))
        ∷ [])

  unfoldable pub set_params : Params F → Statement (Calls F A)
  set_params params = do
    let (width, height) = params.figsize
    call F A figure [] (("figsize", reals (width ∷ height ∷ [])) ∷ [])
    call F A update_params [] (
        ("font.size", whole params.font_size)
        ∷ ("font.family", text "serif")
        ∷ ("font.serif", texts ("Times New Roman" ∷ "DejaVu Serif" ∷ "serif" ∷ []))
        ∷ ("pdf.fonttype", whole (pos 42))
        ∷ ("ps.fonttype", whole (pos 42))
        ∷ ("axes.grid", flag true)
        ∷ ("axes.axisbelow", flag true)
        ∷ ("grid.alpha", real (decimal 35 2))
        ∷ ("grid.linestyle", text "--")
        ∷ ("grid.linewidth", real (decimal 5 1))
        ∷ ("axes.linewidth", real (decimal 7 1))
        ∷ ("xtick.major.width", real (decimal 6 1))
        ∷ ("ytick.major.width", real (decimal 6 1))
        ∷ [])

  -- the end: the texts over the bars, and the file
  unfoldable pub finish :
      Params F
      → Options F
      → ℕ
      → String
      → List (List (Rectangle F A))
      → List Float
      → Statement (Calls F A)
  finish params o num_x_labels title handles maxima = do
    when (get_or params.show_value_labels o.show_value_labels)
        (label_bars params o num_x_labels handles maxima)
    call F A tight_layout [] (("pad", real (decimal 4 1)) ∷ [])
    make_dir o.output_dir
    call F A savefig (text (file_path title o.output_dir) ∷ [])
        (("bbox_inches", text "tight") ∷ ("format", text "pdf") ∷ [])
    plain F A close []

  -- the loop over the series, and what follows with its variables
  unfoldable pub draw_all :
      Params F
      → Options F
      → List (Series F)
      → List String
      → String
      → String
      → String
      → Statement (Calls F A)
  draw_all params o series_list x_labels title xlabel' ylabel' calls =
      let x = times (arange (length x_labels)) params.gap_factor in
      let (s, flow) =
        for (enumerate_from 0 series_list)
          (draw_series params x (length series_list) (length x_labels))
          record { calls = calls; bars_handles = []; series_max_values = [] } in
      after flow
        (draw_axes params o x (length series_list) x_labels xlabel' ylabel'
          >> finish params o (length x_labels) title s.bars_handles s.series_max_values)
        s.calls

  -- none stands for None
  unfoldable pub plot_bars_dynamic :
      Options F
      → Option (List (Series F))
      → Option (List String)
      → String
      → String
      → String
      → Statement (Calls F A)
  plot_bars_dynamic o none x_labels title xlabel' ylabel' = pass
  plot_bars_dynamic o (some []) x_labels title xlabel' ylabel' = pass
  plot_bars_dynamic o (some (s ∷ ss)) none title xlabel' ylabel' = pass
  plot_bars_dynamic o (some (s ∷ ss)) (some x_labels) title xlabel' ylabel' = do
    params ← calculate_plot_params F (length x_labels) (length (s ∷ ss)) o.max_width
    set_params params
    draw_all params o (s ∷ ss) x_labels title xlabel' ylabel'
