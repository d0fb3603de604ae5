-- ===== src/Dynamic/Charts.antt =====
-- plots/leshna_plot_nested.py: the chart that plot_bars_dynamic saves.
use fast_and_safe_io_memory.Base.{
  ℕ, String, Option, none, some, List, [], ◌∷◌, ◌++◌, map, ◌≡◌, refl, sym, ap, ◌∙◌, length,
  append-nil, Bool, All, subst,
}
use fast_and_safe_io_memory.Python.Exception.{Result, ok, raise}
use fast_and_safe_io_memory.Python.Floats.{Floats}
use fast_and_safe_io_memory.Python.Arrays.{Arrays}
use fast_and_safe_io_memory.Python.Statement.{next, for, ◌>>◌}
use fast_and_safe_io_memory.Python.Drawing.{
  Calls, call, plain, Rectangle, Bars, heights, HaveHeights, makedirs,
}
use fast_and_safe_io_memory.Python.Drawing.Charts.{
  Chart, View, only, see, view, view-append, outcome, planned, Follows, Follows-bind, Adds,
  Adds-when, Adds-none, Adds-when_quiet, Adds-seq, Adds-quiet,
}
use fast_and_safe_io_memory.Dynamic.{Params, calculate_plot_params}
use fast_and_safe_io_memory.Dynamic.Series.{Series, Options, get_or, file_path, enumerate_from}
use fast_and_safe_io_memory.Dynamic.Draw.{
  Locals, draw_series, finish, draw_all, plot_bars_dynamic, largest, make_dir, draw_axes,
  set_params,
}
use fast_and_safe_io_memory.Dynamic.Labels.{
  texts_of, limit_over, IsLimit, label_bars-Adds, largest-ok,
}
use fast_and_safe_io_memory.Dynamic.Loop.{heights_of, maxima_of, HasErrors, add_bars, loop-Drawn}

module _ (F : Floats) where
  open F use {Float}

  -- the heights of all series
  unfoldable pub lists_of : ℕ → List (Series F) → List (List Float)
  lists_of n series = map (heights_of F n) series

  -- the end of the axis over a largest number
  abbrev pub HasLimit : Bool → Result Float → Type 0
  HasLimit log (raise e) = Unit
  HasLimit log (ok m) = IsLimit F log (limit_over F m)

  -- matplotlib takes the errors of the series, and the end of the axis over them
  unfoldable pub IsDrawable : Options F → ℕ → List (Series F) → Type 0
  IsDrawable o n series =
      All (HasErrors F n) series × HasLimit o.log_scale (largest F (maxima_of F n series))

module _ (F : Floats) (A : Arrays F) where
  -- the chart of some series
  unfoldable pub chart_of : Options F → List (Series F) → ℕ → String → Params F → Chart F
  chart_of o series n title params = (
    file_path title o.output_dir,
    record { bars = lists_of F n series; labels = texts_of F A params o (lists_of F n series) },
  )

module _ (F : Floats) (A : Arrays F) (bars_of : Bars F A) where
  open F use {Float}

  make_dir-Adds : (dir : Option String) → Adds F A (make_dir F A bars_of dir) []
  unfolding see
  make_dir-Adds none = Adds-none F A
  make_dir-Adds (some dir) = Adds-when_quiet F A _ _ (Adds-quiet F A makedirs _ _ (λ v. refl))

  pub draw_axes-Adds :
      (params : Params F) (o : Options F) (x : A.Array) (ns : ℕ) (labels : List String)
      (xlabel ylabel : String)
      → Adds F A (draw_axes F A bars_of params o x ns labels xlabel ylabel) []
  unfolding draw_axes plain see
  draw_axes-Adds params o x ns labels xlabel ylabel =
      Adds-seq F A _ _ [] [] (Adds-quiet F A _ _ _ (λ v. refl)) (
        Adds-seq F A _ _ [] [] (Adds-quiet F A _ _ _ (λ v. refl)) (
          Adds-seq F A _ _ [] [] (Adds-quiet F A _ _ _ (λ v. refl)) (
            Adds-seq F A _ _ [] [] (Adds-quiet F A _ _ _ (λ v. refl)) (
              Adds-seq F A _ _ [] [] (Adds-quiet F A _ _ _ (λ v. refl)) (
                Adds-seq F A _ _ [] []
                  (Adds-when_quiet F A o.log_scale _ (Adds-quiet F A _ _ _ (λ v. refl)))
                  (Adds-quiet F A _ _ _ (λ v. refl)))))))

  -- a figure with more texts, saved
  saved_with : String → List String → View F A → View F A
  saved_with path ts v = record {
    saved =
        v.saved ++ (path, record { bars = v.current.bars; labels = v.current.labels ++ ts }) ∷ [];
    current = record { bars = []; labels = [] };
  }

  finish-runs :
      (params : Params F) (o : Options F) (n : ℕ) (title : String)
      (handles : List (List (Rectangle F A))) (maxima : List Float) (calls : Calls F A)
      → HasLimit F o.log_scale (largest F maxima)
      → ((v : View F A)
          → view F A (finish F A bars_of params o n title handles maxima calls).0 v
            ≡ saved_with
                (file_path title o.output_dir)
                (texts_of F A params o (map (heights F A) handles))
                (view F A calls v))
        × ((finish F A bars_of params o n title handles maxima calls).1 ≡ next)
  unfolding finish ◌>>◌ plain call texts_of saved_with see
  finish-runs params o n title handles maxima calls limit =
      let (m, e) = largest-ok F maxima in
      let finite = subst (HasLimit F o.log_scale) e limit in
      let shown = get_or params.show_value_labels o.show_value_labels in
      let texts =
        Adds-when F A shown _ _
          (label_bars-Adds F A bars_of params o n handles maxima m e finite) in
      let dir = make_dir-Adds o.output_dir in
      (
        λ v.
            rw (texts.runs calls, dir.runs _)
              (simp (view-append F A, texts.view_after, dir.view_after, append-nil)),
        rw (texts.runs calls, dir.runs _) refl,
      )

  draw_all-runs :
      HaveHeights F A bars_of
      → (params : Params F) (o : Options F) (series : List (Series F)) (labels : List String)
        (title xlabel ylabel : String) (calls : Calls F A)
      → IsDrawable F o (length labels) series
      → ((v : View F A)
          → view F A (draw_all F A bars_of params o series labels title xlabel ylabel calls).0 v
            ≡ saved_with
                (file_path title o.output_dir)
                (texts_of F A params o (lists_of F (length labels) series))
                (add_bars F A (lists_of F (length labels) series) (view F A calls v)))
        × ((draw_all F A bars_of params o series labels title xlabel ylabel calls).1 ≡ next)
  unfolding draw_all ◌>>◌ lists_of IsDrawable
  draw_all-runs same params o series labels title xlabel ylabel calls (accepted, limit) =
      let n = length labels in
      let x = A.times (A.arange n) params.gap_factor in
      let start : Locals F A bars_of = record {
        calls = calls;
        bars_handles = [];
        series_max_values = [];
      } in
      let (flow, drawn) =
        loop-Drawn F A bars_of same params x (length series) n 0 series start accepted in
      let s =
        (for (enumerate_from 0 series) (draw_series F A bars_of params x (length series) n)
          start).0 in
      let axes = draw_axes-Adds params o x (length series) labels xlabel ylabel in
      let ready =
        (draw_axes F A bars_of params o x (length series) labels xlabel ylabel s.calls).0 in
      let found =
        subst (λ ms. HasLimit F o.log_scale (largest F ms)) (sym drawn.maxima_after) limit in
      let end = finish-runs params o n title s.bars_handles s.series_max_values ready found in
      (
        λ v.
            rw (flow, axes.runs s.calls)
              (end.0 v
                ∙ ap
                    (λ hs.
                      saved_with (file_path title o.output_dir) (texts_of F A params o hs)
                        (view F A ready v))
                    drawn.handles
                ∙ ap
                    (saved_with (file_path title o.output_dir)
                      (texts_of F A params o (lists_of F n series)))
                    (axes.view_after s.calls v
                      ∙ sym ((Adds-none F A).view_after s.calls v)
                      ∙ drawn.view_after v)),
        rw (flow, axes.runs s.calls) end.1,
      )

  draw-Follows :
      HaveHeights F A bars_of
      → (params : Params F) (o : Options F) (series : List (Series F)) (labels : List String)
        (title xlabel ylabel : String)
      → IsDrawable F o (length labels) series
      → Follows F A
          (set_params F A bars_of params
            >> draw_all F A bars_of params o series labels title xlabel ylabel)
          (ok (chart_of F A o series (length labels) title params) ∷ [])
  unfolding set_params call ◌>>◌ outcome chart_of saved_with see
  draw-Follows same params o series labels title xlabel ylabel drawable = record {
    charts = λ calls cs e.
        (draw_all-runs same params o series labels title xlabel ylabel _ drawable).0 (only F A [])
        ∙ simp (view-append F A, e);
    flow = λ calls. (draw_all-runs same params o series labels title xlabel ylabel _ drawable).1;
  }

  -- Where the rectangles of a bar chart are as high as its heights, no error of a series is negative and
  -- the end of the axis over the largest number, unless the axis is logarithmic, is finite: for at least
  -- one series and a list of labels the function saves one chart, and raises nothing but what int() raises for the size of the
  -- font. Its bars are the values of each series, cut or filled with zeros to the number of labels,
  -- and, if values are to be shown, a text stands over each bar above zero and over no other.
  pub plot_bars_dynamic-Follows :
      HaveHeights F A bars_of
      → (o : Options F) (first : Series F) (more : List (Series F)) (labels : List String)
        (title xlabel ylabel : String)
      → IsDrawable F o (length labels) (first ∷ more)
      → Follows F A
          (plot_bars_dynamic F A bars_of o (some (first ∷ more)) (some labels) title xlabel ylabel)
          (planned F A
            (calculate_plot_params F (length labels) (length (first ∷ more)) o.max_width)
            λ params. ok (chart_of F A o (first ∷ more) (length labels) title params) ∷ [])
  unfolding plot_bars_dynamic
  plot_bars_dynamic-Follows same o first more labels title xlabel ylabel drawable =
      Follows-bind F A (calculate_plot_params F (length labels) (length (first ∷ more)) o.max_width)
        _ _ λ params. draw-Follows same params o (first ∷ more) labels title xlabel ylabel drawable
