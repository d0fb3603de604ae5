-- ===== src/Dynamic/Refused.antt =====
-- plots/leshna_plot_nested.py: the calls of matplotlib in plot_bars_dynamic that raise.
use fast_and_safe_io_memory.Base.{
  ℕ, suc, String, true, false, some, List, [], ◌∷◌, ◌≡◌, refl, sym, ap, ◌∙◌, length, All, ◌⊎◌, inl,
  inr, Bool-cases, subst,
}
use fast_and_safe_io_memory.Python.Exception.{ok, value_error}
use fast_and_safe_io_memory.Python.Floats.{Floats, is_finite}
use fast_and_safe_io_memory.Python.Arrays.{Arrays}
use fast_and_safe_io_memory.Python.Statement.{Statement, raise, for, for-next, ◌>>◌}
use fast_and_safe_io_memory.Python.Drawing.{Calls, call, Rectangle, Bars, HaveHeights}
use fast_and_safe_io_memory.Python.Drawing.Charts.{View, see, view, view-append}
use fast_and_safe_io_memory.Dynamic.{Params, calculate_plot_params}
use fast_and_safe_io_memory.Dynamic.Series.{Series, Options, get_or, enumerate_from}
use fast_and_safe_io_memory.Dynamic.Draw.{
  Locals, fit_errors, refused, draw_series, set_limit, label_bars, finish, draw_all, set_params,
  draw_axes, plot_bars_dynamic, largest,
}
use fast_and_safe_io_memory.Dynamic.Labels.{limit_over}
use fast_and_safe_io_memory.Dynamic.Loop.{HasErrors, maxima_of, draw_series-Drawn, loop-Drawn}
use fast_and_safe_io_memory.Dynamic.Charts.{draw_axes-Adds}

module _ (F : Floats) where
  -- the end of the axis over all series is to be set, and is infinite or no number
  abbrev pub NoLimit : Params F → Options F → List F.Float → Type 0
  NoLimit params o maxima =
      (get_or params.show_value_labels o.show_value_labels ≡ true)
      × (o.log_scale ≡ false)
      × (m : F.Float) × (largest F maxima ≡ ok m)
      × (is_finite F (limit_over F m) ≡ false)

module _ (F : Floats) (A : Arrays F) where
  -- `m` ends with a ValueError and saves nothing
  pub record IsRefused (m : Statement (Calls F A)) : Type 0 where
    pub ends : (calls : Calls F A) → (m calls).1 ≡ raise value_error
    pub saves_nothing :
        (calls : Calls F A) (v : View F A)
        → (view F A (m calls).0 v).saved ≡ (view F A calls v).saved

module _ (F : Floats) (A : Arrays F) (bars_of : Bars F A) where
  draw_series-refused :
      (params : Params F) (x : A.Array) (ns n idx : ℕ) (series : Series F) (s : Locals F A bars_of)
      → refused F (fit_errors F n series.errors) ≡ true
      → draw_series F A bars_of params x ns n (idx, series) s ≡ (s, raise value_error)
  unfolding draw_series ◌>>◌
  draw_series-refused params x ns n idx series s bad = rw bad refl

  -- a series with a negative error ends the loop
  loop-refused :
      HaveHeights F A bars_of
      → (params : Params F) (x : A.Array) (ns n idx : ℕ) (series : List (Series F))
        (s : Locals F A bars_of)
      → ¬ All (HasErrors F n) series
      → ((for (enumerate_from idx series) (draw_series F A bars_of params x ns n) s).1
          ≡ raise value_error)
        × ((v : View F A)
            → (view F A
                (for (enumerate_from idx series) (draw_series F A bars_of params x ns n) s).0.calls
                v).saved
              ≡ (view F A s.calls v).saved)
  unfolding for enumerate_from
  loop-refused same params x ns n idx [] s h = absurd (h tt)
  loop-refused same params x ns n idx (a ∷ as') s h =
      elim (Bool-cases (refused F (fit_errors F n a.errors))) [
        | inl bad ↦
            let ended : draw_series F A bars_of params x ns n (idx, a) s ≡ (s, raise value_error) =
              draw_series-refused params x ns n idx a s bad in
            rw (for, ended) (refl, λ v. ap (λ r. (view F A r.0.calls v).saved) ended)
        | inr accepted ↦
            let (flow, one) = draw_series-Drawn F A bars_of same params x ns n idx a s accepted in
            let s' = (draw_series F A bars_of params x ns n (idx, a) s).0 in
            let (flows, saved) =
              loop-refused same params x ns n (suc idx) as' s' (λ hs. h (accepted, hs)) in
            let first =
              for-next (idx, a) (enumerate_from (suc idx) as')
                (draw_series F A bars_of params x ns n) s (ap (λ f. (s', f)) flow) in
            rw first (flows, λ v. saved v ∙ ap (λ w. w.saved) (one.view_after v))
      ]

  finish-refused :
      (params : Params F) (o : Options F) (n : ℕ) (title : String)
      (handles : List (List (Rectangle F A))) (maxima : List F.Float) (calls : Calls F A)
      → NoLimit F params o maxima
      → finish F A bars_of params o n title handles maxima calls ≡ (calls, raise value_error)
  unfolding finish label_bars set_limit ◌>>◌
  finish-refused params o n title handles maxima calls (shown, linear, m, found, infinite) =
      rw (shown, found, linear, infinite) refl

  draw_all-refused :
      HaveHeights F A bars_of
      → (params : Params F) (o : Options F) (series : List (Series F)) (labels : List String)
        (title xlabel ylabel : String)
      → (¬ All (HasErrors F (length labels)) series)
        ⊎ (All (HasErrors F (length labels)) series
            × NoLimit F params o (maxima_of F (length labels) series))
      → (calls : Calls F A)
      → ((draw_all F A bars_of params o series labels title xlabel ylabel calls).1
          ≡ raise value_error)
        × ((v : View F A)
            → (view F A
                (draw_all F A bars_of params o series labels title xlabel ylabel calls).0
                v).saved
              ≡ (view F A calls v).saved)
  unfolding draw_all ◌>>◌
  draw_all-refused same params o series labels title xlabel ylabel (inl negative) calls =
      let n = length labels in
      let x = A.times (A.arange n) params.gap_factor in
      let start : Locals F A bars_of = record {
        calls = calls;
        bars_handles = [];
        series_max_values = [];
      } in
      let (flow, saved) = loop-refused same params x (length series) n 0 series start negative in
      rw flow (refl, saved)
  draw_all-refused same params o series labels title xlabel ylabel (inr (accepted, none_set))
        calls =
      let n = length labels in
      let x = A.times (A.arange n) params.gap_factor in
      let start : Locals F A bars_of = record {
        calls = calls;
        bars_handles = [];
        series_max_values = [];
      } in
      let (flow, drawn) =
        loop-Drawn F A bars_of same params x (length series) n 0 series start accepted in
      let s =
        (for (enumerate_from 0 series) (draw_series F A bars_of params x (length series) n)
          start).0 in
      let axes = draw_axes-Adds F A bars_of params o x (length series) labels xlabel ylabel in
      let ready =
        (draw_axes F A bars_of params o x (length series) labels xlabel ylabel s.calls).0 in
      let found = subst (λ ms. NoLimit F params o ms) (sym drawn.maxima_after) none_set in
      let end = finish-refused params o n title s.bars_handles s.series_max_values ready found in
      rw (flow, axes.runs s.calls, end)
        (
          refl,
          λ v.
              ap (λ w. w.saved) (axes.view_after s.calls v)
              ∙ ap (λ w. w.saved) (drawn.view_after v),
        )

  -- Where the rectangles of a bar chart are as high as its heights and the parameters of the figure are
  -- returned: if an error of some series, cut or filled to the number of labels, is negative, or none
  -- is but values are to be shown over the bars, the axis is not logarithmic and its end over the largest
  -- number that is drawn is infinite or no number, then the function ends with a ValueError and saves
  -- no chart.
  pub plot_bars_dynamic-IsRefused :
      HaveHeights F A bars_of
      → (o : Options F) (first : Series F) (more : List (Series F)) (labels : List String)
        (title xlabel ylabel : String) (params : Params F)
      → calculate_plot_params F (length labels) (length (first ∷ more)) o.max_width ≡ ok params
      → (¬ All (HasErrors F (length labels)) (first ∷ more))
        ⊎ (All (HasErrors F (length labels)) (first ∷ more)
            × NoLimit F params o (maxima_of F (length labels) (first ∷ more)))
      → IsRefused F A
          (plot_bars_dynamic F A bars_of o (some (first ∷ more)) (some labels) title xlabel ylabel)
  unfolding plot_bars_dynamic set_params call ◌>>◌ see
  plot_bars_dynamic-IsRefused same o first more labels title xlabel ylabel params returned h =
      let drawn = draw_all-refused same params o (first ∷ more) labels title xlabel ylabel h in
      record {
        ends = λ calls. rw returned (drawn _).0;
        saves_nothing = λ calls v. rw returned ((drawn _).1 v ∙ simp (view-append F A));
      }
