-- ===== src/Dynamic/Labels.antt =====
-- plots/leshna_plot_nested.py: the texts over the bars.
use fast_and_safe_io_memory.Base.{
  ℕ, String, Bool, true, false, not, List, [], ◌∷◌, ◌++◌, map, ◌≡◌, refl, ap, ◌∙◌, if◌then◌else◌,
}
use fast_and_safe_io_memory.Python.Exception.{ok}
use fast_and_safe_io_memory.Python.Floats.{Floats, nat, max, larger, is_finite}
use fast_and_safe_io_memory.Python.Arrays.{Arrays}
use fast_and_safe_io_memory.Python.Drawing.{call, plain, Rectangle, Bars, heights, ylim}
use fast_and_safe_io_memory.Python.Drawing.Charts.{
  see, view-append, Adds, Adds-for, Adds-same, Adds-when, Adds-seq, Adds-quiet, Adds-none,
  concat_map,
}
use fast_and_safe_io_memory.Python.Statement.{when}
use fast_and_safe_io_memory.Dynamic.{Params}
use fast_and_safe_io_memory.Dynamic.Series.{Options, get_or, label_text}
use fast_and_safe_io_memory.Dynamic.Draw.{label_bar, label_bars, set_limit, largest}

module _ (F : Floats) where
  open F use {Float}

  pub largest-ok : (maxima : List Float) → (m : Float) × (largest F maxima ≡ ok m)
  unfolding max
  largest-ok [] = (nat F 1, refl)
  largest-ok (m ∷ ms) = (_, refl)

  -- the upper end of the axis over a largest number
  abbrev pub limit_over : Float → Float
  limit_over m = F.mul (larger F m (F.decimal 1 6)) (F.decimal 110 2)

  -- an end that is set on an axis is finite; none is set on a logarithmic one
  abbrev pub IsLimit : Bool → Float → Type 0
  IsLimit true y = Unit
  IsLimit false y = is_finite F y ≡ true

module _ (F : Floats) (A : Arrays F) where
  open F use {Float, lt}

  -- the text over a height, if there is one
  unfoldable pub text_over : Options F → Float → List String
  text_over o height = if lt (nat F 0) height then label_text F o height ∷ [] else []

  -- the texts over the bars of all series
  unfoldable pub all_texts : Options F → List (List Float) → List String
  all_texts o lists = concat_map F A (concat_map F A (text_over o)) lists

  concat_map-heights :
      (f : Float → List String) (rs : List (Rectangle F A))
      → concat_map F A (λ r. f r.height) rs ≡ concat_map F A f (heights F A rs)
  unfolding heights
  concat_map-heights f [] = refl
  concat_map-heights f (r ∷ rs) = ap (λ ts. f r.height ++ ts) (concat_map-heights f rs)

  all_texts-heights :
      (o : Options F) (handles : List (List (Rectangle F A)))
      → concat_map F A (concat_map F A (λ r. text_over o r.height)) handles
        ≡ all_texts o (map (heights F A) handles)
  unfolding all_texts
  all_texts-heights o [] = refl
  all_texts-heights o (rs ∷ handles) =
      ap (λ ts. ts ++ concat_map F A (concat_map F A (λ r. text_over o r.height)) handles)
        (concat_map-heights (text_over o) rs)
      ∙ ap (λ ts. concat_map F A (text_over o) (heights F A rs) ++ ts) (all_texts-heights o handles)

  -- the texts of a chart whose bars have these heights
  unfoldable pub texts_of : Params F → Options F → List (List Float) → List String
  texts_of params o lists =
      if get_or params.show_value_labels o.show_value_labels then all_texts o lists else []

module _ (F : Floats) (A : Arrays F) (bars_of : Bars F A) where
  open F use {Float, lt}

  label_bar-Adds :
      (params : Params F) (o : Options F) (y : Float) (r : Rectangle F A)
      → Adds F A (label_bar F A bars_of params o y r) (text_over F A o r.height)
  unfolding label_bar call see text_over
  label_bar-Adds params o y r =
      Adds-when F A (lt (nat F 0) r.height) _ _
        record { view_after = λ calls v. view-append F A calls _ v; runs = λ calls. refl }

  set_limit-Adds : (y : Float) → is_finite F y ≡ true → Adds F A (set_limit F A bars_of y) []
  unfolding set_limit plain see
  set_limit-Adds y finite = rw (set_limit, finite) (Adds-quiet F A ylim _ [] (λ v. refl))

  limit-Adds :
      (log : Bool) (y : Float)
      → IsLimit F log y
      → Adds F A (when (not log) (set_limit F A bars_of y)) []
  limit-Adds true y finite = Adds-none F A
  limit-Adds false y finite = set_limit-Adds y finite

  pub label_bars-Adds :
      (params : Params F) (o : Options F) (n : ℕ) (handles : List (List (Rectangle F A)))
      (maxima : List Float) (m : Float)
      → largest F maxima ≡ ok m
      → IsLimit F o.log_scale (limit_over F m)
      → Adds F A
          (label_bars F A bars_of params o n handles maxima)
          (all_texts F A o (map (heights F A) handles))
  unfolding label_bars plain see
  label_bars-Adds params o n handles maxima m e finite = rw e (
      Adds-same F A (all_texts-heights F A o handles) (
        Adds-seq F A _ _ [] _ (limit-Adds o.log_scale (limit_over F m) finite)
          (Adds-for F A handles _ _ λ bars. Adds-for F A bars _ _ (label_bar-Adds params o _))))
