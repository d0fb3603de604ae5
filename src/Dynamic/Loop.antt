-- ===== src/Dynamic/Loop.antt =====
-- plots/leshna_plot_nested.py: the loop over the series, which draws the bars.
use fast_and_safe_io_memory.Base.{
  ℕ, suc, ◌<◌, arith, ltb, true, false, if◌then◌else◌, All, Option, none, some, List, [], ◌∷◌, ◌++◌,
  map, ◌≡◌, refl, sym, ap, ◌∙◌, length, append_assoc, append-nil, Bool-cases, inl, inr,
}
use fast_and_safe_io_memory.Python.Exception.{Result, ok, raise}
use fast_and_safe_io_memory.Python.Floats.{Floats, max}
use fast_and_safe_io_memory.Python.Arrays.{Arrays}
use fast_and_safe_io_memory.Python.Statement.{next, for, for-next, ◌>>◌}
use fast_and_safe_io_memory.Python.Drawing.{call, Rectangle, Bars, heights, HaveHeights}
use fast_and_safe_io_memory.Python.Drawing.Charts.{View, see, view, view-append}
use fast_and_safe_io_memory.Dynamic.{Params}
use fast_and_safe_io_memory.Dynamic.Series.{Series, get_or, padded, enumerate_from}
use fast_and_safe_io_memory.Dynamic.Draw.{Locals, fit_errors, refused, tops, draw_series}
use fast_and_safe_io_memory.Dynamic.Lengths.{length-padded, max-sums, max-positive}

ltb-positive : (n : ℕ) → ltb 0 n ≡ true → 0 < n
ltb-positive n e = ground arith

module _ (F : Floats) where
  open F use {Float}

  -- the heights of a series, one for each label
  unfoldable pub heights_of : ℕ → Series F → List Float
  heights_of n s = padded F n (get_or [] s.values)

  max-tops :
      (n : ℕ) (vs : List Float) (errors : Option (List Float))
      → length vs ≡ n
      → 0 < length vs
      → (m : Float) × (max F (tops F vs (fit_errors F n errors)) ≡ ok m)
  max-tops n vs none same h = max-positive F vs h
  max-tops n vs (some es) same h =
      max-sums F vs (padded F n es) h (omega (arith, same, length-padded F n es))

  abbrev list_of : Result Float → List Float
  list_of (raise e) = []
  list_of (ok m) = m ∷ []

  -- the largest number that a series draws, its errors included, if it draws one
  unfoldable pub tops_of : ℕ → Series F → List Float
  tops_of n s =
      if ltb 0 (length (heights_of n s))
      then list_of (max F (tops F (heights_of n s) (fit_errors F n s.errors)))
      else []

  unfoldable pub maxima_of : ℕ → List (Series F) → List Float
  maxima_of n [] = []
  maxima_of n (s ∷ ss) = tops_of n s ++ maxima_of n ss

  -- no error of a series is negative
  abbrev pub HasErrors : ℕ → Series F → Type 0
  HasErrors n s = refused F (fit_errors F n s.errors) ≡ false

module _ (F : Floats) (A : Arrays F) where
  open F use {Float}

  abbrev with_bars : View F A → List (List Float) → View F A
  with_bars v lists = record v { current = record { bars = lists; labels = v.current.labels } }

  abbrev pub add_bars : List (List Float) → View F A → View F A
  add_bars lists v = with_bars v (v.current.bars ++ lists)

module _ (F : Floats) (A : Arrays F) (bars_of : Bars F A) where
  open F use {Float}
  open A use {Array}

  -- the variables after drawing bars of these heights
  pub record Drawn (s s' : Locals F A bars_of) (lists : List (List Float)) (maxima : List Float)
      : Type 0 where
    pub view_after : (v : View F A) → view F A s'.calls v ≡ add_bars F A lists (view F A s.calls v)
    pub handles : map (heights F A) s'.bars_handles ≡ map (heights F A) s.bars_handles ++ lists
    pub maxima_after : s'.series_max_values ≡ s.series_max_values ++ maxima

  map-append :
      (xs : List (List (Rectangle F A))) (y : List (Rectangle F A))
      → map (heights F A) (xs ++ y ∷ []) ≡ map (heights F A) xs ++ heights F A y ∷ []
  map-append [] y = refl
  map-append (x ∷ xs) y = ap (λ hs. heights F A x ∷ hs) (map-append xs y)

  pub draw_series-Drawn :
      HaveHeights F A bars_of
      → (params : Params F) (x : Array) (ns n idx : ℕ) (series : Series F) (s : Locals F A bars_of)
      → HasErrors F n series
      → ((draw_series F A bars_of params x ns n (idx, series) s).1 ≡ next)
        × Drawn s
            (draw_series F A bars_of params x ns n (idx, series) s).0
            (heights_of F n series ∷ [])
            (tops_of F n series)
  unfolding draw_series ◌>>◌ call heights_of tops_of see
  draw_series-Drawn same params x ns n idx series s accepted =
      let vs = padded F n (get_or [] series.values) in
      let drawn : (map (heights F A) (s.bars_handles ++ bars_of _ vs params.bar_width ∷ [])
          ≡ map (heights F A) s.bars_handles ++ vs ∷ []) =
        map-append s.bars_handles _
        ∙ ap (λ hs. map (heights F A) s.bars_handles ++ hs ∷ []) (same _ _ _) in
      elim (Bool-cases (ltb 0 (length vs))) [
        | inl e ↦
            let (m, em) =
              max-tops F n vs series.errors (length-padded F n _) (ltb-positive (length vs) e) in
            rw (draw_series, tops_of, accepted, e, em)
              (
                refl,
                record {
                  view_after = λ v. view-append F A s.calls _ v;
                  handles = drawn;
                  maxima_after = refl;
                },
              )
        | inr e ↦
            rw (draw_series, tops_of, accepted, e)
              (
                refl,
                record {
                  view_after = λ v. view-append F A s.calls _ v;
                  handles = drawn;
                  maxima_after = sym (append-nil s.series_max_values);
                },
              )
      ]

  -- the loop draws the heights of all series, and runs through
  pub loop-Drawn :
      HaveHeights F A bars_of
      → (params : Params F) (x : Array) (ns n idx : ℕ) (series : List (Series F))
        (s : Locals F A bars_of)
      → All (HasErrors F n) series
      → ((for (enumerate_from idx series) (draw_series F A bars_of params x ns n) s).1 ≡ next)
        × Drawn s
            (for (enumerate_from idx series) (draw_series F A bars_of params x ns n) s).0
            (map (heights_of F n) series)
            (maxima_of F n series)
  unfolding for enumerate_from maxima_of
  loop-Drawn same params x ns n idx [] s _ = (
    refl,
    record {
      view_after = λ v.
          let now = view F A s.calls v in
          sym (ap (with_bars F A now) (append-nil now.current.bars));
      handles = sym (append-nil (map (heights F A) s.bars_handles));
      maxima_after = sym (append-nil s.series_max_values);
    },
  )
  loop-Drawn same params x ns n idx (a ∷ as') s (accepted, others) =
      let (flow, one) = draw_series-Drawn same params x ns n idx a s accepted in
      let s' = (draw_series F A bars_of params x ns n (idx, a) s).0 in
      let (flows, rest) = loop-Drawn same params x ns n (suc idx) as' s' others in
      let first =
        for-next (idx, a) (enumerate_from (suc idx) as') (draw_series F A bars_of params x ns n) s
          (ap (λ f. (s', f)) flow) in
      rw first (
        flows,
        record {
          view_after = λ v.
              rest.view_after v
              ∙ ap (add_bars F A (map (heights_of F n) as')) (one.view_after v)
              ∙ ap (with_bars F A (view F A s.calls v)) (
                  append_assoc (view F A s.calls v).current.bars (heights_of F n a ∷ [])
                    (map (heights_of F n) as'));
          handles =
              rest.handles
              ∙ ap (λ hs. hs ++ map (heights_of F n) as') one.handles
              ∙ append_assoc (map (heights F A) s.bars_handles) _ _;
          maxima_after =
              rest.maxima_after
              ∙ ap (λ ms. ms ++ maxima_of F n as') one.maxima_after
              ∙ append_assoc s.series_max_values (tops_of F n a) (maxima_of F n as');
        },
      )
