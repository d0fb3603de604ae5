-- ===== src/Dynamic/Ebpf/Saved.antt =====
-- plots/leshna_plot_nested.py: which charts of the eBPF statistics are saved.
use fast_and_safe_io_memory.Base.{
  ℕ, String, true, false, All, map, Option, some, List, [], ◌∷◌, ◌++◌, ◌≡◌, refl, sym, ap, ◌∙◌, ℤ,
  length, append_assoc, append-nil, if◌then◌else◌, Bool-cases, inl, inr,
}
use fast_and_safe_io_memory.Python.Exception.{ok}
use fast_and_safe_io_memory.Python.Floats.{Floats, nat}
use fast_and_safe_io_memory.Python.Arrays.{Arrays}
use fast_and_safe_io_memory.Python.Statement.{Statement, pass, next, after, for, for-next, ◌>>◌}
use fast_and_safe_io_memory.Python.Drawing.{Calls, Bars, HaveHeights}
use fast_and_safe_io_memory.Python.Drawing.Charts.{
  Chart, only, view, outcome, planned-ok, Follows, Follows-same,
}
use fast_and_safe_io_memory.Collect.Outcome.{names}
use fast_and_safe_io_memory.Dynamic.{font_scale}
use fast_and_safe_io_memory.Dynamic.Bounds.{calculate_plot_params-bounds}
use fast_and_safe_io_memory.Dynamic.Series.{Series, Options, file_path}
use fast_and_safe_io_memory.Dynamic.Draw.{plot_bars_dynamic}
use fast_and_safe_io_memory.Dynamic.Charts.{chart_of, IsDrawable, plot_bars_dynamic-Follows}
use fast_and_safe_io_memory.Dynamic.Ebpf.{
  Frames, Selected, functions_of, title_of, Dataset, Loaded, loaded, all_match, options,
  series_with_stddev, series_of_totals, plot_functionality, plot_loaded,
  plot_ebpf_selected_functions,
}

module _ (F : Floats) (A : Arrays F) where
  -- `m` runs through and saves figures under these paths, if no figure is begun
  pub record Saves (m : Statement (Calls F A)) (paths : List String) : Type 0 where
    pub charts :
        (calls : Calls F A) (cs : List (Chart F))
        → view F A calls (only F A []) ≡ only F A cs
        → (ds : List (Chart F)) × (names ds ≡ paths)
          × (view F A (m calls).0 (only F A []) ≡ only F A (cs ++ ds))
    pub runs : (calls : Calls F A) → (m calls).1 ≡ next

  Saves-none : Saves pass []
  Saves-none = record {
    charts = λ calls cs e. ([], refl, e ∙ ap (only F A) (sym (append-nil cs)));
    runs = λ calls. refl;
  }

  names-append : (cs ds : List (Chart F)) → names (cs ++ ds) ≡ names cs ++ names ds
  names-append [] ds = refl
  names-append (c ∷ cs) ds = ap (λ ns. c.0 ∷ ns) (names-append cs ds)

  Saves-seq :
      (m k : Statement (Calls F A)) (ps qs : List String)
      → Saves m ps
      → Saves k qs
      → Saves (m >> k) (ps ++ qs)
  unfolding ◌>>◌
  Saves-seq m k ps qs hm hk = record {
    charts = λ calls cs e.
        let (ds, ed, vd) = hm.charts calls cs e in
        let (es, ee, ve) = hk.charts (m calls).0 (cs ++ ds) vd in
        (
          ds ++ es,
          names-append ds es ∙ ap (λ ns. ns ++ names es) ed ∙ ap (λ ns. ps ++ ns) ee,
          rw (hm.runs calls) (ve ∙ ap (only F A) (append_assoc cs ds es)),
        );
    runs = λ calls. rw (hm.runs calls) (hk.runs (m calls).0);
  }

  Saves-Follows :
      (m : Statement (Calls F A)) (c : Chart F) → Follows F A m (ok c ∷ []) → Saves m (c.0 ∷ [])
  unfolding outcome
  Saves-Follows m c h = record {
    charts = λ calls cs e. (c ∷ [], refl, h.charts calls cs e);
    runs = λ calls. h.flow calls;
  }

module _ {ℓ} {B : Type ℓ} where
  abbrev pub concat_map : (B → List String) → List B → List String
  concat_map f [] = []
  concat_map f (b ∷ bs) = f b ++ concat_map f bs

module _ {ℓ} (F : Floats) (A : Arrays F) {B : Type ℓ} where
  Saves-for :
      (items : List B) (body : B → Statement (Calls F A)) (f : B → List String)
      → All (λ b. Saves F A (body b) (f b)) items
      → Saves F A (for items body) (concat_map f items)
  unfolding for ◌>>◌
  Saves-for [] body f _ = Saves-none F A
  Saves-for (b ∷ bs) body f (each, others) =
      let rest = Saves-seq F A (body b) (for bs body) _ _ each (Saves-for bs body f others) in
      let same : (calls : Calls F A) → for (b ∷ bs) body calls ≡ (body b >> for bs body) calls =
        λ calls.
          for-next b bs body calls (ap (λ flow. ((body b calls).0, flow)) (each.runs calls))
          ∙ sym (ap (λ flow. after flow (for bs body) (body b calls).0) (each.runs calls)) in
      record {
        charts = λ calls cs e.
            let (ds, ed, v) = rest.charts calls cs e in
            (ds, ed, ap (λ r. view F A r.0 (only F A [])) (same calls) ∙ v);
        runs = λ calls. ap (λ r. r.1) (same calls) ∙ rest.runs calls;
      }

-- the paths of the four charts of a functionality
unfoldable pub four_paths : String → Option String → String × List String → List String
four_paths key dir (functionality, _) =
    file_path (title_of key functionality "count") dir
    ∷ file_path (title_of key functionality "mean_ns") dir
    ∷ file_path (title_of key functionality "total_time") dir
    ∷ file_path (title_of key functionality "count_per_page") dir
    ∷ []

module _ (F : Floats) (P : Frames F) where
  -- the paths that are to be saved: none unless a data set is loaded, and each has a table for each label
  unfoldable pub expected_paths :
      List (Loaded F P) → ℕ → Selected → String → Option String → List String
  expected_paths [] n selected key dir = []
  expected_paths (d ∷ ds) n selected key dir =
      if all_match F P n (d ∷ ds)
      then concat_map (four_paths key dir) (functions_of selected)
      else []

  -- matplotlib takes the series of the four charts of a functionality
  unfoldable pub AreDrawable : Option String → ℕ → List (Loaded F P) → String × List String → Type 0
  AreDrawable dir n ds (_, names) =
      IsDrawable F (options F P dir 1 false) n (map (series_with_stddev F P names "count") ds)
      × IsDrawable F (options F P dir 1 true) n (map (series_with_stddev F P names "mean_ns") ds)
      × IsDrawable F (options F P dir 1 true) n (map (series_of_totals F P names) ds)
      × IsDrawable F (options F P dir 4 false) n
          (map (series_with_stddev F P names "count_per_page") ds)

module _ (F : Floats) (A : Arrays F) (bars_of : Bars F A) where
  chart-Saves :
      HaveHeights F A bars_of
      → ((nx ns : ℕ) → (n : ℤ) × (F.trunc (F.mul (nat F 14) (font_scale F nx ns)) ≡ ok n))
      → (o : Options F) (s : Series F) (ss : List (Series F)) (labels : List String)
        (title xlabel ylabel : String)
      → IsDrawable F o (length labels) (s ∷ ss)
      → Saves F A
          (plot_bars_dynamic F A bars_of o (some (s ∷ ss)) (some labels) title xlabel ylabel)
          (file_path title o.output_dir ∷ [])
  unfolding chart_of
  chart-Saves same whole o s ss labels title xlabel ylabel drawable =
      let (n, en) = whole (length labels) (length (s ∷ ss)) in
      let bounds =
        calculate_plot_params-bounds F (length labels) (length (s ∷ ss)) o.max_width n en in
      let chart = chart_of F A o (s ∷ ss) (length labels) title in
      Saves-Follows F A _ (chart bounds.0) (
        Follows-same F A (planned-ok F A _ (λ params. ok (chart params) ∷ []) bounds.0 bounds.1)
          (plot_bars_dynamic-Follows F A bars_of same o s ss labels title xlabel ylabel drawable))

module _ (F : Floats) (A : Arrays F) (bars_of : Bars F A) (P : Frames F) where
  functionality-Saves :
      HaveHeights F A bars_of
      → ((nx ns : ℕ) → (n : ℤ) × (F.trunc (F.mul (nat F 14) (font_scale F nx ns)) ≡ ok n))
      → (d : Loaded F P) (ds : List (Loaded F P)) (labels : List String) (key xlabel : String)
        (dir : Option String) (f : String × List String)
      → AreDrawable F P dir (length labels) (d ∷ ds) f
      → Saves F A
          (plot_functionality F A bars_of P (d ∷ ds) (some labels) key xlabel dir f)
          (four_paths key dir f)
  unfolding plot_functionality options four_paths AreDrawable
  functionality-Saves same whole d ds labels key xlabel dir (name, names) (d1, d2, d3, d4) =
      let one = λ (o : Options F) (s : Series F) (ss : List (Series F)) (title ylabel : String).
        chart-Saves F A bars_of same whole o s ss labels title xlabel ylabel in
      Saves-seq F A _ _ (_ ∷ []) _ (one _ _ _ _ _ d1) (
        Saves-seq F A _ _ (_ ∷ []) _ (one _ _ _ _ _ d2)
          (Saves-seq F A _ _ (_ ∷ []) _ (one _ _ _ _ _ d3) (one _ _ _ _ _ d4)))

  each-Saves :
      HaveHeights F A bars_of
      → ((nx ns : ℕ) → (n : ℤ) × (F.trunc (F.mul (nat F 14) (font_scale F nx ns)) ≡ ok n))
      → (d : Loaded F P) (ds : List (Loaded F P)) (labels : List String) (key xlabel : String)
        (dir : Option String) (fs : List (String × List String))
      → All (AreDrawable F P dir (length labels) (d ∷ ds)) fs
      → All
          (λ f.
            Saves F A
              (plot_functionality F A bars_of P (d ∷ ds) (some labels) key xlabel dir f)
              (four_paths key dir f))
          fs
  each-Saves same whole d ds labels key xlabel dir [] _ = tt
  each-Saves same whole d ds labels key xlabel dir (f ∷ fs) (h, hs) = (
    functionality-Saves same whole d ds labels key xlabel dir f h,
    each-Saves same whole d ds labels key xlabel dir fs hs,
  )

  loaded-Saves :
      HaveHeights F A bars_of
      → ((nx ns : ℕ) → (n : ℤ) × (F.trunc (F.mul (nat F 14) (font_scale F nx ns)) ≡ ok n))
      → (ds : List (Loaded F P)) (labels : List String) (selected : Selected) (key xlabel : String)
        (dir : Option String)
      → All (AreDrawable F P dir (length labels) ds) (functions_of selected)
      → Saves F A
          (plot_loaded F A bars_of P ds (some labels) selected key xlabel dir)
          (expected_paths F P ds (length labels) selected key dir)
  unfolding plot_loaded expected_paths
  loaded-Saves same whole [] labels selected key xlabel dir _ = Saves-none F A
  loaded-Saves same whole (d ∷ ds) labels selected key xlabel dir drawable =
      elim (Bool-cases (all_match F P (length labels) (d ∷ ds))) [
        | inl e ↦ rw e (
            Saves-for F A (functions_of selected) _ _
              (each-Saves same whole d ds labels key xlabel dir (functions_of selected) drawable))
        | inr e ↦ rw e (Saves-none F A)
      ]

  -- Where the rectangles of a bar chart are as high as its heights, int() reads the size of the font for all
  -- numbers of labels and series, and in each chart of the functionalities no deviation is negative and
  -- the end of each axis that is not logarithmic is finite (with one run a deviation is no number): the
  -- function runs through and saves, in this order, four charts for each functionality, of the count,
  -- the mean, the total time and the count per page, if at least one data set has statistics and each
  -- that has them has as many as there are labels, and no chart otherwise.
  pub plot_ebpf-Saves :
      HaveHeights F A bars_of
      → ((nx ns : ℕ) → (n : ℤ) × (F.trunc (F.mul (nat F 14) (font_scale F nx ns)) ≡ ok n))
      → (datasets : List (Dataset F P)) (labels : List String) (selected : Selected)
        (key xlabel : String) (dir : Option String)
      → All (AreDrawable F P dir (length labels) (loaded F P datasets)) (functions_of selected)
      → Saves F A
          (plot_ebpf_selected_functions F A bars_of P
            (some datasets)
            (some labels)
            selected
            key
            xlabel
            dir)
          (expected_paths F P (loaded F P datasets) (length labels) selected key dir)
  unfolding plot_ebpf_selected_functions
  plot_ebpf-Saves same whole datasets labels selected key xlabel dir drawable =
      loaded-Saves same whole (loaded F P datasets) labels selected key xlabel dir drawable
