-- ===== src/Virt3/Plans.antt =====
-- plots/plot_3virt.py: the chart that plot_bars3 saves.
pub mod Misses
use fast_and_safe_io_memory.Base.{
  String, ◌<>◌, List, [], ◌∷◌, ◌++◌, map, ◌≡◌, refl, sym, ap, ◌∙◌, append_assoc, append-nil, ◌⊎◌,
  inl, inr, pos, length,
}
use fast_and_safe_io_memory.Python.Exception
use fast_and_safe_io_memory.Python.Exception.{Result, ok, traverse, ◌>>=◌}
use fast_and_safe_io_memory.Python.Floats.{Floats, nat, max}
use fast_and_safe_io_memory.Python.Arrays.{Arrays, column}
use fast_and_safe_io_memory.Python.Statement.{Statement, next, for, for-next, ◌>>◌}
use fast_and_safe_io_memory.Python.Drawing.{
  Call, Calls, call, plain, Rectangle, Bars, heights, HaveHeights, text_at, real, text, whole,
}
use fast_and_safe_io_memory.Python.Drawing.Charts.{
  Chart, Figure, View, Plan, only, see, view, view-append, outcome, Follows,
}
use fast_and_safe_io_memory.Virt3.{Pages, read_pages, get_misses_per_page, misses_per_page}
use fast_and_safe_io_memory.Virt3.Draw
use fast_and_safe_io_memory.Virt3.Draw.{add_labels, plot_bars3}

module _ (F : Floats) where
  open F use {Float}

  -- the numbers that stand over bars
  unfoldable pub numbers : List Float → List String
  numbers hs = map (F.format_fixed 1) hs

  unfoldable pub chart3 : String → List Float → List Float → List Float → String × Figure F
  chart3 title off shadow nested = (
    title <> ".png",
    record {
      bars = off ∷ shadow ∷ nested ∷ [];
      labels = numbers off ++ numbers shadow ++ numbers nested;
    },
  )

module _ (F : Floats) (A : Arrays F) (bars_of : Bars F A) where
  open F use {Float, div}
  open A use {Table, field, arange, times, plus, minus}

  with_labels : View F A → List String → View F A
  with_labels v ts = record v { current = record { bars = v.current.bars; labels = ts } }

  add_numbers : List String → Figure F → Figure F
  add_numbers ts g = record g { labels = g.labels ++ ts }

  draw_numbers : List String → View F A → View F A
  draw_numbers ts v = record v { current = add_numbers ts v.current }

  label_call : Float → Rectangle F A → Call F A
  label_call m r = record {
    function = text_at;
    args =
        real (F.add r.x (div r.width (nat F 2)))
        ∷ real (F.add r.height (F.mul (F.decimal 2 2) m))
        ∷ text (F.format_fixed 1 r.height)
        ∷ [];
    kwargs = ("ha", text "center") ∷ ("va", text "bottom") ∷ ("fontsize", whole (pos 12)) ∷ [];
  }

  add_label-ok :
      (m : Float) (hs : List Float) (r : Rectangle F A) (calls : Calls F A)
      → max F hs ≡ ok m
      → Draw.add_label F A bars_of hs r calls ≡ (calls ++ label_call m r ∷ [], next)
  unfolding Draw.add_label call label_call
  add_label-ok m hs r calls e = rw e refl

  -- while there is a bar, the list that the maximum is of is not empty
  labels-drawn :
      (m : Float) (hs : List Float) (rs : List (Rectangle F A)) (calls : Calls F A) (v : View F A)
      → max F hs ≡ ok m
      → (view F A (add_labels F A bars_of hs rs calls).0 v
          ≡ draw_numbers (numbers F (heights F A rs)) (view F A calls v))
        × ((add_labels F A bars_of hs rs calls).1 ≡ next)
  unfolding add_labels for label_call heights numbers draw_numbers add_numbers with_labels see
  labels-drawn m hs [] calls v e = (
    sym (ap (with_labels (view F A calls v)) (append-nil (view F A calls v).current.labels)),
    refl,
  )
  labels-drawn m hs (r ∷ rs) calls v e =
      let rest = labels-drawn m hs rs (calls ++ label_call m r ∷ []) v e in
      let t = F.format_fixed 1 r.height in
      rw (for-next r rs (Draw.add_label F A bars_of hs) calls (add_label-ok m hs r calls e)) (
        rest.0
            ∙ ap (draw_numbers (numbers F (heights F A rs))) (view-append F A calls _ v)
            ∙ ap (with_labels (view F A calls v)) (
                append_assoc (view F A calls v).current.labels (t ∷ [])
                  (numbers F (heights F A rs))),
        rest.1,
      )

  impossible {ℓ} :
      {G : Type ℓ} (r : Rectangle F A) (rs : List (Rectangle F A)) → heights F A (r ∷ rs) ≡ [] → G
  unfolding heights
  impossible r rs e = cc

  -- the bars of `part`, whose numbers stand among those that the maximum is of
  labels-shown :
      (hs part : List Float) (rs : List (Rectangle F A))
      → heights F A rs ≡ part
      → (part ≡ []) ⊎ ((m : Float) × (max F hs ≡ ok m))
      → (calls : Calls F A)
      → ((v : View F A)
          → view F A (add_labels F A bars_of hs rs calls).0 v
            ≡ draw_numbers (numbers F part) (view F A calls v))
        × ((add_labels F A bars_of hs rs calls).1 ≡ next)
  unfolding add_labels for heights numbers draw_numbers add_numbers with_labels
  labels-shown hs part rs same (inr (m, e)) calls = (
    λ v.
        rw (labels-drawn m hs rs calls v e).0
          (ap (λ hs'. draw_numbers (numbers F hs') (view F A calls v)) same),
    (labels-drawn m hs rs calls (only F A []) e).1,
  )
  labels-shown hs part [] same (inl e) calls = (
    λ v.
        sym (ap (with_labels (view F A calls v)) (append-nil (view F A calls v).current.labels))
        ∙ ap (λ hs'. draw_numbers (numbers F hs') (view F A calls v)) (sym e),
    refl,
  )
  labels-shown hs part (r ∷ rs) same (inl e) calls = impossible r rs (same ∙ e)

  max-cases : (hs : List Float) → (hs ≡ []) ⊎ ((m : Float) × (max F hs ≡ ok m))
  unfolding max
  max-cases [] = inl refl
  max-cases (x ∷ xs) = inr (_, refl)

  parts-cases :
      (o s n : List Float)
      → ((o ≡ []) ⊎ ((m : Float) × (max F (o ++ s ++ n) ≡ ok m)))
        × ((s ≡ []) ⊎ ((m : Float) × (max F (o ++ s ++ n) ≡ ok m)))
        × ((n ≡ []) ⊎ ((m : Float) × (max F (o ++ s ++ n) ≡ ok m)))
  unfolding max
  parts-cases (x ∷ o) s n = (inr (_, refl), inr (_, refl), inr (_, refl))
  parts-cases [] (x ∷ s) n = (inl refl, inr (_, refl), inr (_, refl))
  parts-cases [] [] n = (inl refl, inl refl, max-cases n)

  pub plot_bars3-Follows :
      HaveHeights F A bars_of
      → (off shadow nested : List Float) (labels : List String) (title xlabel ylabel : String)
      → Follows F A
          (plot_bars3 F A bars_of off shadow nested labels title xlabel ylabel)
          (ok (chart3 F title off shadow nested) ∷ [])
  unfolding plot_bars3 plain call ◌>>◌ outcome chart3 draw_numbers add_numbers see
  plot_bars3-Follows same off shadow nested labels title xlabel ylabel =
      let x = times (arange (length labels)) (F.decimal 15 1) in
      let w = F.decimal 38 2 in
      let hs = off ++ shadow ++ nested in
      let cases = parts-cases off shadow nested in
      let l1 = labels-shown hs off (bars_of (minus x w) off w) (same _ _ _) cases.0 in
      let l2 = labels-shown hs shadow (bars_of x shadow w) (same _ _ _) cases.1 in
      let l3 = labels-shown hs nested (bars_of (plus x w) nested w) (same _ _ _) cases.2 in
      record {
        charts = λ calls cs e.
            rw ((l1 _).1, (l2 _).1, (l3 _).1)
              (simp (view-append F A, (l1 _).0, (l2 _).0, (l3 _).0, e));
        flow = λ calls. rw ((l1 _).1, (l2 _).1, (l3 _).1) refl;
      }
