-- ===== src/Kvm/Lines.antt =====
-- utils/parse_kvm_perf.py: what one round of the loop does with a line, by what the line shows.
use fast_and_safe_io_memory.Base.{
  String, true, false, none, some, List, [], ◌∷◌, ◌++◌, ℤ, pos, ◌≡◌, refl, sym, ap, ◌∙◌, ◌⊎◌, inl,
  inr, Option-cases, subst,
}
use fast_and_safe_io_memory.Python.Exception.{
  Result, ok, raise, value_error, from_option, error_of, bind-error, ok-injective, ◌>>=◌, >>=-ok,
  from_option-ok,
}
use fast_and_safe_io_memory.Python.Number.{int}
use fast_and_safe_io_memory.Python.Floats.{Floats, float}
use fast_and_safe_io_memory.Python.Pattern.{match, search_in}
use fast_and_safe_io_memory.Kvm.{
  row_pattern, total_pattern, Exit, Parsed, exit_of, nanoseconds, set_totals, parse_line,
}
use fast_and_safe_io_memory.Kvm.Raised.{
  bind-OnlyValueError, exit_of-OnlyValueError, set_totals-OnlyValueError,
}
use fast_and_safe_io_memory.Kvm.Rows.{IsRow, match-IsRow}
use fast_and_safe_io_memory.Kvm.Totals.{IsTotal, search-IsTotal, IsTotal-search}

module _ (F : Floats) where
  open F use {Float, of_int, mul, parse}

  -- a text is a number of microseconds, and the other number a thousand times as large
  abbrev pub IsTime : String → Float → Type 0
  IsTime text t = (us : Float) × (parse text ≡ some us) × (t ≡ mul us (of_int (pos 1000)))

  -- an exit has the values of the seven texts of a row
  abbrev pub HasTexts : List String → Exit F → Type 0
  HasTexts (reason ∷ samples ∷ samples_pct ∷ time_pct ∷ lo ∷ hi ∷ avg ∷ []) e =
      (e.exit_reason ≡ reason)
      × (int samples ≡ some e.samples)
      × (parse samples_pct ≡ some e.samples_pct)
      × (parse time_pct ≡ some e.time_pct)
      × IsTime lo e.min_time_ns
      × IsTime hi e.max_time_ns
      × IsTime avg e.avg_time_ns
      × (e.exit_total_time_ns ≡ mul e.avg_time_ns (of_int e.samples))
  HasTexts _ e = true ≡ false

  -- the totals have the values of the two texts of a line
  abbrev pub HasTotals : List String → ℤ → Float → Type 0
  HasTotals (samples ∷ time ∷ []) n t = (int samples ≡ some n) × IsTime time t
  HasTotals _ n t = true ≡ false

  nanoseconds-IsTime : (text : String) (t : Float) → nanoseconds F text ≡ ok t → IsTime text t
  unfolding nanoseconds
  nanoseconds-IsTime text t e =
      let (us, read, e1) = >>=-ok (float F text) _ e in
      (us, from_option-ok (parse text) value_error us read, sym (ok-injective _ _ e1))

  exit_of-HasTexts :
      (groups : List String) (e : Exit F) → exit_of F groups ≡ ok e → HasTexts groups e
  unfolding exit_of
  exit_of-HasTexts (reason ∷ samples ∷ samples_pct ∷ time_pct ∷ lo ∷ hi ∷ avg ∷ []) e h =
      let (n, en, h1) = >>=-ok (from_option value_error (int samples)) _ h in
      let (sp, es, h2) = >>=-ok (float F samples_pct) _ h1 in
      let (tp, et, h3) = >>=-ok (float F time_pct) _ h2 in
      let (a, ea, h4) = >>=-ok (nanoseconds F lo) _ h3 in
      let (b, eb, h5) = >>=-ok (nanoseconds F hi) _ h4 in
      let (c, ec, h6) = >>=-ok (nanoseconds F avg) _ h5 in
      subst (HasTexts (reason ∷ samples ∷ samples_pct ∷ time_pct ∷ lo ∷ hi ∷ avg ∷ []))
        (ok-injective _ e h6)
        (
          refl,
          from_option-ok (int samples) value_error n en,
          from_option-ok (parse samples_pct) value_error sp es,
          from_option-ok (parse time_pct) value_error tp et,
          nanoseconds-IsTime lo a ea,
          nanoseconds-IsTime hi b eb,
          nanoseconds-IsTime avg c ec,
          refl,
        )
  exit_of-HasTexts [] e h = cc
  exit_of-HasTexts (_ ∷ []) e h = cc
  exit_of-HasTexts (_ ∷ _ ∷ []) e h = cc
  exit_of-HasTexts (_ ∷ _ ∷ _ ∷ []) e h = cc
  exit_of-HasTexts (_ ∷ _ ∷ _ ∷ _ ∷ []) e h = cc
  exit_of-HasTexts (_ ∷ _ ∷ _ ∷ _ ∷ _ ∷ []) e h = cc
  exit_of-HasTexts (_ ∷ _ ∷ _ ∷ _ ∷ _ ∷ _ ∷ []) e h = cc
  exit_of-HasTexts (_ ∷ _ ∷ _ ∷ _ ∷ _ ∷ _ ∷ _ ∷ _ ∷ gs) e h = cc

  set_totals-HasTotals :
      (groups : List String) (r r' : Parsed F)
      → set_totals F groups r ≡ ok r'
      → (n : ℤ) × (t : Float) × HasTotals groups n t
        × (r' ≡ record r { total_samples = some n; total_time_ns = some t })
  unfolding set_totals
  set_totals-HasTotals (samples ∷ time ∷ []) r r' h =
      let (n, en, h1) = >>=-ok (from_option value_error (int samples)) _ h in
      let (t, et, h2) = >>=-ok (nanoseconds F time) _ h1 in
      (
        n,
        t,
        (from_option-ok (int samples) value_error n en, nanoseconds-IsTime time t et),
        sym (ok-injective _ r' h2),
      )
  set_totals-HasTotals [] r r' h = cc
  set_totals-HasTotals (_ ∷ []) r r' h = cc
  set_totals-HasTotals (_ ∷ _ ∷ _ ∷ gs) r r' h = cc

  HasTexts-exit_of :
      (groups : List String) (e : Exit F) → HasTexts groups e → error_of (exit_of F groups) ≡ none
  unfolding exit_of nanoseconds
  HasTexts-exit_of (reason ∷ samples ∷ samples_pct ∷ time_pct ∷ lo ∷ hi ∷ avg ∷ []) e
        (h1, h2, h3, h4, (_, h5, _), (_, h6, _), (_, h7, _), _) =
      rw (h2, h3, h4, h5, h6, h7) refl
  HasTexts-exit_of [] e h = cc
  HasTexts-exit_of (_ ∷ []) e h = cc
  HasTexts-exit_of (_ ∷ _ ∷ []) e h = cc
  HasTexts-exit_of (_ ∷ _ ∷ _ ∷ []) e h = cc
  HasTexts-exit_of (_ ∷ _ ∷ _ ∷ _ ∷ []) e h = cc
  HasTexts-exit_of (_ ∷ _ ∷ _ ∷ _ ∷ _ ∷ []) e h = cc
  HasTexts-exit_of (_ ∷ _ ∷ _ ∷ _ ∷ _ ∷ _ ∷ []) e h = cc
  HasTexts-exit_of (_ ∷ _ ∷ _ ∷ _ ∷ _ ∷ _ ∷ _ ∷ _ ∷ gs) e h = cc

  HasTotals-set_totals :
      (groups : List String) (n : ℤ) (t : Float) (r : Parsed F)
      → HasTotals groups n t
      → error_of (set_totals F groups r) ≡ none
  unfolding set_totals nanoseconds
  HasTotals-set_totals (samples ∷ time ∷ []) n t r (h1, (_, h2, _)) = rw (h1, h2) refl
  HasTotals-set_totals [] n t r h = cc
  HasTotals-set_totals (_ ∷ []) n t r h = cc
  HasTotals-set_totals (_ ∷ _ ∷ _ ∷ gs) n t r h = cc

  -- what a row with these texts does to the result: the exit with their values is appended, or one
  -- of the texts is no number
  abbrev pub AddsExit : List String → Parsed F → Result (Parsed F) → Type 0
  AddsExit groups r (ok r') =
      (e : Exit F) × HasTexts groups e × (r' ≡ record r { exits = r.exits ++ e ∷ [] })
  AddsExit groups r (raise x) = (x ≡ value_error) × ((e : Exit F) → ¬ HasTexts groups e)

  -- what a line with these totals does to it
  abbrev pub SetsTotals : List String → Parsed F → Result (Parsed F) → Type 0
  SetsTotals groups r (ok r') =
      (n : ℤ) × (t : Float) × HasTotals groups n t
      × (r' ≡ record r { total_samples = some n; total_time_ns = some t })
  SetsTotals groups r (raise x) = (x ≡ value_error) × ((n : ℤ) (t : Float) → ¬ HasTotals groups n t)

  row-AddsExit :
      (groups : List String) (r : Parsed F) (out : Result (Parsed F))
      → (exit_of F groups >>= λ x. ok (record r { exits = r.exits ++ x ∷ [] })) ≡ out
      → AddsExit groups r out
  row-AddsExit groups r (ok r') h =
      let (e, read, h1) = >>=-ok (exit_of F groups) _ h in
      (e, exit_of-HasTexts groups e read, sym (ok-injective _ r' h1))
  row-AddsExit groups r (raise x) h = (
    bind-OnlyValueError (exit_of F groups) (λ e. ok (record r { exits = r.exits ++ e ∷ [] }))
        (exit_of-OnlyValueError F groups) (λ e y h'. cc) x h,
    λ e texts.
        let read = HasTexts-exit_of groups e texts in
        let same =
          bind-error (exit_of F groups) (λ y. record r { exits = r.exits ++ y ∷ [] }) ∙ read in
        let raised = ap error_of h in cc,
  )

  total-SetsTotals :
      (groups : List String) (r : Parsed F) (out : Result (Parsed F))
      → set_totals F groups r ≡ out
      → SetsTotals groups r out
  total-SetsTotals groups r (ok r') h = set_totals-HasTotals groups r r' h
  total-SetsTotals groups r (raise x) h = (
    set_totals-OnlyValueError F groups r x h,
    λ n t values.
        let read = HasTotals-set_totals groups n t r values in let raised = ap error_of h in cc,
  )

-- One round of the loop, for every line: if the line is a row, the round appends the exit with the
-- values of the row's texts and changes nothing else, or raises a ValueError if these texts are no
-- numbers; if it is no row but shows the totals, it sets the two totals to the values of such texts
-- and changes nothing else, or raises a ValueError if they are no numbers; and else it changes
-- nothing.
pub parse_line-shown :
    (F : Floats) (line : String) (r : Parsed F)
    → ((groups : List String) × IsRow line groups × AddsExit F groups r (parse_line F line r))
      ⊎ (((groups : List String) → ¬ IsRow line groups)
          × (((groups : List String) × IsTotal line groups
                × SetsTotals F groups r (parse_line F line r))
              ⊎ (((groups : List String) → ¬ IsTotal line groups) × (parse_line F line r ≡ ok r))))
unfolding parse_line
parse_line-shown F line r = elim (Option-cases (match row_pattern line)) [
  | inr (groups, row) ↦
      let same : (exit_of F groups >>= λ x. ok (record r { exits = r.exits ++ x ∷ [] }))
          ≡ parse_line F line r =
        rw (parse_line, row) refl in
      inl (groups, (match-IsRow line groups).0 row, row-AddsExit F groups r _ same)
  | inl no_row ↦ inr (
    λ groups row. let found = (match-IsRow line groups).1 row in cc,
    elim (Option-cases (search_in total_pattern line)) [
      | inl other ↦
          let same : parse_line F line r ≡ ok r = rw (parse_line, no_row, other) refl in
          inr (λ groups total. IsTotal-search line groups total other, same)
      | inr (groups, total) ↦
          let same : set_totals F groups r ≡ parse_line F line r =
            rw (parse_line, no_row, total) refl in
          inl (groups, search-IsTotal line groups total, total-SetsTotals F groups r _ same)
    ],
  )
]
