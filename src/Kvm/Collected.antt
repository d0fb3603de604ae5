-- ===== src/Kvm/Collected.antt =====
-- What utils/parse_kvm_perf.py collects from a report, against the lines of the report.
use fast_and_safe_io_memory.Base.{
  String, Option, none, some, List, [], ◌∷◌, ◌++◌, ℤ, ◌≡◌, refl, sym, ap, ◌∙◌, arith, append_assoc,
  append-nil, Option-cases, inl, inr,
}
use fast_and_safe_io_memory.Python.Exception.{
  Result, ok, raise, value_error, from_option, ok-injective, ◌>>=◌, >>=-ok, from_option-ok,
}
use fast_and_safe_io_memory.Python.Number.{int}
use fast_and_safe_io_memory.Python.Floats.{Floats}
use fast_and_safe_io_memory.Python.Pattern.{match, search_in}
use fast_and_safe_io_memory.Kvm.{
  row_pattern, total_pattern, Exit, Parsed, exit_of, nanoseconds, set_totals, parse_line,
  parse_lines, parse_perf_output,
}

module _ (F : Floats) where
  abbrev pub exits_in : Result (Exit F) → List (Exit F)
  exits_in (raise e) = []
  exits_in (ok e) = e ∷ []

  -- the exits that a line shows
  unfoldable pub shown_exits : String → List (Exit F)
  shown_exits line = elim (match row_pattern line) [
    | none ↦ []
    | some groups ↦ exits_in (exit_of F groups)
  ]

  unfoldable pub all_exits : List String → List (Exit F)
  all_exits [] = []
  all_exits (l ∷ ls) = shown_exits l ++ all_exits ls

  abbrev first_group : List String → Option ℤ
  first_group [] = none
  first_group (g ∷ gs) = int g

  -- the samples that a line shows as the total, if it is no row
  unfoldable pub shown_total : String → Option ℤ
  shown_total line = elim (match row_pattern line) [
    | some groups ↦ none
    | none ↦ elim (search_in total_pattern line) [ none ↦ none | some groups ↦ first_group groups ]
  ]

  abbrev value_of : Result F.Float → Option F.Float
  value_of (raise e) = none
  value_of (ok x) = some x

  abbrev second_group : List String → Option F.Float
  second_group [] = none
  second_group (g ∷ []) = none
  second_group (g ∷ t ∷ gs) = value_of (nanoseconds F t)

  -- the time that a line shows as the total, if it is no row
  unfoldable pub shown_time : String → Option F.Float
  shown_time line = elim (match row_pattern line) [
    | some groups ↦ none
    | none ↦ elim (search_in total_pattern line) [ none ↦ none | some groups ↦ second_group groups ]
  ]

  abbrev pub or_before {ℓ} : {A : Type ℓ} → Option A → Option A → Option A
  or_before none before = before
  or_before (some n) before = some n

  -- the last total of a report
  unfoldable pub last_total : List String → Option ℤ
  last_total [] = none
  last_total (l ∷ ls) = or_before (last_total ls) (shown_total l)

  unfoldable pub last_time : List String → Option F.Float
  last_time [] = none
  last_time (l ∷ ls) = or_before (last_time ls) (shown_time l)

  set_totals-ok :
      (groups : List String) (r r' : Parsed F)
      → set_totals F groups r ≡ ok r'
      → (r'.exits ≡ r.exits)
        × (r'.total_samples ≡ or_before (first_group groups) r.total_samples)
        × (r'.total_time_ns ≡ or_before (second_group groups) r.total_time_ns)
  unfolding set_totals
  set_totals-ok (samples ∷ time ∷ []) r r' e =
      let (n, read, e1) = >>=-ok (from_option value_error (int samples)) _ e in
      let (t, timed, e2) =
        >>=-ok (nanoseconds F time)
          (λ t. ok (record r { total_samples = some n; total_time_ns = some t })) e1 in
      let same = sym (ok-injective _ r' e2) in
      (
        ap (λ q. q.exits) same,
        ap (λ q. q.total_samples) same
            ∙ ground (arith, from_option-ok (int samples) value_error n read),
        ap (λ q. q.total_time_ns) same
            ∙ sym (ap (λ x. or_before (value_of x) r.total_time_ns) timed),
      )
  set_totals-ok [] r r' e = cc
  set_totals-ok (a ∷ []) r r' e = cc
  set_totals-ok (a ∷ b ∷ c ∷ gs) r r' e = cc

  parse_line-ok :
      (line : String) (r r' : Parsed F)
      → parse_line F line r ≡ ok r'
      → (r'.exits ≡ r.exits ++ shown_exits line)
        × (r'.total_samples ≡ or_before (shown_total line) r.total_samples)
        × (r'.total_time_ns ≡ or_before (shown_time line) r.total_time_ns)
  unfolding parse_line shown_exits shown_total shown_time
  parse_line-ok line r r' e = elim (Option-cases (match row_pattern line)) [
    | inr (groups, row) ↦
        let same : parse_line F line r
            ≡ (exit_of F groups >>= λ x. ok (record r { exits = r.exits ++ x ∷ [] })) =
          rw (parse_line, row) refl in
        let (x, read, e1) =
          >>=-ok (exit_of F groups) (λ x. ok (record r { exits = r.exits ++ x ∷ [] }))
            (sym same ∙ e) in
        let eq = sym (ok-injective _ r' e1) in
        let shows : shown_exits line ≡ x ∷ [] = rw (shown_exits, row, read) refl in
        let total : shown_total line ≡ none = rw (shown_total, row) refl in
        let time : shown_time line ≡ none = rw (shown_time, row) refl in
        rw (shows, total, time)
          (ap (λ q. q.exits) eq, ap (λ q. q.total_samples) eq, ap (λ q. q.total_time_ns) eq)
    | inl no_row ↦ elim (Option-cases (search_in total_pattern line)) [
      | inl other ↦
          let same : parse_line F line r ≡ ok r = rw (parse_line, no_row, other) refl in
          let eq = sym (ok-injective r r' (sym same ∙ e)) in
          let shows : shown_exits line ≡ [] = rw (shown_exits, no_row) refl in
          let nothing : shown_total line ≡ none = rw (shown_total, no_row, other) refl in
          let no_time : shown_time line ≡ none = rw (shown_time, no_row, other) refl in
          rw (shows, nothing, no_time)
            (
              ap (λ q. q.exits) eq ∙ sym (append-nil r.exits),
              ap (λ q. q.total_samples) eq,
              ap (λ q. q.total_time_ns) eq,
            )
      | inr (groups, total) ↦
          let same : parse_line F line r ≡ set_totals F groups r =
            rw (parse_line, no_row, total) refl in
          let (exits, samples, time) = set_totals-ok groups r r' (sym same ∙ e) in
          let shows : shown_exits line ≡ [] = rw (shown_exits, no_row) refl in
          let shown : shown_total line ≡ first_group groups =
            rw (shown_total, no_row, total) refl in
          let timed : shown_time line ≡ second_group groups = rw (shown_time, no_row, total) refl in
          rw (shows, shown, timed) (exits ∙ sym (append-nil r.exits), samples, time)
    ]
  ]

  or_before_before {ℓ} :
      {A : Type ℓ} (a b c : Option A) → or_before a (or_before b c) ≡ or_before (or_before a b) c
  or_before_before none b c = refl
  or_before_before (some n) b c = refl

  or_before-none {ℓ} : {A : Type ℓ} (a : Option A) → or_before a none ≡ a
  or_before-none none = refl
  or_before-none (some n) = refl

  parse_lines-ok :
      (ls : List String) (r r' : Parsed F)
      → parse_lines F ls r ≡ ok r'
      → (r'.exits ≡ r.exits ++ all_exits ls)
        × (r'.total_samples ≡ or_before (last_total ls) r.total_samples)
        × (r'.total_time_ns ≡ or_before (last_time ls) r.total_time_ns)
  unfolding parse_lines all_exits last_total last_time
  parse_lines-ok [] r r' e =
      let eq = sym (ok-injective r r' e) in
      (
        ap (λ q. q.exits) eq ∙ sym (append-nil r.exits),
        ap (λ q. q.total_samples) eq,
        ap (λ q. q.total_time_ns) eq,
      )
  parse_lines-ok (l ∷ ls) r r' e =
      let (m, first, e1) = >>=-ok (parse_line F l r) (parse_lines F ls) e in
      let (exits, total, time) = parse_line-ok l r m first in
      let (exits', total', time') = parse_lines-ok ls m r' e1 in
      (
        exits'
            ∙ ap (λ xs. xs ++ all_exits ls) exits
            ∙ append_assoc r.exits (shown_exits l) (all_exits ls),
        total'
            ∙ ap (or_before (last_total ls)) total
            ∙ or_before_before (last_total ls) (shown_total l) r.total_samples,
        time'
            ∙ ap (or_before (last_time ls)) time
            ∙ or_before_before (last_time ls) (shown_time l) r.total_time_ns,
      )

-- If a report can be parsed, then the exits are those of its rows, in order, and the total and its time
-- are those of the last line with a total that is no row, or none if there is no such line.
pub parse-exits :
    (F : Floats) (lines : List String) (r : Parsed F)
    → parse_perf_output F lines ≡ ok r
    → (r.exits ≡ all_exits F lines)
      × (r.total_samples ≡ last_total F lines)
      × (r.total_time_ns ≡ last_time F lines)
unfolding parse_perf_output
parse-exits F lines r e =
    let (exits, total, time) = parse_lines-ok F lines _ r e in
    (
      exits,
      total ∙ or_before-none F (last_total F lines),
      time ∙ or_before-none F (last_time F lines),
    )
