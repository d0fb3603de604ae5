-- ===== src/Kvm/Totals.antt =====
-- The totals of a report, which utils/parse_kvm_perf.py searches for by a regular expression, without it.
use fast_and_safe_io_memory.Base.{
  String, true, none, some, List, [], ◌∷◌, ◌≡◌, ◌≢◌, refl, sym, ap, ◌∙◌,
}
use fast_and_safe_io_memory.Python.Text.{is_space}
use fast_and_safe_io_memory.Python.Pattern.{search_in, is_digit, is_decimal}
use fast_and_safe_io_memory.Python.Pattern.Unique.{Matches, Separated, all_chars, cat}
use fast_and_safe_io_memory.Python.Pattern.Search.{search-found, search-cut}
use fast_and_safe_io_memory.Kvm.{total_pattern}
use fast_and_safe_io_memory.Kvm.Rows.{Full}

total_pattern-Separated : Separated total_pattern
total_pattern-Separated = (refl, (refl, (refl, tt)))

-- A line that has the two labels somewhere, with these two texts: digits, and a decimal before `us`.
abbrev pub IsTotal : String → List String → Type 0
IsTotal line groups =
    (before samples space time rest : String) × (line
      ≡ cat before (
          cat "Total Samples:" (
            cat samples
              (cat "," (cat space (cat "Total events handled time:" (cat time (cat "us" rest))))))))
    × Full is_digit samples
    × (all_chars is_space space ≡ true)
    × Full is_decimal time
    × (groups ≡ samples ∷ time ∷ [])

Matches-IsTotal :
    (line before b : String) (gs : List String)
    → line ≡ cat before b
    → Matches total_pattern b gs
    → IsTotal line gs
Matches-IsTotal line before b gs cut
      (
        b1,
        c1,
        (
          samples,
          b2,
          g2,
          c2,
          a2,
          f2,
          e2,
          (b3, c3, (space, b4, c4, a4, (b5, c5, (time, b6, g6, c6, a6, f6, e6, (rest, c7, e7))))),
        ),
      ) =
    (before, samples, space, time, rest, cc, (a2, f2), a4, (a6, f6), cc)

IsTotal-Matches :
    (line : String) (gs : List String)
    → IsTotal line gs
    → (a : String) × (b : String) × (line ≡ cat a b) × Matches total_pattern b gs
IsTotal-Matches line gs (before, samples, space, time, rest, cut, (a2, f2), a4, (a6, f6), groups) =
    (
      before,
      _,
      cut,
      (
        _,
        refl,
        (
          samples,
          _,
          _,
          refl,
          a2,
          f2,
          groups,
          (
            _,
            refl,
            (space, _, refl, a4, (_, refl, (time, _, _, refl, a6, f6, refl, (rest, refl, refl)))),
          ),
        ),
      ),
    )

pub search-IsTotal :
    (line : String) (groups : List String)
    → search_in total_pattern line ≡ some groups
    → IsTotal line groups
search-IsTotal line groups found =
    let (a, b, cut, m) = search-cut total_pattern line groups total_pattern-Separated found in
    Matches-IsTotal line a b groups cut m

pub IsTotal-search :
    (line : String) (groups : List String)
    → IsTotal line groups
    → search_in total_pattern line ≢ none
IsTotal-search line groups total missing =
    let (a, b, cut, m) = IsTotal-Matches line groups total in
    search-found total_pattern a b groups total_pattern-Separated m
      (ap (search_in total_pattern) (sym cut) ∙ missing)
