-- ===== src/Metrics/Bounds.antt =====
-- scripts/report-tput-metrics.py: the lines that __get_ebpf_stats takes stand in the file.
use fast_and_safe_io_memory.Base.{
  ℕ, zero, suc, ◌+◌, ◌<◌, leb, String, Bool, true, false, Option, none, some, List, [], ◌∷◌, ◌≡◌,
  refl, arith, length, get_elem?, starts_with, Bool-cases, inl, inr, if◌then◌else◌,
}
use fast_and_safe_io_memory.Python.Exception.{ok}
use fast_and_safe_io_memory.Python.Text.Strip.{strip}
use fast_and_safe_io_memory.Metrics.Read.{find_bounds, section_of, between, csv_content}

-- one line of the search
step-lt :
    (ends : Bool) (i n : ℕ) (start s : Option ℕ) (rest : Option ℕ × Option ℕ) (e : ℕ)
    → (if ends then (start, some i) else rest) ≡ (s, some e)
    → (rest ≡ (s, some e) → e < suc i + n)
    → e < i + suc n
step-lt true i n start s rest e h later = let same : i ≡ e = cc in omega arith
step-lt false i n start s rest e h later = let below = later h in omega arith

-- the end is the number of a line
find_bounds-lt :
    (i : ℕ) (start : Option ℕ) (lines : List String) (s : Option ℕ) (e : ℕ)
    → find_bounds i start lines ≡ (s, some e)
    → e < i + length lines
unfolding find_bounds
find_bounds-lt i start [] s e h = cc
find_bounds-lt i start (l ∷ ls) s e h =
    let titled = starts_with (strip l) "# Per-Function Latency Statistics" in
    step-lt (starts_with (strip l) "# Per-Function Per-CPU Counts") i (length ls) _ s
      (find_bounds (i + 1) (if titled then some (i + 1) else start) ls) e h
      (λ r. let below = find_bounds-lt (i + 1) _ ls s e r in omega arith)

get_elem-in :
    (lines : List String) (s : ℕ) → s < length lines → (x : String) × (get_elem? lines s ≡ some x)
get_elem-in [] s h = let no : ⊥ = omega arith in elim no [ ]
get_elem-in (l ∷ ls) zero h = (l, refl)
get_elem-in (l ∷ ls) (suc s) h = get_elem-in ls s (omega arith)

section_of-ok :
    (lines : List String) (s e : ℕ)
    → e < length lines
    → (c : Option String) × (section_of s e lines ≡ ok c)
unfolding section_of
section_of-ok lines s e h = elim (Bool-cases (leb e s)) [
  | inl empty ↦ (none, rw (empty) refl)
  | inr below ↦ let (x, ex) = get_elem-in lines s (ground arith) in rw (below, ex) (_, refl)
]

between-ok :
    (lines : List String) (b : Option ℕ × Option ℕ)
    → ((s : Option ℕ) (e : ℕ) → b ≡ (s, some e) → e < length lines)
    → (c : Option String) × (between lines b ≡ ok c)
unfolding between
between-ok lines (none, end) h = (none, refl)
between-ok lines (some s, none) h = (none, refl)
between-ok lines (some s, some e) h = section_of-ok lines s e (h (some s) e refl)

-- Whatever the lines of a file of statistics are, reading its section raises nothing: the header is
-- a line of the file.
pub csv_content-ok : (lines : List String) → (c : Option String) × (csv_content lines ≡ ok c)
unfolding csv_content
csv_content-ok lines =
    between-ok lines (find_bounds 0 none lines)
      λ s e h. let below = find_bounds-lt 0 none lines s e h in omega arith
