-- ===== src/Python/Pattern/Search.antt =====
-- The regular expressions that are searched for in a text, against what they mean.
use fast_and_safe_io_memory.Base.{
  String, none, some, List, ◌≡◌, ◌≢◌, refl, ap, arith, Option-cases, inl, inr,
}
use fast_and_safe_io_memory.Python.Pattern.{Piece, match, search_in}
use fast_and_safe_io_memory.Python.Pattern.Unique.{Matches, Separated, cat, match-Matches}

search-match :
    (ps : List Piece) (s : String) (gs : List String)
    → match ps s ≡ some gs
    → search_in ps s ≡ some gs
unfolding search_in
search-match ps String.[] gs e = e
search-match ps (String.◌∷◌ c s) gs e = ground (arith, e)

pub search-found :
    (ps : List Piece) (a b : String) (gs : List String)
    → Separated ps
    → Matches ps b gs
    → search_in ps (cat a b) ≢ none
unfolding search_in
search-found ps String.[] b gs sep m missing =
    ground (arith, missing, search-match ps b gs ((match-Matches ps b gs sep).1 m))
search-found ps (String.◌∷◌ c a) b gs sep m missing =
    elim (Option-cases (match ps (String.◌∷◌ c (cat a b)))) [
      | inr (gs', here) ↦ ground (arith, missing, here)
      | inl later ↦ search-found ps a b gs sep m (ground (arith, missing, later))
    ]

pub search-cut :
    (ps : List Piece) (s : String) (gs : List String)
    → Separated ps
    → search_in ps s ≡ some gs
    → (a : String) × (b : String) × (s ≡ cat a b) × Matches ps b gs
unfolding search_in
search-cut ps String.[] gs sep e = ("", "", refl, (match-Matches ps "" gs sep).0 e)
search-cut ps (String.◌∷◌ c s) gs sep e = elim (Option-cases (match ps (String.◌∷◌ c s))) [
  | inr (gs', here) ↦ (
    "",
    String.◌∷◌ c s,
    refl,
    (match-Matches ps (String.◌∷◌ c s) gs sep).0 (ground (arith, e, here)),
  )
  | inl later ↦
      let (a, b, cut, m) = search-cut ps s gs sep (ground (arith, e, later)) in
      (String.◌∷◌ c a, b, ap (String.◌∷◌ c) cut, m)
]
