-- ===== src/Python/Csv.antt =====
-- `csv.DictReader` over a file with no quotes and no column named twice: the first line names the columns (a
-- blank one names none), later blank lines are skipped, and a row that is too short holds None in its last columns.
use Prim.Native.Char.{code}
use fast_and_safe_io_memory.Base.{
  String, Bool, ◌||◌, Option, none, some, List, [], ◌∷◌, ◌≡◌, refl, ◌==◌, ◌=ₛ◌, if◌then◌else◌,
}
use fast_and_safe_io_memory.Python.Exception.{Result, ok, raise, key_error, type_error}

push : List String → String → List String
push [] w = w ∷ []
push (_ ∷ ws) w = w ∷ ws

first : List String → String
first [] = ""
first (w ∷ _) = w

-- one line cut at its commas, without its line end
cells : String → List String
unfolding push first
cells String.[] = "" ∷ []
cells (String.◌∷◌ c s) =
    let rest = cells s in
    if code c == b','
    then "" ∷ rest
    else if code c == 10 || code c == 13
    then rest
    else push rest (String.◌∷◌ c (first rest))

-- a row with each column's cell, none for None
abbrev pub Row : Type 0
Row = List (String × Option String)

zip_row : List String → List String → Row
zip_row [] cs = []
zip_row (h ∷ hs) [] = (h, none) ∷ zip_row hs []
zip_row (h ∷ hs) (c ∷ cs) = (h, some c) ∷ zip_row hs cs

is_blank : List String → Bool
is_blank [] = Bool.true
is_blank (w ∷ []) = w =ₛ ""
is_blank (w ∷ v ∷ ws) = Bool.false

rows_under : List String → List String → List Row
rows_under header [] = []
rows_under header (l ∷ ls) =
    let rest = rows_under header ls in
    if is_blank (cells l) then rest else zip_row header (cells l) ∷ rest

unfoldable pub dict_rows : List String → List Row
unfolding rows_under zip_row cells is_blank
dict_rows [] = []
dict_rows (l ∷ ls) = rows_under (if is_blank (cells l) then [] else cells l) ls

-- `row[column]`, where the cell is then read as text: a missing cell is a TypeError there
unfoldable pub cell : String → Row → Result String
cell k [] = raise key_error
cell k ((j, c) ∷ r) =
    if j =ₛ k then elim c [ none ↦ raise type_error | some t ↦ ok t ] else cell k r

rows_of_file :
    dict_rows ("time,mem_used\n" ∷ "1,20\r\n" ∷ "\n" ∷ "2\n" ∷ [])
    ≡ (("time", some "1") ∷ ("mem_used", some "20") ∷ [])
      ∷ (("time", some "2") ∷ ("mem_used", none) ∷ [])
      ∷ []
unfolding dict_rows
rows_of_file = refl
