-- ===== src/Python/Pattern.antt =====
-- Regular expressions of one shape: a row of pieces, each of which is a class of characters, repeated
-- as often as it can be, or a text. No piece is read again after it has matched (as the matcher of
-- `re` would do on failure): Pattern/Unique has the patterns for which this makes no difference.
pub mod Unique
pub mod Search
use Prim.Native.Char.{Char, code}
use fast_and_safe_io_memory.Base.{
  ℕ, String, Bool, true, false, ◌&&◌, ◌||◌, not, Option, none, some, List, [], ◌∷◌, ◌≡◌, refl, leb,
  ◌==◌, ◌=ₛ◌, if◌then◌else◌,
}
use fast_and_safe_io_memory.Python.Text.{is_space}

pub data Piece : Type 0 where
  -- `[…]*`, `[…]+` and `(?P<name>[…]+)`
  any_of some_of group : (ℕ → Bool) → Piece
  exactly : String → Piece

-- the longest beginning in a class, and the rest
unfoldable pub span : (ℕ → Bool) → String → String × String
span p String.[] = (String.[], String.[])
span p (String.◌∷◌ c s) =
    let (a, b) = span p s in if p (code c) then (String.◌∷◌ c a, b) else (String.[], String.◌∷◌ c s)

abbrev pub is_empty : String → Bool
is_empty String.[] = true
is_empty (String.◌∷◌ c s) = false

-- what follows a text at the beginning
unfoldable pub after_text : String → String → Option String
after_text String.[] s = some s
after_text (String.◌∷◌ c t) String.[] = none
after_text (String.◌∷◌ c t) (String.◌∷◌ d s) =
    let rest = after_text t s in if code c == code d then rest else none

abbrev pub more : String → Option (List String) → Option (List String)
more g none = none
more g (some gs) = some (g ∷ gs)

-- `re.match`: the groups, if the text begins with the pattern
unfoldable pub match : List Piece → String → Option (List String)
match [] s = some []
match (any_of p ∷ ps) s = match ps (span p s).1
match (some_of p ∷ ps) s = if is_empty (span p s).0 then none else match ps (span p s).1
match (group p ∷ ps) s =
    if is_empty (span p s).0 then none else more (span p s).0 (match ps (span p s).1)
match (exactly t ∷ ps) s = elim (after_text t s) [ none ↦ none | some rest ↦ match ps rest ]

-- `re.search`: the groups at the first place where the pattern matches
unfoldable pub search_in : List Piece → String → Option (List String)
search_in ps String.[] = match ps String.[]
search_in ps (String.◌∷◌ c s) =
    let later = search_in ps s in
    elim (match ps (String.◌∷◌ c s)) [ none ↦ later | some gs ↦ some gs ]

abbrev pub is_digit : ℕ → Bool
is_digit c = leb 48 c && leb c 57

-- `[\d.]`
abbrev pub is_decimal : ℕ → Bool
is_decimal c = is_digit c || c == b'.'

-- `\S`
abbrev pub is_not_space : ℕ → Bool
is_not_space c = not (is_space c)
