-- ===== src/Python/Text.antt =====
-- Text methods: `split`, `strip`, `in`, and the two cuts at one character.
pub mod Strip
pub mod Path
pub mod Words
use Prim.Native.Nat.{Ordering, compare}
use Prim.Native.Char.{Char, code}
use text.Mathlib.Text.{find?}
use fast_and_safe_io_memory.Base.{
  ℕ, String, Bool, true, false, ◌&&◌, ◌||◌, Option, none, some, List, [], ◌∷◌, ◌≡◌, refl, leb, ◌==◌,
  ◌=ₛ◌, if◌then◌else◌,
}

-- the ASCII white space of `str.split`: tab, line feed, vertical tab, form feed, carriage
-- return, the four separators 28 to 31, and the space
abbrev pub is_space : ℕ → Bool
is_space n = (leb 9 n && leb n 13) || (leb 28 n && leb n 32)

-- does a text begin with a character that is no white space?
in_word : String → Bool
in_word String.[] = false
in_word (String.◌∷◌ c s) = if is_space (code c) then false else true

one : Char → String
one c = String.◌∷◌ c String.[]

-- put a character in front of the first word, which it belongs to if a word follows at once
attach : Bool → Char → List String → List String
attach true c (w ∷ ws) = String.◌∷◌ c w ∷ ws
attach true c [] = one c ∷ []
attach false c ws = one c ∷ ws

-- `line.split()`
unfoldable pub split : String → List String
unfolding in_word attach one
split String.[] = []
split (String.◌∷◌ c s) =
    let rest = split s in if is_space (code c) then rest else attach (in_word s) c rest

-- `needle in line`
abbrev pub contains : String → String → Bool
contains line needle = elim (find? line needle) [ none ↦ false | some _ ↦ true ]

-- `word in words`
unfoldable pub member : String → List String → Bool
member w [] = false
member w (v ∷ vs) = v =ₛ w || member w vs

-- `words.index(word)`, `none` for the ValueError
unfoldable pub index : String → List String → Option ℕ
index w [] = none
index w (v ∷ vs) =
    let rest = index w vs in
    if v =ₛ w then some 0 else elim rest [ none ↦ none | some i ↦ some (Prim.Native.Nat.suc i) ]

split_line : split "  12 segments\tsent out\n" ≡ "12" ∷ "segments" ∷ "sent" ∷ "out" ∷ []
unfolding split
split_line = refl

split_blank : split " \n" ≡ []
unfolding split
split_blank = refl

contains_probe : contains "x tcp_probe: y" "tcp_probe:" ≡ true
contains_probe = refl

-- `text.rstrip(c)` for one character
unfoldable pub strip_right : ℕ → String → String
strip_right d String.[] = String.[]
strip_right d (String.◌∷◌ c s) =
    let rest = strip_right d s in if code c == d && rest =ₛ "" then "" else String.◌∷◌ c rest

-- `text.lstrip` of the characters that a test accepts
drop_while : (ℕ → Bool) → String → String
drop_while p String.[] = String.[]
drop_while p (String.◌∷◌ c s) =
    let rest = drop_while p s in if p (code c) then rest else String.◌∷◌ c s

abbrev is_bracket : ℕ → Bool
is_bracket c = c == b'[' || c == b']'

strip_brackets_right : String → String
strip_brackets_right String.[] = String.[]
strip_brackets_right (String.◌∷◌ c s) =
    let rest = strip_brackets_right s in
    if is_bracket (code c) && rest =ₛ "" then "" else String.◌∷◌ c rest

-- `text.strip('[]')`
unfoldable pub strip_brackets : String → String
unfolding drop_while strip_brackets_right
strip_brackets s = strip_brackets_right (drop_while is_bracket s)

-- `text.split(c, 1)[1]`, none without a `c`
unfoldable pub after_first : ℕ → String → Option String
after_first d String.[] = none
after_first d (String.◌∷◌ c s) = let rest = after_first d s in if code c == d then some s else rest

-- `text.rsplit(c, 1)` in two parts, none without a `c`
unfoldable pub cut_last : ℕ → String → Option (String × String)
cut_last d String.[] = none
cut_last d (String.◌∷◌ c s) = elim (cut_last d s) [
  | some (a, b) ↦ some (String.◌∷◌ c a, b)
  | none ↦ if code c == d then some ("", s) else none
]

cuts :
    (strip_right b':' "12.5:" ≡ "12.5")
    × (strip_brackets "[::1]:80" ≡ "::1]:80")
    × (after_first b'=' "a=b=c" ≡ some "b=c")
    × (cut_last b':' "::1:80" ≡ some ("::1", "80"))
unfolding strip_right strip_brackets after_first cut_last
cuts = (refl, refl, refl, refl)
