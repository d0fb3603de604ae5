-- ===== src/Python/Number.antt =====
-- `int(text)` and `str(n)`.
pub mod Plain
use Prim.Native.Char.{code}
use Prim.Native.String.{slice}
use fast_and_safe_io_memory.Base.{
  ℕ, zero, suc, ◌+◌, ◌-◌, ◌*◌, ◌/◌, ◌%◌, String, ◌<>◌, Bool, true, false, ◌&&◌, ◌||◌, Option, none,
  some, ◌≡◌, refl, leb, ltb, ◌==◌, if◌then◌else◌, ℤ, pos, negsuc,
}
use fast_and_safe_io_memory.Python.Text.{is_space}

-- the value of a digit or letter, if it is below the base
digit? : ℕ → ℕ → Option ℕ
digit? base c =
    let d =
      if leb 48 c && leb c 57
      then c - 48
      else if leb 97 c && leb c 122
      then c - 87
      else if leb 65 c && leb c 90
      then c - 55
      else 36 in
    if ltb d base then some d else none

-- trailing white space only
all_space : String → Bool
all_space String.[] = true
all_space (String.◌∷◌ c s) = is_space (code c) && all_space s

-- digits with single underscores between them, then white space; the flag tells whether the
-- last character read was a digit
scan : ℕ → ℕ → Bool → String → Option ℕ
unfolding digit? all_space
scan base n last String.[] = if last then some n else none
scan base n last (String.◌∷◌ c s) = elim (digit? base (code c)) [
  | some d ↦ scan base (n * base + d) true s
  | none ↦
      let after = scan base n false s in
      if last && code c == b'_'
      then after
      else if last && is_space (code c) && all_space s
      then some n
      else none
]

negate : ℕ → ℤ
negate zero = pos 0
negate (suc n) = negsuc n

-- an optional sign and digits
signed : ℕ → String → Option ℤ
unfolding scan negate
signed base String.[] = none
signed base (String.◌∷◌ c s) =
    if code c == b'-'
    then elim (scan base 0 false s) [ none ↦ none | some n ↦ some (negate n) ]
    else elim (if code c == b'+' then scan base 0 false s else scan base 0 false (String.◌∷◌ c s)) [
      | none ↦ none
      | some n ↦ some (pos n)
    ]

skip_space : String → String
skip_space String.[] = String.[]
skip_space (String.◌∷◌ c s) =
    let rest = skip_space s in if is_space (code c) then rest else String.◌∷◌ c s

-- `int(text)`, `none` for the ValueError
unfoldable pub int : String → Option ℤ
unfolding signed skip_space
int s = signed 10 (skip_space s)

int_examples :
    (int " -1_0\n" ≡ some (negsuc 9))
    × (int "4855303788" ≡ some (pos 4855303788))
    × (int "12x" ≡ none)
    × (int "" ≡ none)
unfolding int
int_examples = (refl, refl, refl, refl)

-- the last digits first, each in front of those already written
digits : ℕ → ℕ → String → String
digits zero n out = out
digits (suc f) n out =
    let here = slice "0123456789" (n % 10) (n % 10 + 1) <> out in
    let more = digits f (n / 10) here in if ltb n 10 then here else more

-- `str(n)` of a number that is not negative; it has at most as many digits as its value plus one
unfoldable pub str : ℕ → String
unfolding digits
str n = digits (suc n) n ""

str_examples : (str 0 ≡ "0") × (str 407 ≡ "407")
unfolding str
str_examples = (refl, refl)

-- the digits behind "0x" and the like; one underscore may stand before them
prefixed : ℕ → String → Option ℕ
prefixed base String.[] = none
prefixed base (String.◌∷◌ c s) =
    if code c == b'_' then scan base 0 false s else scan base 0 false (String.◌∷◌ c s)

-- a decimal number begins with no zero, unless it is zero
decimal : Bool → String → Option ℕ
decimal leading_zero s = elim (scan 10 0 false s) [
  | none ↦ none
  | some n ↦ if leading_zero then (if n == 0 then some 0 else none) else some n
]

-- digits with the base that their prefix names
based : String → Option ℕ
unfolding prefixed decimal scan
based String.[] = none
based (String.◌∷◌ c String.[]) = decimal false (String.◌∷◌ c String.[])
based (String.◌∷◌ c (String.◌∷◌ d s)) =
    if code c == b'0'
    then (if code d == b'x' || code d == b'X'
        then prefixed 16 s
        else if code d == b'o' || code d == b'O'
        then prefixed 8 s
        else if code d == b'b' || code d == b'B'
        then prefixed 2 s
        else decimal true (String.◌∷◌ c (String.◌∷◌ d s)))
    else decimal false (String.◌∷◌ c (String.◌∷◌ d s))

signed_based : String → Option ℤ
unfolding based negate
signed_based String.[] = none
signed_based (String.◌∷◌ c s) =
    if code c == b'-'
    then elim (based s) [ none ↦ none | some n ↦ some (negate n) ]
    else elim (if code c == b'+' then based s else based (String.◌∷◌ c s)) [
      | none ↦ none
      | some n ↦ some (pos n)
    ]

-- `int(text, 0)`, `none` for the ValueError
unfoldable pub int_auto : String → Option ℤ
unfolding signed_based skip_space
int_auto s = signed_based (skip_space s)

int_auto_examples :
    (int_auto "0x7fffffff" ≡ some (pos 2147483647))
    × (int_auto "10" ≡ some (pos 10))
    × (int_auto "010" ≡ none)
    × (int_auto "0x" ≡ none)
unfolding int_auto
int_auto_examples = (refl, refl, refl, refl)
