-- ===== src/Python/Pattern/Unique.antt =====
-- What a pattern means, by the ways in which a text can be cut into its pieces, and that the matcher
-- finds the only one.
use Prim.Native.Char.{code}
use text.Mathlib.TextEquality.{Char-path}
use fast_and_safe_io_memory.Base.{
  ℕ, String, Bool, true, false, ◌&&◌, not, Option, none, some, List, [], ◌∷◌, ◌≡◌, refl, sym, ap,
  ◌∙◌, arith, ◌↔◌, Option-cases, Bool-cases, inl, inr,
}
use fast_and_safe_io_memory.Python.Pattern.{
  Piece, any_of, some_of, group, exactly, is_empty, span, after_text, more, match,
}

-- all characters of a text are in a class
abbrev pub all_chars : (ℕ → Bool) → String → Bool
all_chars p String.[] = true
all_chars p (String.◌∷◌ c s) = p (code c) && all_chars p s

-- two texts, one behind the other
abbrev pub cat : String → String → String
cat String.[] b = b
cat (String.◌∷◌ c a) b = String.◌∷◌ c (cat a b)

-- a text begins with these pieces, and these are the groups
abbrev pub Matches : List Piece → String → List String → Type 0
Matches [] s gs = gs ≡ []
Matches (any_of p ∷ ps) s gs =
    (a : String) × (b : String) × (s ≡ cat a b) × (all_chars p a ≡ true) × Matches ps b gs
Matches (some_of p ∷ ps) s gs =
    (a : String) × (b : String) × (s ≡ cat a b)
    × (all_chars p a ≡ true)
    × (is_empty a ≡ false)
    × Matches ps b gs
Matches (group p ∷ ps) s gs =
    (a : String) × (b : String) × (rest : List String) × (s ≡ cat a b)
    × (all_chars p a ≡ true)
    × (is_empty a ≡ false)
    × (gs ≡ a ∷ rest)
    × Matches ps b rest
Matches (exactly t ∷ ps) s gs = (b : String) × (s ≡ cat t b) × Matches ps b gs

-- a text does not begin with a character of a class
abbrev blocked : (ℕ → Bool) → String → Bool
blocked p String.[] = true
blocked p (String.◌∷◌ c s) = not (p (code c))

abbrev Apart : (ℕ → Bool) → (ℕ → Bool) → Type 0
Apart p q = (c : ℕ) → q c ≡ true → p c ≡ false

-- what follows a class cannot begin in it
abbrev Stops : (ℕ → Bool) → List Piece → Type 0
Stops p [] = true ≡ false
Stops p (any_of q ∷ ps) = true ≡ false
Stops p (some_of q ∷ ps) = Apart p q
Stops p (group q ∷ ps) = Apart p q
Stops p (exactly t ∷ ps) = (not (is_empty t) && blocked p t) ≡ true

abbrev pub Separated : List Piece → Type 0
Separated [] = Unit
Separated (any_of p ∷ ps) = Stops p ps × Separated ps
Separated (some_of p ∷ ps) = Stops p ps × Separated ps
Separated (group p ∷ ps) = Stops p ps × Separated ps
Separated (exactly t ∷ ps) = Separated ps

blocked-class :
    (p q : ℕ → Bool) (a b : String)
    → Apart p q
    → all_chars q a ≡ true
    → is_empty a ≡ false
    → blocked p (cat a b) ≡ true
blocked-class p q String.[] b apart all full = cc
blocked-class p q (String.◌∷◌ c a) b apart all full = ground (arith, apart (code c))

blocked-text :
    (p : ℕ → Bool) (t b : String)
    → (not (is_empty t) && blocked p t) ≡ true
    → blocked p (cat t b) ≡ true
blocked-text p String.[] b h = cc
blocked-text p (String.◌∷◌ c t) b h = h

Stops-blocked :
    (p : ℕ → Bool) (ps : List Piece) (s : String) (gs : List String)
    → Stops p ps
    → Matches ps s gs
    → blocked p s ≡ true
Stops-blocked p [] s gs st m = cc
Stops-blocked p (any_of q ∷ ps) s gs st m = cc
Stops-blocked p (some_of q ∷ ps) s gs st (a, b, cut, all, full, m) =
    ap (blocked p) cut ∙ blocked-class p q a b st all full
Stops-blocked p (group q ∷ ps) s gs st (a, b, rest, cut, all, full, same, m) =
    ap (blocked p) cut ∙ blocked-class p q a b st all full
Stops-blocked p (exactly t ∷ ps) s gs st (b, cut, m) = ap (blocked p) cut ∙ blocked-text p t b st

span-cut :
    (p : ℕ → Bool) (a b : String)
    → all_chars p a ≡ true
    → blocked p b ≡ true
    → span p (cat a b) ≡ (a, b)
unfolding span
span-cut p String.[] String.[] all stop = refl
span-cut p String.[] (String.◌∷◌ c b) all stop = ground arith
span-cut p (String.◌∷◌ c a) b all stop = ground (arith, span-cut p a b)

span-join : (p : ℕ → Bool) (s : String) → s ≡ cat (span p s).0 (span p s).1
unfolding span
span-join p String.[] = refl
span-join p (String.◌∷◌ c s) = elim (Bool-cases (p (code c))) [
  | inl here ↦ rw here (ap (String.◌∷◌ c) (span-join p s))
  | inr stop ↦ rw stop refl
]

span-all : (p : ℕ → Bool) (s : String) → all_chars p (span p s).0 ≡ true
unfolding span
span-all p String.[] = refl
span-all p (String.◌∷◌ c s) = elim (Bool-cases (p (code c))) [
  | inl here ↦ rw (here, all_chars, here) (span-all p s)
  | inr stop ↦ rw stop refl
]

after_text-join : (t b : String) → after_text t (cat t b) ≡ some b
unfolding after_text
after_text-join String.[] b = refl
after_text-join (String.◌∷◌ c t) b = ground (arith, after_text-join t b)

after_text-cut : (t s b : String) → after_text t s ≡ some b → s ≡ cat t b
unfolding after_text
after_text-cut String.[] s b e = ground arith
after_text-cut (String.◌∷◌ c t) String.[] b e = cc
after_text-cut (String.◌∷◌ c t) (String.◌∷◌ d s) b e =
    ground (arith, after_text-cut t s b, Char-path c d)

match-found :
    (ps : List Piece) (s : String) (gs : List String)
    → Separated ps
    → Matches ps s gs
    → match ps s ≡ some gs
unfolding match
match-found [] s gs sep m = ap some (sym m)
match-found (any_of p ∷ ps) s gs (st, sep) (a, b, cut, all, m) =
    let found = span-cut p a b all (Stops-blocked p ps b gs st m) in
    rw (cut, found) (match-found ps b gs sep m)
match-found (some_of p ∷ ps) s gs (st, sep) (a, b, cut, all, full, m) =
    let found = span-cut p a b all (Stops-blocked p ps b gs st m) in
    rw (cut, found, full) (match-found ps b gs sep m)
match-found (group p ∷ ps) s gs (st, sep) (a, b, rest, cut, all, full, same, m) =
    let found = span-cut p a b all (Stops-blocked p ps b rest st m) in
    rw (cut, found, full, same, match-found ps b rest sep m) refl
match-found (exactly t ∷ ps) s gs sep (b, cut, m) =
    rw (cut, match, after_text-join t b) (match-found ps b gs sep m)

more-some :
    (g : String) (o : Option (List String)) (gs : List String)
    → more g o ≡ some gs
    → (rest : List String) × (gs ≡ g ∷ rest) × (o ≡ some rest)
more-some g none gs e = cc
more-some g (some rest) gs e = (rest, cc, refl)

match-cuts :
    (ps : List Piece) (s : String) (gs : List String) → match ps s ≡ some gs → Matches ps s gs
unfolding match
match-cuts [] s gs e = cc
match-cuts (any_of p ∷ ps) s gs e =
    ((span p s).0, (span p s).1, span-join p s, span-all p s, match-cuts ps (span p s).1 gs e)
match-cuts (some_of p ∷ ps) s gs e = elim (Bool-cases (is_empty (span p s).0)) [
  | inl empty ↦ ground (arith, empty)
  | inr full ↦
      let same : match (some_of p ∷ ps) s ≡ match ps (span p s).1 = rw (match, full) refl in
      (
        (span p s).0,
        (span p s).1,
        span-join p s,
        span-all p s,
        full,
        match-cuts ps (span p s).1 gs (sym same ∙ e),
      )
]
match-cuts (group p ∷ ps) s gs e = elim (Bool-cases (is_empty (span p s).0)) [
  | inl empty ↦ ground (arith, empty)
  | inr full ↦
      let same : match (group p ∷ ps) s ≡ more (span p s).0 (match ps (span p s).1) =
        rw (match, full) refl in
      let (rest, eq, later) = more-some (span p s).0 (match ps (span p s).1) gs (sym same ∙ e) in
      (
        (span p s).0,
        (span p s).1,
        rest,
        span-join p s,
        span-all p s,
        full,
        eq,
        match-cuts ps (span p s).1 rest later,
      )
]
match-cuts (exactly t ∷ ps) s gs e = elim (Option-cases (after_text t s)) [
  | inl missing ↦ ground (arith, missing)
  | inr (b, found) ↦
      let same : match (exactly t ∷ ps) s ≡ match ps b = rw (match, found) refl in
      (b, after_text-cut t s b found, match-cuts ps b gs (sym same ∙ e))
]

-- for separated pieces the matcher finds the groups of every way to cut the text, and no others
pub match-Matches :
    (ps : List Piece) (s : String) (gs : List String)
    → Separated ps
    → (match ps s ≡ some gs) ↔ Matches ps s gs
match-Matches ps s gs sep = (match-cuts ps s gs, match-found ps s gs sep)
