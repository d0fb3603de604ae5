-- ===== src/Python/Text/Strip.antt =====
-- `text.strip()`, `text.split(c)` for one character, and that they undo a join.
use Prim.Native.Char.{Char, code}
use text.Mathlib.TextLemmas.{nil-append, cons-append, append-nil}
use fast_and_safe_io_memory.Base.{
  ℕ, String, ◌<>◌, Bool, true, false, ◌&&◌, not, List, [], ◌∷◌, ◌≡◌, refl, sym, ap, ◌∙◌, ◌==◌, ◌=ₛ◌,
  if◌then◌else◌, All, inl, inr, Bool-cases,
}
use fast_and_safe_io_memory.Python.Text.{is_space}

lstrip : String → String
lstrip String.[] = String.[]
lstrip (String.◌∷◌ c s) = let rest = lstrip s in if is_space (code c) then rest else String.◌∷◌ c s

rstrip : String → String
rstrip String.[] = String.[]
rstrip (String.◌∷◌ c s) =
    let rest = rstrip s in if is_space (code c) && rest =ₛ "" then "" else String.◌∷◌ c rest

unfoldable pub strip : String → String
unfolding lstrip rstrip
strip s = rstrip (lstrip s)

-- a character in front of the first piece
abbrev push : Char → List String → List String
push c [] = String.◌∷◌ c String.[] ∷ []
push c (w ∷ ws) = String.◌∷◌ c w ∷ ws

unfoldable pub split_on : ℕ → String → List String
split_on d String.[] = "" ∷ []
split_on d (String.◌∷◌ c s) =
    let rest = split_on d s in if code c == d then "" ∷ rest else push c rest

cut_line : (strip " a,b\n" ≡ "a,b") × (split_on b',' "a,,b" ≡ "a" ∷ "" ∷ "b" ∷ [])
unfolding strip lstrip rstrip split_on
cut_line = (refl, refl)

unfoldable pub join : String → List String → String
join sep [] = ""
join sep (w ∷ []) = w
join sep (w ∷ v ∷ ws) = w <> (sep <> join sep (v ∷ ws))

-- no character of a text passes the test
unfoldable pub none_is : (ℕ → Bool) → String → Bool
none_is p String.[] = true
none_is p (String.◌∷◌ c s) = not (p (code c)) && none_is p s

-- a text without a comma and without white space
abbrev pub IsPlain : String → Type 0
IsPlain t = (none_is (λ c. c == b',') t ≡ true) × (none_is is_space t ≡ true)

abbrev push_text : String → List String → List String
push_text t [] = t ∷ []
push_text t (w ∷ ws) = (t <> w) ∷ ws

not_and : (b r : Bool) → not b && r ≡ true → (b ≡ false) × (r ≡ true)
not_and true r h = cc
not_and false r h = (refl, h)

pub none_is-cons :
    (p : ℕ → Bool) (c : Char) (s : String)
    → none_is p (String.◌∷◌ c s) ≡ true
    → (p (code c) ≡ false) × (none_is p s ≡ true)
unfolding none_is
none_is-cons p c s h = not_and (p (code c)) (none_is p s) h

split_on-cons : (d : ℕ) (s : String) → (w : String) × (ws : List String) × (split_on d s ≡ w ∷ ws)
unfolding split_on
split_on-cons d String.[] = ("", [], refl)
split_on-cons d (String.◌∷◌ c s) = elim (Bool-cases (code c == d)) [
  | inl e ↦ ("", split_on d s, rw e refl)
  | inr e ↦ let (w, ws, same) = split_on-cons d s in (String.◌∷◌ c w, ws, rw (e, same) refl)
]

split_on-append :
    (d : ℕ) (t s : String)
    → none_is (λ c. c == d) t ≡ true
    → split_on d (t <> s) ≡ push_text t (split_on d s)
unfolding split_on none_is
split_on-append d String.[] s h =
    let (w, ws, e) = split_on-cons d s in
    rw (nil-append s, e) (ap (λ w'. w' ∷ ws) (sym (nil-append w)))
split_on-append d (String.◌∷◌ c t) s h =
    let (w, ws, e) = split_on-cons d s in
    let (other, rest) = none_is-cons (λ c'. c' == d) c t h in
    rw (cons-append c t s, other, split_on-append d t s rest, e)
      (ap (λ w'. w' ∷ ws) (sym (cons-append c t w)))

split_on-comma : (s : String) → split_on b',' ("," <> s) ≡ "" ∷ split_on b',' s
unfolding split_on
split_on-comma s =
    ap (split_on b',') (cons-append "," String.[] s ∙ ap (String.◌∷◌ ",") (nil-append s))

-- cutting at a character undoes a join with it, if it stands in none of the texts
pub split_on-join :
    (w : String) (ws : List String)
    → All (λ t. none_is (λ c. c == b',') t ≡ true) (w ∷ ws)
    → split_on b',' (join "," (w ∷ ws)) ≡ w ∷ ws
unfolding split_on join
split_on-join w [] (h, _) =
    sym (ap (split_on b',') (append-nil w))
    ∙ split_on-append b',' w "" h
    ∙ ap (λ t. t ∷ []) (append-nil w)
split_on-join w (v ∷ ws) (h, hs) =
    split_on-append b',' w _ h
    ∙ ap (push_text w) (split_on-comma (join "," (v ∷ ws)))
    ∙ rw (append-nil w, split_on-join v ws hs) refl

-- a test that fails on all characters of two texts fails on those of both together
pub none_is-append :
    (p : ℕ → Bool) (t s : String)
    → none_is p t ≡ true
    → none_is p s ≡ true
    → none_is p (t <> s) ≡ true
unfolding none_is
none_is-append p String.[] s ht hs = rw (nil-append s) hs
none_is-append p (String.◌∷◌ c t) s ht hs =
    let (other, rest) = none_is-cons p c t ht in
    rw (cons-append c t s, other) (none_is-append p t s rest hs)

pub none_is-join :
    (p : ℕ → Bool) (ws : List String)
    → none_is p "," ≡ true
    → All (λ t. none_is p t ≡ true) ws
    → none_is p (join "," ws) ≡ true
unfolding join none_is
none_is-join p [] hc _ = refl
none_is-join p (w ∷ []) hc (h, _) = h
none_is-join p (w ∷ v ∷ ws) hc (h, hs) =
    none_is-append p w _ h (none_is-append p "," _ hc (none_is-join p (v ∷ ws) hc hs))

rstrip-line : (s : String) → none_is is_space s ≡ true → rstrip (s <> "\n") ≡ s
unfolding rstrip none_is
rstrip-line String.[] h = refl
rstrip-line (String.◌∷◌ c s) h =
    let (other, rest) = none_is-cons is_space c s h in
    rw (cons-append c s "\n", other, rstrip-line s rest) refl

-- stripping a line takes off its line end, if there is no white space in it
pub strip-line : (s : String) → none_is is_space s ≡ true → strip (s <> "\n") ≡ s
unfolding strip lstrip none_is
strip-line String.[] h = refl
strip-line (String.◌∷◌ c s) h =
    let (other, rest) = none_is-cons is_space c s h in
    let kept : lstrip (String.◌∷◌ c s <> "\n") ≡ String.◌∷◌ c s <> "\n" =
      rw (cons-append c s "\n", other) refl in
    ap rstrip kept ∙ rstrip-line (String.◌∷◌ c s) h
