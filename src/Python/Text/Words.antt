-- ===== src/Python/Text/Words.antt =====
-- The words of a line that starts with a label.
use Prim.Native.Char.{Char}
use text.Mathlib.TextLemmas.{nil-append, cons-append, append_assoc}
use fast_and_safe_io_memory.Base.{
  String, ◌<>◌, Bool, true, false, List, [], ◌∷◌, ◌≡◌, refl, ap, ◌∙◌,
}
use fast_and_safe_io_memory.Python.Text.{is_space, in_word, attach, one, split}
use fast_and_safe_io_memory.Python.Text.Strip.{none_is, none_is-cons}

-- a text with no white space, and not empty
unfoldable pub is_word : String → Bool
is_word String.[] = false
is_word (String.◌∷◌ c s) = none_is is_space (String.◌∷◌ c s)

pub split-space : (s : String) → split (" " <> s) ≡ split s
unfolding split
split-space s = ap split (cons-append " " String.[] s ∙ ap (String.◌∷◌ " ") (nil-append s))

split-prefix :
    (c : Char) (w s : String)
    → none_is is_space (String.◌∷◌ c w) ≡ true
    → in_word s ≡ false
    → split (String.◌∷◌ c w <> s) ≡ String.◌∷◌ c w ∷ split s
unfolding split in_word attach one
split-prefix c String.[] s h e =
    let (here, rest) = none_is-cons is_space c String.[] h in
    rw (cons-append c String.[] s, nil-append s, here, e) refl
split-prefix c (String.◌∷◌ d w) s h e =
    let (here, rest) = none_is-cons is_space c (String.◌∷◌ d w) h in
    let (next, later) = none_is-cons is_space d w rest in
    rw (cons-append c (String.◌∷◌ d w) s, here, split-prefix d w s rest e, cons-append d w s, next)
      refl

-- a word in front of white space
split-word : (w s : String) → is_word w ≡ true → in_word s ≡ false → split (w <> s) ≡ w ∷ split s
unfolding is_word
split-word String.[] s h e = cc
split-word (String.◌∷◌ c w) s h e = split-prefix c w s h e

in_word-space : (s : String) → in_word (" " <> s) ≡ false
unfolding in_word
in_word-space s = ap in_word (cons-append " " String.[] s ∙ ap (String.◌∷◌ " ") (nil-append s))

-- a label, a space and what follows
pub split-label : (l s : String) → is_word l ≡ true → split (l <> (" " <> s)) ≡ l ∷ split s
split-label l s h = split-word l (" " <> s) h (in_word-space s) ∙ ap (λ ws. l ∷ ws) (split-space s)

-- the last word of a line
pub split-end : (w : String) → is_word w ≡ true → split (w <> "\n") ≡ w ∷ []
unfolding split in_word
split-end w h = split-word w "\n" h refl

-- the two words of a line: a label that ends in a space, a space, and a word
pub split-pair :
    (l w : String)
    → is_word l ≡ true
    → is_word w ≡ true
    → split ((l <> " ") <> (" " <> (w <> "\n"))) ≡ l ∷ w ∷ []
split-pair l w hl hw =
    ap split (append_assoc l " " (" " <> (w <> "\n")))
    ∙ split-label l (" " <> (w <> "\n")) hl
    ∙ ap (λ ws. l ∷ ws) (split-space (w <> "\n") ∙ split-end w hw)

-- the first word of any line with such a label
pub split-first :
    (l t : String) → is_word l ≡ true → (ws : List String) × (split ((l <> " ") <> t) ≡ l ∷ ws)
split-first l t hl = (split t, ap split (append_assoc l " " t) ∙ split-label l t hl)
