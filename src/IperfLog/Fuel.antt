-- ===== src/IperfLog/Fuel.antt =====
-- The fuel of `replace` in plots/siyuan_Evaluation_main.py is enough.
use fast_and_safe_io_memory.Base.{
  ℕ, zero, suc, ◌≤◌, String, ◌<>◌, false, some, ◌≡◌, refl, ap, arith, Option-cases, inl, inr,
}
use Prim.Native.Char.{Char}
use fast_and_safe_io_memory.Python.Pattern.{after_text, is_empty}
use fast_and_safe_io_memory.IperfLog.{replace_on, size, replace}

size-after_text : (old s rest : String) → after_text old s ≡ some rest → size rest ≤ size s
unfolding after_text size
size-after_text String.[] s rest e = ground arith
size-after_text (String.◌∷◌ c old) String.[] rest e = cc
size-after_text (String.◌∷◌ c old) (String.◌∷◌ d s) rest e =
    ground (arith, size-after_text old s rest)

size-after_text_less :
    (old s rest : String) (c : Char)
    → is_empty old ≡ false
    → after_text old (String.◌∷◌ c s) ≡ some rest
    → size rest ≤ size s
unfolding after_text
size-after_text_less String.[] s rest c full e = cc
size-after_text_less (String.◌∷◌ d old) s rest c full e = ground (arith, size-after_text old s rest)

replace_on-enough :
    (n m : ℕ) (old new text : String)
    → is_empty old ≡ false
    → size text ≤ n
    → size text ≤ m
    → replace_on n old new text ≡ replace_on m old new text
unfolding replace_on size
replace_on-enough zero zero old new text full h k = refl
replace_on-enough zero (suc m) old new String.[] full h k = refl
replace_on-enough zero (suc m) old new (String.◌∷◌ c s) full h k = ground arith
replace_on-enough (suc n) zero old new String.[] full h k = refl
replace_on-enough (suc n) zero old new (String.◌∷◌ c s) full h k = ground arith
replace_on-enough (suc n) (suc m) old new String.[] full h k = refl
replace_on-enough (suc n) (suc m) old new (String.◌∷◌ c s) full h k =
    elim (Option-cases (after_text old (String.◌∷◌ c s))) [
      | inl none_here ↦
          rw (replace_on, none_here)
            (ap (String.◌∷◌ c)
              (replace_on-enough n m old new s full (omega (arith, h)) (omega (arith, k))))
      | inr (rest, here) ↦
          let less = size-after_text_less old s rest c full here in
          rw (replace_on, here)
            (ap (λ t. new <> t)
              (replace_on-enough n m old new rest full (omega (arith, h, less))
                (omega (arith, k, less))))
    ]

-- More fuel than the text has characters changes nothing, if the text that is replaced is not empty.
pub replace-enough :
    (n : ℕ) (old new text : String)
    → is_empty old ≡ false
    → size text ≤ n
    → replace_on n old new text ≡ replace old new text
unfolding replace
replace-enough n old new text full h =
    replace_on-enough n (size text) old new text full h (omega arith)
