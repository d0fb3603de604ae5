-- ===== src/Python/Number/Plain.antt =====
-- The digits of a number are no white space and no comma.
use Prim.Native.String.{slice}
use fast_and_safe_io_memory.Base.{
  ℕ, zero, suc, ◌+◌, ◌/◌, ◌%◌, ◌<◌, String, ◌<>◌, refl, arith, ◌==◌, ltb, Bool-cases, inl, inr,
}
use fast_and_safe_io_memory.Python.Text.{is_space}
use fast_and_safe_io_memory.Python.Text.Strip.{none_is, none_is-append, IsPlain}
use fast_and_safe_io_memory.Python.Number.{digits, str}

digit-IsPlain : (d : ℕ) → d < 10 → IsPlain (slice "0123456789" d (d + 1))
unfolding none_is
digit-IsPlain zero h = (refl, refl)
digit-IsPlain (suc zero) h = (refl, refl)
digit-IsPlain (suc (suc zero)) h = (refl, refl)
digit-IsPlain (suc (suc (suc zero))) h = (refl, refl)
digit-IsPlain (suc (suc (suc (suc zero)))) h = (refl, refl)
digit-IsPlain (suc (suc (suc (suc (suc zero))))) h = (refl, refl)
digit-IsPlain (suc (suc (suc (suc (suc (suc zero)))))) h = (refl, refl)
digit-IsPlain (suc (suc (suc (suc (suc (suc (suc zero))))))) h = (refl, refl)
digit-IsPlain (suc (suc (suc (suc (suc (suc (suc (suc zero)))))))) h = (refl, refl)
digit-IsPlain (suc (suc (suc (suc (suc (suc (suc (suc (suc zero))))))))) h = (refl, refl)
digit-IsPlain (suc (suc (suc (suc (suc (suc (suc (suc (suc (suc d)))))))))) h =
    let no : ⊥ = omega arith in elim no [ ]

digits-IsPlain : (f n : ℕ) (out : String) → IsPlain out → IsPlain (digits f n out)
unfolding digits
digits-IsPlain zero n out plain = plain
digits-IsPlain (suc f) n out (comma, space) =
    let (c, s) = digit-IsPlain (n % 10) (omega arith) in
    let d = slice "0123456789" (n % 10) (n % 10 + 1) in
    let here : IsPlain (d <> out) =
      (none_is-append (λ k. k == b',') d out c comma, none_is-append is_space d out s space) in
    elim (Bool-cases (ltb n 10)) [
      | inl e ↦ rw e here
      | inr e ↦ rw e (digits-IsPlain f (n / 10) (d <> out) here)
    ]

pub str-IsPlain : (n : ℕ) → IsPlain (str n)
unfolding str none_is
str-IsPlain n = digits-IsPlain (suc n) n "" (refl, refl)

pub minus-IsPlain : (n : ℕ) → IsPlain ("-" <> str n)
unfolding none_is
minus-IsPlain n =
    let (c, s) = str-IsPlain n in
    (none_is-append (λ k. k == b',') "-" (str n) refl c, none_is-append is_space "-" (str n) refl s)
