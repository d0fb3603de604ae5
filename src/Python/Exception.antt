-- ===== src/Python/Exception.antt =====
-- Exceptions, and expressions that may raise one.
use fast_and_safe_io_memory.Base.{
  ◌≡◌, refl, Bool, true, false, Option, none, some, List, [], ◌∷◌, ◌⊎◌, inl, inr,
}

pub data Exception : Type 0 where
  value_error index_error key_error type_error file_not_found : Exception
  zero_division assertion_error statistics_error system_exit : Exception

pub data Result {ℓ} (A : Type ℓ) : Type ℓ where
  raise : Exception → Result A
  ok : A → Result A

abbrev pub from_option {ℓ} : {A : Type ℓ} → Exception → Option A → Result A
from_option e none = raise e
from_option e (some a) = ok a

-- `assert b`
abbrev pub assert : Bool → Result (Unit {0})
assert true = ok tt
assert false = raise assertion_error

module _ {ℓ κ} {A : Type ℓ} {B : Type κ} where
  infixl 5 ◌>>=◌
  -- an expression that uses the value of another
  abbrev pub ◌>>=◌ : Result A → (A → Result B) → Result B
  ◌>>=◌ (raise e) rest = raise e
  ◌>>=◌ (ok v) rest = rest v

  infixl 5 ◌>>◌
  abbrev pub ◌>>◌ : Result A → Result B → Result B
  first >> second = first >>= λ _. second

  -- inversion of a chain that returned
  pub >>=-ok :
      (first : Result A) (rest : A → Result B) {w : B}
      → (first >>= rest) ≡ ok w
      → (v : A) × (first ≡ ok v) × (rest v ≡ ok w)
  >>=-ok (raise e) rest returned = cc
  >>=-ok (ok v) rest returned = (v, refl, returned)

pub ok-injective {ℓ} : {A : Type ℓ} (a b : A) → ok a ≡ ok b → a ≡ b
ok-injective a b h = cc

-- the exception that an expression raises
abbrev pub error_of {ℓ} : {A : Type ℓ} → Result A → Option Exception
error_of (raise e) = some e
error_of (ok v) = none

pub error_of-none {ℓ} : {A : Type ℓ} (r : Result A) → error_of r ≡ none → (v : A) × (r ≡ ok v)
error_of-none (raise e) h = cc
error_of-none (ok v) h = (v, refl)

pub bind-error {ℓ κ} :
    {A : Type ℓ} {B : Type κ} (r : Result A) (f : A → B)
    → error_of (r >>= λ v. ok (f v)) ≡ error_of r
bind-error (raise e) f = refl
bind-error (ok v) f = refl

pub Result-cases {ℓ} :
    {A : Type ℓ} (r : Result A) → ((e : Exception) × (r ≡ raise e)) ⊎ ((v : A) × (r ≡ ok v))
Result-cases (raise e) = inl (e, refl)
Result-cases (ok v) = inr (v, refl)

pub from_option-ok {ℓ} :
    {A : Type ℓ} (o : Option A) (e : Exception) (v : A) → from_option e o ≡ ok v → o ≡ some v
from_option-ok none e v h = cc
from_option-ok (some a) e v h = cc

-- `[f(a) for a in items]`
module _ {ℓ κ} {A : Type ℓ} {B : Type κ} (f : A → Result B) where
  unfoldable pub traverse : List A → Result (List B)
  traverse [] = ok []
  traverse (a ∷ as') = do b ← f a; bs ← traverse as'; ok (b ∷ bs)
