-- ===== src/Kvm/Raised.antt =====
-- utils/parse_kvm_perf.py: the exceptions that reading the texts of a line raises.
use fast_and_safe_io_memory.Base.{String, Option, none, some, List, [], ◌∷◌, ◌≡◌, refl}
use fast_and_safe_io_memory.Python.Exception.{
  Exception, Result, ok, raise, value_error, from_option, ◌>>=◌,
}
use fast_and_safe_io_memory.Python.Number.{int}
use fast_and_safe_io_memory.Python.Floats.{Floats, float}
use fast_and_safe_io_memory.Kvm.{Parsed, exit_of, nanoseconds, set_totals}

-- an expression that raises nothing but a ValueError
abbrev pub OnlyValueError {ℓ} : {A : Type ℓ} → Result A → Type ℓ
OnlyValueError r = (x : Exception) → r ≡ raise x → x ≡ value_error

from_option-OnlyValueError {ℓ} :
    {A : Type ℓ} (o : Option A) → OnlyValueError (from_option value_error o)
from_option-OnlyValueError none x h = cc
from_option-OnlyValueError (some a) x h = cc

pub bind-OnlyValueError {ℓ κ} :
    {A : Type ℓ} {B : Type κ} (first : Result A) (rest : A → Result B)
    → OnlyValueError first
    → ((a : A) → OnlyValueError (rest a))
    → OnlyValueError (first >>= rest)
bind-OnlyValueError (ok a) rest h hs x e = hs a x e
bind-OnlyValueError (raise y) rest h hs x e = let wrong = h y refl in cc

module _ (F : Floats) where
  open F use {parse}

  nanoseconds-OnlyValueError : (text : String) → OnlyValueError (nanoseconds F text)
  unfolding nanoseconds
  nanoseconds-OnlyValueError text =
      bind-OnlyValueError (float F text) _ (from_option-OnlyValueError (parse text)) λ us x h. cc

  pub exit_of-OnlyValueError : (groups : List String) → OnlyValueError (exit_of F groups)
  unfolding exit_of
  exit_of-OnlyValueError (reason ∷ samples ∷ samples_pct ∷ time_pct ∷ lo ∷ hi ∷ avg ∷ []) x h =
      bind-OnlyValueError _ _ (from_option-OnlyValueError (int samples))
        (λ _. bind-OnlyValueError _ _ (from_option-OnlyValueError (parse samples_pct)) λ _.
          bind-OnlyValueError _ _ (from_option-OnlyValueError (parse time_pct)) λ _.
            bind-OnlyValueError _ _ (nanoseconds-OnlyValueError lo) λ _.
              bind-OnlyValueError _ _ (nanoseconds-OnlyValueError hi)
                λ _. bind-OnlyValueError _ _ (nanoseconds-OnlyValueError avg) λ _ y wrong. cc)
        x h
  exit_of-OnlyValueError [] x h = cc
  exit_of-OnlyValueError (_ ∷ []) x h = cc
  exit_of-OnlyValueError (_ ∷ _ ∷ []) x h = cc
  exit_of-OnlyValueError (_ ∷ _ ∷ _ ∷ []) x h = cc
  exit_of-OnlyValueError (_ ∷ _ ∷ _ ∷ _ ∷ []) x h = cc
  exit_of-OnlyValueError (_ ∷ _ ∷ _ ∷ _ ∷ _ ∷ []) x h = cc
  exit_of-OnlyValueError (_ ∷ _ ∷ _ ∷ _ ∷ _ ∷ _ ∷ []) x h = cc
  exit_of-OnlyValueError (_ ∷ _ ∷ _ ∷ _ ∷ _ ∷ _ ∷ _ ∷ _ ∷ gs) x h = cc

  pub set_totals-OnlyValueError :
      (groups : List String) (r : Parsed F) → OnlyValueError (set_totals F groups r)
  unfolding set_totals
  set_totals-OnlyValueError (samples ∷ time ∷ []) r x h =
      bind-OnlyValueError _ _ (from_option-OnlyValueError (int samples))
        (λ _. bind-OnlyValueError _ _ (nanoseconds-OnlyValueError time) λ _ y wrong. cc) x h
  set_totals-OnlyValueError [] r x h = cc
  set_totals-OnlyValueError (_ ∷ []) r x h = cc
  set_totals-OnlyValueError (_ ∷ _ ∷ _ ∷ gs) r x h = cc
