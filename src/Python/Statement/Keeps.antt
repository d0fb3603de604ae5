-- ===== src/Python/Statement/Keeps.antt =====
-- Invariants of statements, one rule for each way to build a statement.
use fast_and_safe_io_memory.Base.{List, [], ◌∷◌, ◌≡◌, refl, Bool, true, false, if◌then◌else◌}
use fast_and_safe_io_memory.Python.Exception
use fast_and_safe_io_memory.Python.Exception.{Exception, Result, ok, file_not_found}
use fast_and_safe_io_memory.Python.Statement.{
  Flow, next, stop, raise, Statement, pass, leave, throw, after, handle, ◌>>◌, ◌>>=◌, when, try,
  try_open, handle_missing, for,
}

-- `m` keeps `P`, however it ends
pub record Keeps {ℓ κ} {S : Type ℓ} (P : S → Type κ) (m : Statement S) : Type (ℓ ⊔ κ) where
  pub at : (s : S) → P s → P (m s).0

module _ {ℓ κ} {S : Type ℓ} {P : S → Type κ} where
  pub Keeps-pass : Keeps P pass
  Keeps-pass = record { at = λ s h. h }

  pub Keeps-leave : Keeps P leave
  Keeps-leave = record { at = λ s h. h }

  pub Keeps-throw : (e : Exception) → Keeps P (throw e)
  Keeps-throw e = record { at = λ s h. h }

  after-keeps : (f : Flow) (k : Statement S) → Keeps P k → (s : S) → P s → P (after f k s).0
  after-keeps next k hk s h = hk.at s h
  after-keeps stop k hk s h = h
  after-keeps (raise e) k hk s h = h

  handle-keeps : (f : Flow) (k : Statement S) → Keeps P k → (s : S) → P s → P (handle f k s).0
  handle-keeps next k hk s h = h
  handle-keeps stop k hk s h = h
  handle-keeps (raise e) k hk s h = hk.at s h

  missing-keeps :
      (f : Flow) (k : Statement S) → Keeps P k → (s : S) → P s → P (handle_missing f k s).0
  missing-keeps (raise file_not_found) k hk s h = hk.at s h
  missing-keeps _ k hk s h = h

  pub Keeps-seq : (m k : Statement S) → Keeps P m → Keeps P k → Keeps P (m >> k)
  unfolding ◌>>◌
  Keeps-seq m k hm hk = record { at = λ s h. after-keeps (m s).1 k hk (m s).0 (hm.at s h) }

  pub Keeps-bind {κ'} :
      {A : Type κ'} (r : Result A) (f : A → Statement S)
      → ((a : A) → r ≡ ok a → Keeps P (f a))
      → Keeps P (r >>= f)
  Keeps-bind (ok a) f hf = hf a refl
  Keeps-bind (Exception.raise e) f hf = Keeps-throw e

  pub Keeps-when : (b : Bool) (m : Statement S) → (b ≡ true → Keeps P m) → Keeps P (when b m)
  Keeps-when true m hm = hm refl
  Keeps-when false m hm = Keeps-pass

  pub Keeps-if :
      (b : Bool) (m k : Statement S)
      → (b ≡ true → Keeps P m)
      → (b ≡ false → Keeps P k)
      → Keeps P (if b then m else k)
  Keeps-if true m k hm hk = hm refl
  Keeps-if false m k hm hk = hk refl

  pub Keeps-try : (m h : Statement S) → Keeps P m → Keeps P h → Keeps P (try m h)
  unfolding try
  Keeps-try m h hm hh = record { at = λ s p. handle-keeps (m s).1 h hh (m s).0 (hm.at s p) }

  pub Keeps-try_open : (m h : Statement S) → Keeps P m → Keeps P h → Keeps P (try_open m h)
  unfolding try_open
  Keeps-try_open m h hm hh = record { at = λ s p. missing-keeps (m s).1 h hh (m s).0 (hm.at s p) }

module _ {ℓ κ κ'} {S : Type ℓ} {P : S → Type κ} {A : Type κ'} where
  for-keeps :
      (xs : List A) (body : A → Statement S) (f : Flow) (s : S)
      → ((s' : S) → P s' → P (for xs body s').0)
      → P s
      → P
          (let r : S × Flow = elim f [
            | next ↦ for xs body s
            | stop ↦ (s, next)
            | raise e ↦ (s, raise e)
          ] in
            r).0
  for-keeps xs body next s rest h = rest s h
  for-keeps xs body stop s rest h = h
  for-keeps xs body (raise e) s rest h = h

  for_all :
      (xs : List A) (body : A → Statement S)
      → ((a : A) → Keeps P (body a))
      → (s : S) → P s
      → P (for xs body s).0
  unfolding for
  for_all [] body hb s h = h
  for_all (x ∷ xs) body hb s h =
      for-keeps xs body (body x s).1 (body x s).0 (for_all xs body hb) ((hb x).at s h)

  pub Keeps-for :
      (xs : List A) (body : A → Statement S) → ((a : A) → Keeps P (body a)) → Keeps P (for xs body)
  Keeps-for xs body hb = record { at = for_all xs body hb }

pub ruleset keeps_rules = (
  Keeps-pass, Keeps-leave, Keeps-throw, Keeps-seq, Keeps-bind, Keeps-when, Keeps-if, Keeps-try,
  Keeps-try_open, Keeps-for,
)
