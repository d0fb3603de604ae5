-- ===== src/Python/Statement.antt =====
-- Statements over the variables of a script. What was assigned before a raise stays assigned, so
-- the state comes back beside the exception too: a handler goes on from it.
pub mod Keeps
use fast_and_safe_io_memory.Base.{
  ℕ, zero, suc, String, Option, List, [], ◌∷◌, Bool, true, false, ◌≡◌, ap,
}
use fast_and_safe_io_memory.Python.Exception
use fast_and_safe_io_memory.Python.Exception.{Exception, Result, ok, file_not_found, from_option}

-- How a statement ends: by running through, by `break`, or by an exception.
pub data Flow : Type 0 where
  next : Flow
  stop : Flow
  raise : Exception → Flow

abbrev pub Statement {ℓ} : Type ℓ → Type ℓ
Statement S = S → S × Flow

module _ {ℓ} {S : Type ℓ} where
  abbrev pub pass : Statement S
  pass s = (s, next)

  abbrev pub leave : Statement S
  leave s = (s, stop)

  abbrev pub assign : (S → S) → Statement S
  assign f s = (f s, next)

  abbrev pub throw : Exception → Statement S
  throw e s = (s, raise e)

  abbrev pub after : Flow → Statement S → Statement S
  after next m s = m s
  after stop m s = (s, stop)
  after (raise e) m s = (s, raise e)

  infixl 5 ◌>>◌
  unfoldable pub ◌>>◌ : Statement S → Statement S → Statement S
  ◌>>◌ m k s = let (s', f) = m s in after f k s'

  -- an expression's value, for the statements that follow
  infixl 5 ◌>>=◌
  abbrev pub ◌>>=◌ {κ} : {A : Type κ} → Result A → (A → Statement S) → Statement S
  ◌>>=◌ (ok a) f s = f a s
  ◌>>=◌ (Exception.raise e) f s = (s, raise e)

  abbrev pub when : Bool → Statement S → Statement S
  when true m = m
  when false m = pass

  -- `try: … except Exception: …`
  abbrev handle : Flow → Statement S → Statement S
  handle next h s = (s, next)
  handle stop h s = (s, stop)
  handle (raise e) h s = h s

  unfoldable pub try : Statement S → Statement S → Statement S
  try m h s = let (s', f) = m s in handle f h s'

  -- `try: … except FileNotFoundError: …`
  abbrev handle_missing : Flow → Statement S → Statement S
  handle_missing (raise file_not_found) h s = h s
  handle_missing f h s = (s, f)

  unfoldable pub try_open : Statement S → Statement S → Statement S
  try_open m h s = let (s', f) = m s in handle_missing f h s'

-- The files that a script can read, as the lines of each.
abbrev pub Files : Type 0
Files = String → Option (List String)

module _ {ℓ κ} {S : Type ℓ} {A : Type κ} where
  -- `for a in items:` a `break` ends the loop and nothing more
  unfoldable pub for : List A → (A → Statement S) → Statement S
  for [] body s = (s, next)
  for (a ∷ as') body s =
      let (s', f) = body a s in
      elim f [ next ↦ for as' body s' | stop ↦ (s', next) | raise e ↦ (s', raise e) ]

  -- a round that runs through
  pub for-next :
      (a : A) (as' : List A) (body : A → Statement S) (s : S) {s' : S}
      → body a s ≡ (s', next)
      → for (a ∷ as') body s ≡ for as' body s'
  unfolding for
  for-next a as' body s e = rw (for, e) (ap (for as' body) (ap (λ r. r.0) e))

  -- a round that ends the loop
  pub for-stop :
      (a : A) (as' : List A) (body : A → Statement S) (s : S) {s' : S}
      → body a s ≡ (s', stop)
      → for (a ∷ as') body s ≡ (s', next)
  unfolding for
  for-stop a as' body s e = rw (for, e) (ap (λ r. (r.0, next)) e)

module _ {ℓ} {S : Type ℓ} where
  -- `with open(path) as f:`
  abbrev pub with_open : Files → String → (List String → Statement S) → Statement S
  with_open files path body = from_option file_not_found (files path) >>= body

-- `range(n)` from a first number on
abbrev pub range_from : ℕ → ℕ → List ℕ
range_from i zero = []
range_from i (suc n) = i ∷ range_from (suc i) n
