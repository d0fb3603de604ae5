-- ===== src/Python/Arrays/Reading.antt =====
-- Reading a list of tables that have the same columns.
use fast_and_safe_io_memory.Base.{String, true, List, [], ◌∷◌, ◌≡◌, refl, All}
use fast_and_safe_io_memory.Python.Exception.{Result, ok, traverse}
use fast_and_safe_io_memory.Python.Text.{member}
use fast_and_safe_io_memory.Python.Floats.{Floats}
use fast_and_safe_io_memory.Python.Arrays.{Arrays, column, HasColumns}

module _ {ℓ κ} {A : Type ℓ} {B : Type κ} (f : A → Result B) where
  pub traverse-All {ℓ'} :
      (P : B → Type ℓ') (as' : List A)
      → ((a : A) → (b : B) × (f a ≡ ok b) × P b)
      → (bs : List B) × (traverse f as' ≡ ok bs) × All P bs
  unfolding traverse
  traverse-All P [] each = ([], refl, tt)
  traverse-All P (a ∷ as') each =
      let (b, eb, pb) = each a in
      let (bs, ebs, pbs) = traverse-All P as' each in (b ∷ bs, rw (eb, ebs) refl, (pb, pbs))

module _ (F : Floats) (A : Arrays F) (names : List String) where
  pub column-ok :
      (name : String) (ts : List A.Table)
      → member name names ≡ true
      → All (HasColumns F A names) ts
      → (xs : List F.Float) × (column F A name ts ≡ ok xs)
  unfolding column traverse
  column-ok name [] here _ = ([], refl)
  column-ok name (t ∷ ts) here (h, hs) =
      let (x, ex) = h.present name here in
      let (xs, exs) = column-ok name ts here hs in (x ∷ xs, rw (ex, exs) refl)

  -- what is read of reports that all have the columns
  pub reports-All :
      ((path : String) → (t : A.Table) × (A.genfromtxt path ≡ ok t) × HasColumns F A names t)
      → (path_of : String → String) (labels : List String)
      → (ts : List A.Table) × (traverse (λ l. A.genfromtxt (path_of l)) labels ≡ ok ts)
        × All (HasColumns F A names) ts
  reports-All reports path_of labels =
      traverse-All (λ l. A.genfromtxt (path_of l)) (HasColumns F A names) labels
        (λ l. reports (path_of l))

  -- the same where there is at least one
  pub reports_cons-All :
      ((path : String) → (t : A.Table) × (A.genfromtxt path ≡ ok t) × HasColumns F A names t)
      → (path_of : String → String) (l : String) (labels : List String)
      → (t : A.Table) × (ts : List A.Table) × (traverse
            (λ l'. A.genfromtxt (path_of l'))
            (l ∷ labels)
          ≡ ok (t ∷ ts))
        × All (HasColumns F A names) (t ∷ ts)
  unfolding traverse
  reports_cons-All reports path_of l labels =
      let (t, et, ht) = reports (path_of l) in
      let (ts, ets, hts) = reports-All reports path_of labels in
      (t, ts, rw (et, ets) refl, (ht, hts))
