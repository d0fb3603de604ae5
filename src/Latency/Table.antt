-- ===== src/Latency/Table.antt =====
-- The table of scripts/collect-lat-stats.py, against a reading of the reports that keeps no variables.
use fast_and_safe_io_memory.Base.{
  ℕ, String, Bool, false, ◌||◌, some, List, [], ◌∷◌, ◌≡◌, refl, arith, ℤ, pos, eq_ℤ, ◌==◌,
  if◌then◌else◌, All,
}
use fast_and_safe_io_memory.Python.Exception.{Result, ok, raise, ◌>>=◌, ◌>>◌}
use fast_and_safe_io_memory.Python.Floats.{Floats, mean}
use fast_and_safe_io_memory.Python.Statement.{Files}
use fast_and_safe_io_memory.Python.Dict.{Dict, get, has, get-put, get-put_self, int_key}
use fast_and_safe_io_memory.Latency.{
  Percentile, percentiles, rpc_sizes, headings, Latencies, reset, read_runs, read_sizes, means,
  rows, main,
}
use fast_and_safe_io_memory.Latency.Loops.{values, check_runs, check_sizes, read_runs-Done}
use fast_and_safe_io_memory.Latency.Readings.{Adds, Done, Keyed}

module _ (F : Floats) where
  open F use {Float}

  module _ (files : Files) (exp : String) where
    -- is a size one of these?
    abbrev of_sizes : ℕ → List ℕ → Bool
    of_sizes c [] = false
    of_sizes c (rpc ∷ sizes) = rpc == c || of_sizes c sizes

    -- the loop over the sizes raises what the check raises, and else leaves these lists
    abbrev Sized : ℕ → List ℕ → Latencies F → Result (Latencies F) → Result (Unit {0}) → Type 0
    Sized n sizes m (raise e) check = check ≡ raise e
    Sized n sizes m (ok m') check =
        (check ≡ ok tt)
        × ((p : Percentile) (c : ℕ)
            → get (pos c) (m' p)
              ≡ (if of_sizes c sizes then some (values F files exp c 0 n p) else get (pos c) (m p)))

    reset-Keyed : (rpc : ℤ) (m : Latencies F) → Keyed F rpc (reset F rpc m)
    unfolding reset
    reset-Keyed rpc m p = rw (has, get-put_self rpc [] (m p)) refl

    reset-Adds :
        (n rpc c : ℕ) (m m' : Latencies F) (p : Percentile)
        → Adds F (pos rpc) (reset F (pos rpc) m) (values F files exp rpc 0 n) m'
        → get (pos c) (m' p)
          ≡ (if rpc == c then some (values F files exp c 0 n p) else get (pos c) (m p))
    unfolding reset eq_ℤ
    reset-Adds n rpc c m m' p a = ground (arith, a p (pos c), get-put (pos rpc) (pos c) [] (m p))

    Sized-then :
        (n rpc : ℕ) (sizes : List ℕ) (m m' : Latencies F) (r : Result (Latencies F))
        (check : Result (Unit {0}))
        → Adds F (pos rpc) (reset F (pos rpc) m) (values F files exp rpc 0 n) m'
        → Sized n sizes m' r check
        → Sized n (rpc ∷ sizes) m r check
    Sized-then n rpc sizes m m' (raise e) check a s = s
    Sized-then n rpc sizes m m' (ok m'') check a (c, later) =
        (c, λ p i. ground (arith, reset-Adds n rpc i m m' p a, later p i))

    Sized-bind :
        (n rpc : ℕ) (sizes : List ℕ) (m : Latencies F) (r : Result (Latencies F))
        (next : Latencies F → Result (Latencies F)) (c d : Result (Unit {0}))
        → Done F (pos rpc) (reset F (pos rpc) m) (values F files exp rpc 0 n) r c
        → ((m' : Latencies F) → Sized n sizes m' (next m') d)
        → Sized n (rpc ∷ sizes) m (r >>= next) (c >> d)
    Sized-bind n rpc sizes m (raise e) next c d first rest = rw first refl
    Sized-bind n rpc sizes m (ok m') next c d (checked, a) rest =
        rw checked (Sized-then n rpc sizes m m' (next m') d a (rest m'))

    read_sizes-Sized :
        (n : ℕ) (sizes : List ℕ) (m : Latencies F)
        → Sized n sizes m (read_sizes F files exp n sizes m) (check_sizes F files exp n sizes)
    unfolding read_sizes check_sizes
    read_sizes-Sized n [] m = (refl, λ p c. refl)
    read_sizes-Sized n (rpc ∷ sizes) m =
        Sized-bind n rpc sizes m (read_runs F files exp rpc 0 n (reset F (pos rpc) m))
          (read_sizes F files exp n sizes) (check_runs F files exp rpc 0 n)
          (check_sizes F files exp n sizes)
          (read_runs-Done F files exp n rpc 0 (reset F (pos rpc) m) (reset-Keyed (pos rpc) m))
          (λ m'. read_sizes-Sized n sizes m')

    -- the means of the values of each size
    unfoldable pub row_of : ℕ → Percentile → List ℕ → Result (List Float)
    row_of n p [] = ok []
    row_of n p (rpc ∷ sizes) = do
      x ← mean F (values F files exp rpc 0 n p)
      row ← row_of n p sizes
      ok (x ∷ row)

    unfoldable pub table : ℕ → List Percentile → Result (List (List Float))
    table n [] = ok []
    table n (p ∷ ps) = do row ← row_of n p rpc_sizes; rest ← table n ps; ok (row ∷ rest)

    means-row_of :
        (n : ℕ) (p : Percentile) (d : Dict ℤ (List Float)) (sizes : List ℕ)
        → All (λ c. get (pos c) d ≡ some (values F files exp c 0 n p)) sizes
        → means F d sizes ≡ row_of n p sizes
    unfolding means row_of
    means-row_of n p d [] h = refl
    means-row_of n p d (rpc ∷ sizes) (here, later) = rw (here, means-row_of n p d sizes later) refl

    rows-table :
        (n : ℕ) (m : Latencies F) (ps : List Percentile)
        → ((p : Percentile)
            → All (λ c. get (pos c) (m p) ≡ some (values F files exp c 0 n p)) rpc_sizes)
        → rows F m ps ≡ table n ps
    unfolding rows table
    rows-table n m [] h = refl
    rows-table n m (p ∷ ps) h =
        rw (means-row_of n p (m p) rpc_sizes (h p), rows-table n m ps h) refl

    abbrev saved : List (List Float) → Result (List String × List (List Float))
    saved rs = ok (headings rpc_sizes, rs)

    pub rows_after :
        (n : ℕ) (r : Result (Latencies F)) (check : Result (Unit {0}))
        → Sized n rpc_sizes (λ _. []) r check
        → (r >>= λ m. rows F m percentiles >>= saved) ≡ (check >> (table n percentiles >>= saved))
    rows_after n (raise e) check s = rw s refl
    rows_after n (ok m) check (c, lists) =
        rw
          (
            c,
            rows-table n m percentiles (λ p.
                (lists p 128, (lists p 512, (lists p 2048, (lists p 8192, (lists p 32768, tt)))))),
          )
          refl

-- The saved table depends on the reports alone: if every report of every size and run exists and
-- the last word of each line with one of the five labels is a float, it has a row for each
-- percentile, in which a size has the mean of the latencies that are not negative, over the runs
-- and their lines in order. Else the script raises the exception of the first missing report or
-- broken line; and else, if a size has no latency at a percentile, that of the mean.
pub main-table :
    (F : Floats) (files : Files) (exp : String) (num_runs : ℕ)
    → main F files exp num_runs ≡ (
        check_sizes F files exp num_runs rpc_sizes
        >> (table F files exp num_runs percentiles >>= λ rs. ok (headings rpc_sizes, rs)))
unfolding main
main-table F files exp n =
    rows_after F files exp n (read_sizes F files exp n rpc_sizes (λ _. []))
      (check_sizes F files exp n rpc_sizes) (read_sizes-Sized F files exp n rpc_sizes (λ _. []))
