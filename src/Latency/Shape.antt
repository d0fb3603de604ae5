-- ===== src/Latency/Shape.antt =====
-- scripts/collect-lat-stats.py: the shape of the saved table.
use fast_and_safe_io_memory.Base.{
  ℕ, suc, String, List, [], ◌∷◌, ◌≡◌, refl, ap, sym, ◌∙◌, subst, ℤ, pos, length, All,
}
use fast_and_safe_io_memory.Python.Exception.{ok, key_error, from_option, >>=-ok, ok-injective}
use fast_and_safe_io_memory.Python.Number.{str}
use fast_and_safe_io_memory.Python.Floats.{Floats, mean}
use fast_and_safe_io_memory.Python.Statement.{Files}
use fast_and_safe_io_memory.Python.Dict.{Dict, get, int_key}
use fast_and_safe_io_memory.Latency.{
  Percentile, percentiles, rpc_sizes, headings, Latencies, read_sizes, means, rows, main,
}

abbrev pub saved_headings : List String
saved_headings = "128" ∷ "512" ∷ "2048" ∷ "8192" ∷ "32768" ∷ []

pub headings-saved : headings rpc_sizes ≡ saved_headings
unfolding headings str
headings-saved = refl

module _ (F : Floats) where
  open F use {Float}

  means-length :
      (d : Dict ℤ (List Float)) (sizes : List ℕ) (row : List Float)
      → means F d sizes ≡ ok row
      → length row ≡ length sizes
  unfolding means
  means-length d [] row h = ap length (sym (ok-injective _ _ h))
  means-length d (rpc ∷ sizes) row h =
      let (xs, exs, h1) = >>=-ok (from_option key_error (get (pos rpc) d)) _ h in
      let (x, ex, h2) = >>=-ok (mean F xs) _ h1 in
      let (row', er, h3) = >>=-ok (means F d sizes) _ h2 in
      ap length (sym (ok-injective _ _ h3)) ∙ ap (λ n. suc n) (means-length d sizes row' er)

  -- each row has a value for each size
  abbrev pub HaveLength : ℕ → List (List Float) → Type 0
  HaveLength n rs = All (λ r. length r ≡ n) rs

  rows-HaveLength :
      (m : Latencies F) (qs : List Percentile) (rs : List (List Float))
      → rows F m qs ≡ ok rs
      → (length rs ≡ length qs) × HaveLength 5 rs
  unfolding rows
  rows-HaveLength m [] rs h =
      let same = ok-injective _ _ h in (ap length (sym same), subst (HaveLength 5) same tt)
  rows-HaveLength m (q ∷ qs) rs h =
      let (row, er, h1) = >>=-ok (means F (m q) rpc_sizes) _ h in
      let (rest, es, h2) = >>=-ok (rows F m qs) _ h1 in
      let same = ok-injective _ _ h2 in
      let (n, each) = rows-HaveLength m qs rest es in
      (
        ap length (sym same) ∙ ap (λ k. suc k) n,
        subst (HaveLength 5) same (means-length (m q) rpc_sizes row er, each),
      )

  pub main-HaveLength :
      (files : Files) (exp : String) (num_runs : ℕ) (hs : List String) (rs : List (List Float))
      → main F files exp num_runs ≡ ok (hs, rs)
      → (headings rpc_sizes ≡ hs) × (length rs ≡ 5) × HaveLength 5 rs
  unfolding main
  main-HaveLength files exp n hs rs h =
      let (m, em, h1) = >>=-ok (read_sizes F files exp n rpc_sizes (λ _. [])) _ h in
      let (rs', er, h2) = >>=-ok (rows F m percentiles) _ h1 in
      let same = ok-injective _ _ h2 in
      let (k, each) = rows-HaveLength m percentiles rs' er in
      (
        ap (λ t. t.0) same,
        ap (λ t. length t.1) (sym same) ∙ k,
        subst (λ t. HaveLength 5 t.1) same each,
      )
