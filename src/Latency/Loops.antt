-- ===== src/Latency/Loops.antt =====
-- The lists of one size in scripts/collect-lat-stats.py, against a reading of the reports that keeps no variables.
use fast_and_safe_io_memory.Base.{
  ℕ, zero, suc, ◌+◌, String, none, some, List, [], ◌∷◌, ◌++◌, ◌≡◌, refl, arith, ℤ, pos, append-nil,
  inl, inr, Option-cases,
}
use fast_and_safe_io_memory.Python.Exception.{
  Result, ok, raise, file_not_found, from_option, ◌>>=◌, ◌>>◌,
}
use fast_and_safe_io_memory.Python.Floats.{Floats}
use fast_and_safe_io_memory.Python.Statement.{Files}
use fast_and_safe_io_memory.Python.Dict.{int_key}
use fast_and_safe_io_memory.Latency.{
  Percentile, p50, p90, p99, p999, p9999, percentiles, Latencies, read_label, read_labels,
  read_lines, report_path, read_run, read_runs,
}
use fast_and_safe_io_memory.Latency.Readings.{
  shown, shown_lines, check_label, check_labels, check_lines, Done, Keyed, at, Adds-Keyed,
  Done-bind, nothing-Adds, read_label-Done,
}

module _ (F : Floats) where
  open F use {Float}

  Done-same :
      (rpc : ℤ) (m : Latencies F) (f g : Percentile → List Float) (r : Result (Latencies F))
      (check : Result (Unit {0}))
      → ((p : Percentile) → f p ≡ g p)
      → Done F rpc m f r check
      → Done F rpc m g r check
  Done-same rpc m f g (raise e) check same d = d
  Done-same rpc m f g (ok m') check same (c, a) = (c, λ p i. ground (arith, same p, a p i))

  abbrev labels_sum : String → List Percentile → Percentile → List Float
  labels_sum line [] p = []
  labels_sum line (q ∷ qs) p = at F q (shown F q line) p ++ labels_sum line qs p

  labels_sum-percentiles :
      (line : String) (p : Percentile) → labels_sum line percentiles p ≡ shown F p line
  labels_sum-percentiles line p50 = append-nil (shown F p50 line)
  labels_sum-percentiles line p90 = append-nil (shown F p90 line)
  labels_sum-percentiles line p99 = append-nil (shown F p99 line)
  labels_sum-percentiles line p999 = append-nil (shown F p999 line)
  labels_sum-percentiles line p9999 = append-nil (shown F p9999 line)

  read_labels-Done :
      (rpc : ℤ) (line : String) (qs : List Percentile) (m : Latencies F)
      → Keyed F rpc m
      → Done F rpc m (labels_sum line qs) (read_labels F rpc line qs m) (check_labels F line qs)
  unfolding read_labels check_labels
  read_labels-Done rpc line [] m k = (refl, nothing-Adds F rpc m)
  read_labels-Done rpc line (q ∷ qs) m k =
      Done-bind F rpc m (at F q (shown F q line)) (labels_sum line qs) (read_label F rpc line q m)
        (read_labels F rpc line qs) (check_label F line q) (check_labels F line qs)
        (read_label-Done F rpc line q m k)
        (λ m' a.
          read_labels-Done rpc line qs m' (Adds-Keyed F rpc m m' (at F q (shown F q line)) k a))

  read_lines-Done :
      (rpc : ℤ) (ls : List String) (m : Latencies F)
      → Keyed F rpc m
      → Done F rpc m (λ p. shown_lines F p ls) (read_lines F rpc ls m) (check_lines F ls)
  unfolding read_lines check_lines shown_lines
  read_lines-Done rpc [] m k = (refl, nothing-Adds F rpc m)
  read_lines-Done rpc (l ∷ ls) m k =
      Done-bind F rpc m (λ p. shown F p l) (λ p. shown_lines F p ls)
        (read_labels F rpc l percentiles m) (read_lines F rpc ls) (check_labels F l percentiles)
        (check_lines F ls)
        (Done-same rpc m (labels_sum l percentiles) (λ p. shown F p l)
          (read_labels F rpc l percentiles m) (check_labels F l percentiles)
          (labels_sum-percentiles l) (read_labels-Done rpc l percentiles m k))
        (λ m' a. read_lines-Done rpc ls m' (Adds-Keyed F rpc m m' (λ p. shown F p l) k a))

  module _ (files : Files) (exp : String) where
    -- the latencies of a run
    unfoldable pub run_values : ℕ → ℕ → Percentile → List Float
    run_values rpc i p = elim (files (report_path exp rpc i)) [
      | none ↦ []
      | some lines ↦ shown_lines F p lines
    ]

    -- the latencies of `n` runs, from a first one
    unfoldable pub values : ℕ → ℕ → ℕ → Percentile → List Float
    values rpc i zero p = []
    values rpc i (suc n) p = run_values rpc i p ++ values rpc (i + 1) n p

    unfoldable pub check_run : ℕ → ℕ → Result (Unit {0})
    check_run rpc i = from_option file_not_found (files (report_path exp rpc i)) >>= check_lines F

    unfoldable pub check_runs : ℕ → ℕ → ℕ → Result (Unit {0})
    check_runs rpc i zero = ok tt
    check_runs rpc i (suc n) = check_run rpc i >> check_runs rpc (i + 1) n

    -- can all reports be read?
    unfoldable pub check_sizes : ℕ → List ℕ → Result (Unit {0})
    check_sizes n [] = ok tt
    check_sizes n (rpc ∷ sizes) = check_runs rpc 0 n >> check_sizes n sizes

    read_run-Done :
        (rpc i : ℕ) (m : Latencies F)
        → Keyed F (pos rpc) m
        → Done F (pos rpc) m (run_values rpc i) (read_run F files exp rpc i m) (check_run rpc i)
    unfolding read_run check_run run_values
    read_run-Done rpc i m k = elim (Option-cases (files (report_path exp rpc i))) [
      | inl missing ↦ rw missing refl
      | inr (lines, found) ↦ rw found (
          Done-same (pos rpc) m (λ p. shown_lines F p lines) (run_values rpc i)
            (read_lines F (pos rpc) lines m) (check_lines F lines)
            (λ p. rw (run_values, found) refl) (read_lines-Done (pos rpc) lines m k))
    ]

    pub read_runs-Done :
        (n rpc i : ℕ) (m : Latencies F)
        → Keyed F (pos rpc) m
        → Done F (pos rpc) m (values rpc i n) (read_runs F files exp rpc i n m) (check_runs rpc i n)
    unfolding read_runs check_runs values
    read_runs-Done zero rpc i m k = (refl, nothing-Adds F (pos rpc) m)
    read_runs-Done (suc n) rpc i m k =
        Done-bind F (pos rpc) m (run_values rpc i) (values rpc (i + 1) n)
          (read_run F files exp rpc i m) (read_runs F files exp rpc (i + 1) n) (check_run rpc i)
          (check_runs rpc (i + 1) n) (read_run-Done rpc i m k)
          (λ m' a.
            read_runs-Done n rpc (i + 1) m' (Adds-Keyed F (pos rpc) m m' (run_values rpc i) k a))
