-- ===== src/CpuUtil/Ending.antt =====
-- How utils/cpu_util.py ends, for every log.
use fast_and_safe_io_memory.Base.{
  ℕ, ◌+◌, ◌<◌, String, true, false, Option, none, some, List, [], ◌∷◌, ◌≡◌, refl, ap, ◌∙◌, arith, ℤ,
  pos, eq_ℤ_iff, length, All, if◌then◌else◌, inl, inr, Option-cases,
}
use fast_and_safe_io_memory.Python.Exception.{
  Exception, Result, ok, raise, system_exit, zero_division, ◌>>=◌, Result-cases, error_of,
  error_of-none,
}
use fast_and_safe_io_memory.Python.Floats.{Floats, nat}
use fast_and_safe_io_memory.Python.Dict.{Dict, get, has, get-put, int_key}
use fast_and_safe_io_memory.CpuUtil.Samples.{sum_or, count_or}
use fast_and_safe_io_memory.CpuUtil.Counted.{
  read_rows, any_row, is_empty, positive, IsCounted, scan-error, scan-IsCounted, scan-empty,
}
use fast_and_safe_io_memory.CpuUtil.{
  Header, Totals, no_totals, scan, find_header, Averages, average_one, average_all, print_report,
  finish, main,
}

module _ (F : Floats) where
  open F use {Float, of_int, is_zero, add}

  All-map :
      {P Q : ℤ × Float → Type 0} (d : Dict ℤ Float)
      → ((e : ℤ × Float) → P e → Q e)
      → All P d
      → All Q d
  All-map [] f h = tt
  All-map (e ∷ d) f (p, ps) = (f e p, All-map d f ps)

  -- the count of a CPU whose count is positive F, and the mean of its sum
  abbrev mean_of_cpu : Totals F → ℤ → Averages F → Float
  mean_of_cpu t c a = F.div (sum_or F (get c a.util)) (nat F (count_or F (get c t.samples)))

  average_one-error :
      ((n : ℕ) → 0 < n → is_zero (nat F n) ≡ false)
      → (t : Totals F) (c : ℤ) (a : Averages F) → positive F (get c t.samples) ≡ true
      → has c a.util ≡ true
      → error_of (average_one F t.samples c a) ≡ none
  unfolding average_one
  average_one-error law t c a p q = ground (arith, law (count_or F (get c t.samples)))

  average_one-num :
      (t : Totals F) (c : ℤ) (a a' : Averages F)
      → positive F (get c t.samples) ≡ true
      → average_one F t.samples c a ≡ ok a'
      → a'.num_cpus ≡ a.num_cpus + 1
  unfolding average_one
  average_one-num t c a a' p e = ground arith

  average_one-has :
      (t : Totals F) (c k : ℤ) (a a' : Averages F)
      → average_one F t.samples c a ≡ ok a'
      → has k a.util ≡ true
      → has k a'.util ≡ true
  unfolding average_one
  average_one-has t c k a a' e h = ground (arith, get-put c k (mean_of_cpu t c a) a.util)

  average_all-ok :
      ((n : ℕ) → 0 < n → is_zero (nat F n) ≡ false)
      → (t : Totals F) (rest : Dict ℤ Float) (a : Averages F)
      → All (λ e. positive F (get e.0 t.samples) ≡ true) rest
      → All (λ e. has e.0 a.util ≡ true) rest
      → (a' : Averages F) × (average_all F t.samples rest a ≡ ok a')
        × (a'.num_cpus ≡ a.num_cpus + length rest)
  unfolding average_all
  average_all-ok law t [] a p q = (a, refl, omega arith)
  average_all-ok law t ((c, u) ∷ rest) a (p, ps) (q, qs) =
      let (m, one) = error_of-none _ (average_one-error law t c a p q) in
      let (a', all, num) =
        average_all-ok law t rest m ps
          (All-map rest (λ e h. average_one-has t c e.0 a m one h) qs) in
      (a', rw one all, omega (arith, num, average_one-num t c a m p one))

  has-cons : (k j : ℤ) (v : Float) (d : Dict ℤ Float) → has k d ≡ true → has k ((j, v) ∷ d) ≡ true
  unfolding get
  has-cons k j v d h = ground arith

  has-keys : (d : Dict ℤ Float) → All (λ e. has e.0 d ≡ true) d
  has-keys [] = tt
  has-keys ((j, v) ∷ d) = (
    unfold get in ground (arith, eq_ℤ_iff j j),
    All-map d (λ e h. has-cons e.0 j v d h) (has-keys d),
  )

  print_report-error :
      ((n : ℕ) → 0 < n → is_zero (nat F n) ≡ false)
      → is_zero (nat F 0) ≡ true
      → (t : Totals F) (a : Averages F) (d : Dict ℤ Float) → a.num_cpus ≡ 0 + length d
      → error_of (print_report F t a) ≡ (if is_empty F d then some zero_division else none)
  unfolding print_report
  print_report-error law zero_law t a [] e =
      let none_counted : a.num_cpus ≡ 0 = omega arith in rw (none_counted, zero_law)
  print_report-error law zero_law t a (x ∷ d) e = rw (law a.num_cpus (omega arith))

  finish-error :
      ((n : ℕ) → 0 < n → is_zero (nat F n) ≡ false)
      → is_zero (nat F 0) ≡ true
      → (t : Totals F) → IsCounted F t
      → error_of (finish F t) ≡ (if is_empty F t.util then some zero_division else none)
  unfolding finish
  finish-error law zero_law t counted =
      let (a, all, num) =
        average_all-ok law t t.util (record { util = t.util; total = of_int (pos 0); num_cpus = 0 })
          (All-map t.util (λ e h. counted e.0 ∙ h) (has-keys t.util)) (has-keys t.util) in
      rw all (print_report-error law zero_law t a t.util num)

  -- the exception of a log whose header is known
  abbrev pub rows_error : Result (List (Option (ℤ × Float))) → Option Exception
  rows_error (raise e) = some e
  rows_error (ok rows) = if any_row F rows then none else some zero_division

  abbrev pub log_error : Option Header → List String → Option Exception
  log_error none lines = some system_exit
  log_error (some h) lines = rows_error (read_rows F h lines)

  no_totals-IsCounted : IsCounted F (no_totals F)
  unfolding get
  no_totals-IsCounted c = refl

  scanned-error :
      ((n : ℕ) → 0 < n → is_zero (nat F n) ≡ false)
      → is_zero (nat F 0) ≡ true
      → (h : Header) (lines : List String)
      → error_of (scan F h lines (no_totals F) >>= finish F) ≡ rows_error (read_rows F h lines)
  scanned-error law zero_law h lines =
      let same = scan-error F h lines (no_totals F) no_totals-IsCounted in
      elim (Result-cases (read_rows F h lines)) [
        | inl (e, read) ↦ ground (arith, same)
        | inr (rows, read) ↦
            let (t, done) =
              error_of-none (scan F h lines (no_totals F)) (same ∙ ap error_of read) in
            let counted = scan-IsCounted F h lines (no_totals F) t no_totals-IsCounted done in
            rw (done, read)
              (ground (
                arith,
                finish-error law zero_law t counted,
                scan-empty F h lines (no_totals F) t rows done read,
              ))
      ]

-- Where a positive F number is not zero as a float and 0 is: the script ends in exactly these ways. With no
-- header in the log it exits; else, if a row of the table cannot be read, it raises the exception
-- of the first such row; else, if there is no row, the average raises a ZeroDivisionError; else it
-- prints its report. In particular it never raises a KeyError.
pub main-error :
    (F : Floats) (lines : List String)
    → ((n : ℕ) → 0 < n → F.is_zero (nat F n) ≡ false)
    → F.is_zero (nat F 0) ≡ true
    → error_of (main F lines) ≡ log_error F (find_header lines) lines
unfolding main
main-error F lines law zero_law = elim (Option-cases (find_header lines)) [
  | inl missing ↦ rw missing
  | inr (h, found) ↦ rw found (scanned-error F law zero_law h lines)
]
