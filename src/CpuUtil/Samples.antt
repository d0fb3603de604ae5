-- ===== src/CpuUtil/Samples.antt =====
-- The sums and counts of utils/cpu_util.py after its second loop, against the rows of each CPU.
use fast_and_safe_io_memory.Base.{
  ℕ, ◌+◌, String, Option, none, some, List, [], ◌∷◌, ◌++◌, ◌≡◌, refl, ap, arith, ℤ, pos, eq_ℤ,
  eq_ℤ_iff, length, if◌then◌else◌, append_assoc, append-nil,
}
use fast_and_safe_io_memory.Python.Exception.{Result, ok, raise, ok-injective, ◌>>=◌, >>=-ok}
use fast_and_safe_io_memory.Python.Text.{split}
use fast_and_safe_io_memory.Python.Floats.{Floats}
use fast_and_safe_io_memory.Python.Dict.{get, get-put, int_key}
use fast_and_safe_io_memory.CpuUtil.{
  Header, Totals, no_totals, row_of, open_cpu, add_sample, add_row, scan,
}

module _ (F : Floats) where
  open F use {Float, of_int, add, sub}

  -- the idle times that a row shows for a CPU
  abbrev pub shown : ℤ → Option (ℤ × Float) → List Float
  shown c none = []
  shown c (some (cpu, idle)) = if eq_ℤ cpu c then idle ∷ [] else []

  abbrev shown_by : ℤ → Result (Option (ℤ × Float)) → List Float
  shown_by c (ok row) = shown c row
  shown_by c (raise e) = []

  -- the idle times that a log shows for a CPU, in order
  unfoldable pub idle_times : Header → ℤ → List String → List Float
  idle_times h c [] = []
  idle_times h c (l ∷ ls) = shown_by c (row_of F h (split l)) ++ idle_times h c ls

  -- the sum of the busy times, from a first sum
  pub busy : Float → List Float → Float
  busy u [] = u
  busy u (x ∷ xs) = busy (add u (sub (of_int (pos 100)) x)) xs

  unfoldable pub util_of : List Float → Option Float
  util_of [] = none
  util_of (x ∷ xs) = some (busy (of_int (pos 0)) (x ∷ xs))

  unfoldable pub count_of : List Float → Option ℕ
  count_of [] = none
  count_of (x ∷ xs) = some (length (x ∷ xs))

  abbrev pub sum_or : Option Float → Float
  sum_or none = of_int (pos 0)
  sum_or (some u) = u

  abbrev pub count_or : Option ℕ → ℕ
  count_or none = 0
  count_or (some n) = n

  busy-snoc :
      (xs : List Float) (u x : Float)
      → busy u (xs ++ x ∷ []) ≡ add (busy u xs) (sub (of_int (pos 100)) x)
  unfolding busy
  busy-snoc [] u x = refl
  busy-snoc (y ∷ xs) u x = busy-snoc xs (add u (sub (of_int (pos 100)) y)) x

  util_of-snoc :
      (xs : List Float) (x : Float)
      → util_of (xs ++ x ∷ []) ≡ some (add (sum_or (util_of xs)) (sub (of_int (pos 100)) x))
  unfolding util_of
  util_of-snoc [] x = unfold busy in refl
  util_of-snoc (y ∷ xs) x = ap some (busy-snoc (y ∷ xs) (of_int (pos 0)) x)

  length-snoc : (xs : List Float) (x : Float) → length (xs ++ x ∷ []) ≡ length xs + 1
  length-snoc [] x = omega arith
  length-snoc (y ∷ xs) x = omega (arith, length-snoc xs x)

  count_of-snoc :
      (xs : List Float) (x : Float) → count_of (xs ++ x ∷ []) ≡ some (count_or (count_of xs) + 1)
  unfolding count_of
  count_of-snoc [] x = refl
  count_of-snoc (y ∷ xs) x = ap some (length-snoc (y ∷ xs) x)

  -- the totals hold what has been shown of a CPU
  abbrev pub Describes : Totals F → ℤ → List Float → Type 0
  Describes t c xs = (get c t.util ≡ util_of xs) × (get c t.samples ≡ count_of xs)

  open_cpu-get :
      (t : Totals F) (cpu c : ℤ) (xs : List Float)
      → Describes t c xs
      → (get c (open_cpu F cpu t).util
          ≡ (if eq_ℤ cpu c then some (sum_or (util_of xs)) else util_of xs))
        × (get c (open_cpu F cpu t).samples
            ≡ (if eq_ℤ cpu c then some (count_or (count_of xs)) else count_of xs))
  unfolding open_cpu util_of count_of
  open_cpu-get t cpu c [] d =
      ground
        (arith, eq_ℤ_iff cpu c, get-put cpu c (of_int (pos 0)) t.util, get-put cpu c 0 t.samples)
  open_cpu-get t cpu c (x ∷ xs) d =
      ground
        (arith, eq_ℤ_iff cpu c, get-put cpu c (of_int (pos 0)) t.util, get-put cpu c 0 t.samples)

  pub add_sample-get :
      (cpu c : ℤ) (idle : Float) (t t' : Totals F)
      → add_sample F cpu idle t ≡ ok t'
      → (get c t'.util ≡ (
          if eq_ℤ cpu c
          then some (add (sum_or (get cpu t.util)) (sub (of_int (pos 100)) idle))
          else get c t.util))
        × (get c t'.samples
            ≡ (if eq_ℤ cpu c then some (count_or (get cpu t.samples) + 1) else get c t.samples))
  unfolding add_sample
  add_sample-get cpu c idle t t' e = ground (
    arith,
    get-put cpu c (add (sum_or (get cpu t.util)) (sub (of_int (pos 100)) idle)) t.util,
    get-put cpu c (count_or (get cpu t.samples) + 1) t.samples,
  )

  add_row-Describes :
      (row : Option (ℤ × Float)) (t t' : Totals F) (c : ℤ) (xs : List Float)
      → Describes t c xs
      → add_row F row t ≡ ok t'
      → Describes t' c (xs ++ shown c row)
  unfolding add_row
  add_row-Describes none t t' c xs d e = rw (append-nil xs, ← ok-injective t t' e) d
  add_row-Describes (some (cpu, idle)) t t' c xs d e = ground (
    arith,
    open_cpu-get t cpu c xs d,
    add_sample-get cpu c idle (open_cpu F cpu t) t' e,
    eq_ℤ_iff cpu c,
    util_of-snoc xs idle,
    count_of-snoc xs idle,
    append-nil xs,
  )

  scan-Describes :
      (h : Header) (ls : List String) (t t' : Totals F) (c : ℤ) (xs : List Float)
      → Describes t c xs
      → scan F h ls t ≡ ok t'
      → Describes t' c (xs ++ idle_times h c ls)
  unfolding scan idle_times
  scan-Describes h [] t t' c xs d e = rw (append-nil xs, ← ok-injective t t' e) d
  scan-Describes h (l ∷ ls) t t' c xs d e =
      let (row, read, e1) = >>=-ok (row_of F h (split l)) (λ r. add_row F r t >>= scan F h ls) e in
      let (m, added, e2) = >>=-ok (add_row F row t) (scan F h ls) e1 in
      rw (read, ← append_assoc xs (shown c row) (idle_times h c ls))
        (scan-Describes h ls m t' c (xs ++ shown c row) (add_row-Describes row t m c xs d added) e2)

-- If the second loop raises nothing, then for each CPU the sum is the busy times (100 minus the idle
-- time) of its rows added up in order from zero, and the count is the number of its rows; a CPU
-- with no row has neither.
pub scan-idle_times :
    (F : Floats) (h : Header) (lines : List String) (t : Totals F) (cpu : ℤ)
    → scan F h lines (no_totals F) ≡ ok t
    → (get cpu t.util ≡ util_of F (idle_times F h cpu lines))
      × (get cpu t.samples ≡ count_of F (idle_times F h cpu lines))
scan-idle_times F h lines t cpu e =
    scan-Describes F h lines (no_totals F) t cpu [] (unfold util_of count_of get in (refl, refl)) e
