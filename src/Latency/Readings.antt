-- ===== src/Latency/Readings.antt =====
-- The loops of scripts/collect-lat-stats.py, against a reading of the reports that keeps no variables.
use fast_and_safe_io_memory.Base.{
  String, true, Option, none, some, List, [], ◌∷◌, ◌++◌, ◌≡◌, refl, ap, arith, ℤ, pos, eq_ℤ,
  eq_ℤ_iff, starts_with, if◌then◌else◌, append_assoc, append-nil, Bool-cases, inl, inr,
  Option-cases,
}
use fast_and_safe_io_memory.Python.Exception.{Result, ok, raise, ◌>>=◌, ◌>>◌, Result-cases}
use fast_and_safe_io_memory.Python.Floats.{Floats}
use fast_and_safe_io_memory.Python.Dict.{get, has, get-put, int_key}
use fast_and_safe_io_memory.Collect.{last_float}
use fast_and_safe_io_memory.Latency.{
  Percentile, p50, p90, p99, p999, p9999, same_percentile, label, percentiles, Latencies,
  append_latency, read_label,
}

module _ (F : Floats) where
  open F use {Float, of_int, le}

  -- the latency that a line shows at a percentile, if the line has its label
  unfoldable pub shown : Percentile → String → List Float
  shown q line =
      if starts_with line (label q)
      then elim (last_float F line) [
        | raise e ↦ []
        | ok x ↦ if le (of_int (pos 0)) x then x ∷ [] else []
      ]
      else []

  unfoldable pub shown_lines : Percentile → List String → List Float
  shown_lines q [] = []
  shown_lines q (l ∷ ls) = shown q l ++ shown_lines q ls

  -- can the lines with a label be read?
  unfoldable pub check_label : String → Percentile → Result (Unit {0})
  check_label line q =
      if starts_with line (label q) then (last_float F line >>= λ _. ok tt) else ok tt

  unfoldable pub check_labels : String → List Percentile → Result (Unit {0})
  check_labels line [] = ok tt
  check_labels line (q ∷ qs) = check_label line q >> check_labels line qs

  unfoldable pub check_lines : List String → Result (Unit {0})
  check_lines [] = ok tt
  check_lines (l ∷ ls) = check_labels l percentiles >> check_lines ls

  -- what a step adds to the lists of a size
  abbrev pub append_to : Option (List Float) → List Float → Option (List Float)
  append_to none ys = none
  append_to (some xs) ys = some (xs ++ ys)

  abbrev pub Adds : ℤ → Latencies F → (Percentile → List Float) → Latencies F → Type 0
  Adds rpc m f m' =
      (p : Percentile) (c : ℤ)
      → get c (m' p) ≡ (if eq_ℤ rpc c then append_to (get c (m p)) (f p) else get c (m p))

  -- a step raises what the check raises, and else adds these values
  abbrev pub Done :
      ℤ
      → Latencies F
      → (Percentile → List Float)
      → Result (Latencies F)
      → Result (Unit {0})
      → Type 0
  Done rpc m f (raise e) check = check ≡ raise e
  Done rpc m f (ok m') check = (check ≡ ok tt) × Adds rpc m f m'

  abbrev pub Keyed : ℤ → Latencies F → Type 0
  Keyed rpc m = (p : Percentile) → has rpc (m p) ≡ true

  pub Adds-Keyed :
      (rpc : ℤ) (m m' : Latencies F) (f : Percentile → List Float)
      → Keyed rpc m
      → Adds rpc m f m'
      → Keyed rpc m'
  Adds-Keyed rpc m m' f k a p = ground (arith, k p, a p rpc, eq_ℤ_iff rpc rpc)

  append_to_append :
      (o : Option (List Float)) (xs ys : List Float)
      → append_to (append_to o xs) ys ≡ append_to o (xs ++ ys)
  append_to_append none xs ys = refl
  append_to_append (some zs) xs ys = ap some (append_assoc zs xs ys)

  Done-then :
      (rpc : ℤ) (m m' : Latencies F) (f g : Percentile → List Float) (r : Result (Latencies F))
      (check : Result (Unit {0}))
      → Adds rpc m f m'
      → Done rpc m' g r check
      → Done rpc m (λ p. f p ++ g p) r check
  Done-then rpc m m' f g (raise e) check a d = d
  Done-then rpc m m' f g (ok m'') check a (c, b) =
      (c, λ p i. ground (arith, a p i, b p i, append_to_append (get i (m p)) (f p) (g p)))

  pub Done-bind :
      (rpc : ℤ) (m : Latencies F) (f g : Percentile → List Float) (r : Result (Latencies F))
      (next : Latencies F → Result (Latencies F)) (c d : Result (Unit {0}))
      → Done rpc m f r c
      → ((m' : Latencies F) → Adds rpc m f m' → Done rpc m' g (next m') d)
      → Done rpc m (λ p. f p ++ g p) (r >>= next) (c >> d)
  Done-bind rpc m f g (raise e) next c d first rest = rw first refl
  Done-bind rpc m f g (ok m') next c d (checked, a) rest =
      rw checked (Done-then rpc m m' f g (next m') d a (rest m' a))

  append_to_nil : (o : Option (List Float)) → append_to o [] ≡ o
  append_to_nil none = refl
  append_to_nil (some xs) = ap some (append-nil xs)

  pub nothing-Adds : (rpc : ℤ) (m : Latencies F) → Adds rpc m (λ p. []) m
  nothing-Adds rpc m p c = ground (arith, append_to_nil (get c (m p)))

  -- what one label adds
  abbrev pub at : Percentile → List Float → Percentile → List Float
  at q xs p = if same_percentile q p then xs else []

  same_percentile_eq : (q p : Percentile) → same_percentile q p ≡ true → q ≡ p
  same_percentile_eq p50 p50 h = refl
  same_percentile_eq p90 p90 h = refl
  same_percentile_eq p99 p99 h = refl
  same_percentile_eq p999 p999 h = refl
  same_percentile_eq p9999 p9999 h = refl
  same_percentile_eq _ _ h = ground arith

  append_latency-Done :
      (rpc : ℤ) (q : Percentile) (x : Float) (m : Latencies F)
      → Keyed rpc m
      → Done rpc m (at q (x ∷ [])) (append_latency F q rpc x m) (ok tt)
  unfolding append_latency
  append_latency-Done rpc q x m k = elim (Option-cases (get rpc (m q))) [
    | inl missing ↦ ground (arith, k q, missing)
    | inr (xs, found) ↦ rw found (
      refl,
      λ p c. ground (
        arith,
        found,
        same_percentile_eq q p,
        eq_ℤ_iff rpc c,
        append_to_nil (get c (m p)),
        get-put rpc c (xs ++ x ∷ []) (m p),
      ),
    )
  ]

  pub read_label-Done :
      (rpc : ℤ) (line : String) (q : Percentile) (m : Latencies F)
      → Keyed rpc m
      → Done rpc m (at q (shown q line)) (read_label F rpc line q m) (check_label line q)
  unfolding read_label shown check_label
  read_label-Done rpc line q m k = elim (Bool-cases (starts_with line (label q))) [
    | inr other ↦ rw other (refl, λ p c. ground (arith, append_to_nil (get c (m p))))
    | inl labelled ↦ elim (Result-cases (last_float F line)) [
      | inl (e, broken) ↦ rw (labelled, broken) refl
      | inr (x, read) ↦ elim (Bool-cases (le (of_int (pos 0)) x)) [
        | inl accepted ↦ rw (labelled, read, accepted) (append_latency-Done rpc q x m k)
        | inr negative ↦
            rw (labelled, read, negative) (refl, λ p c. ground (arith, append_to_nil (get c (m p))))
      ]
    ]
  ]
