-- ===== src/IperfLog/Means.antt =====
-- The throughputs of plots/siyuan_Evaluation_main.py, against the values that the iperf logs show.
use fast_and_safe_io_memory.Base.{
  ℕ, zero, suc, ◌+◌, String, Option, none, some, List, [], ◌∷◌, ◌++◌, ◌≡◌, refl, sym, ap, ◌∙◌,
  arith, pos, length, leb, Bool, true, ◌&&◌, append_assoc, append-nil, if◌then◌else◌, Option-cases,
  Bool-cases, inl, inr,
}
use fast_and_safe_io_memory.Python.Text.{split, contains}
use fast_and_safe_io_memory.Python.Floats.{Floats}
use fast_and_safe_io_memory.Python.Statement.{Files}
use fast_and_safe_io_memory.IperfLog.{
  is_interval, Numpy, field_of, sum_lines, per_thousand, get_iperf_tput_from_log, log_path,
  append_tput, read_runs, mean_and_std, get_tput_from_iperf_logs,
}

module _ (F : Floats) where
  open F use {Float, of_int, add, div, parse}

  abbrev list_of : Option Float → List Float
  list_of none = []
  list_of (some x) = x ∷ []

  -- a line of the interval has both texts
  unfoldable pub in_interval : String → Bool
  in_interval line = contains line "60." && contains line "-90."

  abbrev pub seventh : List String → Option String
  seventh (_ ∷ _ ∷ _ ∷ _ ∷ _ ∷ _ ∷ t ∷ fields) = some t
  seventh _ = none

  abbrev float_of : Option String → Option Float
  float_of none = none
  float_of (some t) = parse t

  -- the seventh field, if it is a float
  unfoldable pub shown_value : List String → Option Float
  shown_value fields = float_of (seventh fields)

  is_interval-same : (line : String) → is_interval line ≡ in_interval line
  unfolding is_interval in_interval
  is_interval-same line = refl

  field_of-seventh : (fields : List String) → field_of F fields ≡ shown_value fields
  unfolding field_of shown_value
  field_of-seventh [] = refl
  field_of-seventh (_ ∷ []) = refl
  field_of-seventh (_ ∷ _ ∷ []) = refl
  field_of-seventh (_ ∷ _ ∷ _ ∷ []) = refl
  field_of-seventh (_ ∷ _ ∷ _ ∷ _ ∷ []) = refl
  field_of-seventh (_ ∷ _ ∷ _ ∷ _ ∷ _ ∷ []) = refl
  field_of-seventh (_ ∷ _ ∷ _ ∷ _ ∷ _ ∷ _ ∷ []) = refl
  field_of-seventh (a ∷ b ∷ c ∷ d ∷ e ∷ f ∷ t ∷ fields) =
      let long : leb 7 (length (a ∷ b ∷ c ∷ d ∷ e ∷ f ∷ t ∷ fields)) ≡ true = ground arith in
      rw (field_of, long) refl

  -- the seventh fields of the lines of the interval that are floats
  unfoldable pub values : List String → List Float
  values [] = []
  values (l ∷ ls) = (if in_interval l then list_of (shown_value (split l)) else []) ++ values ls

  abbrev pub sum_from : Float → List Float → Float
  sum_from t [] = t
  sum_from t (x ∷ xs) = sum_from (add t x) xs

  -- a thousandth of the sum, if there is a value
  abbrev pub tput_of : List Float → Option Float
  tput_of [] = none
  tput_of (x ∷ xs) = some (div (sum_from (of_int (pos 0)) (x ∷ xs)) (of_int (pos 1000)))

  abbrev pub log_tput : Option (List String) → Option Float
  log_tput none = none
  log_tput (some lines) = tput_of (values lines)

  -- the throughputs of `n` runs, from a first one
  unfoldable pub run_tputs : Files → String → ℕ → ℕ → List Float
  run_tputs files exp i zero = []
  run_tputs files exp i (suc n) =
      list_of (log_tput (files (log_path exp i))) ++ run_tputs files exp (i + 1) n

  sum_lines-values :
      (ls : List String) (t : Float) (n : ℕ)
      → sum_lines F ls (t, n) ≡ (sum_from t (values ls), n + length (values ls))
  unfolding sum_lines values
  sum_lines-values [] t n = ap (λ k. (t, k)) (omega arith)
  sum_lines-values (l ∷ ls) t n = elim (Bool-cases (in_interval l)) [
    | inr other ↦ rw (is_interval-same l, other) (sum_lines-values ls t n)
    | inl interval ↦ elim (Option-cases (shown_value (split l))) [
      | inl no_value ↦
          rw (is_interval-same l, field_of-seventh (split l), interval, no_value)
            (sum_lines-values ls t n)
      | inr (x, value) ↦
          rw (is_interval-same l, field_of-seventh (split l), interval, value)
            (sum_lines-values ls (add t x) (n + 1)
              ∙ ap (λ k. (sum_from (add t x) (values ls), k)) (omega arith))
    ]
  ]

  per_thousand-tput_of :
      (xs : List Float) → per_thousand F (sum_from (of_int (pos 0)) xs, 0 + length xs) ≡ tput_of xs
  per_thousand-tput_of [] = refl
  per_thousand-tput_of (x ∷ xs) = ground arith

  tput-values :
      (files : Files) (path : String) → get_iperf_tput_from_log F files path ≡ log_tput (files path)
  unfolding get_iperf_tput_from_log
  tput-values files path = elim (Option-cases (files path)) [
    | inl missing ↦ rw (get_iperf_tput_from_log, missing) refl
    | inr (lines, found) ↦
        rw (get_iperf_tput_from_log, found)
          (ap (per_thousand F) (sum_lines-values lines (of_int (pos 0)) 0)
            ∙ per_thousand-tput_of (values lines))
  ]

  append_tput-list_of : (xs : List Float) (o : Option Float) → append_tput F xs o ≡ xs ++ list_of o
  append_tput-list_of xs none = sym (append-nil xs)
  append_tput-list_of xs (some x) = refl

  read_runs-tputs :
      (n i : ℕ) (files : Files) (exp : String) (tputs : List Float)
      → read_runs F files exp i n tputs ≡ tputs ++ run_tputs files exp i n
  unfolding read_runs run_tputs
  read_runs-tputs zero i files exp tputs = sym (append-nil tputs)
  read_runs-tputs (suc n) i files exp tputs =
      read_runs-tputs n (i + 1) files exp
        (append_tput F tputs (get_iperf_tput_from_log F files (log_path exp i)))
      ∙ ap (λ xs. xs ++ run_tputs files exp (i + 1) n)
          (append_tput-list_of tputs (get_iperf_tput_from_log F files (log_path exp i))
            ∙ ap (λ o. tputs ++ list_of o) (tput-values files (log_path exp i)))
      ∙ append_assoc tputs (list_of (log_tput (files (log_path exp i))))
          (run_tputs files exp (i + 1) n)

-- The result is the mean and the deviation over the runs 0 to 19 whose log exists and shows a value,
-- or None twice if no run does. The throughput of a run is a thousandth of the sum of the seventh
-- fields of the lines with `60.` and `-90.`, those that are floats, added in order from zero.
pub get_tput-means :
    (F : Floats) (np : Numpy F) (files : Files) (exp : String)
    → get_tput_from_iperf_logs F np files exp ≡ mean_and_std F np (run_tputs F files exp 0 20)
unfolding get_tput_from_iperf_logs
get_tput-means F np files exp = ap (mean_and_std F np) (read_runs-tputs F 20 0 files exp [])
