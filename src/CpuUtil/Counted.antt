-- ===== src/CpuUtil/Counted.antt =====
-- The second loop of utils/cpu_util.py: its exceptions, and its counts.
use fast_and_safe_io_memory.Base.{
  ℕ, String, Bool, true, false, not, ◌&&◌, Option, none, some, List, [], ◌∷◌, ◌≡◌, refl, sym, ◌∙◌,
  arith, ℤ, pos, eq_ℤ, eq_ℤ_iff, ◌==◌, inl, inr,
}
use fast_and_safe_io_memory.Python.Exception.{
  Result, ok, ok-injective, ◌>>=◌, Result-cases, error_of, error_of-none, bind-error, >>=-ok,
}
use fast_and_safe_io_memory.Python.Text.{split}
use fast_and_safe_io_memory.Python.Floats.{Floats}
use fast_and_safe_io_memory.Python.Dict.{Dict, get, put, has, get-put, int_key}
use fast_and_safe_io_memory.CpuUtil.Samples.{add_sample-get, sum_or}
use fast_and_safe_io_memory.CpuUtil.{Header, Totals, row_of, open_cpu, add_sample, add_row, scan}

module _ (F : Floats) where
  open F use {Float, of_int, is_zero, add, sub}

  -- the rows of a log, or the exception of the first line that is no row and no other line
  unfoldable pub read_rows : Header → List String → Result (List (Option (ℤ × Float)))
  read_rows h [] = ok []
  read_rows h (l ∷ ls) = do row ← row_of F h (split l); rows ← read_rows h ls; ok (row ∷ rows)

  -- does a log show a CPU?
  unfoldable pub any_row : List (Option (ℤ × Float)) → Bool
  any_row [] = false
  any_row (none ∷ rows) = any_row rows
  any_row (some _ ∷ rows) = true

  abbrev pub is_empty : Dict ℤ Float → Bool
  is_empty [] = true
  is_empty (_ ∷ _) = false

  abbrev pub positive : Option ℕ → Bool
  positive none = false
  positive (some n) = not (n == 0)

  -- the CPUs with a sum are those with a positive count
  abbrev pub IsCounted : Totals F → Type 0
  IsCounted t = (c : ℤ) → positive (get c t.samples) ≡ has c t.util

  add_row-error :
      (row : Option (ℤ × Float)) (t : Totals F) → IsCounted t → error_of (add_row F row t) ≡ none
  unfolding add_row add_sample open_cpu
  add_row-error none t h = refl
  add_row-error (some (cpu, idle)) t h = ground (
    arith,
    h cpu,
    eq_ℤ_iff cpu cpu,
    get-put cpu cpu (of_int (pos 0)) t.util,
    get-put cpu cpu 0 t.samples,
  )

  open_cpu-other :
      (cpu c : ℤ) (t : Totals F)
      → eq_ℤ cpu c ≡ false
      → (get c (open_cpu F cpu t).util ≡ get c t.util)
        × (get c (open_cpu F cpu t).samples ≡ get c t.samples)
  unfolding open_cpu
  open_cpu-other cpu c t e =
      ground (arith, get-put cpu c (of_int (pos 0)) t.util, get-put cpu c 0 t.samples)

  add_row-IsCounted :
      (row : Option (ℤ × Float)) (t t' : Totals F)
      → IsCounted t
      → add_row F row t ≡ ok t'
      → IsCounted t'
  unfolding add_row
  add_row-IsCounted none t t' h e c = rw (← ok-injective t t' e) (h c)
  add_row-IsCounted (some (cpu, idle)) t t' h e c =
      ground
        (arith, h c, add_sample-get F cpu c idle (open_cpu F cpu t) t' e, open_cpu-other cpu c t)

  put-nonempty : (k : ℤ) (v : Float) (d : Dict ℤ Float) → is_empty (put k v d) ≡ false
  unfolding put
  put-nonempty k v [] = refl
  put-nonempty k v ((j, w) ∷ d) = ground arith

  abbrev is_row : Option (ℤ × Float) → Bool
  is_row none = false
  is_row (some _) = true

  add_sample-nonempty :
      (cpu : ℤ) (idle : Float) (t t' : Totals F)
      → add_sample F cpu idle t ≡ ok t'
      → is_empty t'.util ≡ false
  unfolding add_sample
  add_sample-nonempty cpu idle t t' e = ground (
    arith,
    put-nonempty cpu (add (sum_or F (get cpu t.util)) (sub (of_int (pos 100)) idle)) t.util,
  )

  add_row-empty :
      (row : Option (ℤ × Float)) (t t' : Totals F)
      → add_row F row t ≡ ok t'
      → is_empty t'.util ≡ (is_empty t.util && not (is_row row))
  unfolding add_row
  add_row-empty none t t' e = rw (← ok-injective t t' e) (ground arith)
  add_row-empty (some (cpu, idle)) t t' e =
      ground (arith, add_sample-nonempty cpu idle (open_cpu F cpu t) t' e)

  pub scan-error :
      (h : Header) (ls : List String) (t : Totals F)
      → IsCounted t
      → error_of (scan F h ls t) ≡ error_of (read_rows h ls)
  unfolding scan read_rows
  scan-error h [] t counted = refl
  scan-error h (l ∷ ls) t counted = elim (Result-cases (row_of F h (split l))) [
    | inl (e, read) ↦ rw read
    | inr (row, read) ↦
        let (m, added) = error_of-none (add_row F row t) (add_row-error row t counted) in
        rw (read, added)
          (scan-error h ls m (add_row-IsCounted row t m counted added)
            ∙ sym (bind-error (read_rows h ls) (λ rows. row ∷ rows)))
  ]

  pub scan-IsCounted :
      (h : Header) (ls : List String) (t t' : Totals F)
      → IsCounted t
      → scan F h ls t ≡ ok t'
      → IsCounted t'
  unfolding scan
  scan-IsCounted h [] t t' counted e c = rw (← ok-injective t t' e) (counted c)
  scan-IsCounted h (l ∷ ls) t t' counted e c =
      let (row, read, e1) = >>=-ok (row_of F h (split l)) (λ r. add_row F r t >>= scan F h ls) e in
      let (m, added, e2) = >>=-ok (add_row F row t) (scan F h ls) e1 in
      scan-IsCounted h ls m t' (add_row-IsCounted row t m counted added) e2 c

  any_row-cons :
      (row : Option (ℤ × Float)) (rows : List (Option (ℤ × Float)))
      → not (any_row (row ∷ rows)) ≡ (not (is_row row) && not (any_row rows))
  unfolding any_row
  any_row-cons none rows = refl
  any_row-cons (some _) rows = refl

  pub scan-empty :
      (h : Header) (ls : List String) (t t' : Totals F) (rows : List (Option (ℤ × Float)))
      → scan F h ls t ≡ ok t'
      → read_rows h ls ≡ ok rows
      → is_empty t'.util ≡ (is_empty t.util && not (any_row rows))
  unfolding scan read_rows
  scan-empty h [] t t' rows e r =
      unfold any_row in rw (← ok-injective t t' e, ← ok-injective [] rows r) (ground arith)
  scan-empty h (l ∷ ls) t t' rows e r =
      let (row, read, e1) = >>=-ok (row_of F h (split l)) (λ r. add_row F r t >>= scan F h ls) e in
      let (m, added, e2) = >>=-ok (add_row F row t) (scan F h ls) e1 in
      let (row', read', r1) =
        >>=-ok (row_of F h (split l)) (λ x. read_rows h ls >>= λ xs. ok (x ∷ xs)) r in
      let (more, later, r2) = >>=-ok (read_rows h ls) (λ xs. ok (row' ∷ xs)) r1 in
      ground (
        arith,
        sym read ∙ read',
        ok-injective row row' (sym read ∙ read'),
        ok-injective (row' ∷ more) rows r2,
        any_row-cons row' more,
        add_row-empty row t m added,
        scan-empty h ls m t' more e2 later,
      )
