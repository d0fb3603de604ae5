-- ===== src/TcpLog/Columns.antt =====
-- The CSV file of utils/parse_tcplog.py, against the columns that the lines of the trace name.
use fast_and_safe_io_memory.Base.{
  String, Bool, true, ◌&&◌, Option, none, some, List, [], ◌∷◌, ◌++◌, map, ◌≡◌, refl, sym, ap, ◌∙◌,
  arith, eq_iff, if◌then◌else◌, Option-cases, Bool-cases, inl, inr,
}
use fast_and_safe_io_memory.Python.Exception.{
  Exception, ok, value_error, assertion_error, error_of, bind-error, ok-injective, ◌>>=◌, >>=-ok,
  Result-cases,
}
use fast_and_safe_io_memory.Python.Text.{split, member}
use fast_and_safe_io_memory.Python.Floats.{Floats}
use fast_and_safe_io_memory.TcpLog.{
  Record, is_probe, get_val, filled, counters, parse_tokens, read_log, keys, all_in, cells,
  write_row, write_rows, write_csv, main,
}
use fast_and_safe_io_memory.TcpLog.Fields.{
  shown_counters, shown_ends, columns_of, parse_tokens-keys,
}

-- the columns that each probe line of a trace names
unfoldable pub log_columns : List String → List (List String)
log_columns [] = []
log_columns (l ∷ ls) =
    let rest = log_columns ls in if is_probe l then columns_of (split l) ∷ rest else rest

abbrev pub all_columns : List String
all_columns = "time_s" ∷ "src_ip" ∷ "src_port" ∷ "dest_ip" ∷ "dest_port" ∷ counters

module _ (F : Floats) where
  -- do these columns hold all of those?
  abbrev pub within : List String → List (List String) → Bool
  within columns [] = true
  within columns (ks ∷ rest) = all_in F columns ks && within columns rest

  -- the exception at the end of a trace all of whose probe lines can be read
  abbrev pub csv_error : List (List String) → Option Exception
  csv_error [] = some assertion_error
  csv_error (columns ∷ rest) = if within columns rest then none else some value_error

  abbrev pub or_else : Option Exception → Option Exception → Option Exception
  or_else none later = later
  or_else (some e) later = some e

  all_in-cons :
      (k : String) (columns ks : List String)
      → all_in F columns ks ≡ true
      → all_in F (k ∷ columns) ks ≡ true
  unfolding all_in member
  all_in-cons k columns [] h = refl
  all_in-cons k columns (j ∷ ks) h = ground (arith, all_in-cons k columns ks)

  all_in_self : (ks : List String) → all_in F ks ks ≡ true
  unfolding all_in member
  all_in_self [] = refl
  all_in_self (k ∷ ks) = ground (arith, eq_iff k k, all_in-cons k ks ks (all_in_self ks))

  read_log-keys :
      (lines : List String) (rs : List (Record F))
      → read_log F lines ≡ ok rs
      → map (keys F) rs ≡ log_columns lines
  unfolding read_log log_columns
  read_log-keys [] rs e = rw (← ok-injective [] rs e) refl
  read_log-keys (l ∷ ls) rs e = elim (Bool-cases (is_probe l)) [
    | inl probe ↦
        let same : read_log F (l ∷ ls)
            ≡ (parse_tokens F (split l) >>= λ r. read_log F ls >>= λ more. ok (r ∷ more)) =
          rw (read_log, probe) refl in
        let (r, first, e1) =
          >>=-ok (parse_tokens F (split l)) (λ r. read_log F ls >>= λ more. ok (r ∷ more))
            (sym same ∙ e) in
        let (more, others, e2) = >>=-ok (read_log F ls) (λ more. ok (r ∷ more)) e1 in
        rw (probe, ← ok-injective (r ∷ more) rs e2, parse_tokens-keys F (split l) r first)
          (ap (λ cs. columns_of (split l) ∷ cs) (read_log-keys ls more others))
    | inr other ↦
        let same : read_log F (l ∷ ls) ≡ read_log F ls = rw (read_log, other) refl in
        rw other (read_log-keys ls rs (sym same ∙ e))
  ]

  write_rows-error :
      (columns : List String) (rs : List (Record F))
      → error_of (write_rows F columns rs)
        ≡ (if within columns (map (keys F) rs) then none else some value_error)
  unfolding write_rows write_row
  write_rows-error columns [] = refl
  write_rows-error columns (r ∷ rs) = ground (arith, write_rows-error columns rs)

  write_rows-ok :
      (columns : List String) (rs : List (Record F))
      → within columns (map (keys F) rs) ≡ true
      → write_rows F columns rs ≡ ok (map (λ r. cells F r columns) rs)
  unfolding write_rows write_row
  write_rows-ok columns [] h = refl
  write_rows-ok columns (r ∷ rs) h =
      let here : all_in F columns (keys F r) ≡ true = ground arith in
      let later : within columns (map (keys F) rs) ≡ true = ground arith in
      rw (here, write_rows-ok columns rs later) refl

  all_in-append :
      (columns xs ys : List String)
      → all_in F columns xs ≡ true
      → all_in F columns ys ≡ true
      → all_in F columns (xs ++ ys) ≡ true
  unfolding all_in
  all_in-append columns [] ys h k = k
  all_in-append columns (x ∷ xs) ys h k = ground (arith, all_in-append columns xs ys)

  shown_counters-known :
      (tokens columns ks : List String)
      → all_in F columns ks ≡ true
      → all_in F columns (shown_counters tokens ks) ≡ true
  unfolding all_in
  shown_counters-known tokens columns [] h = refl
  shown_counters-known tokens columns (k ∷ ks) h = elim (Option-cases (get_val tokens k)) [
    | inl missing ↦
        rw (shown_counters, missing) (ground (arith, shown_counters-known tokens columns ks))
    | inr (val, found) ↦
        rw (shown_counters, found) (ground (arith, shown_counters-known tokens columns ks))
  ]

  shown_ends-known : (tokens : List String) → all_in F all_columns (shown_ends tokens) ≡ true
  unfolding all_in member
  shown_ends-known tokens = elim (Option-cases (filled (get_val tokens "src"))) [
    | inl missing ↦ rw (shown_ends, missing) refl
    | inr (val, found) ↦ elim (Option-cases (filled (get_val tokens "dest"))) [
      | inl missing ↦ rw (shown_ends, found, missing) refl
      | inr (val', found') ↦ rw (shown_ends, found, found') refl
    ]
  ]

  columns_of-known : (tokens : List String) → all_in F all_columns (columns_of tokens) ≡ true
  unfolding columns_of all_in member
  columns_of-known tokens =
      all_in-append all_columns (shown_ends tokens) (shown_counters tokens counters)
        (shown_ends-known tokens) (shown_counters-known tokens all_columns counters refl)

  log_columns-known : (lines : List String) → within all_columns (log_columns lines) ≡ true
  unfolding log_columns
  log_columns-known [] = refl
  log_columns-known (l ∷ ls) = elim (Bool-cases (is_probe l)) [
    | inl probe ↦ rw (probe, columns_of-known (split l)) (log_columns-known ls)
    | inr other ↦ rw other (log_columns-known ls)
  ]

  write_csv-error : (rs : List (Record F)) → error_of (write_csv F rs) ≡ csv_error (map (keys F) rs)
  unfolding write_csv
  write_csv-error [] = refl
  write_csv-error (r ∷ rs) =
      bind-error (write_rows F (keys F r) (r ∷ rs)) _
      ∙ write_rows-error (keys F r) (r ∷ rs)
      ∙ rw (all_in_self (keys F r)) refl

-- The script raises the exception of the first probe line that cannot be read; else, with no probe
-- line, its assertion fails; else, if a later probe line names a column that the first one does not,
-- it raises a ValueError; else it writes the file.
pub main-csv_error :
    (F : Floats) (lines : List String)
    → error_of (main F lines)
      ≡ or_else F (error_of (read_log F lines)) (csv_error F (log_columns lines))
unfolding main
main-csv_error F lines = elim (Result-cases (read_log F lines)) [
  | inl (e, broken) ↦ rw broken refl
  | inr (rs, read) ↦
      rw read (write_csv-error F rs ∙ ap (csv_error F) (read_log-keys F lines rs read))
]

-- If every probe line can be read and the first of them names both ends and all seven counters, then
-- the file is written, whatever later lines name: its columns are all twelve, and each record gives
-- one row, in order, with an empty cell for each column that its line does not name.
pub main_complete :
    (F : Floats) (lines : List String) (r : Record F) (rs : List (Record F))
    → read_log F lines ≡ ok (r ∷ rs)
    → keys F r ≡ all_columns
    → main F lines ≡ ok (all_columns, map (λ r. cells F r all_columns) (r ∷ rs))
unfolding main write_csv
main_complete F lines r rs read complete =
    let known =
      ap (within F all_columns) (read_log-keys F lines (r ∷ rs) read) ∙ log_columns-known F lines in
    rw (read, complete, write_rows-ok F all_columns (r ∷ rs) known) refl
