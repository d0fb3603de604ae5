-- ===== src/Sosp24/Pair/Throughput.antt =====
-- scripts/sosp24-experiments/plot.py, get_tput: the throughput of a saved report, read as text.
use fast_and_safe_io_memory.Base.{
  ℕ, String, ◌<>◌, Bool, true, Option, none, some, List, [], ◌∷◌, ◌≡◌, refl, sym, ap, ◌∙◌, ◌==◌,
  pos, All, get_elem?,
}
use fast_and_safe_io_memory.Python.Exception.{
  Result, ok, file_not_found, index_error, from_option, ◌>>=◌,
}
use fast_and_safe_io_memory.Python.Text.{is_space}
use fast_and_safe_io_memory.Python.Text.Strip.{
  strip, split_on, join, none_is, IsPlain, split_on-join, none_is-join, strip-line,
}
use fast_and_safe_io_memory.Python.Floats.{Floats, float}
use fast_and_safe_io_memory.Python.Statement.{Files}
use fast_and_safe_io_memory.Collect.Scripts.{Script, run_of, all_runs}
use fast_and_safe_io_memory.Collect.Summary.{output_list, mean_or_zero, main_of}
use fast_and_safe_io_memory.Collect.Outcome.{main_of-row}

module _ (F : Floats) where
  open F use {Float, format_fixed}

  -- the throughput in the second of some lines, none where there is no second one
  unfoldable pub tput_of_lines : List String → Result (Option Float)
  tput_of_lines [] = ok none
  tput_of_lines (l ∷ []) = ok none
  tput_of_lines (l ∷ m ∷ ls) = do
    tput ← from_option index_error (get_elem? (split_on b',' (strip m)) 2)
    x ← float F tput
    ok (some x)

  unfoldable pub get_tput : Files → String → Result (Option Float)
  get_tput files filename = do
    lines ← from_option file_not_found (files filename)
    tput_of_lines lines

  -- the values of a row as `numpy.savetxt` writes them with `fmt='%.10f'`
  unfoldable pub texts_of : List (String × Float) → List String
  texts_of [] = []
  texts_of ((_, x) ∷ row) = format_fixed 10 x ∷ texts_of row

  texts_of-plain :
      (p : ℕ → Bool)
      → ((x : Float) → none_is p (format_fixed 10 x) ≡ true)
      → (row : List (String × Float)) → All (λ t. none_is p t ≡ true) (texts_of row)
  unfolding texts_of
  texts_of-plain p plain [] = tt
  texts_of-plain p plain ((_, x) ∷ row) = (plain x, texts_of-plain p plain row)

  tput_of_lines-row :
      (header : String) (a b c : String × Float) (row : List (String × Float))
      → ((x : Float) → IsPlain (format_fixed 10 x))
      → tput_of_lines ((header <> "\n") ∷ (join "," (texts_of (a ∷ b ∷ c ∷ row)) <> "\n") ∷ [])
        ≡ (float F (format_fixed 10 c.1) >>= λ x. ok (some x))
  unfolding tput_of_lines texts_of none_is
  tput_of_lines-row header a b c row plain =
      let line = join "," (texts_of (a ∷ b ∷ c ∷ row)) in
      let dense =
        none_is-join is_space (texts_of (a ∷ b ∷ c ∷ row)) refl
          (texts_of-plain is_space (λ x. (plain x).1) (a ∷ b ∷ c ∷ row)) in
      let cut =
        split_on-join (format_fixed 10 a.1) (texts_of (b ∷ c ∷ row))
          (texts_of-plain (λ d. d == b',') (λ x. (plain x).0) (a ∷ b ∷ c ∷ row)) in
      rw (strip-line line dense, cut) refl

  -- Where 0 <= 0 holds of floats and `%.10f` writes no comma and no white space: from the report of a row
  -- that one of the collectors saved, a header and the values between commas, get_tput reads the mean
  -- of the throughputs of the runs as it was written, or zero as it was written where there is none.
  pub get_tput-saved :
      F.le (F.of_int (pos 0)) (F.of_int (pos 0)) ≡ true
      → ((x : Float) → IsPlain (format_fixed 10 x))
      → (files : Files) (exp : String) (num_runs mlc : ℕ) (script : Script)
        (row : List (String × Float))
      → main_of F files exp num_runs mlc script ≡ ok row
      → (saved : Files) (path header : String)
      → saved path ≡ some ((header <> "\n") ∷ (join "," (texts_of row) <> "\n") ∷ [])
      → get_tput saved path ≡ (
          float F (
            format_fixed 10
              (mean_or_zero F (all_runs (run_of F files exp mlc script) num_runs).0.net_tputs))
          >>= λ x. ok (some x))
  unfolding get_tput output_list
  get_tput-saved le_zero plain files exp n mlc script row done saved path header here =
      let row_of = main_of-row F files exp n mlc script le_zero row done in
      rw here (
        ap (λ r. tput_of_lines ((header <> "\n") ∷ (join "," (texts_of r) <> "\n") ∷ []))
          (sym row_of)
        ∙ tput_of_lines-row header _ _ _ _ plain)
