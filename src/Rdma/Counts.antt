-- ===== src/Rdma/Counts.antt =====
-- The lists of scripts/collect-rdma-tput-stats.py, against the values that each report shows.
use fast_and_safe_io_memory.Base.{
  ◌≤◌, length, ℕ, zero, suc, ◌==◌, String, Bool, true, false, List, [], ◌∷◌, ◌++◌, ◌≡◌, refl, sym,
  ap, ◌∙◌, arith, pos, ◌=ₛ◌, starts_with, if◌then◌else◌, append-nil, Bool-cases, inl, inr,
}
use fast_and_safe_io_memory.Python.Exception.{
  Result, ok, raise, ok-injective, ◌>>=◌, >>=-ok, Result-cases,
}
use fast_and_safe_io_memory.Python.Floats.{Floats}
use fast_and_safe_io_memory.Collect.{first_word, last_float}
use fast_and_safe_io_memory.Rdma.{
  Metric, net_tputs, pauses, pause_durs, mem_bws, mlc_tputs, index, Lists, append_positive,
  append_accepted, read_tput, read_pause, read_membw, read_mlc,
}

abbrev pub is_membw : String → Bool
is_membw l = elim (first_word l) [ raise e ↦ false | ok w ↦ w =ₛ "Node0_total_bw:" ]

abbrev pub is_mlc : String → Bool
is_mlc l = starts_with l " 00000"

module _ (F : Floats) where
  open F use {Float, of_int, lt, le}

  abbrev accepted : Result Float → List Float
  accepted (raise e) = []
  accepted (ok x) = if le (of_int (pos 0)) x then x ∷ [] else []

  abbrev positive : Result Float → List Float
  positive (raise e) = []
  positive (ok x) = if lt (of_int (pos 0)) x then x ∷ [] else []

  abbrev nth_line : ℕ → List String → String
  nth_line n [] = ""
  nth_line zero (l ∷ ls) = l
  nth_line (suc n) (l ∷ ls) = nth_line n ls

  -- the value behind the first line that passes a test
  unfoldable pub first_of : (String → Bool) → List String → List Float
  first_of test [] = []
  first_of test (l ∷ ls) =
      let later = first_of test ls in if test l then accepted (last_float F l) else later

  -- the values that a report shows
  unfoldable pub tput_of : List String → List Float
  tput_of [] = []
  tput_of (l ∷ ls) = positive (last_float F l)

  unfoldable pub pause_of : ℕ → List String → List Float
  pause_of n lines = accepted (last_float F (nth_line n lines))

  abbrev pub at : Metric → List Float → Lists F → Metric → List Float
  at k xs m j = if index k == index j then m j ++ xs else m j

  append_accepted-at :
      (k j : Metric) (x : Float) (m : Lists F)
      → append_accepted F k x m j ≡ at k (accepted (ok x)) m j
  append_accepted-at k j x m = ground (arith, append-nil (m j))

  append_positive-at :
      (k j : Metric) (x : Float) (m : Lists F)
      → append_positive F k x m j ≡ at k (positive (ok x)) m j
  append_positive-at k j x m = ground (arith, append-nil (m j))

  pub at_nil : (k j : Metric) (m : Lists F) → m j ≡ at k [] m j
  at_nil k j m = ground (arith, append-nil (m j))

  pub read_tput-at :
      (lines : List String) (m m' : Lists F) (j : Metric)
      → read_tput F lines m ≡ ok m'
      → m' j ≡ at net_tputs (tput_of lines) m j
  unfolding read_tput tput_of
  read_tput-at [] m m' j e = ap (λ f. f j) (sym (ok-injective m m' e)) ∙ at_nil net_tputs j m
  read_tput-at (l ∷ ls) m m' j e =
      let (x, read, e1) = >>=-ok (last_float F l) (λ x. ok (append_positive F net_tputs x m)) e in
      ap (λ f. f j) (sym (ok-injective _ m' e1)) ∙ append_positive-at net_tputs j x m ∙ rw read refl

  two_lines : String → String → Lists F → Result (Lists F)
  two_lines line1 line2 m = do
    pause ← last_float F line1
    pause_dur ← last_float F line2
    ok (append_accepted F pause_durs pause_dur (append_accepted F pauses pause m))

  two_lines-at :
      (line1 line2 : String) (m m' : Lists F) (j : Metric)
      → two_lines line1 line2 m ≡ ok m'
      → m' j
        ≡ at pause_durs
            (accepted (last_float F line2))
            (at pauses (accepted (last_float F line1)) m)
            j
  unfolding two_lines
  two_lines-at line1 line2 m m' j e =
      let (x, read, e1) = >>=-ok (last_float F line1) _ e in
      let (y, read', e2) =
        >>=-ok (last_float F line2)
          (λ y. ok (append_accepted F pause_durs y (append_accepted F pauses x m))) e1 in
      ap (λ f. f j) (sym (ok-injective _ m' e2))
      ∙ append_accepted-at pause_durs j y (append_accepted F pauses x m)
      ∙ ground (arith, read, read', append_accepted-at pauses j x m)

  pub read_pause-at :
      (lines : List String) (m m' : Lists F) (j : Metric)
      → read_pause F lines m ≡ ok m'
      → m' j ≡ at pause_durs (pause_of 1 lines) (at pauses (pause_of 0 lines) m) j
  unfolding read_pause pause_of two_lines
  read_pause-at [] m m' j e = two_lines-at "" "" m m' j e
  read_pause-at (l ∷ []) m m' j e = two_lines-at l "" m m' j e
  read_pause-at (l ∷ k ∷ ls) m m' j e = two_lines-at l k m m' j e

  found-at :
      (k j : Metric) (l : String) (m m' : Lists F)
      → (last_float F l >>= λ x. ok (append_accepted F k x m)) ≡ ok m'
      → m' j ≡ at k (accepted (last_float F l)) m j
  found-at k j l m m' e =
      let (x, read, e1) = >>=-ok (last_float F l) (λ x. ok (append_accepted F k x m)) e in
      ap (λ f. f j) (sym (ok-injective _ m' e1)) ∙ append_accepted-at k j x m ∙ rw read refl

  pub read_membw-at :
      (lines : List String) (m m' : Lists F) (j : Metric)
      → read_membw F lines m ≡ ok m'
      → m' j ≡ at mem_bws (first_of is_membw lines) m j
  unfolding read_membw first_of
  read_membw-at [] m m' j e = ap (λ f. f j) (sym (ok-injective m m' e)) ∙ at_nil mem_bws j m
  read_membw-at (l ∷ ls) m m' j e =
      let body : String → Result (Lists F) = λ w.
        if w =ₛ "Node0_total_bw:"
        then (last_float F l >>= λ x. ok (append_accepted F mem_bws x m))
        else read_membw F ls m in
      let (w, read, e1) = >>=-ok (first_word l) body e in
      elim (Bool-cases (w =ₛ "Node0_total_bw:")) [
        | inl label ↦
            let same : body w ≡ (last_float F l >>= λ x. ok (append_accepted F mem_bws x m)) =
              rw label refl in
            let test : is_membw l ≡ true = rw (is_membw, read) label in
            rw test (found-at mem_bws j l m m' (sym same ∙ e1))
        | inr other ↦
            let same : body w ≡ read_membw F ls m = rw other refl in
            let test : is_membw l ≡ false = rw (is_membw, read) other in
            rw test (read_membw-at ls m m' j (sym same ∙ e1))
      ]

  pub read_mlc-at :
      (lines : List String) (m m' : Lists F) (j : Metric)
      → read_mlc F lines m ≡ ok m'
      → m' j ≡ at mlc_tputs (first_of is_mlc lines) m j
  unfolding read_mlc first_of
  read_mlc-at [] m m' j e = ap (λ f. f j) (sym (ok-injective m m' e)) ∙ at_nil mlc_tputs j m
  read_mlc-at (l ∷ ls) m m' j e = elim (Bool-cases (starts_with l " 00000")) [
    | inl label ↦
        let same : read_mlc F (l ∷ ls) m
            ≡ (last_float F l >>= λ x. ok (append_accepted F mlc_tputs x m)) =
          rw (read_mlc, label) refl in
        rw label (found-at mlc_tputs j l m m' (sym same ∙ e))
    | inr other ↦
        let same : read_mlc F (l ∷ ls) m ≡ read_mlc F ls m = rw (read_mlc, other) refl in
        rw other (read_mlc-at ls m m' j (sym same ∙ e))
  ]

  length-accepted : (r : Result Float) → length (accepted r) ≤ 1
  length-accepted (raise e) = omega arith
  length-accepted (ok x) = ground arith

  pub length-pause_of : (n : ℕ) (lines : List String) → length (pause_of n lines) ≤ 1
  unfolding pause_of
  length-pause_of n lines = length-accepted (last_float F (nth_line n lines))

  pub length-tput_of : (lines : List String) → length (tput_of lines) ≤ 1
  unfolding tput_of
  length-tput_of [] = omega arith
  length-tput_of (l ∷ ls) = elim (Result-cases (last_float F l)) [
    | inl (e, broken) ↦ rw broken (omega arith)
    | inr (x, read) ↦ rw read (ground arith)
  ]

  pub length-first_of :
      (test : String → Bool) (lines : List String) → length (first_of test lines) ≤ 1
  unfolding first_of
  length-first_of test [] = omega arith
  length-first_of test (l ∷ ls) = elim (Bool-cases (test l)) [
    | inl here ↦ rw here (length-accepted (last_float F l))
    | inr later ↦ rw later (length-first_of test ls)
  ]
