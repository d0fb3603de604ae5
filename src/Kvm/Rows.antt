-- ===== src/Kvm/Rows.antt =====
-- The rows of a report, which utils/parse_kvm_perf.py finds by a regular expression, without it.
use fast_and_safe_io_memory.Base.{
  ℕ, String, Bool, true, false, some, List, [], ◌∷◌, ◌≡◌, refl, arith, ◌↔◌,
}
use fast_and_safe_io_memory.Python.Text.{is_space}
use fast_and_safe_io_memory.Python.Pattern.{
  Piece, some_of, group, exactly, is_empty, match, is_digit, is_decimal, is_not_space,
}
use fast_and_safe_io_memory.Python.Pattern.Unique.{
  Matches, Separated, all_chars, cat, match-Matches,
}
use fast_and_safe_io_memory.Kvm.{row_pattern}

not_space_apart : (c : ℕ) → is_not_space c ≡ true → is_space c ≡ false
not_space_apart c h = ground arith

space_apart : (c : ℕ) → is_space c ≡ true → is_not_space c ≡ false
space_apart c h = ground arith

digit_apart : (c : ℕ) → is_digit c ≡ true → is_space c ≡ false
digit_apart c h = ground arith

digit_before_space : (c : ℕ) → is_space c ≡ true → is_digit c ≡ false
digit_before_space c h = ground arith

decimal_apart : (c : ℕ) → is_decimal c ≡ true → is_space c ≡ false
decimal_apart c h = ground arith

row_pattern-Separated : Separated row_pattern
row_pattern-Separated = (
  not_space_apart,
  (
    space_apart,
    (
      digit_apart,
      (
        digit_before_space,
        (
          decimal_apart,
          (
            refl,
            (
              decimal_apart,
              (refl, (decimal_apart, (refl, (decimal_apart, (refl, (decimal_apart, (refl, tt))))))),
            ),
          ),
        ),
      ),
    ),
  ),
)

-- a text of a class, not empty
abbrev pub Full : (ℕ → Bool) → String → Type 0
Full p a = (all_chars p a ≡ true) × (is_empty a ≡ false)

-- A line with these seven texts: white space, a reason without white space, and behind white space
-- each, a number of digits, two decimals before `%` and three before `us`, and any rest.
abbrev pub IsRow : String → List String → Type 0
IsRow line groups =
    (s0 reason s1 samples s2 samples_pct s3 time_pct s4 lo s5 hi s6 avg rest : String) × (line
      ≡ cat s0 (
          cat reason (
            cat s1 (
              cat samples (
                cat s2 (
                  cat samples_pct (
                    cat "%" (
                      cat s3 (
                        cat time_pct (
                          cat "%" (
                            cat s4 (
                              cat lo (
                                cat "us" (
                                  cat s5 (
                                    cat hi
                                      (cat "us" (cat s6 (cat avg (cat "us" rest)))))))))))))))))))
    × (all_chars is_space s0 ≡ true)
    × Full is_not_space reason
    × Full is_space s1
    × Full is_digit samples
    × Full is_space s2
    × Full is_decimal samples_pct
    × Full is_space s3
    × Full is_decimal time_pct
    × Full is_space s4
    × Full is_decimal lo
    × Full is_space s5
    × Full is_decimal hi
    × Full is_space s6
    × Full is_decimal avg
    × (groups ≡ reason ∷ samples ∷ samples_pct ∷ time_pct ∷ lo ∷ hi ∷ avg ∷ [])

Matches-IsRow : (line : String) (gs : List String) → Matches row_pattern line gs → IsRow line gs
Matches-IsRow line gs (s0, b0, c0, w0, m0) =
    let (reason, b1, g1, c1, a1, f1, e1, m1) = m0 in
    let (s1, b2, c2, a2, f2, m2) = m1 in
    let (samples, b3, g3, c3, a3, f3, e3, m3) = m2 in
    let (s2, b4, c4, a4, f4, m4) = m3 in
    let (sp, b5, g5, c5, a5, f5, e5, (b6, c6, m5)) = m4 in
    let (s3, b7, c7, a7, f7, m6) = m5 in
    let (tp, b8, g8, c8, a8, f8, e8, (b9, c9, m7)) = m6 in
    let (s4, b10, c10, a10, f10, m8) = m7 in
    let (lo, b11, g11, c11, a11, f11, e11, (b12, c12, m9)) = m8 in
    let (s5, b13, c13, a13, f13, m10) = m9 in
    let (hi, b14, g14, c14, a14, f14, e14, (b15, c15, m11)) = m10 in
    let (s6, b16, c16, a16, f16, m12) = m11 in
    let (avg, b17, g17, c17, a17, f17, e17, (rest, c18, e18)) = m12 in
    (
      s0,
      reason,
      s1,
      samples,
      s2,
      sp,
      s3,
      tp,
      s4,
      lo,
      s5,
      hi,
      s6,
      avg,
      rest,
      cc,
      w0,
      (a1, f1),
      (a2, f2),
      (a3, f3),
      (a4, f4),
      (a5, f5),
      (a7, f7),
      (a8, f8),
      (a10, f10),
      (a11, f11),
      (a13, f13),
      (a14, f14),
      (a16, f16),
      (a17, f17),
      cc,
    )

-- a column of a row: white space, and a decimal before its unit
abbrev column : String → List Piece → List Piece
column unit ps = some_of is_space ∷ group is_decimal ∷ exactly unit ∷ ps

column-Matches :
    (unit : String) (ps : List Piece) (s a b : String) (gs : List String)
    → Full is_space s
    → Full is_decimal a
    → Matches ps b gs
    → Matches (column unit ps) (cat s (cat a (cat unit b))) (a ∷ gs)
column-Matches unit ps s a b gs (a1, f1) (a2, f2) m =
    (s, _, refl, a1, f1, (a, _, _, refl, a2, f2, refl, (b, refl, m)))

IsRow-Matches : (line : String) (gs : List String) → IsRow line gs → Matches row_pattern line gs
IsRow-Matches line gs
      (
        s0,
        reason,
        s1,
        samples,
        s2,
        sp,
        s3,
        tp,
        s4,
        lo,
        s5,
        hi,
        s6,
        avg,
        rest,
        cut,
        w0,
        (a1, f1),
        (a2, f2),
        (a3, f3),
        h4,
        h5,
        h7,
        h8,
        h10,
        h11,
        h13,
        h14,
        h16,
        h17,
        groups,
      ) =
    let p6 = column "us" [] in
    let p5 = column "us" p6 in
    let p4 = column "us" p5 in
    let p3 = column "%" p4 in
    let b6 = cat s6 (cat avg (cat "us" rest)) in
    let b5 = cat s5 (cat hi (cat "us" b6)) in
    let b4 = cat s4 (cat lo (cat "us" b5)) in
    let b3 = cat s3 (cat tp (cat "%" b4)) in
    let m6 = column-Matches "us" [] s6 avg rest [] h16 h17 refl in
    let m5 = column-Matches "us" p6 s5 hi b6 (avg ∷ []) h13 h14 m6 in
    let m4 = column-Matches "us" p5 s4 lo b5 (hi ∷ avg ∷ []) h10 h11 m5 in
    let m3 = column-Matches "%" p4 s3 tp b4 (lo ∷ hi ∷ avg ∷ []) h7 h8 m4 in
    let m2 = column-Matches "%" p3 s2 sp b3 (tp ∷ lo ∷ hi ∷ avg ∷ []) h4 h5 m3 in
    (
      s0,
      _,
      cut,
      w0,
      (
        reason,
        _,
        _,
        refl,
        a1,
        f1,
        groups,
        (s1, _, refl, a2, f2, (samples, _, _, refl, a3, f3, refl, m2)),
      ),
    )

pub match-IsRow :
    (line : String) (groups : List String)
    → (match row_pattern line ≡ some groups) ↔ IsRow line groups
match-IsRow line groups =
    let (cuts, finds) = match-Matches row_pattern line groups row_pattern-Separated in
    (λ found. Matches-IsRow line groups (cuts found), λ row. finds (IsRow-Matches line groups row))
