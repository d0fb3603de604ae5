-- ===== src/Breakdown/Section.antt =====
-- The section that plots/siyuan_invalidation_breakdown.py reads, in a file of the expected shape.
use fast_and_safe_io_memory.Base.{
  ℕ, suc, ◌+◌, ◌-◌, String, true, false, Option, none, some, List, [], ◌∷◌, ◌++◌, ◌≡◌, refl, ap,
  ◌∙◌, arith, length, get_elem?, All, length-append,
}
use fast_and_safe_io_memory.Python.Csv.{dict_rows}
use fast_and_safe_io_memory.Python.Floats.{Floats}
use fast_and_safe_io_memory.Breakdown.{
  strip, is_title, is_comment, find_bounds, end_or, take, drop, data_lines, collect, parse_section,
  parse_aggregate_stats,
}

abbrev pub Plain : String → Type 0
Plain line = (is_title line ≡ false) × (is_comment line ≡ false)

-- the end of the file, or a comment that is no title
abbrev pub Ends : List String → Type 0
Ends [] = Unit
Ends (l ∷ ls) = (is_title l ≡ false) × (is_comment l ≡ true)

find_bounds-before :
    (i : ℕ) (pre ls : List String)
    → All (λ l. is_title l ≡ false) pre
    → find_bounds i none (pre ++ ls) ≡ find_bounds (i + length pre) none ls
unfolding find_bounds
find_bounds-before i [] ls h = ap (λ n. find_bounds n none ls) (omega arith)
find_bounds-before i (l ∷ pre) ls (h, hs) =
    rw h (find_bounds-before (suc i) pre ls hs ∙ ap (λ n. find_bounds n none ls) (omega arith))

abbrev end_of : ℕ → List String → Option ℕ
end_of n [] = none
end_of n (l ∷ ls) = some n

find_bounds-inside :
    (i s : ℕ) (body tail : List String)
    → All Plain body
    → Ends tail
    → find_bounds i (some s) (body ++ tail) ≡ (some s, end_of (i + length body) tail)
unfolding find_bounds
find_bounds-inside i s [] [] h e = refl
find_bounds-inside i s [] (l ∷ tail) h (no_title, comment) =
    rw (no_title, comment) (ap (λ n. (some s, some n)) (omega arith))
find_bounds-inside i s (l ∷ body) tail ((no_title, plain), h) e =
    rw (no_title, plain)
      (find_bounds-inside (suc i) s body tail h e ∙ ap (λ n. (some s, end_of n tail)) (omega arith))

get_elem-after :
    (pre : List String) (t x : String) (ls : List String)
    → get_elem? (pre ++ t ∷ x ∷ ls) (suc (length pre)) ≡ some x
get_elem-after [] t x ls = refl
get_elem-after (l ∷ pre) t x ls = get_elem-after pre t x ls

drop-after :
    (pre : List String) (t x : String) (ls : List String)
    → drop (suc (suc (length pre))) (pre ++ t ∷ x ∷ ls) ≡ ls
unfolding drop
drop-after [] t x ls = refl
drop-after (l ∷ pre) t x ls = drop-after pre t x ls

take-append : (body tail : List String) → take (length body) (body ++ tail) ≡ body
unfolding take
take-append [] tail = refl
take-append (l ∷ body) tail = ap (λ ls. l ∷ ls) (take-append body tail)

find_bounds-file :
    (pre body tail : List String) (title : String)
    → All (λ l. is_title l ≡ false) pre
    → is_title title ≡ true
    → All Plain body
    → Ends tail
    → find_bounds 0 none (pre ++ title ∷ (body ++ tail))
      ≡ (some (suc (length pre)), end_of (suc (length pre) + length body) tail)
unfolding find_bounds
find_bounds-file pre body tail title before titled plain ends =
    let from : 0 + length pre ≡ length pre = omega arith in
    find_bounds-before 0 pre (title ∷ (body ++ tail)) before
    ∙ ap (λ n. find_bounds n none (title ∷ (body ++ tail))) from
    ∙ rw titled (find_bounds-inside (suc (length pre)) (suc (length pre)) body tail plain ends)

end_or-end_of : (n m : ℕ) (tail : List String) → n ≡ m + length tail → end_or n (end_of m tail) ≡ m
end_or-end_of n m [] h = omega (arith, h)
end_or-end_of n m (l ∷ tail) h = refl

length-file :
    (pre body tail : List String) (t x : String)
    → length (pre ++ t ∷ x ∷ (body ++ tail)) ≡ (suc (length pre) + length (x ∷ body)) + length tail
length-file pre body tail t x =
    omega (arith, length-append pre (t ∷ x ∷ (body ++ tail)), length-append body tail)

section_lines :
    (pre body tail : List String) (t x : String)
    → take
        (end_or
            (length (pre ++ t ∷ x ∷ (body ++ tail)))
            (end_of (suc (length pre) + length (x ∷ body)) tail)
          - (suc (length pre) + 1))
        (drop (suc (length pre) + 1) (pre ++ t ∷ x ∷ (body ++ tail)))
      ≡ body
section_lines pre body tail t x =
    let stop =
      end_or-end_of (length (pre ++ t ∷ x ∷ (body ++ tail))) (suc (length pre) + length (x ∷ body))
        tail (length-file pre body tail t x) in
    let from : suc (length pre) + 1 ≡ suc (suc (length pre)) = omega arith in
    let size : (suc (length pre) + length (x ∷ body)) - suc (suc (length pre)) ≡ length body =
      omega arith in
    rw (stop, from, size, drop-after pre t x (body ++ tail)) (take-append body tail)

-- In a file in which the title stands behind lines that are no titles, and is followed by a header,
-- by lines that are neither titles nor comments, and by the end of the file or a comment, the
-- statistics are collected from the header and these lines, without the blank ones.
pub parse-section_lines :
    (F : Floats) (pre body tail : List String) (title header : String)
    → All (λ l. is_title l ≡ false) pre
    → is_title title ≡ true
    → All Plain (header ∷ body)
    → Ends tail
    → parse_aggregate_stats F (pre ++ title ∷ header ∷ (body ++ tail))
      ≡ collect F (dict_rows (strip header ∷ data_lines body)) []
unfolding parse_aggregate_stats parse_section
parse-section_lines F pre body tail title header before titled plain ends =
    rw
      (
        find_bounds-file pre (header ∷ body) tail title before titled plain ends,
        get_elem-after pre title header (body ++ tail),
        section_lines pre body tail title header,
      )
      refl
