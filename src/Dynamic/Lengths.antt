-- ===== src/Dynamic/Lengths.antt =====
-- plots/leshna_plot_nested.py: the heights that are drawn are as many as the labels, so that there is a
-- largest one.
use fast_and_safe_io_memory.Base.{
  ℕ, zero, suc, ◌≤◌, ◌<◌, arith, ◌==◌, List, [], ◌∷◌, ◌≡◌, refl, ap, length, length-append,
  Bool-cases, inl, inr,
}
use fast_and_safe_io_memory.Python.Exception.{ok}
use fast_and_safe_io_memory.Python.Floats.{Floats, max}
use fast_and_safe_io_memory.Dynamic.Series.{zeros, take, padded, sums}

module _ (F : Floats) where
  open F use {Float}

  length-zeros : (n : ℕ) → length (zeros F n) ≡ n
  unfolding zeros
  length-zeros zero = refl
  length-zeros (suc n) = ap suc (length-zeros n)

  length-take : (n : ℕ) (xs : List Float) → n ≤ length xs → length (take F n xs) ≡ n
  unfolding take
  length-take zero xs h = refl
  length-take (suc n) [] h = omega arith
  length-take (suc n) (x ∷ xs) h = ap suc (length-take n xs (omega arith))

  pub length-padded : (n : ℕ) (xs : List Float) → length (padded F n xs) ≡ n
  unfolding padded
  length-padded n xs = elim (Bool-cases (length xs == n)) [
    | inl e ↦ rw e (ground arith)
    | inr e ↦ rw e (length-take n _ (omega (arith, length-append xs (zeros F n), length-zeros n)))
  ]

  -- a maximum of sums of two lists that are not empty
  pub max-sums :
      (vs es : List Float)
      → 0 < length vs
      → 0 < length es
      → (m : Float) × (max F (sums F vs es) ≡ ok m)
  unfolding max sums
  max-sums [] es h g = let no : ⊥ = omega arith in elim no [ ]
  max-sums (v ∷ vs) [] h g = let no : ⊥ = omega arith in elim no [ ]
  max-sums (v ∷ vs) (e ∷ es) h g = (_, refl)

  pub max-positive : (vs : List Float) → 0 < length vs → (m : Float) × (max F vs ≡ ok m)
  unfolding max
  max-positive [] h = let no : ⊥ = omega arith in elim no [ ]
  max-positive (v ∷ vs) h = (_, refl)
