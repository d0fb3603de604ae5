-- ===== src/Dynamic/Bounds.antt =====
-- plots/leshna_plot_nested.py: bounds on the parameters of a figure.
use fast_and_safe_io_memory.Base.{
  ℕ, ◌+◌, ◌-◌, ◌/◌, ◌≤◌, arith, Option, ◌≡◌, refl, ap, ◌∙◌, ℤ, pos, negsuc, ◌+ℤ◌, ◌-ℤ◌, ltb,
  Bool-cases, inl, inr,
}
use fast_and_safe_io_memory.Python.Exception.{ok}
use fast_and_safe_io_memory.Python.Floats.{Floats, nat}
use fast_and_safe_io_memory.Dynamic.{
  larger_ℤ, larger_ℕ, smaller_ℕ, Params, font_scale, params_of, calculate_plot_params,
}

at_least_7 : (n : ℤ) → (k : ℕ) × (larger_ℤ n (pos 7) ≡ pos (7 + k))
at_least_7 (pos m) = elim (Bool-cases (ltb m 7)) [
  | inl e ↦ (0, ground arith)
  | inr e ↦ (m - 7, ground arith)
]
at_least_7 (negsuc m) = (0, ground arith)

sizes :
    (k : ℕ)
    → (pos (7 + k) -ℤ pos 2 ≡ pos (5 + k))
      × (larger_ℤ (pos (7 + k) -ℤ pos 1) (pos 6) ≡ pos (6 + k))
      × (larger_ℤ (pos (7 + k) +ℤ pos 1) (pos 8) ≡ pos (8 + k))
unfolding ◌-ℤ◌ ◌+ℤ◌
sizes k = ground arith

columns-bounds : (n : ℕ) → (2 ≤ smaller_ℕ 3 (larger_ℕ 2 n)) × (smaller_ℕ 3 (larger_ℕ 2 n) ≤ 3)
columns-bounds n = ground arith

-- Where int() reads the scaled size of the font: the parameters are returned, whatever the numbers of
-- labels and series and the maximum width are. The size of the font is at least 5, that of the legend
-- is one larger and at least 6, that of the labels three larger and at least 8, so that the minima 6 and
-- 8 never come into play, and the legend has two or three columns.
pub calculate_plot_params-bounds :
    (F : Floats) (num_x_labels num_series : ℕ) (max_width : Option F.Float) (n : ℤ)
    → F.trunc (F.mul (nat F 14) (font_scale F num_x_labels num_series)) ≡ ok n
    → (p : Params F) × (calculate_plot_params F num_x_labels num_series max_width ≡ ok p)
      × ((k : ℕ) × (p.font_size ≡ pos (5 + k))
          × (p.legend_fontsize ≡ pos (6 + k))
          × (p.label_fontsize ≡ pos (8 + k)))
      × (2 ≤ p.legend_ncol)
      × (p.legend_ncol ≤ 3)
unfolding calculate_plot_params params_of
calculate_plot_params-bounds F nx ns mw n whole =
    let (k, e) = at_least_7 n in
    let (font, legend, label) = sizes k in
    let (low, high) = columns-bounds (ns / 2) in
    (
      params_of F nx ns mw n,
      rw whole refl,
      (
        k,
        ap (λ f. f -ℤ pos 2) e ∙ font,
        ap (λ f. larger_ℤ (f -ℤ pos 1) (pos 6)) e ∙ legend,
        ap (λ f. larger_ℤ (f +ℤ pos 1) (pos 8)) e ∙ label,
      ),
      low,
      high,
    )
