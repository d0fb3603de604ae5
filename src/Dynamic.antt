-- ===== src/Dynamic.antt =====
-- plots/leshna_plot_nested.py: the parameters of a figure, from the number of labels and of series.
pub mod Bounds
pub mod Series
pub mod Draw
pub mod Lengths
pub mod Loop
pub mod Labels
pub mod Charts
pub mod Refused
pub mod Datasets
pub mod Subplots
pub mod Collected
pub mod Ebpf
mod Tests
use fast_and_safe_io_memory.Base.{
  ℕ, ◌+◌, ◌/◌, ltb, Bool, true, Option, none, some, ℤ, pos, sub_ℕ, ◌+ℤ◌, ◌-ℤ◌, ltb_ℤ, if◌then◌else◌,
}
use fast_and_safe_io_memory.Python.Exception.{Result, ok, ◌>>=◌}
use fast_and_safe_io_memory.Python.Floats.{Floats, nat, larger, smaller}

-- `max(a, b)` and `min(a, b)` of integers
abbrev pub larger_ℕ : ℕ → ℕ → ℕ
larger_ℕ a b = if ltb a b then b else a

abbrev pub smaller_ℕ : ℕ → ℕ → ℕ
smaller_ℕ a b = if ltb b a then b else a

abbrev pub larger_ℤ : ℤ → ℤ → ℤ
larger_ℤ a b = if ltb_ℤ a b then b else a

module _ (F : Floats) where
  open F use {Float, of_int, add, mul, div, decimal, is_zero, trunc}

  pub record Params : Type 0 where
    pub figsize : Float × Float
    pub font_size : ℤ
    pub bar_width : Float
    pub gap_factor : Float
    pub legend_fontsize : ℤ
    pub label_fontsize : ℤ
    pub legend_ncol : ℕ
    pub show_value_labels : Bool

  -- `min(final_width, max_width)`, if there is a maximum other than zero
  abbrev limit : Option Float → Float → Float
  limit none w = w
  limit (some m) w = if is_zero m then w else smaller F w m

  unfoldable pub width_scale : ℕ → Float
  width_scale num_x_labels =
      smaller F
        (larger F (add (nat F 1) (mul (of_int (sub_ℕ num_x_labels 3)) (decimal 10 2))) (nat F 1))
        (decimal 22 1)

  unfoldable pub height_scale : ℕ → Float
  height_scale num_series =
      smaller F
        (larger F (add (nat F 1) (mul (of_int (sub_ℕ num_series 2)) (decimal 1 1))) (nat F 1))
        (nat F 2)

  -- `font_scale *= 0.95`, under a test
  abbrev shrink : Bool → Float → Float
  shrink b x = if b then mul x (decimal 95 2) else x

  unfoldable pub font_scale : ℕ → ℕ → Float
  font_scale num_x_labels num_series =
      shrink (ltb 5 num_series)
        (shrink (ltb 20 num_x_labels) (shrink (ltb 10 num_x_labels) (nat F 1)))

  -- the divisor is at least one
  unfoldable pub bar_width_of : ℕ → ℕ → Float
  bar_width_of num_x_labels num_series =
      let bar_width = div (decimal 90 2) (nat F (larger_ℕ num_series 1)) in
      if ltb 15 num_x_labels then mul bar_width (decimal 92 2) else bar_width

  unfoldable pub gap_factor_of : ℕ → Float
  gap_factor_of num_x_labels =
      if ltb 20 num_x_labels
      then decimal 10 1
      else if ltb 10 num_x_labels
      then decimal 12 1
      else if ltb num_x_labels 5
      then decimal 20 1
      else decimal 15 1

  -- the parameters, given `int(base_font * font_scale)`
  unfoldable pub params_of : ℕ → ℕ → Option Float → ℤ → Params
  params_of num_x_labels num_series max_width font =
      let base_width = decimal 70 1 in
      let base_height = decimal 32 1 in
      let font_size = larger_ℤ font (pos 7) in
      record {
        figsize = (
          limit max_width (mul base_width (width_scale num_x_labels)),
          mul base_height (height_scale num_series),
        );
        font_size = font_size -ℤ pos 2;
        bar_width = bar_width_of num_x_labels num_series;
        gap_factor = gap_factor_of num_x_labels;
        legend_fontsize = larger_ℤ (font_size -ℤ pos 1) (pos 6);
        label_fontsize = larger_ℤ (font_size +ℤ pos 1) (pos 8);
        legend_ncol = smaller_ℕ 3 (larger_ℕ 2 (num_series / 2));
        show_value_labels = true;
      }

  unfoldable pub calculate_plot_params : ℕ → ℕ → Option Float → Result Params
  calculate_plot_params num_x_labels num_series max_width = do
    font ← trunc (mul (nat F 14) (font_scale num_x_labels num_series))
    ok (params_of num_x_labels num_series max_width font)
