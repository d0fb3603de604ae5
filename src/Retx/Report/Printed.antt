-- ===== src/Retx/Report/Printed.antt =====
-- The lines that the prints of utils/print_retx_rate.py leave in its report.
use fast_and_safe_io_memory.Base.{String, ◌<>◌, suc, true, some, List, [], ◌∷◌, ◌≡◌, pos, negsuc}
use fast_and_safe_io_memory.Python.Text.Words.{is_word}
use fast_and_safe_io_memory.Python.Number.{str}
use fast_and_safe_io_memory.Python.Floats.{Floats}
use fast_and_safe_io_memory.Retx.Report.{Value, whole, real, Output}

-- `str` of what a print shows
unfoldable pub text_of : (F : Floats) → Value F → String
text_of F (whole (pos n)) = str n
text_of F (whole (negsuc n)) = "-" <> str (suc n)
text_of F (real x) = F.show x

-- `print(label, value)`: a space between the two, and a line feed
abbrev pub line_of : (F : Floats) → String × Value F → String
line_of F (label, v) = label <> (" " <> (text_of F v <> "\n"))

abbrev pub lines_of : (F : Floats) → Output F → List String
lines_of F [] = []
lines_of F (p ∷ out) = line_of F p ∷ lines_of F out

module _ (F : Floats) where
  open F use {Float, parse}

  -- a printed value is one word, and a float
  abbrev pub IsRead : Value F → Float → Type 0
  IsRead v x = (is_word (text_of F v) ≡ true) × (parse (text_of F v) ≡ some x)
