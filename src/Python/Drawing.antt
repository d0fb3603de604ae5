-- ===== src/Python/Drawing.antt =====
-- The calls that the plot scripts make of matplotlib, in order, with their arguments. A script is a
-- statement over the calls made so far. What matplotlib gives back, the rectangles of a bar chart, is
-- a parameter.
pub mod Charts
use fast_and_safe_io_memory.Base.{ℕ, String, Bool, List, [], ◌∷◌, ◌++◌, map, ◌≡◌, ℤ}
use fast_and_safe_io_memory.Python.Floats.{Floats}
use fast_and_safe_io_memory.Python.Arrays.{Arrays}
use fast_and_safe_io_memory.Python.Statement.{Statement, assign}

-- the functions of `plt`, `plt.rcParams.update`, and `os.makedirs` for the folder of a figure
pub data Function : Type 0 where
  figure update_params bar xlabel ylabel title xticks yticks : Function
  grid legend ylim yscale subplots_adjust tight_layout text_at savefig close : Function
  makedirs : Function

module _ (F : Floats) (A : Arrays F) where
  pub data Arg : Type 0 where
    real : F.Float → Arg
    whole : ℤ → Arg
    text : String → Arg
    flag : Bool → Arg
    array : A.Array → Arg
    reals : List F.Float → Arg
    texts : List String → Arg

  pub record Call : Type 0 where
    pub function : Function
    pub args : List Arg
    pub kwargs : List (String × Arg)

  abbrev pub Calls : Type 0
  Calls = List Call

  -- one call
  unfoldable pub call : Function → List Arg → List (String × Arg) → Statement Calls
  call f args kwargs =
      assign (λ calls. calls ++ record { function = f; args = args; kwargs = kwargs } ∷ [])

  -- a call with positional arguments alone
  unfoldable pub plain : Function → List Arg → Statement Calls
  unfolding call
  plain f args = call f args []

  -- one bar of a bar chart
  pub record Rectangle : Type 0 where
    pub x : F.Float
    pub width : F.Float
    pub height : F.Float

-- the rectangles that `plt.bar(x, heights, width, …)` gives back
abbrev pub Bars : (F : Floats) → Arrays F → Type 0
Bars F A = A.Array → List F.Float → F.Float → List (Rectangle F A)

unfoldable pub heights : (F : Floats) (A : Arrays F) → List (Rectangle F A) → List F.Float
heights F A rs = map (λ r. r.height) rs

-- the rectangles are one for each height, in order, and as high
abbrev pub HaveHeights : (F : Floats) (A : Arrays F) → Bars F A → Type 0
HaveHeights F A bars_of =
    (x : A.Array) (hs : List F.Float) (width : F.Float) → heights F A (bars_of x hs width) ≡ hs
