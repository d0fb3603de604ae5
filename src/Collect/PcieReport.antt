-- ===== src/Collect/PcieReport.antt =====
-- What the scripts collect from the PCIe report of one run, with its handler.
use fast_and_safe_io_memory.Base.{
  String, Bool, true, false, ◌&&◌, Option, none, some, List, [], ◌∷◌, ◌++◌, append_assoc,
  append-nil, ◌≡◌, refl, sym, arith, get_last?, if◌then◌else◌,
}
use fast_and_safe_io_memory.Python.Exception.{from_option, file_not_found}
use fast_and_safe_io_memory.Python.Text.{split}
use fast_and_safe_io_memory.Python.Floats.{Floats}
use fast_and_safe_io_memory.Python.Statement
use fast_and_safe_io_memory.Python.Statement.{
  Statement, Flow, next, stop, Files, for, try, with_open, ◌>>◌,
}
use fast_and_safe_io_memory.Collect.{
  Metrics, Pcie, wr_tput, same_pcie, pcie_key, first_word, last_float, zero_float, add_pcie,
  pcie_accepts, pcie_value, pcie_line, pcie_zeros, pcie_part,
}

-- what one line of a report is
pub data Reading (F : Floats) : Type 0 where
  other : Reading F
  value : Pcie → F.Float → Reading F
  broken : Reading F

module _ (F : Floats) where
  open F use {Float, parse, of_int}

  abbrev number : Pcie → Option String → Reading F
  number k none = broken
  number k (some t) = elim (parse t) [ none ↦ broken | some x ↦ value k x ]

  abbrev labelled : Option Pcie → List String → Reading F
  labelled none ws = other
  labelled (some k) ws = number k (get_last? ws)

  -- a line is broken if it is blank, or if it begins with a counter's word and does not end in a
  -- number
  unfoldable pub reading : List String → Reading F
  reading [] = broken
  reading (w ∷ ws) = labelled (pcie_key w) (w ∷ ws)

  abbrev kept : Pcie → Reading F → List Float
  kept k other = []
  kept k (value j x) = if same_pcie k j && pcie_accepts F j x then x ∷ [] else []
  kept k broken = []

  abbrev then_kept : Reading F → List Float → List Float → List Float
  then_kept broken xs rest = []
  then_kept _ xs rest = xs ++ rest

  abbrev then_breaks : Reading F → Bool → Bool
  then_breaks broken rest = true
  then_breaks _ rest = rest

  -- the values of a counter up to the first broken line
  unfoldable pub report_values : Pcie → List String → List Float
  report_values k [] = []
  report_values k (l ∷ ls) =
      then_kept (reading (split l)) (kept k (reading (split l))) (report_values k ls)

  -- has a report a broken line?
  unfoldable pub breaks : List String → Bool
  breaks [] = false
  breaks (l ∷ ls) = then_breaks (reading (split l)) (breaks ls)

  -- what a run adds to a counter's list; there may be no report
  unfoldable pub run_values : Pcie → Option (List String) → List Float
  run_values k none = zero_float F ∷ []
  run_values k (some ls) = report_values k ls ++ (if breaks ls then zero_float F ∷ [] else [])

  abbrev is_raise : Flow → Bool
  is_raise next = false
  is_raise stop = false
  is_raise (Statement.raise _) = true

  abbrev is_stop : Flow → Bool
  is_stop next = false
  is_stop stop = true
  is_stop (Statement.raise _) = false

  pcie_line-adds :
      (k : Pcie) (l : String) (s : Metrics F)
      → (pcie_line F l s).0.pcie k ≡ s.pcie k ++ kept k (reading (split l))
  unfolding reading pcie_line first_word last_float pcie_value add_pcie
  pcie_line-adds k l s = ground (arith, append-nil (s.pcie k))

  pcie_line-flow :
      (l : String) (s : Metrics F)
      → (is_raise (pcie_line F l s).1 ≡ then_breaks (reading (split l)) false)
        × (is_stop (pcie_line F l s).1 ≡ false)
  unfolding reading pcie_line first_word last_float pcie_value add_pcie
  pcie_line-flow l s = ground arith

  pcie_lines-adds :
      (k : Pcie) (ls : List String) (s : Metrics F)
      → (for ls (pcie_line F) s).0.pcie k ≡ s.pcie k ++ report_values k ls
  unfolding for report_values
  pcie_lines-adds k [] s = sym (append-nil (s.pcie k))
  pcie_lines-adds k (l ∷ ls) s = ground (
    arith,
    pcie_line-adds k l s,
    pcie_line-flow l s,
    pcie_lines-adds k ls (pcie_line F l s).0,
    append_assoc (s.pcie k) (kept k (reading (split l))) (report_values k ls),
  )

  pcie_lines-flow :
      (ls : List String) (s : Metrics F)
      → (is_raise (for ls (pcie_line F) s).1 ≡ breaks ls)
        × (is_stop (for ls (pcie_line F) s).1 ≡ false)
  unfolding for breaks
  pcie_lines-flow [] s = (refl, refl)
  pcie_lines-flow (l ∷ ls) s =
      ground (arith, pcie_line-flow l s, pcie_lines-flow ls (pcie_line F l s).0)

  pcie_zeros-adds :
      (k : Pcie) (s : Metrics F)
      → ((pcie_zeros F s).0.pcie k ≡ s.pcie k ++ zero_float F ∷ []) × ((pcie_zeros F s).1 ≡ next)
  unfolding pcie_zeros add_pcie ◌>>◌
  pcie_zeros-adds wr_tput s = (refl, refl)
  pcie_zeros-adds _ s = (refl, refl)

  -- the statement, with the file's lines in hand
  pcie_of : Option (List String) → Statement (Metrics F)
  pcie_of o =
      try (Statement.◌>>=◌ (from_option file_not_found o) (λ ls. for ls (pcie_line F)))
        (pcie_zeros F)

  pcie_of-adds :
      (o : Option (List String)) (k : Pcie) (s : Metrics F)
      → ((pcie_of o s).0.pcie k ≡ s.pcie k ++ run_values k o) × ((pcie_of o s).1 ≡ next)
  unfolding pcie_of run_values try
  pcie_of-adds none k s = pcie_zeros-adds k s
  pcie_of-adds (some ls) k s = ground (
    arith,
    pcie_lines-adds k ls s,
    pcie_lines-flow ls s,
    pcie_zeros-adds k (for ls (pcie_line F) s).0,
    append-nil (report_values k ls),
    append_assoc (s.pcie k) (report_values k ls) (zero_float F ∷ []),
  )

-- The PCIe report of a run never ends the script. For each of the seven counters it adds, in
-- order, the values of the lines before the first broken line, and behind them a zero if there is
-- a broken line; without a report it adds a zero. A line is broken if it is blank, or begins with
-- a counter's word and does not end in a number; a write throughput that is not at least zero is
-- left out.
pub pcie_part-values :
    (F : Floats) (files : Files) (path : String) (k : Pcie) (s : Metrics F)
    → ((pcie_part F files path s).0.pcie k ≡ s.pcie k ++ run_values F k (files path))
      × ((pcie_part F files path s).1 ≡ next)
unfolding pcie_part pcie_of
pcie_part-values F files path k s = pcie_of-adds F (files path) k s
