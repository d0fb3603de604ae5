-- ===== src/Retx/Tests.antt =====
-- Runs of utils/print_retx_rate.py on small files, and instances of what is proved of it.
use fast_and_safe_io_memory.Base.{
  String, List, [], ◌∷◌, ◌≡◌, refl, sym, subst, ◌+◌, ◌≤◌, true, false, ℤ, pos, ltb_ℤ, pos_part,
  neg_part, arith, ◌==◌, length, All,
}
use fast_and_safe_io_memory.Python.Exception.{Result, ok, raise, assertion_error}
use fast_and_safe_io_memory.Python.Text.{split}
use fast_and_safe_io_memory.Python.Number.{int}
use fast_and_safe_io_memory.Python.Floats.Whole.{whole_floats}
use fast_and_safe_io_memory.Python.Statement.{next}
use fast_and_safe_io_memory.Retx.{
  State, start, retx, loss_retx, step, scan, words, matches, column, int_at, read_snapshots,
  count_each, observe, count, rx_data, tx_data,
}
use fast_and_safe_io_memory.Retx.Snapshots.{
  text, history, summary, next_mode, mode_values, line_values, IsCount, scan-summary,
}
use fast_and_safe_io_memory.Retx.Links.{
  receive, link, link_history, link_summary, line_pair, is_data, IsBytes, scan-link_summary,
}
use fast_and_safe_io_memory.Retx.Asserted.{retx_required, read_snapshots-length}
use fast_and_safe_io_memory.Retx.Report.{report}
use fast_and_safe_io_memory.Retx.Report.Lines.{expected_lines, report-lines}

abbrev two_snapshots : List String
two_snapshots =
    "2: eth0: mtu 9000\n" ∷ "    RX: bytes  packets\n" ∷ "    1000 10 0 0\n"
    ∷ "    TX: bytes  packets\n" ∷ "    500 5 0 0\n" ∷ "    100 segments received\n"
    ∷ "    40 segments sent out\n" ∷ "    2 segments retransmitted\n" ∷ "    TCPLostRetransmit: 7\n"
    ∷ "\n" ∷ "    RX: bytes  packets\n" ∷ "    4000 40 0 0\n" ∷ "    180 segments received\n"
    ∷ "    60 segments sent out\n" ∷ "    5 segments retransmitted\n" ∷ []

result_or {ℓ} : {A : Type ℓ} → A → Result A → A
result_or d (ok a) = a
result_or d (raise e) = d

-- the state after the loop
abbrev reached : State
reached = result_or start (scan (words two_snapshots) start)

reached-ok : scan (words two_snapshots) start ≡ ok reached
unfolding result_or scan words step count_each count rx_data tx_data int_at matches column split int
reached-ok = refl

retx_history : history retx text (words two_snapshots) ≡ pos 2 ∷ pos 5 ∷ []
unfolding history mode_values line_values next_mode words int_at matches column split int
retx_history = refl

lost_history : history loss_retx text (words two_snapshots) ≡ pos 7 ∷ []
unfolding history mode_values line_values next_mode words int_at matches column split int
lost_history = refl

received_pairs :
    link_history receive text (words two_snapshots) ≡ (pos 1000, pos 10) ∷ (pos 4000, pos 40) ∷ []
unfolding link_history line_pair is_data next_mode words int_at split int
received_pairs = refl

passed : read_snapshots two_snapshots ≡ ok reached
unfolding read_snapshots result_or scan words step count_each count rx_data tx_data int_at matches
    column split int observe
passed = refl

-- an empty file fails the first assertion
nothing_seen : read_snapshots [] ≡ raise assertion_error
unfolding read_snapshots scan words
nothing_seen = refl

scan-summary_example : reached.at retx ≡ summary (history retx text (words two_snapshots))
scan-summary_example =
    scan-summary retx (words two_snapshots) reached reached-ok
      (subst (All IsCount) (sym retx_history) (refl, (refl, tt)))

scan-link_summary_example :
    link receive reached ≡ link_summary (link_history receive text (words two_snapshots))
scan-link_summary_example =
    scan-link_summary receive (words two_snapshots) reached reached-ok
      (subst (All IsBytes) (sym received_pairs) (refl, (refl, tt)))

read_snapshots-length_example :
    (2 ≤ length (history retx text (words two_snapshots)))
    × (reached.at retx ≡ summary (history retx text (words two_snapshots)))
read_snapshots-length_example =
    read_snapshots-length retx two_snapshots reached retx_required passed
      (subst (All IsCount) (sym retx_history) (refl, (refl, tt)))

positive : (x : ℤ) → ltb_ℤ (pos 0) x ≡ true → (pos_part x + neg_part x == 0) ≡ false
positive x h = ground arith

report-lines_example :
    report whole_floats (pos 10) reached [] ≡ (expected_lines whole_floats (pos 10) reached, next)
report-lines_example = report-lines whole_floats (pos 10) reached refl positive
