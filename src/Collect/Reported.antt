-- ===== src/Collect/Reported.antt =====
-- scripts/collect-tput-stats.py on the report that utils/print_retx_rate.py prints.
use fast_and_safe_io_memory.Base.{
  String, ◌<>◌, true, false, some, List, [], ◌∷◌, ◌++◌, ◌≡◌, refl, ◌∙◌, ℤ, ◌=ₛ◌, if◌then◌else◌,
  Bool-cases, inl, inr,
}
use fast_and_safe_io_memory.Python.Exception.{ok}
use fast_and_safe_io_memory.Python.Text.Strip.{none_is}
use fast_and_safe_io_memory.Python.Text.Words.{is_word, split-pair, split-first}
use fast_and_safe_io_memory.Python.Floats.{Floats}
use fast_and_safe_io_memory.Python.Statement.{Files, next, stop, for, for-next, for-stop, ◌>>◌}
use fast_and_safe_io_memory.Retx.{State, retx, sent, recv, loss_retx}
use fast_and_safe_io_memory.Retx.Report.{Value, whole, real, Output, difference, percent, report}
use fast_and_safe_io_memory.Retx.Report.Printed.{text_of, line_of, lines_of, IsRead}
use fast_and_safe_io_memory.Retx.Report.Starts.{first_lines, report-starts}
use fast_and_safe_io_memory.Collect.{
  Metrics, first_word, last_float, zero_float, add_retx, add_sent, retx_line, retx_part,
}

module _ (F : Floats) where
  open F use {Float, of_int, le, parse}

  last_float-line :
      (l : String) (v : Value F) (x : Float)
      → is_word l ≡ true
      → IsRead F v x
      → last_float F (line_of F (l <> " ", v)) ≡ ok x
  unfolding last_float
  last_float-line l v x hl (hw, hp) = rw (split-pair l (text_of F v) hl hw, hp) refl

  first_word-line :
      (l : String) (v : Value F) → is_word l ≡ true → first_word (line_of F (l <> " ", v)) ≡ ok l
  unfolding first_word
  first_word-line l v hl =
      let (ws, e) = split-first l (" " <> (text_of F v <> "\n")) hl in rw (e) refl

  -- a line that is passed over
  other_line :
      (l : String) (v : Value F) (m : Metrics F)
      → is_word l ≡ true
      → (l =ₛ "Retx_percent:") ≡ false
      → (l =ₛ "Recv:") ≡ false
      → retx_line F (line_of F (l <> " ", v)) m ≡ (m, next)
  unfolding retx_line
  other_line l v m hl h h' = rw (first_word-line l v hl, h, h') refl

  recv_line :
      (v : Value F) (x : Float) (m : Metrics F)
      → IsRead F v x
      → retx_line F (line_of F ("Recv:" <> " ", v)) m ≡ add_sent F x m
  unfolding retx_line is_word none_is
  recv_line v x m h = rw (first_word-line "Recv:" v refl, last_float-line "Recv:" v x refl h) refl

  -- the share of the retransmissions is kept if it is not negative
  abbrev pub kept : Float → Metrics F → Metrics F
  kept x m = if le (zero_float F) x then (add_retx F x m).0 else m

  percent_line :
      (v : Value F) (x : Float) (m : Metrics F)
      → IsRead F v x
      → retx_line F (line_of F ("Retx_percent:" <> " ", v)) m ≡ (kept x m, stop)
  unfolding retx_line is_word none_is ◌>>◌ add_retx
  percent_line v x m h = elim (Bool-cases (le (zero_float F) x)) [
    | inl e ↦
        rw (first_word-line "Retx_percent:" v refl, last_float-line "Retx_percent:" v x refl h, e)
          refl
    | inr e ↦
        rw (first_word-line "Retx_percent:" v refl, last_float-line "Retx_percent:" v x refl h, e)
          refl
  ]

  next_line :
      (line : String) (ls : List String) (m : Metrics F) {m' : Metrics F}
      → retx_line F line m ≡ (m', next)
      → for (line ∷ ls) (retx_line F) m ≡ for ls (retx_line F) m'
  next_line line ls m h = for-next line ls (retx_line F) m h

  -- the loop over the seven lines and any others
  lines-kept :
      (time : ℤ) (s : State) (r l : Value F) (x : Float) (tail : Output F) (m : Metrics F)
      → IsRead F (real (of_int (difference (s.at recv)))) (of_int (difference (s.at recv)))
      → IsRead F r x
      → for (lines_of F (first_lines F time s r l ++ tail)) (retx_line F) m
        ≡ (kept x (add_sent F (of_int (difference (s.at recv))) m).0, next)
  unfolding add_sent is_word none_is text_of
  lines-kept time s r l x tail m recv_read read =
      let recv_pkts = of_int (difference (s.at recv)) in
      next_line _ _ m (other_line "Retx:" (real (of_int (difference (s.at retx)))) m refl refl refl)
      ∙ next_line _ _ m
          (other_line "Loss_retx:" (real (of_int (difference (s.at loss_retx)))) m refl refl refl)
      ∙ next_line _ _ m
          (other_line "Sent:" (real (of_int (difference (s.at sent)))) m refl refl refl)
      ∙ next_line _ _ m (recv_line (real recv_pkts) recv_pkts m recv_read)
      ∙ next_line _ _ (add_sent F recv_pkts m).0
          (other_line "Time:" (whole time) (add_sent F recv_pkts m).0 refl refl refl)
      ∙ for-stop _ _ (retx_line F) _ (percent_line r x (add_sent F recv_pkts m).0 read)

-- Where the script computes the two shares of the retransmissions, and float() reads the texts of the
-- received segments and of the first share back, each of them one word: whatever TIME_INT is, even
-- zero, a collector that reads the report which utils/print_retx_rate.py printed adds the received
-- segments to its sent packets and, unless it is negative, the share to its rates; it changes nothing
-- else and raises nothing.
pub retx_part-report :
    (F : Floats) (files : Files) (path : String) (time : ℤ) (s : State) (m : Metrics F)
    (v l : Value F) (x : F.Float)
    → percent F (difference (s.at retx)) (difference (s.at sent)) ≡ ok v
    → percent F (difference (s.at loss_retx)) (difference (s.at sent)) ≡ ok l
    → IsRead F v x
    → IsRead F (real (F.of_int (difference (s.at recv)))) (F.of_int (difference (s.at recv)))
    → files path ≡ some (lines_of F (report F time s []).0)
    → retx_part F files path m
      ≡ (kept F x (add_sent F (F.of_int (difference (s.at recv))) m).0, next)
unfolding retx_part
retx_part-report F files path time s m v l x ev el read recv_read file =
    let (tail, starts) = report-starts F time s v l ev el in
    rw (file, starts) (lines-kept F time s v l x tail m recv_read read)
