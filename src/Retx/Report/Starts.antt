-- ===== src/Retx/Report/Starts.antt =====
-- The first lines of the report of utils/print_retx_rate.py, which depend on no later step.
use fast_and_safe_io_memory.Base.{
  String, Bool, true, false, [], ◌∷◌, ◌++◌, append_assoc, append-nil, ◌≡◌, refl, sym, ap, ◌∙◌, ℤ,
}
use fast_and_safe_io_memory.Python.Exception
use fast_and_safe_io_memory.Python.Exception.{Result, ok}
use fast_and_safe_io_memory.Python.Floats.{Floats, true_div}
use fast_and_safe_io_memory.Python.Statement.{
  Statement, Flow, next, stop, raise, after, when, ◌>>◌, ◌>>=◌,
}
use fast_and_safe_io_memory.Retx.{
  Counter, Link, State, retx, sent, recv, loss_retx, ip_rx_pkts, ip_tx_pkts, ip_rx_bytes,
  ip_tx_bytes,
}
use fast_and_safe_io_memory.Retx.Report.{
  Value, whole, real, Output, difference, both_set, print, print_rate, percent, tcp_part, ip_part,
  link_part, report,
}

module _ (F : Floats) where
  open F use {of_int}

  -- what was printed stays
  abbrev Extends : Statement (Output F) → Type 0
  Extends m = (out : Output F) → (tail : Output F) × ((m out).0 ≡ out ++ tail)

  after-Extends : (f : Flow) (k : Statement (Output F)) → Extends k → Extends (after f k)
  after-Extends next k h out = h out
  after-Extends stop k h out = ([], sym (append-nil out))
  after-Extends (raise e) k h out = ([], sym (append-nil out))

  >>-Extends : (m k : Statement (Output F)) → Extends m → Extends k → Extends (m >> k)
  unfolding ◌>>◌
  >>-Extends m k hm hk out =
      let (a, ea) = hm out in
      let (b, eb) = after-Extends (m out).1 k hk (m out).0 in
      (a ++ b, eb ∙ ap (λ o. o ++ b) ea ∙ append_assoc out a b)

  print-Extends : (l : String) (v : Value F) → Extends (print F l v)
  unfolding print
  print-Extends l v out = ((l, v) ∷ [], refl)

  bind-Extends {ℓ} :
      {A : Type ℓ} (r : Result A) (k : A → Statement (Output F))
      → ((a : A) → Extends (k a))
      → Extends (r >>= k)
  bind-Extends (ok a) k h out = h a out
  bind-Extends (Exception.raise e) k h out = ([], sym (append-nil out))

  when-Extends : (b : Bool) (m : Statement (Output F)) → Extends m → Extends (when b m)
  when-Extends true m h out = h out
  when-Extends false m h out = ([], sym (append-nil out))

  rate-Extends : (l : String) (n time : ℤ) → Extends (print_rate F l n time)
  unfolding print_rate
  rate-Extends l n time =
      bind-Extends (true_div F (of_int n) (of_int time)) _ λ r. print-Extends l _

  ip-Extends : (l r : String) (time : ℤ) (c : Counter) → Extends (ip_part F l r time c)
  unfolding ip_part
  ip-Extends l r time c =
      when-Extends (both_set c) _ (>>-Extends _ _ (print-Extends l _) (rate-Extends r _ time))

  link-Extends : (a b c d : String) (time : ℤ) (l : Link) → Extends (link_part F a b c d time l)
  unfolding link_part
  link-Extends a b c d time l = when-Extends (both_set l.bytes) _ (
      >>-Extends _ _ (print-Extends a _) (
        >>-Extends _ _ (print-Extends b _)
          (>>-Extends _ _ (rate-Extends c _ time) (rate-Extends d _ time))))

  -- the lines before the first rate
  abbrev pub first_lines : ℤ → State → Value F → Value F → Output F
  first_lines time s r l =
      ("Retx: ", real (of_int (difference (s.at retx))))
      ∷ ("Loss_retx: ", real (of_int (difference (s.at loss_retx))))
      ∷ ("Sent: ", real (of_int (difference (s.at sent))))
      ∷ ("Recv: ", real (of_int (difference (s.at recv))))
      ∷ ("Time: ", whole time)
      ∷ ("Retx_percent: ", r)
      ∷ ("Loss_retx_percent:", l)
      ∷ []

  tcp_part-starts :
      (time : ℤ) (s : State) (r l : Value F)
      → percent F (difference (s.at retx)) (difference (s.at sent)) ≡ ok r
      → percent F (difference (s.at loss_retx)) (difference (s.at sent)) ≡ ok l
      → (tail : Output F) × ((tcp_part F time s []).0 ≡ first_lines time s r l ++ tail)
  unfolding tcp_part print ◌>>◌
  tcp_part-starts time s r l hr hl =
      rw (hr, hl)
        (>>-Extends (print_rate F "Send_rate: " (difference (s.at sent)) time)
          (print_rate F "Recv_rate: " (difference (s.at recv)) time)
          (rate-Extends "Send_rate: " (difference (s.at sent)) time)
          (rate-Extends "Recv_rate: " (difference (s.at recv)) time) (first_lines time s r l))

  -- the report behind its first part
  abbrev other_parts : ℤ → State → Statement (Output F)
  other_parts time s = do
    ip_part F "IP_RX_packets: " "IP_RX_packet_rate: " time (s.at ip_rx_pkts)
    ip_part F "IP_TX_packets: " "IP_TX_packet_rate: " time (s.at ip_tx_pkts)
    ip_part F "IP_RX_bytes: " "IP_RX_byte_rate: " time (s.at ip_rx_bytes)
    ip_part F "IP_TX_bytes: " "IP_TX_byte_rate: " time (s.at ip_tx_bytes)
    link_part F "Link_RX_bytes: " "Link_RX_packets: " "Link_RX_byte_rate: " "Link_RX_packet_rate: "
        time s.rx
    link_part F "Link_TX_bytes: " "Link_TX_packets: " "Link_TX_byte_rate: " "Link_TX_packet_rate: "
        time s.tx

  other_parts-Extends : (time : ℤ) (s : State) → Extends (other_parts time s)
  other_parts-Extends time s =
      >>-Extends _ _ (ip-Extends "IP_RX_packets: " "IP_RX_packet_rate: " time (s.at ip_rx_pkts)) (
        >>-Extends _ _ (ip-Extends "IP_TX_packets: " "IP_TX_packet_rate: " time (s.at ip_tx_pkts)) (
          >>-Extends _ _ (ip-Extends "IP_RX_bytes: " "IP_RX_byte_rate: " time (s.at ip_rx_bytes)) (
            >>-Extends _ _ (ip-Extends "IP_TX_bytes: " "IP_TX_byte_rate: " time (s.at ip_tx_bytes))
              (>>-Extends _ _ (link-Extends _ _ _ _ time s.rx) (link-Extends _ _ _ _ time s.tx)))))

  -- Whatever TIME_INT is, the report starts with the seven lines.
  pub report-starts :
      (time : ℤ) (s : State) (r l : Value F)
      → percent F (difference (s.at retx)) (difference (s.at sent)) ≡ ok r
      → percent F (difference (s.at loss_retx)) (difference (s.at sent)) ≡ ok l
      → (tail : Output F) × ((report F time s []).0 ≡ first_lines time s r l ++ tail)
  unfolding report ◌>>◌
  report-starts time s r l hr hl =
      let (a, ea) = tcp_part-starts time s r l hr hl in
      let (b, eb) =
        after-Extends (tcp_part F time s []).1 (other_parts time s) (other_parts-Extends time s)
          (tcp_part F time s []).0 in
      (a ++ b, eb ∙ ap (λ o. o ++ b) ea ∙ append_assoc (first_lines time s r l) a b)
