-- ===== src/Retx/Report.antt =====
-- The prints of utils/print_retx_rate.py, behind its loop.
pub mod Lines
pub mod Printed
pub mod Starts
use fast_and_safe_io_memory.Base.{
  String, Bool, true, false, ◌&&◌, List, [], ◌∷◌, ◌++◌, ℤ, pos, negsuc, ◌-ℤ◌, is_minus_one,
  if◌then◌else◌,
}
use fast_and_safe_io_memory.Python.Exception
use fast_and_safe_io_memory.Python.Exception.{Result, ok}
use fast_and_safe_io_memory.Python.Floats.{Floats, true_div}
use fast_and_safe_io_memory.Python.Statement.{Statement, Flow, next, raise, pass, when, ◌>>◌, ◌>>=◌}
use fast_and_safe_io_memory.Retx.{
  Counter, Key, Link, State, is_set, retx, sent, recv, loss_retx, ip_rx_pkts, ip_tx_pkts,
  ip_rx_bytes, ip_tx_bytes,
}

-- what a print shows behind its label
pub data Value (F : Floats) : Type 0 where
  whole : ℤ → Value F
  real : F.Float → Value F

abbrev pub Output : Floats → Type 0
Output F = List (String × Value F)

unfoldable pub difference : Counter → ℤ
difference c = c.post -ℤ c.pre

-- `pre != -1 and post != -1`
pub both_set : Counter → Bool
unfolding is_set
both_set c = is_set c.pre && is_set c.post

module _ (F : Floats) where
  open F use {of_int, mul, lt}

  pub print : String → Value F → Statement (Output F)
  print label v out = (out ++ (label, v) ∷ [], next)

  -- `float(n) / TIME_INT`
  pub print_rate : String → ℤ → ℤ → Statement (Output F)
  print_rate label n time = do r ← true_div F (of_int n) (of_int time); print label (real r)

  -- a counter's share of the sent segments, in percent
  unfoldable pub percent : ℤ → ℤ → Result (Value F)
  percent n sent_pkts =
      if lt (of_int (pos 0)) (of_int sent_pkts)
      then Exception.◌>>=◌ (true_div F (of_int n) (of_int sent_pkts))
          (λ r. ok (real (mul r (of_int (pos 100)))))
      else ok (whole (pos 0))

  pub tcp_part : ℤ → State → Statement (Output F)
  tcp_part time s = do
    retx_rate ← percent (difference (s.at retx)) (difference (s.at sent))
    loss_retx_rate ← percent (difference (s.at loss_retx)) (difference (s.at sent))
    print "Retx: " (real (of_int (difference (s.at retx))))
    print "Loss_retx: " (real (of_int (difference (s.at loss_retx))))
    print "Sent: " (real (of_int (difference (s.at sent))))
    print "Recv: " (real (of_int (difference (s.at recv))))
    print "Time: " (whole time)
    print "Retx_percent: " retx_rate
    print "Loss_retx_percent:" loss_retx_rate
    print_rate "Send_rate: " (difference (s.at sent)) time
    print_rate "Recv_rate: " (difference (s.at recv)) time

  -- one of the four optional IP parts
  pub ip_part : String → String → ℤ → Counter → Statement (Output F)
  ip_part label rate_label time c =
      when (both_set c)
        (do print label (whole (difference c)); print_rate rate_label (difference c) time)

  -- one of the two optional link parts
  pub link_part : String → String → String → String → ℤ → Link → Statement (Output F)
  link_part bytes_label pkts_label byte_rate pkt_rate time l = when (both_set l.bytes) (do
    print bytes_label (whole (difference l.bytes))
    print pkts_label (whole (difference l.pkts))
    print_rate byte_rate (difference l.bytes) time
    print_rate pkt_rate (difference l.pkts) time)

  pub report : ℤ → State → Statement (Output F)
  report time s = do
    tcp_part time s
    ip_part "IP_RX_packets: " "IP_RX_packet_rate: " time (s.at ip_rx_pkts)
    ip_part "IP_TX_packets: " "IP_TX_packet_rate: " time (s.at ip_tx_pkts)
    ip_part "IP_RX_bytes: " "IP_RX_byte_rate: " time (s.at ip_rx_bytes)
    ip_part "IP_TX_bytes: " "IP_TX_byte_rate: " time (s.at ip_tx_bytes)
    link_part "Link_RX_bytes: " "Link_RX_packets: " "Link_RX_byte_rate: " "Link_RX_packet_rate: "
        time s.rx
    link_part "Link_TX_bytes: " "Link_TX_packets: " "Link_TX_byte_rate: " "Link_TX_packet_rate: "
        time s.tx
