-- ===== src/Retx/Report/Lines.antt =====
-- What utils/print_retx_rate.py prints, line by line, as a function of what its loop has found.
use fast_and_safe_io_memory.Base.{
  String, Bool, true, false, ◌&&◌, not, [], ◌∷◌, ◌++◌, append_assoc, append-nil, ◌≡◌, refl, ℤ, pos,
  ◌-ℤ◌, is_minus_one, if◌then◌else◌, Bool-cases, inl, inr,
}
use fast_and_safe_io_memory.Python.Exception.{ok, zero_division}
use fast_and_safe_io_memory.Python.Floats.{Floats}
use fast_and_safe_io_memory.Python.Statement.{Statement, next, raise, when, ◌>>◌}
use fast_and_safe_io_memory.Retx.{
  Counter, Link, State, is_set, retx, sent, recv, loss_retx, ip_rx_pkts, ip_tx_pkts, ip_rx_bytes,
  ip_tx_bytes,
}
use fast_and_safe_io_memory.Retx.Report.{
  Value, whole, real, Output, difference, both_set, print, print_rate, percent, tcp_part, ip_part,
  link_part, report,
}

-- the last value less the first
abbrev pub change : Counter → ℤ
change c = c.post -ℤ c.pre

-- neither value is the initial -1
abbrev pub found : Counter → Bool
found c = not (is_minus_one c.pre) && not (is_minus_one c.post)

module _ (F : Floats) where
  open F use {Float, of_int, is_zero, lt, mul, div}

  -- lines that are printed on a condition
  abbrev pub part : Bool → Output F → Output F
  part b ls = if b then ls else []

  -- a share in percent, 0 where nothing was sent
  abbrev pub share : ℤ → ℤ → Value F
  share n t =
      if lt (of_int (pos 0)) (of_int t)
      then real (mul (div (of_int n) (of_int t)) (of_int (pos 100)))
      else whole (pos 0)

  module _ (time : ℤ) where
    abbrev pub rate : ℤ → Value F
    rate n = real (div (of_int n) (of_int time))

    abbrev pub first_lines : State → Output F
    first_lines s =
        ("Retx: ", real (of_int (change (s.at retx))))
        ∷ ("Loss_retx: ", real (of_int (change (s.at loss_retx))))
        ∷ ("Sent: ", real (of_int (change (s.at sent))))
        ∷ ("Recv: ", real (of_int (change (s.at recv))))
        ∷ ("Time: ", whole time)
        ∷ ("Retx_percent: ", share (change (s.at retx)) (change (s.at sent)))
        ∷ ("Loss_retx_percent:", share (change (s.at loss_retx)) (change (s.at sent)))
        ∷ []

    abbrev pub tcp_lines : State → Output F
    tcp_lines s =
        first_lines s
        ++ (("Send_rate: ", rate (change (s.at sent)))
            ∷ ("Recv_rate: ", rate (change (s.at recv)))
            ∷ [])

    abbrev pub ip_lines : String → String → Counter → Output F
    ip_lines l r c = part (found c) ((l, whole (change c)) ∷ (r, rate (change c)) ∷ [])

    abbrev pub link_lines : (a b c d : String) → Link → Output F
    link_lines a b c d l = part (found l.bytes) (
        (a, whole (change l.bytes))
        ∷ (b, whole (change l.pkts))
        ∷ (c, rate (change l.bytes))
        ∷ (d, rate (change l.pkts))
        ∷ [])

    unfoldable pub expected_lines : State → Output F
    expected_lines s =
        tcp_lines s
        ++ (ip_lines "IP_RX_packets: " "IP_RX_packet_rate: " (s.at ip_rx_pkts)
            ++ (ip_lines "IP_TX_packets: " "IP_TX_packet_rate: " (s.at ip_tx_pkts)
                ++ (ip_lines "IP_RX_bytes: " "IP_RX_byte_rate: " (s.at ip_rx_bytes)
                    ++ (ip_lines "IP_TX_bytes: " "IP_TX_byte_rate: " (s.at ip_tx_bytes)
                        ++ (link_lines "Link_RX_bytes: " "Link_RX_packets: " "Link_RX_byte_rate: "
                              "Link_RX_packet_rate: " s.rx
                            ++ link_lines "Link_TX_bytes: " "Link_TX_packets: "
                                "Link_TX_byte_rate: " "Link_TX_packet_rate: " s.tx)))))

  -- `m` runs through and prints these lines
  abbrev Writes : Statement (Output F) → Output F → Type 0
  Writes m ls = (out : Output F) → m out ≡ (out ++ ls, next)

  >>-Writes :
      (m k : Statement (Output F)) {ls ks : Output F}
      → Writes m ls
      → Writes k ks
      → Writes (m >> k) (ls ++ ks)
  unfolding ◌>>◌
  >>-Writes m k {ls} {ks} hm hk out = rw (hm out, hk (out ++ ls), append_assoc out ls ks) refl

  print-Writes : (l : String) (v : Value F) → Writes (print F l v) ((l, v) ∷ [])
  unfolding print
  print-Writes l v out = refl

  when-Writes :
      (b : Bool) (m : Statement (Output F)) {ls : Output F}
      → Writes m ls
      → Writes (when b m) (part b ls)
  when-Writes true m h out = h out
  when-Writes false m h out = rw (append-nil out) refl

  percent-share :
      ((x : Float) → lt (of_int (pos 0)) x ≡ true → is_zero x ≡ false)
      → (n t : ℤ) → percent F n t ≡ ok (share n t)
  unfolding percent
  percent-share positive n t = elim (Bool-cases (lt (of_int (pos 0)) (of_int t))) [
    | inl sends ↦ rw (sends, positive (of_int t) sends) refl
    | inr idle ↦ rw (idle) refl
  ]

  module _ (time : ℤ) (runs : is_zero (of_int time) ≡ false) where
    rate-Writes : (l : String) (n : ℤ) → Writes (print_rate F l n time) ((l, rate time n) ∷ [])
    unfolding print_rate
    rate-Writes l n = rw runs (print-Writes l _)

    ip-Writes : (l r : String) (c : Counter) → Writes (ip_part F l r time c) (ip_lines time l r c)
    unfolding ip_part both_set is_set difference
    ip-Writes l r c =
        when-Writes (found c) _ (>>-Writes _ _ (print-Writes l _) (rate-Writes r (change c)))

    link-Writes :
        (a b c d : String) (l : Link)
        → Writes (link_part F a b c d time l) (link_lines time a b c d l)
    unfolding link_part both_set is_set difference
    link-Writes a b c d l = when-Writes (found l.bytes) _ (
        >>-Writes _ _ (print-Writes a _) (
          >>-Writes _ _ (print-Writes b _)
            (>>-Writes _ _ (rate-Writes c (change l.bytes)) (rate-Writes d (change l.pkts)))))

    module _ (positive : (x : Float) → lt (of_int (pos 0)) x ≡ true → is_zero x ≡ false) where
      tcp-Writes : (s : State) → Writes (tcp_part F time s) (tcp_lines time s)
      unfolding tcp_part difference
      tcp-Writes s =
          rw
            (
              percent-share positive (change (s.at retx)) (change (s.at sent)),
              percent-share positive (change (s.at loss_retx)) (change (s.at sent)),
            )
            (>>-Writes _ _ (print-Writes _ _) (
              >>-Writes _ _ (print-Writes _ _) (
                >>-Writes _ _ (print-Writes _ _) (
                  >>-Writes _ _ (print-Writes _ _) (
                    >>-Writes _ _ (print-Writes _ _) (
                      >>-Writes _ _ (print-Writes _ _) (
                        >>-Writes _ _ (print-Writes _ _) (
                          >>-Writes _ _ (rate-Writes _ (change (s.at sent)))
                            (rate-Writes _ (change (s.at recv)))))))))))

      report-Writes : (s : State) → Writes (report F time s) (expected_lines time s)
      unfolding report expected_lines
      report-Writes s = >>-Writes _ _ (tcp-Writes s) (
          >>-Writes _ _ (ip-Writes _ _ (s.at ip_rx_pkts)) (
            >>-Writes _ _ (ip-Writes _ _ (s.at ip_tx_pkts)) (
              >>-Writes _ _ (ip-Writes _ _ (s.at ip_rx_bytes)) (
                >>-Writes _ _ (ip-Writes _ _ (s.at ip_tx_bytes))
                  (>>-Writes _ _ (link-Writes _ _ _ _ s.rx) (link-Writes _ _ _ _ s.tx))))))

-- Where TIME_INT is not zero, and a positive number is not zero, the script prints to its end, and what
-- it prints is, in this order and with these values: nine lines on TCP; for each of the four IP
-- counters its difference and its rate, exactly when both its snapshots were found; for each side of
-- the link the differences of bytes and packets and their rates, exactly when both snapshots of the
-- bytes were found.
pub report-lines :
    (F : Floats) (time : ℤ) (s : State)
    → F.is_zero (F.of_int time) ≡ false
    → ((x : F.Float) → F.lt (F.of_int (pos 0)) x ≡ true → F.is_zero x ≡ false)
    → report F time s [] ≡ (expected_lines F time s, next)
report-lines F time s runs positive = report-Writes F time runs positive s []

-- Where TIME_INT is zero, the script prints the seven lines before the first rate, whatever the
-- counters are, and then raises a ZeroDivisionError.
pub report_no_time :
    (F : Floats) (time : ℤ) (s : State)
    → F.is_zero (F.of_int time) ≡ true
    → ((x : F.Float) → F.lt (F.of_int (pos 0)) x ≡ true → F.is_zero x ≡ false)
    → report F time s [] ≡ (first_lines F time s, raise zero_division)
unfolding report tcp_part print print_rate difference ◌>>◌
report_no_time F time s zero_time positive =
    rw
      (
        percent-share F positive (change (s.at retx)) (change (s.at sent)),
        percent-share F positive (change (s.at loss_retx)) (change (s.at sent)),
        zero_time,
      )
      refl
