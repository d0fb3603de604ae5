-- ===== src/Retx.antt =====
-- utils/print_retx_rate.py: two snapshots of `netstat -s` and `ip -s link`, their differences and
-- rates. `step` is one round of the loop over the lines, `report` the prints behind it.
pub mod Snapshots
pub mod Links
pub mod Report
pub mod Asserted
mod Tests
use fast_and_safe_io_memory.Base.{
  ℕ, String, Bool, true, false, ◌&&◌, ◌||◌, not, Option, none, some, List, [], ◌∷◌, leb, ◌==◌, ◌=ₛ◌,
  if◌then◌else◌, ℤ, pos, negsuc, ◌-ℤ◌, is_minus_one, length, get_elem?,
}
use fast_and_safe_io_memory.Python.Exception.{
  Exception, Result, ok, raise, index_error, value_error, from_option, assert, ◌>>=◌, ◌>>◌,
}
use fast_and_safe_io_memory.Python.Text.{split}
use fast_and_safe_io_memory.Python.Number.{int}

-- the variables `x_pre` and `x_post`
pub record Counter : Type 0 where
  pub pre : ℤ
  pub post : ℤ

abbrev pub unset : Counter
unset = record { pre = negsuc 0; post = negsuc 0 }

-- `if x_pre == -1: x_pre = v` and `else: x_post = v`
pub observe : ℤ → Counter → Counter
observe v x = if is_minus_one x.pre then record x { pre = v } else record x { post = v }

-- the eight counters of `netstat -s`, in the order in which the loop tests for them
pub data Key : Type 0 where
  retx sent recv loss_retx ip_rx_pkts ip_tx_pkts ip_rx_bytes ip_tx_bytes : Key

abbrev key_index : Key → ℕ
key_index retx = 0
key_index sent = 1
key_index recv = 2
key_index loss_retx = 3
key_index ip_rx_pkts = 4
key_index ip_tx_pkts = 5
key_index ip_rx_bytes = 6
key_index ip_tx_bytes = 7

abbrev pub same_key : Key → Key → Bool
same_key j k = key_index j == key_index k

-- `rx_bytes` with `rx_pkts`, or `tx_bytes` with `tx_pkts`
pub record Link : Type 0 where
  pub bytes : Counter
  pub pkts : Counter

-- the test is on the bytes alone
pub observe_link : ℤ → ℤ → Link → Link
observe_link b p l =
    if is_minus_one l.bytes.pre
    then record {
      bytes = record { pre = b; post = l.bytes.post };
      pkts = record { pre = p; post = l.pkts.post };
    }
    else record {
      bytes = record { pre = l.bytes.pre; post = b };
      pkts = record { pre = l.pkts.pre; post = p };
    }

pub record State : Type 0 where
  pub at : Key → Counter
  pub rx : Link
  pub tx : Link
  pub next_is_rx : Bool
  pub next_is_tx : Bool

abbrev pub start : State
start = record {
  at = λ _. unset;
  rx = record { bytes = unset; pkts = unset };
  tx = record { bytes = unset; pkts = unset };
  next_is_rx = false;
  next_is_tx = false;
}

-- `words[i] == w`, behind the test on the length
pub word_is : ℕ → String → List String → Bool
word_is i w words = elim (get_elem? words i) [ none ↦ false | some v ↦ v =ₛ w ]

-- `int(line_str[i])`
pub int_at : List String → ℕ → Result ℤ
int_at words i = do t ← from_option index_error (get_elem? words i); from_option value_error (int t)

-- the test of each counter
pub matches : Key → List String → Bool
unfolding word_is
matches retx ws = leb 3 (length ws) && word_is 1 "segments" ws && word_is 2 "retransmitted" ws
matches sent ws = leb 3 (length ws) && word_is 1 "segments" ws && word_is 2 "sent" ws
matches recv ws = leb 3 (length ws) && word_is 1 "segments" ws && word_is 2 "received" ws
matches loss_retx ws = word_is 0 "TCPLostRetransmit:" ws
matches ip_rx_pkts ws =
    leb 4 (length ws) && word_is 1 "total" ws && word_is 2 "packets" ws && word_is 3 "received" ws
matches ip_tx_pkts ws =
    leb 4 (length ws) && word_is 1 "requests" ws && word_is 2 "sent" ws && word_is 3 "out" ws
matches ip_rx_bytes ws = word_is 0 "InOctets:" ws
matches ip_tx_bytes ws = word_is 0 "OutOctets:" ws

-- the word that holds the number
pub column : Key → ℕ
column retx = 0
column sent = 0
column recv = 0
column loss_retx = 1
column ip_rx_pkts = 0
column ip_tx_pkts = 0
column ip_rx_bytes = 1
column ip_tx_bytes = 1

pub count : Key → List String → State → Result State
count k ws s =
    if matches k ws
    then (do
      v ← int_at ws (column k)
      ok (record s { at = λ j. if same_key j k then observe v (s.at k) else s.at j }))
    else ok s

count_each : List Key → List String → State → Result State
count_each [] ws s = ok s
count_each (k ∷ ks) ws s = do s' ← count k ws s; count_each ks ws s'

abbrev all_keys : List Key
all_keys = retx ∷ sent ∷ recv ∷ loss_retx ∷ ip_rx_pkts ∷ ip_tx_pkts ∷ ip_rx_bytes ∷ ip_tx_bytes ∷ []

-- the data line behind an "RX:" or "TX:" header
rx_data : List String → State → Result State
rx_data ws s = do
  b ← int_at ws 0
  p ← int_at ws 1
  ok (record s { rx = observe_link b p s.rx; next_is_rx = false })

tx_data : List String → State → Result State
tx_data ws s = do
  b ← int_at ws 0
  p ← int_at ws 1
  ok (record s { tx = observe_link b p s.tx; next_is_tx = false })

-- one line, cut into words
pub step : List String → State → Result State
step [] s = ok (record s { next_is_rx = false; next_is_tx = false })
step (w ∷ ws) s =
    if s.next_is_rx
    then rx_data (w ∷ ws) s
    else if s.next_is_tx
    then tx_data (w ∷ ws) s
    else if w =ₛ "RX:"
    then ok (record s { next_is_rx = true })
    else if w =ₛ "TX:"
    then ok (record s { next_is_tx = true })
    else count_each all_keys (w ∷ ws) s

-- the loop over the lines
pub scan : List (List String) → State → Result State
scan [] s = ok s
scan (ws ∷ rest) s = do s' ← step ws s; scan rest s'

pub words : List String → List (List String)
words [] = []
words (l ∷ ls) = split l ∷ words ls

pub is_set : ℤ → Bool
is_set v = not (is_minus_one v)

-- the six assertions behind the loop
pub asserted : State → Result (Unit {0})
unfolding is_set
asserted s = do
  assert (is_set (s.at retx).pre)
  assert (is_set (s.at retx).post)
  assert (is_set (s.at sent).pre)
  assert (is_set (s.at sent).post)
  assert (is_set (s.at recv).pre)
  assert (is_set (s.at recv).post)

-- the script up to its first print
pub read_snapshots : List String → Result State
unfolding asserted
read_snapshots lines = do s ← scan (words lines) start; asserted s; ok s
