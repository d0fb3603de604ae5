-- ===== src/TcpLog.antt =====
-- utils/parse_tcplog.py: the records of the `tcp_probe` lines of a trace, and the CSV file that they
-- are written to.
pub mod Fields
pub mod Values
pub mod Columns
mod Tests
use fast_and_safe_io_memory.Base.{
  ℕ, ltb, String, ◌<>◌, Bool, true, false, not, ◌&&◌, ◌||◌, Option, none, some, List, [], ◌∷◌, ◌++◌,
  map, ℤ, length, get_elem?, ◌=ₛ◌, starts_with, if◌then◌else◌,
}
use fast_and_safe_io_memory.Python.Exception.{
  Result, ok, raise, index_error, value_error, assertion_error, from_option, assert, ◌>>=◌, ◌>>◌,
}
use fast_and_safe_io_memory.Python.Text.{
  split, contains, member, strip_right, strip_brackets, after_first, cut_last,
}
use fast_and_safe_io_memory.Python.Number.{int, int_auto}
use fast_and_safe_io_memory.Python.Floats.{Floats, float}
use fast_and_safe_io_memory.Python.Dict.{Dict, get, put, text_key}

-- what a record holds under a key
pub data Value (F : Floats) : Type 0 where
  real : F.Float → Value F
  text : String → Value F
  whole : ℤ → Value F

abbrev pub Record : Floats → Type 0
Record F = Dict String (Value F)

-- the test on a line
pub is_probe : String → Bool
is_probe line = not (starts_with line "#" || not (contains line "tcp_probe:"))

-- `get_val(key)`
unfoldable pub get_val : List String → String → Option String
get_val [] key = none
get_val (t ∷ ts) key =
    let later = get_val ts key in if starts_with t (key <> "=") then after_first b'=' t else later

-- a value that is there and not empty
abbrev filled : Option String → Option String
filled none = none
filled (some v) = if v =ₛ "" then none else some v

module _ (F : Floats) where
  -- the address and the port of one end
  pub put_end : String → String → Record F → Result (Record F)
  put_end end val r = do
    parts ← from_option value_error (cut_last b':' (strip_brackets val))
    port ← from_option value_error (int parts.1)
    ok (put (end <> "_port") (whole port) (put (end <> "_ip") (text parts.0) r))

  -- `for end in ('src','dest'):` a missing end breaks the loop
  pub put_ends : List String → List String → Record F → Result (Record F)
  put_ends tokens [] r = ok r
  put_ends tokens (end ∷ ends) r = elim (filled (get_val tokens end)) [
    | none ↦ ok r
    | some val ↦ do r' ← put_end end val r; put_ends tokens ends r'
  ]

  -- `for key in ('snd_nxt', …):` a missing key is passed over
  pub put_keys : List String → List String → Record F → Result (Record F)
  put_keys tokens [] r = ok r
  put_keys tokens (key ∷ keys) r = elim (get_val tokens key) [
    | none ↦ put_keys tokens keys r
    | some val ↦ do
      n ← from_option value_error (int_auto val)
      put_keys tokens keys (put key (whole n) r)
  ]

abbrev pub ends : List String
ends = "src" ∷ "dest" ∷ []

abbrev pub counters : List String
counters = "snd_nxt" ∷ "snd_una" ∷ "snd_cwnd" ∷ "ssthresh" ∷ "snd_wnd" ∷ "srtt" ∷ "rcv_wnd" ∷ []

module _ (F : Floats) where
  -- the record of a probe line
  pub parse_tokens : List String → Result (Record F)
  parse_tokens tokens = do
    ts ← from_option index_error (get_elem? tokens 3)
    time ← float F (strip_right b':' ts)
    r ← put_ends F tokens ends (("time_s", real time) ∷ [])
    put_keys F tokens counters r

  -- the loop over the lines
  pub read_log : List String → Result (List (Record F))
  read_log [] = ok []
  read_log (l ∷ ls) =
      if is_probe l
      then (do r ← parse_tokens (split l); rs ← read_log ls; ok (r ∷ rs))
      else read_log ls

  pub keys : Record F → List String
  keys [] = []
  keys ((k, _) ∷ r) = k ∷ keys r

  pub all_in : List String → List String → Bool
  all_in columns [] = true
  all_in columns (k ∷ ks) = member k columns && all_in columns ks

  -- one row: a missing key is an empty cell
  pub cells : Record F → List String → List (Option (Value F))
  cells r [] = []
  cells r (c ∷ cs) = get c r ∷ cells r cs

  -- `writer.writerow(data)`: a key that is no column is a ValueError
  pub write_row : List String → Record F → Result (List (Option (Value F)))
  write_row columns r = if all_in columns (keys r) then ok (cells r columns) else raise value_error

  pub write_rows : List String → List (Record F) → Result (List (List (Option (Value F))))
  write_rows columns [] = ok []
  write_rows columns (r ∷ rs) = do
    row ← write_row columns r
    rows ← write_rows columns rs
    ok (row ∷ rows)

  -- the columns are the keys of the first record
  pub write_csv : List (Record F) → Result (List String × List (List (Option (Value F))))
  write_csv [] = raise assertion_error
  write_csv (r ∷ rs) = do rows ← write_rows (keys r) (r ∷ rs); ok (keys r, rows)

  pub main : List String → Result (List String × List (List (Option (Value F))))
  main lines = do records ← read_log lines; write_csv records
