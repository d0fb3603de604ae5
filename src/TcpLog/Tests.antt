-- ===== src/TcpLog/Tests.antt =====
-- Runs of utils/parse_tcplog.py on small traces, and instances of what is proved of it.
use fast_and_safe_io_memory.Base.{
  String, true, List, [], ◌∷◌, map, ◌≡◌, refl, pos, ◌-ℤ◌, ◌+ℤ◌, eq_ℤ,
}
use fast_and_safe_io_memory.Python.Exception.{ok, raise, error_of, value_error}
use fast_and_safe_io_memory.Python.Text.{
  split, contains, member, strip_right, strip_brackets, after_first, cut_last,
}
use fast_and_safe_io_memory.Python.Number.{int, int_auto}
use fast_and_safe_io_memory.Python.Floats.Whole.{whole_floats}
use fast_and_safe_io_memory.Python.Dict.{get, put, text_key}
use fast_and_safe_io_memory.TcpLog.{
  real, text, whole, Record, is_probe, get_val, put_end, put_ends, put_keys, parse_tokens, read_log,
  keys, all_in, cells, write_row, write_rows, write_csv, main, counters,
}
use fast_and_safe_io_memory.TcpLog.Fields.{columns_of, parse_tokens-keys}
use fast_and_safe_io_memory.TcpLog.Values.{number, parse_tokens-counters}
use fast_and_safe_io_memory.TcpLog.Columns.{
  log_columns, all_columns, csv_error, or_else, main-csv_error, main_complete,
}

abbrev first_line : String
first_line =
    "app-1 [000] ..s. 12: tcp_probe: src=[10.0.0.1]:80 dest=10.0.0.2:5001 snd_nxt=0x10 snd_una=2 snd_cwnd=3 ssthresh=4 snd_wnd=5 srtt=6 rcv_wnd=7\n"

-- a line without its source
abbrev short_line : String
short_line = "app-1 [000] ..s. 13: tcp_probe: dest=10.0.0.2:5001 srtt=8\n"

abbrev trace : List String
trace = "# tracer: nop\n" ∷ first_line ∷ "other: 1\n" ∷ short_line ∷ []

abbrev first_record : Record whole_floats
first_record =
    ("time_s", real (pos 12))
    ∷ ("src_ip", text "10.0.0.1]")
    ∷ ("src_port", whole (pos 80))
    ∷ ("dest_ip", text "10.0.0.2")
    ∷ ("dest_port", whole (pos 5001))
    ∷ ("snd_nxt", whole (pos 16))
    ∷ ("snd_una", whole (pos 2))
    ∷ ("snd_cwnd", whole (pos 3))
    ∷ ("ssthresh", whole (pos 4))
    ∷ ("snd_wnd", whole (pos 5))
    ∷ ("srtt", whole (pos 6))
    ∷ ("rcv_wnd", whole (pos 7))
    ∷ []

abbrev short_record : Record whole_floats
short_record = ("time_s", real (pos 13)) ∷ ("srtt", whole (pos 8)) ∷ []

short_tokens : parse_tokens whole_floats (split short_line) ≡ ok short_record
unfolding parse_tokens split put_ends put_end put_keys get_val strip_right strip_brackets
    after_first cut_last int int_auto put eq_ℤ ◌+ℤ◌ ◌-ℤ◌
short_tokens = refl

trace_read : read_log whole_floats trace ≡ ok (first_record ∷ short_record ∷ [])
unfolding read_log is_probe contains parse_tokens split put_ends put_end put_keys get_val
    strip_right strip_brackets after_first cut_last int int_auto put eq_ℤ ◌+ℤ◌ ◌-ℤ◌
trace_read = refl

-- the first line's keys are the columns: a later line with more of them ends the script
swapped_trace : main whole_floats (short_line ∷ first_line ∷ []) ≡ raise value_error
unfolding main write_csv write_rows write_row all_in keys member read_log is_probe contains
    parse_tokens split put_ends put_end put_keys get_val strip_right strip_brackets after_first
    cut_last int int_auto put eq_ℤ ◌+ℤ◌ ◌-ℤ◌
swapped_trace = refl

srtt_known : member "srtt" counters ≡ true
unfolding member
srtt_known = refl

parse_tokens-keys_example : keys whole_floats short_record ≡ columns_of (split short_line)
parse_tokens-keys_example =
    parse_tokens-keys whole_floats (split short_line) short_record short_tokens

parse_tokens-counters_example :
    get "srtt" short_record ≡ number whole_floats (get_val (split short_line) "srtt")
parse_tokens-counters_example =
    parse_tokens-counters whole_floats (split short_line) short_record "srtt" short_tokens
      srtt_known

main-csv_error_example :
    error_of (main whole_floats (short_line ∷ first_line ∷ []))
    ≡ or_else whole_floats
        (error_of (read_log whole_floats (short_line ∷ first_line ∷ [])))
        (csv_error whole_floats (log_columns (short_line ∷ first_line ∷ [])))
main-csv_error_example = main-csv_error whole_floats (short_line ∷ first_line ∷ [])

main_complete_example :
    main whole_floats trace
    ≡ ok (
      all_columns,
      map (λ r. cells whole_floats r all_columns) (first_record ∷ short_record ∷ []),
    )
main_complete_example =
    main_complete whole_floats trace first_record (short_record ∷ []) trace_read
      (unfold keys in refl)
