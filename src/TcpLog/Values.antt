-- ===== src/TcpLog/Values.antt =====
-- The values of a record of utils/parse_tcplog.py, against the tokens of its line.
use fast_and_safe_io_memory.Base.{
  String, true, false, Option, none, some, List, [], ◌∷◌, ◌≡◌, refl, sym, ap, ◌∙◌, arith, ℤ, eq_iff,
  if◌then◌else◌, Option-cases, inl, inr, get_elem?,
}
use fast_and_safe_io_memory.Python.Exception.{
  Result, ok, index_error, value_error, from_option, ok-injective, ◌>>=◌, >>=-ok, from_option-ok,
}
use fast_and_safe_io_memory.Python.Text.{member, strip_right}
use fast_and_safe_io_memory.Python.Number.{int_auto}
use fast_and_safe_io_memory.Python.Floats.{Floats, float}
use fast_and_safe_io_memory.Python.Dict.{get, put, get-put, text_key}
use fast_and_safe_io_memory.TcpLog.{
  Value, real, whole, Record, get_val, put_ends, put_keys, ends, counters, parse_tokens, keys,
}
use fast_and_safe_io_memory.TcpLog.Fields.{shown_ends, fresh, fresh-ends, put_ends-keys}

module _ (F : Floats) where
  -- the number behind a counter's name
  abbrev pub number : Option String → Option (Value F)
  number none = none
  number (some v) = elim (int_auto v) [ none ↦ none | some n ↦ some (whole n) ]

  -- what a line shows under a key, of the keys that are looked for
  abbrev shown_number : List String → List String → String → Option (Value F)
  shown_number tokens ks c = if member c ks then number (get_val tokens c) else none

  abbrev or_else : Option (Value F) → Option (Value F) → Option (Value F)
  or_else none d = d
  or_else (some v) d = some v

  put_keys-step :
      (tokens ks : List String) (k c val : String) (n : ℤ) (r : Record F)
      → get_val tokens k ≡ some val
      → int_auto val ≡ some n
      → or_else (shown_number tokens ks c) (get c (put k (whole n) r))
        ≡ or_else (shown_number tokens (k ∷ ks) c) (get c r)
  unfolding member
  put_keys-step tokens ks k c val n r found read =
      ground (arith, get-put k c (whole n) r, eq_iff k c, found, read)

  put_keys-get :
      (tokens ks : List String) (c : String) (r r' : Record F)
      → put_keys F tokens ks r ≡ ok r'
      → get c r' ≡ or_else (shown_number tokens ks c) (get c r)
  unfolding put_keys member
  put_keys-get tokens [] c r r' e = ap (get c) (sym (ok-injective r r' e))
  put_keys-get tokens (k ∷ ks) c r r' e = elim (Option-cases (get_val tokens k)) [
    | inl missing ↦
        let same : put_keys F tokens (k ∷ ks) r ≡ put_keys F tokens ks r =
          rw (put_keys, missing) refl in
        ground (arith, put_keys-get tokens ks c r r' (sym same ∙ e), eq_iff k c, missing)
    | inr (val, found) ↦
        let rest : ℤ → Result (Record F) = λ n. put_keys F tokens ks (put k (whole n) r) in
        let same : put_keys F tokens (k ∷ ks) r
            ≡ (from_option value_error (int_auto val) >>= rest) =
          rw (put_keys, found) refl in
        let (n, read, e1) = >>=-ok (from_option value_error (int_auto val)) rest (sym same ∙ e) in
        put_keys-get tokens ks c (put k (whole n) r) r' e1
        ∙ put_keys-step tokens ks k c val n r found
            (from_option-ok (int_auto val) value_error n read)
  ]

  fresh-member :
      (ks xs : List String) (c : String)
      → fresh ks xs ≡ true
      → member c ks ≡ true
      → member c xs ≡ false
  unfolding member
  fresh-member [] xs c f m = cc
  fresh-member (k ∷ ks) xs c f m = ground (arith, fresh-member ks xs c, eq_iff k c)

  get-not_member : (c : String) (r : Record F) → member c (keys F r) ≡ false → get c r ≡ none
  unfolding member keys get
  get-not_member c [] m = refl
  get-not_member c ((k, v) ∷ r) m = ground (arith, get-not_member c r)

-- If the tokens of a probe line give a record, then each of the seven counters stands in it as the
-- number that the first token `counter=number` shows, and is missing from it if no token does.
pub parse_tokens-counters :
    (F : Floats) (tokens : List String) (r : Record F) (counter : String)
    → parse_tokens F tokens ≡ ok r
    → member counter counters ≡ true
    → get counter r ≡ number F (get_val tokens counter)
unfolding parse_tokens
parse_tokens-counters F tokens r c e known =
    let (ts, _, e1) = >>=-ok (from_option index_error (get_elem? tokens 3)) _ e in
    let (time, _, e2) = >>=-ok (float F (strip_right b':' ts)) _ e1 in
    let (m, put, e3) = >>=-ok (put_ends F tokens ends (("time_s", real time) ∷ [])) _ e2 in
    let first = put_ends-keys F tokens (real time) m put in
    let absent = get-not_member F c m (
      ap (member c) first
      ∙ fresh-member F counters ("time_s" ∷ shown_ends tokens) c (fresh-ends tokens) known) in
    ground (arith, known, absent, put_keys-get F tokens counters c m r e3)
