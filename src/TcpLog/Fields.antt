-- ===== src/TcpLog/Fields.antt =====
-- The keys and the values of a record of utils/parse_tcplog.py, against the tokens of its line.
use fast_and_safe_io_memory.Base.{
  String, ◌<>◌, Bool, true, false, not, ◌&&◌, ◌||◌, none, some, List, [], ◌∷◌, ◌++◌, ◌≡◌, refl, sym,
  ap, ◌∙◌, arith, ℤ, ◌=ₛ◌, eq_iff, append_assoc, append-nil, Option-cases, inl, inr, get_elem?,
}
use fast_and_safe_io_memory.Python.Exception.{
  Result, ok, index_error, value_error, from_option, ok-injective, ◌>>=◌, >>=-ok,
}
use fast_and_safe_io_memory.Python.Text.{member, strip_right, strip_brackets, cut_last}
use fast_and_safe_io_memory.Python.Number.{int, int_auto}
use fast_and_safe_io_memory.Python.Floats.{Floats, float}
use fast_and_safe_io_memory.Python.Dict.{put, text_key}
use fast_and_safe_io_memory.TcpLog.{
  Value, real, text, whole, Record, get_val, filled, put_end, put_ends, put_keys, ends, counters,
  parse_tokens, keys,
}

-- the counters that a line names
abbrev pub shown_counters : List String → List String → List String
shown_counters tokens [] = []
shown_counters tokens (k ∷ ks) = elim (get_val tokens k) [
  | none ↦ shown_counters tokens ks
  | some _ ↦ k ∷ shown_counters tokens ks
]

-- the columns of the ends that a line names, up to the first that it does not
abbrev pub shown_ends : List String → List String
shown_ends tokens = elim (filled (get_val tokens "src")) [
  | none ↦ []
  | some _ ↦ elim (filled (get_val tokens "dest")) [
    | none ↦ "src_ip" ∷ "src_port" ∷ []
    | some _ ↦ "src_ip" ∷ "src_port" ∷ "dest_ip" ∷ "dest_port" ∷ []
  ]
]

-- the columns of a line
unfoldable pub columns_of : List String → List String
columns_of tokens = "time_s" ∷ shown_ends tokens ++ shown_counters tokens counters

-- distinct keys, none of which is in a list
abbrev pub fresh : List String → List String → Bool
fresh [] xs = true
fresh (k ∷ ks) xs = not (member k xs) && not (member k ks) && fresh ks xs

member-snoc :
    (j k : String) (xs : List String) → member j (xs ++ k ∷ []) ≡ (member j xs || (k =ₛ j))
unfolding member
member-snoc j k [] = ground arith
member-snoc j k (x ∷ xs) = ground (arith, member-snoc j k xs)

fresh-snoc :
    (ks xs : List String) (k : String)
    → fresh ks xs ≡ true
    → member k ks ≡ false
    → fresh ks (xs ++ k ∷ []) ≡ true
unfolding member
fresh-snoc [] xs k f m = refl
fresh-snoc (j ∷ ks) xs k f m =
    ground (arith, member-snoc j k xs, fresh-snoc ks xs k, eq_iff j k, eq_iff k j)

fresh-cons :
    (k : String) (ks xs : List String)
    → fresh (k ∷ ks) xs ≡ true
    → (member k xs ≡ false) × (member k ks ≡ false) × (fresh ks xs ≡ true)
fresh-cons k ks xs f = ground arith

pub fresh-ends : (tokens : List String) → fresh counters ("time_s" ∷ shown_ends tokens) ≡ true
unfolding member
fresh-ends tokens = elim (Option-cases (filled (get_val tokens "src"))) [
  | inl missing ↦ rw (shown_ends, missing) refl
  | inr (val, found) ↦ elim (Option-cases (filled (get_val tokens "dest"))) [
    | inl missing ↦ rw (shown_ends, found, missing) refl
    | inr (val', found') ↦ rw (shown_ends, found, found') refl
  ]
]

module _ (F : Floats) where
  keys-put :
      (k : String) (v : Value F) (r : Record F)
      → member k (keys F r) ≡ false
      → keys F (put k v r) ≡ keys F r ++ k ∷ []
  unfolding keys put member
  keys-put k v [] m = refl
  keys-put k v ((j, w) ∷ r) m = ground (arith, keys-put k v r)

  put_keys-keys :
      (tokens ks : List String) (r r' : Record F)
      → fresh ks (keys F r) ≡ true
      → put_keys F tokens ks r ≡ ok r'
      → keys F r' ≡ keys F r ++ shown_counters tokens ks
  unfolding put_keys
  put_keys-keys tokens [] r r' f e = rw (append-nil (keys F r), ok-injective r r' e) refl
  put_keys-keys tokens (k ∷ ks) r r' f e = elim (Option-cases (get_val tokens k)) [
    | inl missing ↦
        let same : put_keys F tokens (k ∷ ks) r ≡ put_keys F tokens ks r =
          rw (put_keys, missing) refl in
        rw (shown_counters, missing)
          (put_keys-keys tokens ks r r' (fresh-cons k ks (keys F r) f).2 (sym same ∙ e))
    | inr (val, found) ↦
        let rest : ℤ → Result (Record F) = λ n. put_keys F tokens ks (put k (whole n) r) in
        let same : put_keys F tokens (k ∷ ks) r
            ≡ (from_option value_error (int_auto val) >>= rest) =
          rw (put_keys, found) refl in
        let (n, read, e1) = >>=-ok (from_option value_error (int_auto val)) rest (sym same ∙ e) in
        let (new, apart, others) = fresh-cons k ks (keys F r) f in
        let more = keys-put k (whole n) r new in
        rw (shown_counters, found)
          (put_keys-keys tokens ks (put k (whole n) r) r'
              (ap (fresh ks) more ∙ fresh-snoc ks (keys F r) k others apart) e1
            ∙ ap (λ xs. xs ++ shown_counters tokens ks) more
            ∙ append_assoc (keys F r) (k ∷ []) (shown_counters tokens ks))
  ]

  put_end-keys :
      (end val : String) (r r' : Record F)
      → member (end <> "_ip") (keys F r) ≡ false
      → member (end <> "_port") (keys F r ++ (end <> "_ip") ∷ []) ≡ false
      → put_end F end val r ≡ ok r'
      → keys F r' ≡ (keys F r ++ (end <> "_ip") ∷ []) ++ (end <> "_port") ∷ []
  unfolding put_end
  put_end-keys end val r r' m n e =
      let (parts, cut, e1) =
        >>=-ok (from_option value_error (cut_last b':' (strip_brackets val))) _ e in
      let (port, read, e2) = >>=-ok (from_option value_error (int parts.1)) _ e1 in
      let r1 = put (end <> "_ip") (text parts.0) r in
      let ip = keys-put (end <> "_ip") (text parts.0) r m in
      rw (← ok-injective _ _ e2) (
        keys-put (end <> "_port") (whole port) r1 (ap (member (end <> "_port")) ip ∙ n)
        ∙ ap (λ ks. ks ++ (end <> "_port") ∷ []) ip)

  put_ends-missing :
      (tokens es : List String) (end : String) (r r' : Record F)
      → filled (get_val tokens end) ≡ none
      → put_ends F tokens (end ∷ es) r ≡ ok r'
      → r ≡ r'
  unfolding put_ends
  put_ends-missing tokens es end r r' missing e = ground (arith, missing)

  put_ends-found :
      (tokens es : List String) (end val : String) (r r' : Record F)
      → filled (get_val tokens end) ≡ some val
      → put_ends F tokens (end ∷ es) r ≡ ok r'
      → (m : Record F) × (put_end F end val r ≡ ok m) × (put_ends F tokens es m ≡ ok r')
  unfolding put_ends
  put_ends-found tokens es end val r r' found e =
      let same : put_ends F tokens (end ∷ es) r ≡ (put_end F end val r >>= put_ends F tokens es) =
        rw (put_ends, found) refl in
      >>=-ok (put_end F end val r) (put_ends F tokens es) (sym same ∙ e)

  put_ends-done : (tokens : List String) (r r' : Record F) → put_ends F tokens [] r ≡ ok r' → r ≡ r'
  unfolding put_ends
  put_ends-done tokens r r' e = ok-injective r r' e

  pub put_ends-keys :
      (tokens : List String) (x : Value F) (r : Record F)
      → put_ends F tokens ends (("time_s", x) ∷ []) ≡ ok r
      → keys F r ≡ "time_s" ∷ shown_ends tokens
  put_ends-keys tokens x r e = elim (Option-cases (filled (get_val tokens "src"))) [
    | inl missing ↦
        rw
          (
            shown_ends,
            missing,
            ← put_ends-missing tokens ("dest" ∷ []) "src" (("time_s", x) ∷ []) r missing e,
          )
          (unfold keys in refl)
    | inr (val, found) ↦
        let r0 : Record F = ("time_s", x) ∷ [] in
        let (m, first, e1) = put_ends-found tokens ("dest" ∷ []) "src" val r0 r found e in
        let src =
          put_end-keys "src" val r0 m (unfold keys member in refl) (unfold keys member in refl)
            first in
        elim (Option-cases (filled (get_val tokens "dest"))) [
          | inl missing ↦
              rw
                (
                  shown_ends,
                  found,
                  missing,
                  ← put_ends-missing tokens [] "dest" m r missing e1,
                  src,
                )
                (unfold keys in refl)
          | inr (val', found') ↦
              let (m', second, e2) = put_ends-found tokens [] "dest" val' m r found' e1 in
              let dest =
                put_end-keys "dest" val' m m' (rw src (unfold keys member in refl))
                  (rw src (unfold keys member in refl)) second in
              rw (shown_ends, found, found', ← put_ends-done tokens m' r e2, dest, src)
                (unfold keys in refl)
        ]
  ]

-- If the tokens of a probe line give a record, then its keys are the time, the address and the port
-- of the source and of the destination, up to the first of these ends that the line does not name or
-- leaves empty, and the counters that the line names, in this order: a line without a source is not
-- passed over, but gives a record without addresses.
pub parse_tokens-keys :
    (F : Floats) (tokens : List String) (r : Record F)
    → parse_tokens F tokens ≡ ok r
    → keys F r ≡ columns_of tokens
unfolding parse_tokens columns_of
parse_tokens-keys F tokens r e =
    let (ts, _, e1) = >>=-ok (from_option index_error (get_elem? tokens 3)) _ e in
    let (time, _, e2) = >>=-ok (float F (strip_right b':' ts)) _ e1 in
    let (m, put, e3) = >>=-ok (put_ends F tokens ends (("time_s", real time) ∷ [])) _ e2 in
    let first = put_ends-keys F tokens (real time) m put in
    put_keys-keys F tokens counters m r (ap (fresh counters) first ∙ fresh-ends tokens) e3
    ∙ ap (λ ks. ks ++ shown_counters tokens counters) first
