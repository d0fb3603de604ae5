-- ===== src/Retx/Asserted.antt =====
-- What the assertions of utils/print_retx_rate.py ensure, and what they let pass.
use fast_and_safe_io_memory.Base.{
  String, true, List, [], ◌∷◌, ◌≡◌, sym, ap, ◌∙◌, subst, arith, ◌≤◌, ℤ, negsuc, ◌-ℤ◌, length, All,
}
use fast_and_safe_io_memory.Python.Exception.{ok, ok-injective, ◌>>◌, >>=-ok}
use fast_and_safe_io_memory.Retx.{
  Counter, Key, retx, sent, recv, loss_retx, State, start, is_set, asserted, scan, words,
  read_snapshots,
}
use fast_and_safe_io_memory.Retx.Snapshots.{text, history, summary, IsCount, scan-summary}
use fast_and_safe_io_memory.Retx.Report.{difference}

abbrev IsComplete : Counter → Type 0
IsComplete c = (is_set c.pre ≡ true) × (is_set c.post ≡ true)

asserted-IsComplete :
    (s : State)
    → asserted s ≡ ok tt
    → IsComplete (s.at retx) × IsComplete (s.at sent) × IsComplete (s.at recv)
unfolding asserted
asserted-IsComplete s h = ground arith

complete_length : (vs : List ℤ) → IsComplete (summary vs) → 2 ≤ length vs
unfolding summary is_set
complete_length [] h = ground arith
complete_length (v ∷ []) h = ground arith
complete_length (v ∷ u ∷ vs) h = omega arith

-- The three counters whose snapshots are asserted.
pub data IsRequired : Key → Type 0 where
  retx_required : IsRequired retx
  sent_required : IsRequired sent
  recv_required : IsRequired recv

required-IsComplete :
    {k : Key} (s : State) → IsRequired k → asserted s ≡ ok tt → IsComplete (s.at k)
required-IsComplete s retx_required h = (asserted-IsComplete s h).0
required-IsComplete s sent_required h = (asserted-IsComplete s h).1
required-IsComplete s recv_required h = (asserted-IsComplete s h).2

read_snapshots-eq-ok :
    (lines : List String) (s : State)
    → read_snapshots lines ≡ ok s
    → (scan (words lines) start ≡ ok s) × (asserted s ≡ ok tt)
unfolding read_snapshots
read_snapshots-eq-ok lines s h =
    let (t, ht, hs) = >>=-ok (scan (words lines) start) (λ u. asserted u >> ok u) h in
    let (_, ha, hb) = >>=-ok (asserted t) (λ _. ok t) hs in
    let e = ok-injective t s hb in (ht ∙ ap ok e, subst (λ u. asserted u ≡ ok tt) e ha)

-- If the script passes its assertions, and the file shows no value -1 for a counter of the
-- retransmitted, sent or received segments, then the file shows at least two values for it, and the
-- two snapshots are the first and the last of them.
pub read_snapshots-length :
    (k : Key) (lines : List String) (s : State)
    → IsRequired k
    → read_snapshots lines ≡ ok s
    → All IsCount (history k text (words lines))
    → (2 ≤ length (history k text (words lines)))
      × (s.at k ≡ summary (history k text (words lines)))
read_snapshots-length k lines s required h counts =
    let (scanned, passed) = read_snapshots-eq-ok lines s h in
    let e = scan-summary k (words lines) s scanned counts in
    (complete_length _ (subst IsComplete e (required-IsComplete s required passed)), e)

-- The lost retransmissions are not asserted: where the file shows one value of that counter, not
-- -1, and the loop raises nothing, the difference that is reported is -1 minus that value.
pub loss_retx_once :
    (lines : List (List String)) (s : State) (v : ℤ)
    → scan lines start ≡ ok s
    → history loss_retx text lines ≡ v ∷ []
    → IsCount v
    → difference (s.at loss_retx) ≡ negsuc 0 -ℤ v
unfolding difference summary
loss_retx_once lines s v h once count =
    let e = scan-summary loss_retx lines s h (subst (All IsCount) (sym once) (count, tt)) in
    ap difference (e ∙ ap summary once)
