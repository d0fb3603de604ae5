-- ===== src/Retx/Links.antt =====
-- The link counters of utils/print_retx_rate.py, against the data lines behind the headers.
use fast_and_safe_io_memory.Base.{
  String, Bool, true, false, List, [], ◌∷◌, ◌++◌, ◌≡◌, refl, sym, ap, ◌∙◌, arith, if◌then◌else◌, ℤ,
  negsuc, last_or, All,
}
use fast_and_safe_io_memory.Python.Exception.{ok, raise, >>=-ok}
use fast_and_safe_io_memory.Retx.{
  unset, Link, observe_link, Key, State, start, int_at, count, count_each, all_keys, rx_data,
  tx_data, step, scan,
}
use fast_and_safe_io_memory.Retx.Snapshots.{
  Mode, text, rx_line, tx_line, next_mode, IsIn, step-IsIn, IsCount,
}

pub data Side : Type 0 where
  receive transmit : Side

unfoldable pub link : Side → State → Link
link receive s = s.rx
link transmit s = s.tx

unfoldable pub is_data : Side → Mode → Bool
is_data receive rx_line = true
is_data transmit tx_line = true
is_data _ _ = false

-- the bytes and packets that one line shows for a side
unfoldable pub line_pair : Side → Mode → List String → List (ℤ × ℤ)
line_pair d m [] = []
line_pair d m (w ∷ ws) =
    if is_data d m
    then elim (int_at (w ∷ ws) 0) [
      | ok b ↦ elim (int_at (w ∷ ws) 1) [ ok p ↦ (b, p) ∷ [] | raise _ ↦ [] ]
      | raise _ ↦ []
    ]
    else []

-- the pairs that a file shows for a side, in order
unfoldable pub link_history : Side → Mode → List (List String) → List (ℤ × ℤ)
link_history d m [] = []
link_history d m (ws ∷ rest) = line_pair d m ws ++ link_history d (next_mode m ws) rest

pub no_link : Link
no_link = record { bytes = unset; pkts = unset }

-- the first pair, and the last of the others
pub link_summary : List (ℤ × ℤ) → Link
link_summary [] = no_link
link_summary ((b, p) ∷ rest) =
    let l = last_or (negsuc 0, negsuc 0) rest in
    record { bytes = record { pre = b; post = l.0 }; pkts = record { pre = p; post = l.1 } }

observe_pairs : List (ℤ × ℤ) → Link → Link
observe_pairs [] l = l
observe_pairs ((b, p) ∷ rest) l = observe_pairs rest (observe_link b p l)

observe_pairs-append :
    (us vs : List (ℤ × ℤ)) (l : Link)
    → observe_pairs (us ++ vs) l ≡ observe_pairs vs (observe_pairs us l)
unfolding observe_pairs
observe_pairs-append [] vs l = refl
observe_pairs-append ((b, p) ∷ us) vs l = observe_pairs-append us vs (observe_link b p l)

abbrev pub IsBytes : ℤ × ℤ → Type 0
IsBytes v = IsCount v.0

observe_pairs_set :
    (vs : List (ℤ × ℤ)) (b p : ℤ) (post : ℤ × ℤ)
    → IsCount b
    → observe_pairs vs (record {
      bytes = record { pre = b; post = post.0 };
      pkts = record { pre = p; post = post.1 };
    })
      ≡ record {
        bytes = record { pre = b; post = (last_or post vs).0 };
        pkts = record { pre = p; post = (last_or post vs).1 };
      }
unfolding observe_pairs observe_link
observe_pairs_set [] b p post h = refl
observe_pairs_set ((c, q) ∷ vs) b p post h = rw h (observe_pairs_set vs b p (c, q) h)

observe_pairs-no_link :
    (vs : List (ℤ × ℤ)) → All IsBytes vs → observe_pairs vs no_link ≡ link_summary vs
unfolding observe_pairs observe_link link_summary no_link
observe_pairs-no_link [] h = refl
observe_pairs-no_link ((b, p) ∷ vs) (hb, _) = observe_pairs_set vs b p (negsuc 0, negsuc 0) hb

count-link :
    (d : Side) (j : Key) (ws : List String) (s s' : State)
    → count j ws s ≡ ok s'
    → link d s' ≡ link d s
unfolding count link
count-link receive j ws s s' h = ground arith
count-link transmit j ws s s' h = ground arith

count_each-link :
    (d : Side) (js : List Key) (ws : List String) (s s' : State)
    → count_each js ws s ≡ ok s'
    → link d s' ≡ link d s
unfolding count_each
count_each-link d [] ws s s' h = unfold link in cc
count_each-link d (j ∷ js) ws s s' h =
    let (m, hm, hs) = >>=-ok (count j ws s) (count_each js ws) h in
    count_each-link d js ws m s' hs ∙ count-link d j ws s m hm

step-link :
    (d : Side) (m : Mode) (ws : List String) (s s' : State)
    → IsIn m s
    → step ws s ≡ ok s'
    → link d s' ≡ observe_pairs (line_pair d m ws) (link d s)
unfolding step line_pair is_data observe_pairs rx_data tx_data link
step-link receive text [] s s' h e = ground arith
step-link receive text (w ∷ ws) s s' h e =
    ground (arith, count_each-link receive all_keys (w ∷ ws) s s')
step-link receive _ [] s s' h e = ground arith
step-link receive _ (w ∷ ws) s s' h e = ground arith
step-link transmit text [] s s' h e = ground arith
step-link transmit text (w ∷ ws) s s' h e =
    ground (arith, count_each-link transmit all_keys (w ∷ ws) s s')
step-link transmit _ [] s s' h e = ground arith
step-link transmit _ (w ∷ ws) s s' h e = ground arith

scan-link :
    (d : Side) (m : Mode) (lines : List (List String)) (s s' : State)
    → IsIn m s
    → scan lines s ≡ ok s'
    → link d s' ≡ observe_pairs (link_history d m lines) (link d s)
unfolding scan link_history
scan-link d m [] s s' h e = unfold link observe_pairs in cc
scan-link d m (ws ∷ rest) s s' h e =
    let (t, ht, hs) = >>=-ok (step ws s) (scan rest) e in
    scan-link d (next_mode m ws) rest t s' (step-IsIn m ws s t h ht) hs
    ∙ ap (observe_pairs (link_history d (next_mode m ws) rest)) (step-link d m ws s t h ht)
    ∙ sym
        (observe_pairs-append (line_pair d m ws) (link_history d (next_mode m ws) rest) (link d s))

start-link : (d : Side) → link d start ≡ no_link
unfolding link no_link
start-link receive = refl
start-link transmit = refl

-- If the loop over a file raises nothing, and no data line of a link's side shows -1 bytes, then
-- the first snapshot of the side holds the bytes and the packets of the first data line behind
-- its headers ("RX:" or "TX:"), and the second those of the last of its other data lines; a
-- snapshot that the file does not show is -1 in both. A blank line behind a header is no data
-- line and ends the wait for one.
pub scan-link_summary :
    (d : Side) (lines : List (List String)) (s : State)
    → scan lines start ≡ ok s
    → All IsBytes (link_history d text lines)
    → link d s ≡ link_summary (link_history d text lines)
scan-link_summary d lines s e h =
    scan-link d text lines start s (refl, refl) e
    ∙ ap (observe_pairs (link_history d text lines)) (start-link d)
    ∙ observe_pairs-no_link (link_history d text lines) h
