-- ===== src/Retx/Snapshots.antt =====
-- The counters of utils/print_retx_rate.py after the loop, against the values that the file shows.
use fast_and_safe_io_memory.Base.{
  String, Bool, true, false, ◌||◌, List, [], ◌∷◌, ◌++◌, ◌≡◌, refl, sym, ap, ◌∙◌, arith, ◌=ₛ◌,
  if◌then◌else◌, ℤ, negsuc, is_minus_one, last_or, All,
}
use fast_and_safe_io_memory.Python.Exception.{ok, raise, >>=-ok}
use fast_and_safe_io_memory.Retx.{
  Counter, unset, observe, Key, same_key, State, start, matches, column, int_at, count, count_each,
  all_keys, rx_data, tx_data, step, scan, retx,
}

-- What the next line is: text, or the data line of a link.
pub data Mode : Type 0 where
  text rx_line tx_line : Mode

unfoldable pub next_mode : Mode → List String → Mode
next_mode text [] = text
next_mode text (w ∷ ws) = if w =ₛ "RX:" then rx_line else if w =ₛ "TX:" then tx_line else text
next_mode rx_line _ = text
next_mode tx_line _ = text

abbrev pub is_rx : Mode → Bool
is_rx rx_line = true
is_rx _ = false

abbrev pub is_tx : Mode → Bool
is_tx tx_line = true
is_tx _ = false

-- the values that one line shows for a counter
unfoldable pub line_values : Key → List String → List ℤ
line_values k ws =
    if matches k ws then elim (int_at ws (column k)) [ ok v ↦ v ∷ [] | raise _ ↦ [] ] else []

unfoldable pub mode_values : Key → Mode → List String → List ℤ
mode_values k text [] = []
mode_values k text (w ∷ ws) = if w =ₛ "RX:" || w =ₛ "TX:" then [] else line_values k (w ∷ ws)
mode_values k _ _ = []

-- the values that a file shows for a counter, in order
unfoldable pub history : Key → Mode → List (List String) → List ℤ
history k m [] = []
history k m (ws ∷ rest) = mode_values k m ws ++ history k (next_mode m ws) rest

-- the first value, and the last of the others
unfoldable pub summary : List ℤ → Counter
summary [] = unset
summary (v ∷ vs) = record { pre = v; post = last_or (negsuc 0) vs }

observe_all : List ℤ → Counter → Counter
observe_all [] c = c
observe_all (v ∷ vs) c = observe_all vs (observe v c)

observe_all-append :
    (us vs : List ℤ) (c : Counter) → observe_all (us ++ vs) c ≡ observe_all vs (observe_all us c)
unfolding observe_all
observe_all-append [] vs c = refl
observe_all-append (u ∷ us) vs c = observe_all-append us vs (observe u c)

abbrev pub IsCount : ℤ → Type 0
IsCount v = is_minus_one v ≡ false

observe_all_set :
    (vs : List ℤ) (v p : ℤ)
    → IsCount v
    → observe_all vs (record { pre = v; post = p }) ≡ record { pre = v; post = last_or p vs }
unfolding observe_all observe
observe_all_set [] v p h = refl
observe_all_set (u ∷ us) v p h = rw h (observe_all_set us v u h)

observe_all-unset : (vs : List ℤ) → All IsCount vs → observe_all vs unset ≡ summary vs
unfolding observe_all observe summary
observe_all-unset [] h = refl
observe_all-unset (v ∷ vs) (hv, hvs) = observe_all_set vs v (negsuc 0) hv

same_key-eq : (j k : Key) → same_key j k ≡ true → j ≡ k
same_key-eq retx k = ground arith
same_key-eq j k = ground arith

count-at :
    (j k : Key) (ws : List String) (s s' : State)
    → count j ws s ≡ ok s'
    → s'.at k ≡ (if same_key k j then observe_all (line_values k ws) (s.at k) else s.at k)
unfolding count observe_all line_values
count-at j k ws s s' h = ground (arith, same_key-eq k j)

see_each : List Key → Key → List String → Counter → Counter
see_each [] k ws c = c
see_each (j ∷ js) k ws c =
    see_each js k ws (if same_key k j then observe_all (line_values k ws) c else c)

count_each-at :
    (js : List Key) (k : Key) (ws : List String) (s s' : State)
    → count_each js ws s ≡ ok s'
    → s'.at k ≡ see_each js k ws (s.at k)
unfolding count_each see_each
count_each-at [] k ws s s' h = cc
count_each-at (j ∷ js) k ws s s' h =
    let (m, hm, hs) = >>=-ok (count j ws s) (count_each js ws) h in
    count_each-at js k ws m s' hs ∙ ap (see_each js k ws) (count-at j k ws s m hm)

-- the loop tests for each counter once
see_each-all_keys :
    (k : Key) (ws : List String) (c : Counter)
    → see_each all_keys k ws c ≡ observe_all (line_values k ws) c
unfolding see_each
see_each-all_keys retx ws c = refl
see_each-all_keys _ ws c = refl

-- the flags of the loop say what the next line is
abbrev pub IsIn : Mode → State → Type 0
IsIn m s = (s.next_is_rx ≡ is_rx m) × (s.next_is_tx ≡ is_tx m)

count-flags :
    (j : Key) (ws : List String) (s s' : State)
    → count j ws s ≡ ok s'
    → (s'.next_is_rx ≡ s.next_is_rx) × (s'.next_is_tx ≡ s.next_is_tx)
unfolding count
count-flags j ws s s' h = ground arith

count_each-flags :
    (js : List Key) (ws : List String) (s s' : State)
    → count_each js ws s ≡ ok s'
    → (s'.next_is_rx ≡ s.next_is_rx) × (s'.next_is_tx ≡ s.next_is_tx)
unfolding count_each
count_each-flags [] ws s s' h = (cc, cc)
count_each-flags (j ∷ js) ws s s' h =
    let (m, hm, hs) = >>=-ok (count j ws s) (count_each js ws) h in
    let (a, b) = count_each-flags js ws m s' hs in
    let (c, d) = count-flags j ws s m hm in (a ∙ c, b ∙ d)

pub step-IsIn :
    (m : Mode) (ws : List String) (s s' : State)
    → IsIn m s
    → step ws s ≡ ok s'
    → IsIn (next_mode m ws) s'
unfolding step next_mode rx_data tx_data
step-IsIn text [] s s' h e = ground arith
step-IsIn text (w ∷ ws) s s' h e = ground (arith, count_each-flags all_keys (w ∷ ws) s s')
step-IsIn rx_line [] s s' h e = ground arith
step-IsIn rx_line (w ∷ ws) s s' h e = ground arith
step-IsIn tx_line [] s s' h e = ground arith
step-IsIn tx_line (w ∷ ws) s s' h e = ground arith

step-at :
    (k : Key) (m : Mode) (ws : List String) (s s' : State)
    → IsIn m s
    → step ws s ≡ ok s'
    → s'.at k ≡ observe_all (mode_values k m ws) (s.at k)
unfolding step mode_values observe_all rx_data tx_data
step-at k text [] s s' h e = ground arith
step-at k text (w ∷ ws) s s' h e =
    ground (arith, count_each-at all_keys k (w ∷ ws) s s', see_each-all_keys k (w ∷ ws) (s.at k))
step-at k rx_line [] s s' h e = ground arith
step-at k rx_line (w ∷ ws) s s' h e = ground arith
step-at k tx_line [] s s' h e = ground arith
step-at k tx_line (w ∷ ws) s s' h e = ground arith

scan-at :
    (k : Key) (m : Mode) (lines : List (List String)) (s s' : State)
    → IsIn m s
    → scan lines s ≡ ok s'
    → s'.at k ≡ observe_all (history k m lines) (s.at k)
unfolding scan history
scan-at k m [] s s' h e = unfold observe_all in cc
scan-at k m (ws ∷ rest) s s' h e =
    let (t, ht, hs) = >>=-ok (step ws s) (scan rest) e in
    scan-at k (next_mode m ws) rest t s' (step-IsIn m ws s t h ht) hs
    ∙ ap (observe_all (history k (next_mode m ws) rest)) (step-at k m ws s t h ht)
    ∙ sym (observe_all-append (mode_values k m ws) (history k (next_mode m ws) rest) (s.at k))

-- If the loop over a file raises nothing, and the file shows no value -1 for a counter, then the
-- counter's first snapshot is the first value that the file shows for it, and its second is the
-- last of the later values; a snapshot that the file does not show is -1. Lines that stand
-- behind an "RX:" or "TX:" header, and the headers, show no value of a counter.
pub scan-summary :
    (k : Key) (lines : List (List String)) (s : State)
    → scan lines start ≡ ok s
    → All IsCount (history k text lines)
    → s.at k ≡ summary (history k text lines)
scan-summary k lines s e h =
    scan-at k text lines start s (refl, refl) e ∙ observe_all-unset (history k text lines) h
