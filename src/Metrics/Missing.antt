-- ===== src/Metrics/Missing.antt =====
-- scripts/report-tput-metrics.py: a run that has eBPF statistics and no throughput report.
use fast_and_safe_io_memory.Base.{
  ℕ, zero, suc, ◌+◌, ◌≤◌, ◌<◌, String, Option, none, some, List, ◌∷◌, ◌≡◌, ◌≢◌, refl, ap, ◌∙◌,
  subst, arith, leb, Bool-cases, inl, inr,
}
use fast_and_safe_io_memory.Python.Exception
use fast_and_safe_io_memory.Python.Exception.{Exception, Result, ok, type_error}
use fast_and_safe_io_memory.Python.Floats.{Floats}
use fast_and_safe_io_memory.Python.Statement.{
  Statement, Flow, Files, next, stop, raise, for, for-next, range_from, ◌>>◌, ◌>>=◌,
}
use fast_and_safe_io_memory.Metrics.{Output, print}
use fast_and_safe_io_memory.Metrics.Read.{run_path, csv_content, last_tput}
use fast_and_safe_io_memory.Metrics.Ebpf.{
  Pandas, with_frame, with_ebpf_stats, with_tput, print_stats, run_stats, get_ebpf_stats,
}

-- the statement does not end a loop
abbrev GoesOn : Statement Output → Type 0
GoesOn m = (out : Output) → (m out).1 ≢ stop

print-GoesOn : (line : String) (k : Statement Output) → GoesOn k → GoesOn (print line >> k)
unfolding ◌>>◌
print-GoesOn line k h out = h _

bind-GoesOn {ℓ} :
    {A : Type ℓ} (r : Result A) (k : A → Statement Output)
    → ((a : A) → GoesOn (k a))
    → GoesOn (r >>= k)
bind-GoesOn (ok a) k h out = h a out
bind-GoesOn (Exception.raise e) k h out = λ same. cc

-- a round of a loop over numbers, where round i raises an exception
round-raises :
    (body : ℕ → Statement Output) (i k n : ℕ)
    → k ≤ i
    → (out : Output) (r : Output × Flow) → body k out ≡ r
    → r.1 ≢ stop
    → (i ≡ k → (e : Exception) × (r.1 ≡ raise e))
    → (k < i → (e : Exception) × ((for (range_from (suc k) n) body r.0).1 ≡ raise e))
    → (e : Exception) × ((for (k ∷ range_from (suc k) n) body out).1 ≡ raise e)
unfolding for
round-raises body i k n from out (out', stop) same go fails later = elim (go refl) [ ]
round-raises body i k n from out (out', raise e) same go fails later = (e, rw (for, same) refl)
round-raises body i k n from out (out', next) same go fails later = elim (Bool-cases (leb i k)) [
  | inl le ↦ let (e, raised) = fails (ground arith) in cc
  | inr lt ↦
      let (e, raised) = later (ground arith) in
      (e, ap (λ r. r.1) (for-next k (range_from (suc k) n) body out same) ∙ raised)
]

for-raises :
    (body : ℕ → Statement Output) (i k n : ℕ)
    → ((j : ℕ) → GoesOn (body j))
    → ((out : Output) → (e : Exception) × ((body i out).1 ≡ raise e))
    → k ≤ i
    → i < k + n
    → (out : Output) → (e : Exception) × ((for (range_from k n) body out).1 ≡ raise e)
for-raises body i k zero go fails from to out = let no : ⊥ = omega arith in elim no [ ]
for-raises body i k (suc n) go fails from to out =
    round-raises body i k n from out (body k out) refl (go k out)
      (λ here. subst (λ j. (e : Exception) × ((body j out).1 ≡ raise e)) here (fails out))
      (λ past. for-raises body i (suc k) n go fails (omega arith) (omega arith) (body k out).0)

module _ (F : Floats) (P : Pandas F) (files : Files) (exp_name : String) where
  print_stats-GoesOn :
      (c : Option P.Frame) (t : Option F.Float) → GoesOn (print_stats F P files exp_name c t)
  unfolding print_stats
  print_stats-GoesOn none t out = λ same. cc
  print_stats-GoesOn (some c) none out = λ same. cc
  print_stats-GoesOn (some c) (some t) out =
      bind-GoesOn (P.to_string c _) print (λ text out' same. cc) out

  with_tput-GoesOn :
      (i : ℕ) (k : Option F.Float → Statement Output)
      → ((t : Option F.Float) → GoesOn (k t))
      → GoesOn (with_tput F P files exp_name i k)
  unfolding with_tput
  with_tput-GoesOn i k h out = from_report (files (run_path exp_name i "iperf.bw.rpt")) refl
    where
      from_report :
          (r : Option (List String))
          → files (run_path exp_name i "iperf.bw.rpt") ≡ r
          → (with_tput F P files exp_name i k out).1 ≢ stop
      from_report none e = rw (with_tput, e) (h none out)
      from_report (some ls) e =
          rw (with_tput, e)
            (bind-GoesOn (last_tput F ls) _ (λ t. print-GoesOn _ _ (h (some t))) out)

  with_frame-GoesOn :
      (c : Option String) (k : Option P.Frame → Statement Output)
      → ((x : Option P.Frame) → GoesOn (k x))
      → GoesOn (with_frame F P files exp_name c k)
  unfolding with_frame
  with_frame-GoesOn none k h = h none
  with_frame-GoesOn (some c) k h = bind-GoesOn (P.read_csv c) _ λ x. h (some x)

  with_ebpf_stats-GoesOn :
      (i : ℕ) (k : Option P.Frame → Statement Output)
      → ((c : Option P.Frame) → GoesOn (k c))
      → GoesOn (with_ebpf_stats F P files exp_name i k)
  unfolding with_ebpf_stats
  with_ebpf_stats-GoesOn i k h out =
      from_file (files (run_path exp_name i "ebpf_guest_stats.csv")) refl
    where
      from_file :
          (r : Option (List String))
          → files (run_path exp_name i "ebpf_guest_stats.csv") ≡ r
          → (with_ebpf_stats F P files exp_name i k out).1 ≢ stop
      from_file none e = rw (with_ebpf_stats, e) (h none out)
      from_file (some ls) e =
          rw (with_ebpf_stats, e)
            (print-GoesOn _ _ (bind-GoesOn (csv_content ls) _ λ c. with_frame-GoesOn c k h) out)

  run_stats-GoesOn : (i : ℕ) → GoesOn (run_stats F P files exp_name i)
  unfolding run_stats
  run_stats-GoesOn i =
      with_ebpf_stats-GoesOn i _ λ c. with_tput-GoesOn i _ λ t. print_stats-GoesOn c t

  run_stats-raises :
      (i : ℕ) (ls : List String) (c : String) (x : P.Frame)
      → files (run_path exp_name i "ebpf_guest_stats.csv") ≡ some ls
      → csv_content ls ≡ ok (some c)
      → P.read_csv c ≡ ok x
      → files (run_path exp_name i "iperf.bw.rpt") ≡ none
      → (out : Output) → (e : Exception) × ((run_stats F P files exp_name i out).1 ≡ raise e)
  unfolding run_stats with_ebpf_stats with_frame with_tput print_stats ◌>>◌
  run_stats-raises i ls c x file content frame missing out =
      (type_error, rw (with_ebpf_stats, file, content, frame, with_tput, missing) refl)

-- Where one of the first 20 runs has eBPF statistics with a section that pandas reads, and no throughput
-- report, get_ebpf_stats ends with an exception, whatever the other runs have and whatever was printed before.
pub get_ebpf_stats-raises :
    (F : Floats) (P : Pandas F) (files : Files) (exp_name : String) (i : ℕ) (ls : List String)
    (c : String) (x : P.Frame)
    → i < 20
    → files (run_path exp_name i "ebpf_guest_stats.csv") ≡ some ls
    → csv_content ls ≡ ok (some c)
    → P.read_csv c ≡ ok x
    → files (run_path exp_name i "iperf.bw.rpt") ≡ none
    → (out : Output) → (e : Exception) × ((get_ebpf_stats F P files exp_name out).1 ≡ raise e)
unfolding get_ebpf_stats
get_ebpf_stats-raises F P files exp_name i ls c x small file content frame missing =
    for-raises (run_stats F P files exp_name) i 0 20 (run_stats-GoesOn F P files exp_name)
      (run_stats-raises F P files exp_name i ls c x file content frame missing) (omega arith)
      (omega arith)
