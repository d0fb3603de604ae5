-- ===== src/Rdma/Values.antt =====
-- The lists of scripts/collect-rdma-tput-stats.py after its loop, against the values of each run.
use fast_and_safe_io_memory.Base.{
  ℕ, zero, suc, ◌+◌, ◌≤◌, ltb, String, Bool, true, false, Option, none, some, List, [], ◌++◌, ◌≡◌,
  sym, ap, ◌∙◌, arith, if◌then◌else◌, append_assoc, append-nil, length, length-append,
}
use fast_and_safe_io_memory.Python.Exception.{
  Result, ok, file_not_found, from_option, ok-injective, >>=-ok, from_option-ok,
}
use fast_and_safe_io_memory.Python.Floats.{Floats}
use fast_and_safe_io_memory.Python.Statement.{Files}
use fast_and_safe_io_memory.Collect.Scripts.{run_file}
use fast_and_safe_io_memory.Rdma.{
  Metric, net_tputs, pauses, pause_durs, mem_bws, mlc_tputs, Lists, read_tput, read_pause,
  read_membw, read_mlc, read_file, read_run, read_runs,
}
use fast_and_safe_io_memory.Rdma.Counts.{
  at_nil, length-pause_of, length-tput_of, length-first_of, first_of, is_membw, is_mlc, tput_of,
  pause_of, at, read_tput-at, read_pause-at, read_membw-at, read_mlc-at,
}

module _ (F : Floats) where
  open F use {Float, of_int, mean_of, stdev_of}

  abbrev of_file : (List String → List Float) → Option (List String) → List Float
  of_file f none = []
  of_file f (some lines) = f lines

  module _ (files : Files) (exp : String) (collect_mlc : ℕ) where
    -- the values of a run
    unfoldable pub run_values : ℕ → Metric → List Float
    run_values i net_tputs = of_file (tput_of F) (files (run_file exp "-RUN-" i "/perf.bw.rpt"))
    run_values i pauses = of_file (pause_of F 0) (files (run_file exp "-RUN-" i "/pause.rpt"))
    run_values i pause_durs = of_file (pause_of F 1) (files (run_file exp "-RUN-" i "/pause.rpt"))
    run_values i mem_bws =
        of_file (first_of F is_membw) (files (run_file exp "-RUN-" i "/membw.rpt"))
    run_values i mlc_tputs =
        if ltb 0 collect_mlc
        then of_file (first_of F is_mlc) (files (run_file exp "-MLCRUN-" i "/mlc.log"))
        else []

    -- the values of `n` runs, from a first one
    unfoldable pub values : ℕ → ℕ → Metric → List Float
    values i zero k = []
    values i (suc n) k = run_values i k ++ values (i + 1) n k

    read_file-ok :
        (path : String) (body : List String → Lists F → Result (Lists F)) (m m' : Lists F)
        → read_file F files exp collect_mlc path body m ≡ ok m'
        → (lines : List String) × (files path ≡ some lines) × (body lines m ≡ ok m')
    unfolding read_file
    read_file-ok path body m m' e =
        let (lines, found, e1) =
          >>=-ok (from_option file_not_found (files path)) (λ lines. body lines m) e in
        (lines, from_option-ok (files path) file_not_found lines found, e1)

    tput_file-at :
        (path : String) (m m' : Lists F) (j : Metric)
        → read_file F files exp collect_mlc path (read_tput F) m ≡ ok m'
        → m' j ≡ at F net_tputs (of_file (tput_of F) (files path)) m j
    tput_file-at path m m' j e =
        let (lines, found, read) = read_file-ok path (read_tput F) m m' e in
        read_tput-at F lines m m' j read
        ∙ ap (λ o. at F net_tputs (of_file (tput_of F) o) m j) (sym found)

    pause_file-at :
        (path : String) (m m' : Lists F) (j : Metric)
        → read_file F files exp collect_mlc path (read_pause F) m ≡ ok m'
        → m' j
          ≡ at F pause_durs
              (of_file (pause_of F 1) (files path))
              (at F pauses (of_file (pause_of F 0) (files path)) m)
              j
    pause_file-at path m m' j e =
        let (lines, found, read) = read_file-ok path (read_pause F) m m' e in
        read_pause-at F lines m m' j read
        ∙ ap
            (λ o.
              at F pause_durs (of_file (pause_of F 1) o) (at F pauses (of_file (pause_of F 0) o) m)
                j)
            (sym found)

    membw_file-at :
        (path : String) (m m' : Lists F) (j : Metric)
        → read_file F files exp collect_mlc path (read_membw F) m ≡ ok m'
        → m' j ≡ at F mem_bws (of_file (first_of F is_membw) (files path)) m j
    membw_file-at path m m' j e =
        let (lines, found, read) = read_file-ok path (read_membw F) m m' e in
        read_membw-at F lines m m' j read
        ∙ ap (λ o. at F mem_bws (of_file (first_of F is_membw) o) m j) (sym found)

    mlc_file-at :
        (path : String) (m m' : Lists F) (j : Metric)
        → read_file F files exp collect_mlc path (read_mlc F) m ≡ ok m'
        → m' j ≡ at F mlc_tputs (of_file (first_of F is_mlc) (files path)) m j
    mlc_file-at path m m' j e =
        let (lines, found, read) = read_file-ok path (read_mlc F) m m' e in
        read_mlc-at F lines m m' j read
        ∙ ap (λ o. at F mlc_tputs (of_file (first_of F is_mlc) o) m j) (sym found)

    mlc_if :
        (on : Bool) (path : String) (m m' : Lists F) (j : Metric)
        → (if on then read_file F files exp collect_mlc path (read_mlc F) m else ok m) ≡ ok m'
        → m' j ≡ at F mlc_tputs (if on then of_file (first_of F is_mlc) (files path) else []) m j
    mlc_if true path m m' j e = mlc_file-at path m m' j e
    mlc_if false path m m' j e = ap (λ f. f j) (sym (ok-injective m m' e)) ∙ at_nil F mlc_tputs j m

    mlc-at :
        (i : ℕ) (m m' : Lists F) (j : Metric)
        → (if ltb 0 collect_mlc
            then read_file F files exp collect_mlc
                (run_file exp "-MLCRUN-" i "/mlc.log")
                (read_mlc F)
                m
            else ok m)
          ≡ ok m'
        → m' j ≡ at F mlc_tputs (run_values i mlc_tputs) m j
    unfolding run_values
    mlc-at i m m' j e = mlc_if (ltb 0 collect_mlc) _ m m' j e

    gathered :
        (i : ℕ) (m m1 m2 m3 m4 : Lists F) (j : Metric)
        → m1 j ≡ at F net_tputs (run_values i net_tputs) m j
        → m2 j ≡ at F pause_durs (run_values i pause_durs) (at F pauses (run_values i pauses) m1) j
        → m3 j ≡ at F mem_bws (run_values i mem_bws) m2 j
        → m4 j ≡ at F mlc_tputs (run_values i mlc_tputs) m3 j
        → m4 j ≡ m j ++ run_values i j
    gathered i m m1 m2 m3 m4 net_tputs a b c d = ground arith
    gathered i m m1 m2 m3 m4 pauses a b c d = ground arith
    gathered i m m1 m2 m3 m4 pause_durs a b c d = ground arith
    gathered i m m1 m2 m3 m4 mem_bws a b c d = ground arith
    gathered i m m1 m2 m3 m4 mlc_tputs a b c d = ground arith

    read_run-values :
        (i : ℕ) (m m' : Lists F) (j : Metric)
        → read_run F files exp collect_mlc i m ≡ ok m'
        → m' j ≡ m j ++ run_values i j
    unfolding read_run run_values
    read_run-values i m m' j e =
        let (m1, tput, e1) =
          >>=-ok
            (read_file F files exp collect_mlc (run_file exp "-RUN-" i "/perf.bw.rpt") (read_tput F)
              m)
            _ e in
        let (m2, pause, e2) =
          >>=-ok
            (read_file F files exp collect_mlc (run_file exp "-RUN-" i "/pause.rpt") (read_pause F)
              m1)
            _ e1 in
        let (m3, membw, e3) =
          >>=-ok
            (read_file F files exp collect_mlc (run_file exp "-RUN-" i "/membw.rpt") (read_membw F)
              m2)
            _ e2 in
        gathered i m m1 m2 m3 m' j (tput_file-at _ m m1 j tput) (pause_file-at _ m1 m2 j pause)
          (membw_file-at _ m2 m3 j membw) (mlc-at i m3 m' j e3)

    pub read_runs-values :
        (n i : ℕ) (m m' : Lists F) (k : Metric)
        → read_runs F files exp collect_mlc i n m ≡ ok m'
        → m' k ≡ m k ++ values i n k
    unfolding read_runs values
    read_runs-values zero i m m' k e =
        ap (λ f. f k) (sym (ok-injective m m' e)) ∙ sym (append-nil (m k))
    read_runs-values (suc n) i m m' k e =
        let (m1, first, e1) =
          >>=-ok (read_run F files exp collect_mlc i m)
            (read_runs F files exp collect_mlc (i + 1) n) e in
        read_runs-values n (i + 1) m1 m' k e1
        ∙ ap (λ xs. xs ++ values (i + 1) n k) (read_run-values i m m1 k first)
        ∙ append_assoc (m k) (run_values i k) (values (i + 1) n k)

    length-of_file :
        (f : List String → List Float) (file : Option (List String))
        → ((lines : List String) → length (f lines) ≤ 1)
        → length (of_file f file) ≤ 1
    length-of_file f none h = omega arith
    length-of_file f (some lines) h = h lines

    length-run_values : (i : ℕ) (k : Metric) → length (run_values i k) ≤ 1
    unfolding run_values
    length-run_values i net_tputs = length-of_file _ _ (length-tput_of F)
    length-run_values i pauses = length-of_file _ _ (length-pause_of F 0)
    length-run_values i pause_durs = length-of_file _ _ (length-pause_of F 1)
    length-run_values i mem_bws = length-of_file _ _ (length-first_of F is_membw)
    length-run_values i mlc_tputs = ground (
      arith,
      length-of_file (first_of F is_mlc) (files (run_file exp "-MLCRUN-" i "/mlc.log"))
          (length-first_of F is_mlc),
    )

    pub length-values : (n i : ℕ) (k : Metric) → length (values i n k) ≤ n
    unfolding values
    length-values zero i k = omega arith
    length-values (suc n) i k = omega (
      arith,
      length-append (run_values i k) (values (i + 1) n k),
      length-run_values i k,
      length-values n (i + 1) k,
    )
