-- ===== src/Rdma/Saved.antt =====
-- The row that scripts/collect-rdma-tput-stats.py saves, against the values that the reports show.
use fast_and_safe_io_memory.Base.{
  ℕ, ◌≤◌, ltb, String, Bool, true, false, List, [], ◌∷◌, ◌≡◌, refl, sym, ap, ◌∙◌, arith, pos,
  if◌then◌else◌, length,
}
use fast_and_safe_io_memory.Python.Exception.{ok, ok-injective, >>=-ok}
use fast_and_safe_io_memory.Python.Floats.{Floats}
use fast_and_safe_io_memory.Python.Statement.{Files}
use fast_and_safe_io_memory.Rdma.{
  Metric, net_tputs, pauses, pause_durs, mem_bws, mlc_tputs, Lists, read_runs, statistics, output,
  main,
}
use fast_and_safe_io_memory.Rdma.Values.{values, read_runs-values, length-values}
use fast_and_safe_io_memory.Rdma.Counts.{}

module _ (F : Floats) where
  open F use {Float, of_int, mean_of, stdev_of}

  statistics-ok :
      (xs : List Float) (s : Float × Float)
      → statistics F xs ≡ ok s
      → (2 ≤ length xs) × (s ≡ (mean_of xs, stdev_of xs))
  unfolding statistics
  statistics-ok [] s e = cc
  statistics-ok (x ∷ []) s e = cc
  statistics-ok (x ∷ y ∷ xs) s e = (omega arith, sym (ok-injective _ s e))

  -- the row of these lists
  abbrev pub row_of : ℕ → Lists F → List Float
  row_of collect_mlc v =
      mean_of (v net_tputs)
      ∷ stdev_of (v net_tputs)
      ∷ mean_of (v pauses)
      ∷ stdev_of (v pauses)
      ∷ mean_of (v pause_durs)
      ∷ stdev_of (v pause_durs)
      ∷ mean_of (v mem_bws)
      ∷ stdev_of (v mem_bws)
      ∷ (if ltb 0 collect_mlc then mean_of (v mlc_tputs) else of_int (pos 0))
      ∷ (if ltb 0 collect_mlc then stdev_of (v mlc_tputs) else of_int (pos 0))
      ∷ []

  mlc_statistics-ok :
      (on : Bool) (xs : List Float) (s : Float × Float)
      → (if on then statistics F xs else ok (of_int (pos 0), of_int (pos 0))) ≡ ok s
      → s ≡ (if on then mean_of xs else of_int (pos 0), if on then stdev_of xs else of_int (pos 0))
  mlc_statistics-ok true xs s e = (statistics-ok xs s e).1
  mlc_statistics-ok false xs s e = sym (ok-injective _ s e)

  abbrev joined : (t p d b c : Float × Float) → List Float
  joined t p d b c = t.0 ∷ t.1 ∷ p.0 ∷ p.1 ∷ d.0 ∷ d.1 ∷ b.0 ∷ b.1 ∷ c.0 ∷ c.1 ∷ []

  joined-eq :
      (t p d b c t' p' d' b' c' : Float × Float)
      → t ≡ t'
      → p ≡ p'
      → d ≡ d'
      → b ≡ b'
      → c ≡ c'
      → joined t p d b c ≡ joined t' p' d' b' c'
  joined-eq t p d b c t' p' d' b' c' et ep ed eb ec = rw (et, ep, ed, eb, ec) refl

  output-ok :
      (collect_mlc : ℕ) (m : Lists F) (row : List Float)
      → output F collect_mlc m ≡ ok row
      → (2 ≤ length (m net_tputs)) × (row ≡ row_of collect_mlc m)
  unfolding output
  output-ok collect_mlc m row e =
      let (t, t_ok, e1) = >>=-ok (statistics F (m net_tputs)) _ e in
      let (p, p_ok, e2) = >>=-ok (statistics F (m pauses)) _ e1 in
      let (d, d_ok, e3) = >>=-ok (statistics F (m pause_durs)) _ e2 in
      let (b, b_ok, e4) = >>=-ok (statistics F (m mem_bws)) _ e3 in
      let (c, c_ok, e5) =
        >>=-ok
          (if ltb 0 collect_mlc
            then statistics F (m mlc_tputs)
            else ok (of_int (pos 0), of_int (pos 0)))
          _ e4 in
      (
        (statistics-ok (m net_tputs) t t_ok).0,
        sym (ok-injective _ row e5)
            ∙ joined-eq t p d b c _ _ _ _ _ (statistics-ok (m net_tputs) t t_ok).1
                (statistics-ok (m pauses) p p_ok).1 (statistics-ok (m pause_durs) d d_ok).1
                (statistics-ok (m mem_bws) b b_ok).1
                (mlc_statistics-ok (ltb 0 collect_mlc) (m mlc_tputs) c c_ok),
      )

-- If the script saves a row, then it was given two runs or more, and the row has the mean and the
-- deviation of the throughputs, of the two numbers of the pause reports, of the memory bandwidths
-- and, if MLC is collected, of the MLC throughputs (else zeros), where each list holds, run by run,
-- the value that the run's report shows, if it passes its test.
pub main-statistics :
    (F : Floats) (files : Files) (exp : String) (num_runs collect_mlc : ℕ) (row : List F.Float)
    → main F files exp num_runs collect_mlc ≡ ok row
    → (2 ≤ num_runs) × (row ≡ row_of F collect_mlc (values F files exp collect_mlc 0 num_runs))
unfolding main
main-statistics F files exp n mlc row e =
    let (m, read, e1) = >>=-ok (read_runs F files exp mlc 0 n (λ _. [])) (output F mlc) e in
    let (two, saved) = output-ok F mlc m row e1 in
    let shown : (k : Metric) → m k ≡ values F files exp mlc 0 n k =
      λ k. read_runs-values F files exp mlc n 0 (λ _. []) m k read in
    (
      omega (arith, two, ap length (shown net_tputs), length-values F files exp mlc n 0 net_tputs),
      saved
          ∙ rw (shown net_tputs, shown pauses, shown pause_durs, shown mem_bws, shown mlc_tputs)
              refl,
    )
