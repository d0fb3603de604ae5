-- ===== src/Collect/Outcome.antt =====
-- How the four scripts end: what the MLC switch does, and the row that is saved.
use fast_and_safe_io_memory.Base.{
  ℕ, zero, suc, ◌<◌, String, true, List, [], ◌∷◌, ◌≡◌, ◌≢◌, refl, sym, ap, ◌∙◌, subst, arith, pos,
  ◌⊎◌, inl, inr,
}
use fast_and_safe_io_memory.Python.Exception.{Exception, ok, raise, statistics_error, ok-injective}
use fast_and_safe_io_memory.Python.Floats.{Floats}
use fast_and_safe_io_memory.Python.Statement
use fast_and_safe_io_memory.Python.Statement.{Statement, Flow, next, stop, Files, for, range_from}
use fast_and_safe_io_memory.Collect.{Metrics}
use fast_and_safe_io_memory.Collect.Sane.Runs.{all_runs-IsSane}
use fast_and_safe_io_memory.Collect.Scripts.{Script, baremetal, run_of, all_runs}
use fast_and_safe_io_memory.Collect.Summary.{
  mlc_statistics, output_list, summarize, collect_main, vm_main, tx_main, vm_tx_main, main_of,
}

main_of-summarize :
    (F : Floats) (files : Files) (exp : String) (n mlc : ℕ) (script : Script)
    → main_of F files exp n mlc script
      ≡ summarize F mlc n (all_runs (run_of F files exp mlc script) n)
unfolding main_of run_of collect_main vm_main tx_main vm_tx_main
main_of-summarize F files exp n mlc baremetal = refl
main_of-summarize F files exp n mlc _ = refl

-- the exception that ends a script that runs MLC
pub mlc_exception : Flow → Exception
mlc_exception next = statistics_error
mlc_exception stop = statistics_error
mlc_exception (Statement.raise e) = e

summarize-mlc :
    (F : Floats) (mlc n : ℕ) (m : Metrics F) (f : Flow)
    → 0 < mlc
    → m.mlc_tputs ≡ []
    → summarize F mlc n (m, f) ≡ raise (mlc_exception f)
unfolding summarize mlc_statistics mlc_exception
summarize-mlc F mlc n m next h e = rw e (ground arith)
summarize-mlc F mlc n m stop h e = rw e (ground arith)
summarize-mlc F mlc n m (Statement.raise x) h e = refl

-- Where 0 <= 0 holds of floats: with COLLECT_MLC_TPUT above zero none of the four scripts saves a
-- row, whatever the files hold. Each ends with the exception of its loop, or, if the loop raises
-- none, with the StatisticsError of the mean of no MLC throughputs.
pub main_of-mlc :
    (F : Floats) (files : Files) (exp : String) (num_runs mlc : ℕ) (script : Script)
    → F.le (F.of_int (pos 0)) (F.of_int (pos 0)) ≡ true
    → 0 < mlc
    → main_of F files exp num_runs mlc script
      ≡ raise (mlc_exception (all_runs (run_of F files exp mlc script) num_runs).1)
main_of-mlc F files exp n mlc script le_zero h =
    main_of-summarize F files exp n mlc script
    ∙ summarize-mlc F mlc n _ _ h (all_runs-IsSane F files exp mlc n script le_zero).mlc

abbrev pub names {ℓ} : {A : Type ℓ} → List (String × A) → List String
names [] = []
names ((n, _) ∷ row) = n ∷ names row

unfoldable pub columns : List String
columns =
    "cpu_utils_mean" ∷ "cpu_utils_stddev" ∷ "net_tput_mean" ∷ "net_tput_stddev" ∷ "retx_rate_mean"
    ∷ "retx_rate_stddev" ∷ "mem_bw_mean" ∷ "mem_bw_stddev" ∷ "pcie_wr_tput_mean"
    ∷ "pcie_wr_tput_stddev" ∷ "iotlb_first_lookup_mean" ∷ "iotlb_first_lookup_stddev"
    ∷ "iotlb_all_lookup_mean" ∷ "iotlb_all_lookup_stddev" ∷ "iotlb_miss_mean" ∷ "iotlb_miss_stddev"
    ∷ "iommu_mem_access_mean" ∷ "iommu_mem_access_stddev" ∷ "iotlb_inv_mean" ∷ "iotlb_inv_stddev"
    ∷ "pwt_occupancy_mean" ∷ "pwt_occupancy_stddev" ∷ "mlc_tput_mean" ∷ "mlc_tput_stddev"
    ∷ "sent_packets_mean" ∷ "sent_packets_stddev" ∷ "mem_mean" ∷ "mem_max" ∷ []

names-output_list : (F : Floats) (m : Metrics F) → names (output_list F m) ≡ columns
unfolding output_list columns
names-output_list F m = refl

summarize-ok :
    (F : Floats) (n : ℕ) (m : Metrics F) (f : Flow) {row : List (String × F.Float)}
    → summarize F 0 n (m, f) ≡ ok row
    → ((e : Exception) → f ≢ Statement.raise e) × (names row ≡ columns)
unfolding summarize mlc_statistics
summarize-ok F n m next h = (λ e p. cc, ap names (sym (ok-injective _ _ h)) ∙ names-output_list F m)
summarize-ok F n m stop h = (λ e p. cc, ap names (sym (ok-injective _ _ h)) ∙ names-output_list F m)
summarize-ok F n m (Statement.raise x) h = cc

no_mlc : (mlc : ℕ) → (mlc ≡ 0) ⊎ (0 < mlc)
no_mlc zero = inl refl
no_mlc (suc n) = inr (omega arith)

-- Where 0 <= 0 holds of floats: a script saves a row only if COLLECT_MLC_TPUT is zero and its loop
-- raises nothing, and the row has the 28 columns, in their order.
pub main_of-ok :
    (F : Floats) (files : Files) (exp : String) (num_runs mlc : ℕ) (script : Script)
    → F.le (F.of_int (pos 0)) (F.of_int (pos 0)) ≡ true
    → (row : List (String × F.Float)) → main_of F files exp num_runs mlc script ≡ ok row
    → (mlc ≡ 0)
      × ((e : Exception)
          → (all_runs (run_of F files exp mlc script) num_runs).1 ≢ Statement.raise e)
      × (names row ≡ columns)
main_of-ok F files exp n mlc script le_zero row h = elim (no_mlc mlc) [
  | inl z ↦ (z, (saved z).0, (saved z).1)
  | inr p ↦ cc (main_of-mlc F files exp n mlc script le_zero p)
]
  where
    saved :
        mlc ≡ 0
        → ((e : Exception) → (all_runs (run_of F files exp mlc script) n).1 ≢ Statement.raise e)
          × (names row ≡ columns)
    saved z = summarize-ok F n _ _ (
        subst (λ k. summarize F k n (all_runs (run_of F files exp mlc script) n) ≡ ok row) z
          (sym (main_of-summarize F files exp n mlc script) ∙ h))

summarize-row :
    (F : Floats) (n : ℕ) (m : Metrics F) (f : Flow) {row : List (String × F.Float)}
    → summarize F 0 n (m, f) ≡ ok row
    → output_list F m ≡ row
unfolding summarize mlc_statistics
summarize-row F n m next h = ok-injective _ _ h
summarize-row F n m stop h = ok-injective _ _ h
summarize-row F n m (Statement.raise x) h = cc

-- the saved row is that of the lists
pub main_of-row :
    (F : Floats) (files : Files) (exp : String) (num_runs mlc : ℕ) (script : Script)
    → F.le (F.of_int (pos 0)) (F.of_int (pos 0)) ≡ true
    → (row : List (String × F.Float)) → main_of F files exp num_runs mlc script ≡ ok row
    → output_list F (all_runs (run_of F files exp mlc script) num_runs).0 ≡ row
main_of-row F files exp n mlc script le_zero row h =
    let z = (main_of-ok F files exp n mlc script le_zero row h).0 in
    summarize-row F n _ _ (
      subst (λ k. summarize F k n (all_runs (run_of F files exp mlc script) n) ≡ ok row) z
        (sym (main_of-summarize F files exp n mlc script) ∙ h))
