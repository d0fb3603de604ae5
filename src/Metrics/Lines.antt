-- ===== src/Metrics/Lines.antt =====
-- scripts/report-tput-metrics.py: the lines of the parts of the report.
use fast_and_safe_io_memory.Base.{
  String, ◌<>◌, true, false, List, [], ◌∷◌, ◌++◌, append_assoc, ◌≡◌, refl, if◌then◌else◌,
}
use fast_and_safe_io_memory.Python.Exception.{ok, system_exit}
use fast_and_safe_io_memory.Python.Floats.{Floats}
use fast_and_safe_io_memory.Python.Arrays.{Arrays}
use fast_and_safe_io_memory.Python.Statement.{next, raise, try, ◌>>◌}
use fast_and_safe_io_memory.Metrics.{
  Values, print, wants, per_page, print_iommu, print_memory, print_means, print_stddevs,
}
use fast_and_safe_io_memory.Metrics.Prints.{Prints, >>-Prints, when-Prints}

print-Prints : (line : String) → Prints (print line) (line ∷ []) next
print-Prints line out = refl

module _ (F : Floats) (A : Arrays F) where
  open F use {Float, show}

  -- the five rates per page, and the occupancy
  abbrev pub iommu_lines : Values F A → List String
  iommu_lines v =
      "Per page stats:"
      ∷ ("\tIOTLB Miss: " <> show v.iotlb_miss_page)
      ∷ ("\tIOTLB First Lookup: " <> show v.iotlb_flkp_page)
      ∷ ("\tIOTLB All Lookups: " <> show v.iotlb_alllkp_page)
      ∷ ("\tIOTLB Inv: " <> show v.iotlb_inv_page)
      ∷ ("\tIOMMU Mem Access: " <> show v.iommu_mem_access_page)
      ∷ ("\tPWT Occupancy: " <> show v.pwt)
      ∷ []

  iommu-Prints : (v : Values F A) → Prints (print_iommu F A v) (iommu_lines v) next
  unfolding print_iommu ◌>>◌
  iommu-Prints v out = simp (append_assoc)

  -- the lines of the tables that have a column of the memory
  memory-Prints :
      (t : A.Table) (mean largest : Float)
      → A.field "mem_mean" t ≡ ok mean
      → A.field "mem_max" t ≡ ok largest
      → Prints
          (print_memory F A t)
          (("Mean Memory: " <> show mean) ∷ ("Max Memory: " <> show largest) ∷ [])
          next
  unfolding print_memory try ◌>>◌
  memory-Prints t mean largest h h' out = rw (h, h') (simp (append_assoc))

  -- what is printed of the means
  abbrev pub mean_lines : String → List String → Values F A → Float → Float → List String
  mean_lines exp_name metrics v mean largest =
      (("------- " <> exp_name <> " Run Metrics -------") ∷ [])
      ++ ((if wants metrics "tput" then ("Throughput: " <> show v.tput) ∷ [] else [])
          ++ ((if wants metrics "cpu" then ("CPU Util: " <> show v.cpu) ∷ [] else [])
              ++ ((if wants metrics "drops" then ("Drop rate: " <> show v.drop_rate) ∷ [] else [])
                  ++ ((if wants metrics "acks"
                        then ("Acks per page: " <> show v.acks_page) ∷ []
                        else [])
                      ++ ((("Mean Memory: " <> show mean) ∷ ("Max Memory: " <> show largest) ∷ [])
                          ++ (if wants metrics "iommu" then iommu_lines v else []))))))

  pub means-Prints :
      (exp_name : String) (metrics : List String) (t : A.Table) (v : Values F A)
      (mean largest : Float)
      → A.field "mem_mean" t ≡ ok mean
      → A.field "mem_max" t ≡ ok largest
      → Prints
          (print_means F A exp_name metrics t v)
          (mean_lines exp_name metrics v mean largest)
          next
  unfolding print_means
  means-Prints exp_name metrics t v mean largest h h' = >>-Prints _ _ (print-Prints _) (
      >>-Prints _ _ (when-Prints _ _ (print-Prints _)) (
        >>-Prints _ _ (when-Prints _ _ (print-Prints _)) (
          >>-Prints _ _ (when-Prints _ _ (print-Prints _)) (
            >>-Prints _ _ (when-Prints _ _ (print-Prints _)) (
              >>-Prints _ _ (memory-Prints t mean largest h h')
                (when-Prints _ _ (iommu-Prints v)))))))

  -- what is printed of the deviations
  abbrev pub stddev_lines : String → List String → (d c r acks : Float) → List String
  stddev_lines exp_name metrics d c r acks =
      (("------- " <> exp_name <> " Run Metrics stddev -------") ∷ [])
      ++ ((if wants metrics "tput" then ("Throughput: " <> show d) ∷ [] else [])
          ++ ((if wants metrics "cpu" then ("CPU Util: " <> show c) ∷ [] else [])
              ++ ((if wants metrics "drops" then ("Drop rate: " <> show r) ∷ [] else [])
                  ++ ((if wants metrics "acks" then ("Acks per page: " <> show acks) ∷ [] else [])
                      ++ ("" ∷ [])))))

  pub stddevs-Prints :
      (exp_name : String) (metrics : List String) (t : A.Table) (tput d c r s : Float)
      → A.field "net_tput_stddev" t ≡ ok d
      → A.field "cpu_utils_stddev" t ≡ ok c
      → A.field "retx_rate_stddev" t ≡ ok r
      → A.field "sent_packets_stddev" t ≡ ok s
      → F.is_zero d ≡ false
      → Prints
          (print_stddevs F A exp_name metrics t tput)
          (stddev_lines exp_name metrics d c r (per_page F A s tput))
          next
  unfolding print_stddevs
  stddevs-Prints exp_name metrics t tput d c r s hd hc hr hs nonzero =
      rw (hd, hc, hr, hs, nonzero)
        (>>-Prints _ _ (print-Prints _) (
          >>-Prints _ _ (when-Prints _ _ (print-Prints _)) (
            >>-Prints _ _ (when-Prints _ _ (print-Prints _)) (
              >>-Prints _ _ (when-Prints _ _ (print-Prints _))
                (>>-Prints _ _ (when-Prints _ _ (print-Prints _)) (print-Prints _))))))

  pub no_stddevs-Prints :
      (exp_name : String) (metrics : List String) (t : A.Table) (tput d : Float)
      → A.field "net_tput_stddev" t ≡ ok d
      → F.is_zero d ≡ true
      → Prints (print_stddevs F A exp_name metrics t tput) ("" ∷ []) (raise system_exit)
  unfolding print_stddevs ◌>>◌
  no_stddevs-Prints exp_name metrics t tput d hd zero_d out = rw (hd, zero_d) refl
