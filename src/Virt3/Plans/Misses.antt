-- ===== src/Virt3/Plans/Misses.antt =====
-- plots/plot_3virt.py: the rates per page, a table at a time, and the charts of them.
use fast_and_safe_io_memory.Base.{
  String, ◌<>◌, List, [], ◌∷◌, ◌++◌, map, arith, ◌≡◌, refl, sym, ap, ◌∙◌, append_assoc, append-nil,
  inl, inr,
}
use fast_and_safe_io_memory.Python.Exception
use fast_and_safe_io_memory.Python.Exception.{Exception, Result, ok, traverse, ◌>>=◌, Result-cases}
use fast_and_safe_io_memory.Python.Floats.{Floats, nat}
use fast_and_safe_io_memory.Python.Arrays.{Arrays}
use fast_and_safe_io_memory.Python.Statement.{◌>>◌}
use fast_and_safe_io_memory.Python.Drawing.{call, plain}
use fast_and_safe_io_memory.Python.Drawing.Charts.{
  Chart, Plan, only, see, view-append, outcome, planned, Follows,
}
use fast_and_safe_io_memory.Virt3.{Pages, read_pages, get_misses_per_page, misses_per_page}
use fast_and_safe_io_memory.Virt3.Draw.{plot_misses}

module _ (F : Floats) (A : Arrays F) where
  open F use {Float, div}
  open A use {Table, field}

  -- the five rates of one table
  pub record Rates : Type 0 where
    pub iotlb : Float
    pub l1 : Float
    pub l2 : Float
    pub l3 : Float
    pub acks : Float

  unfoldable pub rates_of : Table → Result Rates
  rates_of t = do
    tp ← field "net_tput_mean" t
    iotlb ← field "iotlb_misses_mean" t
    l1 ← field "l1_misses_mean" t
    l2 ← field "l2_misses_mean" t
    l3 ← field "l3_misses_mean" t
    sent ← field "sent_packets_mean" t
    ok record {
      iotlb = misses_per_page F A iotlb tp;
      l1 = misses_per_page F A l1 tp;
      l2 = misses_per_page F A l2 tp;
      l3 = misses_per_page F A l3 tp;
      acks = misses_per_page F A (div sent (nat F 20)) tp;
    }

  -- the rates behind those that were there
  pages_after : Pages F A → List Rates → Pages F A
  pages_after p rs = record {
    iotlb_miss_page = p.iotlb_miss_page ++ map (λ r. r.iotlb) rs;
    l1_miss_page = p.l1_miss_page ++ map (λ r. r.l1) rs;
    l2_miss_page = p.l2_miss_page ++ map (λ r. r.l2) rs;
    l3_miss_page = p.l3_miss_page ++ map (λ r. r.l3) rs;
    acks_page = p.acks_page ++ map (λ r. r.acks) rs;
  }

  with_rates : Pages F A → Rates → Pages F A
  with_rates p r = record {
    iotlb_miss_page = p.iotlb_miss_page ++ r.iotlb ∷ [];
    l1_miss_page = p.l1_miss_page ++ r.l1 ∷ [];
    l2_miss_page = p.l2_miss_page ++ r.l2 ∷ [];
    l3_miss_page = p.l3_miss_page ++ r.l3 ∷ [];
    acks_page = p.acks_page ++ r.acks ∷ [];
  }

  read_pages-cons :
      (t : Table) (ts : List Table) (p : Pages F A)
      → read_pages F A (t ∷ ts) p ≡ (rates_of t >>= λ r. read_pages F A ts (with_rates p r))
  unfolding read_pages rates_of with_rates
  read_pages-cons t ts p = ground arith

  pages_after-cons :
      (p : Pages F A) (r : Rates) (rs : List Rates)
      → pages_after (with_rates p r) rs ≡ pages_after p (r ∷ rs)
  unfolding pages_after with_rates
  pages_after-cons p r rs = simp append_assoc

  then-cons :
      (p : Pages F A) (r : Rates) (read : Result (List Rates))
      → (read >>= λ rs. ok (pages_after (with_rates p r) rs))
        ≡ ((read >>= λ rs. ok (r ∷ rs)) >>= λ rs. ok (pages_after p rs))
  then-cons p r (Exception.raise e) = refl
  then-cons p r (ok rs) = ap ok (pages_after-cons p r rs)

  read_pages-rates :
      (ts : List Table) (p : Pages F A)
      → read_pages F A ts p ≡ (traverse rates_of ts >>= λ rs. ok (pages_after p rs))
  unfolding read_pages traverse pages_after
  read_pages-rates [] p = simp append-nil
  read_pages-rates (t ∷ ts) p = elim (Result-cases (rates_of t)) [
    | inl (x, e) ↦ read_pages-cons t ts p ∙ rw e refl
    | inr (r, e) ↦
        read_pages-cons t ts p
        ∙ rw e (read_pages-rates ts (with_rates p r) ∙ then-cons p r (traverse rates_of ts))
  ]

  misses_charts : String → List Rates → Plan F A
  misses_charts title rs =
      ok (title <> "IOTLB-miss.png", record { bars = map (λ r. r.iotlb) rs ∷ []; labels = [] })
      ∷ ok (title <> "Acks.png", record { bars = map (λ r. r.acks) rs ∷ []; labels = [] })
      ∷ ok (
        title <> "L1-L2-L3-miss.png",
        record {
          bars = map (λ r. r.l1) rs ∷ map (λ r. r.l2) rs ∷ map (λ r. r.l3) rs ∷ [];
          labels = [];
        },
      )
      ∷ []

  -- the three charts of the rates, or the exception of the first table without a rate
  unfoldable pub misses_plan : String → List Table → Plan F A
  unfolding misses_charts
  misses_plan title ts = planned F A (traverse rates_of ts) (misses_charts title)

  behind :
      (cs : List (Chart F)) (a b c : Chart F)
      → cs ++ a ∷ [] ++ b ∷ [] ++ c ∷ [] ≡ cs ++ a ∷ b ∷ c ∷ []
  behind cs a b c = simp append_assoc

module _ (F : Floats) (A : Arrays F) where
  open A use {Table}

  misses-raise :
      (acks : String) (ts : List Table) (labels : List String) (title xlabel : String)
      (x : Exception)
      → traverse (rates_of F A) ts ≡ Exception.raise x
      → Follows F A (plot_misses F A acks ts labels title xlabel) (Exception.raise x ∷ [])
  unfolding plot_misses get_misses_per_page outcome
  misses-raise acks ts labels title xlabel x raised = record {
    charts = λ calls cs e.
        rw (read_pages-rates F A ts _, raised) (e ∙ ap (only F A) (sym (append-nil cs)));
    flow = λ calls. rw (read_pages-rates F A ts _, raised) refl;
  }

  misses-ok :
      (acks : String) (ts : List Table) (labels : List String) (title xlabel : String)
      (rs : List (Rates F A))
      → traverse (rates_of F A) ts ≡ ok rs
      → Follows F A (plot_misses F A acks ts labels title xlabel) (misses_charts F A title rs)
  unfolding plot_misses get_misses_per_page outcome plain call ◌>>◌ pages_after see misses_charts
  misses-ok acks ts labels title xlabel rs read = record {
    charts = λ calls cs e.
        rw (read_pages-rates F A ts _, read)
          (simp (view-append F A, e) (ap (only F A) (behind F A cs _ _ _)));
    flow = λ calls. rw (read_pages-rates F A ts _, read) refl;
  }

  pub misses-Follows :
      (acks : String) (ts : List Table) (labels : List String) (title xlabel : String)
      → Follows F A (plot_misses F A acks ts labels title xlabel) (misses_plan F A title ts)
  unfolding misses_plan
  misses-Follows acks ts labels title xlabel = elim (Result-cases (traverse (rates_of F A) ts)) [
    | inl (x, e) ↦ rw e (misses-raise acks ts labels title xlabel x e)
    | inr (rs, e) ↦ rw e (misses-ok acks ts labels title xlabel rs e)
  ]
