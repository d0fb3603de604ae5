-- ===== src/Python/Drawing/Charts.antt =====
-- The charts that a list of calls of matplotlib saves, and the statements that save the charts of a
-- plan.
use fast_and_safe_io_memory.Base.{
  String, Bool, true, false, if◌then◌else◌, List, [], ◌∷◌, ◌++◌, ◌≡◌, refl, sym, ap, subst, ◌∙◌,
  append_assoc, append-nil,
}
use fast_and_safe_io_memory.Python.Exception
use fast_and_safe_io_memory.Python.Exception.{Exception, Result, ok}
use fast_and_safe_io_memory.Python.Floats.{Floats}
use fast_and_safe_io_memory.Python.Arrays.{Arrays}
use fast_and_safe_io_memory.Python.Statement.{
  Statement, Flow, next, stop, raise, pass, when, after, for, for-next, ◌>>◌, ◌>>=◌,
}
use fast_and_safe_io_memory.Python.Drawing.{
  Function, call, figure, bar, text_at, savefig, close, Arg, text, array, real, reals, Call, Calls,
}

module _ (F : Floats) where
  open F use {Float}

  -- a figure: the heights of its bars, a list for each call of `bar`, and the texts in it
  pub record Figure : Type 0 where
    pub bars : List (List Float)
    pub labels : List String

  abbrev pub blank : Figure
  blank = record { bars = []; labels = [] }

  -- a saved figure and its path
  abbrev pub Chart : Type 0
  Chart = String × Figure

  abbrev add_bars : List Float → Figure → Figure
  add_bars heights g = record g { bars = g.bars ++ heights ∷ [] }

  abbrev add_label : String → Figure → Figure
  add_label t g = record g { labels = g.labels ++ t ∷ [] }

module _ (F : Floats) (A : Arrays F) where
  -- what the calls made so far have saved, and the current figure
  pub record View : Type 0 where
    pub saved : List (Chart F)
    pub current : Figure F

  abbrev pub only : List (Chart F) → View
  only charts = record { saved = charts; current = blank F }

  unfoldable pub see : Function → List (Arg F A) → View → View
  see figure args v = record v { current = blank F }
  see bar (array x ∷ reals heights ∷ rest) v = record v { current = add_bars F heights v.current }
  see text_at (real x ∷ real y ∷ text t ∷ rest) v = record v { current = add_label F t v.current }
  see savefig (text path ∷ rest) v = record v { saved = v.saved ++ (path, v.current) ∷ [] }
  see close args v = record v { current = blank F }
  see other args v = v

  unfoldable pub view : Calls F A → View → View
  view [] v = v
  view (c ∷ cs) v = view cs (see c.function c.args v)

  pub view-append :
      (cs : Calls F A) (c : Call F A) (v : View)
      → view (cs ++ c ∷ []) v ≡ see c.function c.args (view cs v)
  unfolding view
  view-append [] c v = refl
  view-append (d ∷ cs) c v = view-append cs c (see d.function d.args v)

  -- a plan: the charts to save in order, some of which an exception takes the place of
  abbrev pub Plan : Type 0
  Plan = List (Result (Chart F))

  -- the charts in front of the first exception, and how a script that follows the plan ends
  unfoldable pub outcome : Plan → List (Chart F) × Flow
  outcome [] = ([], next)
  outcome (ok c ∷ p) = let (cs, f) = outcome p in (c ∷ cs, f)
  outcome (Exception.raise e ∷ p) = ([], raise e)

  -- `m` saves the charts of the plan, behind those that are saved already, up to its first exception,
  -- which ends it
  pub record Follows (m : Statement (Calls F A)) (p : Plan) : Type 0 where
    pub charts :
        (calls : Calls F A) (cs : List (Chart F))
        → view calls (only []) ≡ only cs
        → view (m calls).0 (only []) ≡ only (cs ++ (outcome p).0)
    pub flow : (calls : Calls F A) → (m calls).1 ≡ (outcome p).1

  -- what one plan saves and then another
  abbrev both : List (Chart F) → Flow → List (Chart F) × Flow → List (Chart F) × Flow
  both cs next (ds, f) = (cs ++ ds, f)
  both cs stop o = (cs, stop)
  both cs (raise e) o = (cs, raise e)

  both-cons :
      (c : Chart F) (cs : List (Chart F)) (f : Flow) (o : List (Chart F) × Flow)
      → both (c ∷ cs) f o ≡ (c ∷ (both cs f o).0, (both cs f o).1)
  both-cons c cs next o = refl
  both-cons c cs stop o = refl
  both-cons c cs (raise e) o = refl

  outcome-append : (p q : Plan) → outcome (p ++ q) ≡ both (outcome p).0 (outcome p).1 (outcome q)
  unfolding outcome
  outcome-append [] q = refl
  outcome-append (ok c ∷ p) q =
      ap (λ o. (c ∷ o.0, o.1)) (outcome-append p q)
      ∙ sym (both-cons c (outcome p).0 (outcome p).1 (outcome q))
  outcome-append (Exception.raise e ∷ p) q = refl

  after-Follows :
      (k : Statement (Calls F A)) (q : Plan) (f : Flow) (calls : Calls F A) (cs ds : List (Chart F))
      → Follows k q
      → view calls (only []) ≡ only (cs ++ ds)
      → view (after f k calls).0 (only []) ≡ only (cs ++ (both ds f (outcome q)).0)
  after-Follows k q next calls cs ds h e =
      h.charts calls (cs ++ ds) e ∙ ap only (append_assoc cs ds (outcome q).0)
  after-Follows k q stop calls cs ds h e = e
  after-Follows k q (raise x) calls cs ds h e = e

  both-flow :
      (k : Statement (Calls F A)) (q : Plan) (f : Flow) (calls : Calls F A) (ds : List (Chart F))
      → Follows k q
      → (after f k calls).1 ≡ (both ds f (outcome q)).1
  both-flow k q next calls ds h = h.flow calls
  both-flow k q stop calls ds h = refl
  both-flow k q (raise x) calls ds h = refl

  pub Follows-seq :
      (m k : Statement (Calls F A)) (p q : Plan)
      → Follows m p
      → Follows k q
      → Follows (m >> k) (p ++ q)
  unfolding ◌>>◌
  Follows-seq m k p q hm hk = record {
    charts = λ calls cs e.
        rw (hm.flow calls, outcome-append p q)
          (after-Follows k q (outcome p).1 (m calls).0 cs (outcome p).0 hk (hm.charts calls cs e));
    flow = λ calls.
        rw (hm.flow calls, outcome-append p q)
          (both-flow k q (outcome p).1 (m calls).0 (outcome p).0 hk);
  }

  -- the plan of a statement that needs a value
  abbrev pub planned {ℓ} : {B : Type ℓ} → Result B → (B → Plan) → Plan
  planned (ok b) q = q b
  planned (Exception.raise e) q = Exception.raise e ∷ []

  pub Follows-bind {ℓ} :
      {B : Type ℓ} (r : Result B) (k : B → Statement (Calls F A)) (q : B → Plan)
      → ((b : B) → Follows (k b) (q b))
      → Follows (r >>= k) (planned r q)
  unfolding outcome
  Follows-bind (ok b) k q h = h b
  Follows-bind (Exception.raise e) k q h = record {
    charts = λ calls cs v. v ∙ ap only (sym (append-nil cs));
    flow = λ calls. refl;
  }

  pub planned-ok {ℓ} :
      {B : Type ℓ} (r : Result B) (q : B → Plan) (b : B) → r ≡ ok b → planned r q ≡ q b
  planned-ok r q b e = rw e refl

  pub Follows-same : {m : Statement (Calls F A)} {p q : Plan} → p ≡ q → Follows m p → Follows m q
  Follows-same {m = m} e h = subst (λ p. Follows m p) e h

  -- a value that more statements need than the plan of the next chart does
  pub Follows-part {ℓ} :
      {B : Type ℓ} (r : Result B) (k : B → Statement (Calls F A)) (q : B → Plan) (p : Plan)
      → ((b : B) → Follows (k b) (q b ++ p))
      → Follows (r >>= k) (planned r q ++ p)
  unfolding outcome
  Follows-part (ok b) k q p h = h b
  Follows-part (Exception.raise e) k q p h = record {
    charts = λ calls cs v. v ∙ ap only (sym (append-nil cs));
    flow = λ calls. refl;
  }

  abbrev pub with_labels : View → List String → View
  with_labels v ts = record v { current = record { bars = v.current.bars; labels = ts } }

  abbrev pub add_texts : List String → View → View
  add_texts ts v = with_labels v (v.current.labels ++ ts)

  -- `m` runs through and adds these texts to the figure
  pub record Adds (m : Statement (Calls F A)) (ts : List String) : Type 0 where
    pub view_after :
        (calls : Calls F A) (v : View) → view (m calls).0 v ≡ add_texts ts (view calls v)
    pub runs : (calls : Calls F A) → (m calls).1 ≡ next

  pub Adds-none : Adds pass []
  Adds-none = record {
    view_after =
        λ calls v. sym (ap (with_labels (view calls v)) (append-nil (view calls v).current.labels));
    runs = λ calls. refl;
  }

module _ {ℓ} (F : Floats) (A : Arrays F) {B : Type ℓ} where
  abbrev pub concat_map : (B → List String) → List B → List String
  concat_map f [] = []
  concat_map f (b ∷ bs) = f b ++ concat_map f bs

  pub Adds-for :
      (items : List B) (body : B → Statement (Calls F A)) (f : B → List String)
      → ((b : B) → Adds F A (body b) (f b))
      → Adds F A (for items body) (concat_map f items)
  unfolding for
  Adds-for [] body f each = Adds-none F A
  Adds-for (b ∷ bs) body f each =
      let rest = Adds-for bs body f each in
      let first : (calls : Calls F A) → for (b ∷ bs) body calls ≡ for bs body (body b calls).0 =
        λ calls.
          for-next b bs body calls (ap (λ flow. ((body b calls).0, flow)) ((each b).runs calls)) in
      record {
        view_after = λ calls v.
            ap (λ r. view F A r.0 v) (first calls)
            ∙ rest.view_after (body b calls).0 v
            ∙ ap (add_texts F A (concat_map f bs)) ((each b).view_after calls v)
            ∙ ap (with_labels F A (view F A calls v))
                (append_assoc (view F A calls v).current.labels (f b) (concat_map f bs));
        runs = λ calls. ap (λ r. r.1) (first calls) ∙ rest.runs (body b calls).0;
      }

module _ (F : Floats) (A : Arrays F) where
  pub Adds-same :
      {m : Statement (Calls F A)} {ts us : List String} → ts ≡ us → Adds F A m ts → Adds F A m us
  Adds-same {m = m} e h = subst (λ ts. Adds F A m ts) e h

  pub Adds-when :
      (b : Bool) (m : Statement (Calls F A)) (ts : List String)
      → Adds F A m ts
      → Adds F A (when b m) (if b then ts else [])
  Adds-when true m ts h = h
  Adds-when false m ts h = Adds-none F A

  pub Adds-when_quiet :
      (b : Bool) (m : Statement (Calls F A)) → Adds F A m [] → Adds F A (when b m) []
  Adds-when_quiet true m h = h
  Adds-when_quiet false m h = Adds-none F A

  pub Adds-seq :
      (m k : Statement (Calls F A)) (ts us : List String)
      → Adds F A m ts
      → Adds F A k us
      → Adds F A (m >> k) (ts ++ us)
  unfolding ◌>>◌
  Adds-seq m k ts us hm hk = record {
    view_after = λ calls v. rw (hm.runs calls) (
        hk.view_after (m calls).0 v
        ∙ ap (add_texts F A us) (hm.view_after calls v)
        ∙ ap (with_labels F A (view F A calls v))
            (append_assoc (view F A calls v).current.labels ts us));
    runs = λ calls. rw (hm.runs calls) (hk.runs (m calls).0);
  }

  -- one call that shows nothing
  pub Adds-quiet :
      (function : Function) (args : List (Arg F A)) (kwargs : List (String × Arg F A))
      → ((v : View F A) → see F A function args v ≡ v)
      → Adds F A (call F A function args kwargs) []
  unfolding call
  Adds-quiet function args kwargs quiet = record {
    view_after = λ calls v.
        view-append F A calls _ v ∙ quiet (view F A calls v) ∙ (Adds-none F A).view_after calls v;
    runs = λ calls. refl;
  }
