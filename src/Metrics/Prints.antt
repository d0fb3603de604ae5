-- ===== src/Metrics/Prints.antt =====
-- What a sequence of prints leaves in the output.
use fast_and_safe_io_memory.Base.{
  String, Bool, true, false, List, [], ◌∷◌, ◌++◌, append_assoc, append-nil, ◌≡◌, refl, ap, ◌∙◌,
  flat_map, if◌then◌else◌,
}
use fast_and_safe_io_memory.Python.Statement.{Statement, Flow, next, when, for, for-next, ◌>>◌}
use fast_and_safe_io_memory.Metrics.{Output}

-- the statement prints these lines, whatever was printed before, and ends so
abbrev pub Prints : Statement Output → List String → Flow → Type 0
Prints m ls f = (out : Output) → m out ≡ (out ++ ls, f)

pub >>-Prints :
    (m k : Statement Output) {ls ls' : List String} {f : Flow}
    → Prints m ls next
    → Prints k ls' f
    → Prints (m >> k) (ls ++ ls') f
unfolding ◌>>◌
>>-Prints m k {ls} {ls'} hm hk out = rw (hm out, hk (out ++ ls), append_assoc out ls ls') refl

pub when-Prints :
    (b : Bool) (m : Statement Output) {ls : List String}
    → Prints m ls next
    → Prints (when b m) (if b then ls else []) next
when-Prints true m h out = h out
when-Prints false m h out = rw (append-nil out) refl

pub for-Prints {ℓ} :
    {A : Type ℓ} (body : A → Statement Output) (lines_of : A → List String)
    → ((a : A) → Prints (body a) (lines_of a) next)
    → (as' : List A) → Prints (for as' body) (flat_map lines_of as') next
unfolding for flat_map
for-Prints body lines_of each [] out = rw (append-nil out) refl
for-Prints body lines_of each (a ∷ as') out =
    let rest = for-Prints body lines_of each as' (out ++ lines_of a) in
    for-next a as' body out (each a out)
    ∙ rest
    ∙ ap (λ ls. (ls, next)) (append_assoc out (lines_of a) (flat_map lines_of as'))
