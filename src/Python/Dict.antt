-- ===== src/Python/Dict.antt =====
-- Python's dict in insertion order, over keys with a Boolean test for equality.
use fast_and_safe_io_memory.Base.{
  String, Bool, true, false, Option, none, some, List, [], ◌∷◌, ◌≡◌, refl, ◌↔◌, ◌=ₛ◌, eq_iff, ℤ,
  eq_ℤ, eq_ℤ_iff, if◌then◌else◌, arith,
}

pub record Key {ℓ} (K : Type ℓ) : Type ℓ where
  pub same : K → K → Bool
  pub same_iff : (j k : K) → (same j k ≡ true) ↔ (j ≡ k)

instance abbrev pub text_key : Key String
text_key = record { same = ◌=ₛ◌; same_iff = eq_iff }

instance abbrev pub int_key : Key ℤ
int_key = record { same = eq_ℤ; same_iff = eq_ℤ_iff }

abbrev pub Dict {ℓ κ} : Type ℓ → Type κ → Type (ℓ ⊔ κ)
Dict K V = List (K × V)

module _ {ℓ κ} {K : Type ℓ} {V : Type κ} ⦃key : Key K⦄ where
  -- `d.get(k)`
  unfoldable pub get : K → Dict K V → Option V
  get k [] = none
  get k ((j, v) ∷ d) = if key.same j k then some v else get k d

  -- `d[k] = v`
  unfoldable pub put : K → V → Dict K V → Dict K V
  put k v [] = (k, v) ∷ []
  put k v ((j, w) ∷ d) = if key.same j k then (j, v) ∷ d else (j, w) ∷ put k v d

  -- `k in d`
  abbrev pub has : K → Dict K V → Bool
  has k d = elim (get k d) [ none ↦ false | some _ ↦ true ]

  pub get-put :
      (k j : K) (v : V) (d : Dict K V)
      → get j (put k v d) ≡ (if key.same k j then some v else get j d)
  unfolding get put
  get-put k j v [] = refl
  get-put k j v ((i, w) ∷ d) =
      ground (arith, key.same_iff i k, key.same_iff i j, key.same_iff k j, get-put k j v d)

  pub get-put_self : (k : K) (v : V) (d : Dict K V) → get k (put k v d) ≡ some v
  get-put_self k v d = ground (arith, get-put k k v d, key.same_iff k k)
